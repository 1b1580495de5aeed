-- ===== src/Cast/Thread/Commands/Loading.antt =====
-- src/cast.rs: the loads that a seek and a new source of the stream ask for.
use unicast.Base.{
  ℕ, ◌==◌, Bool, true, false, Option, none, some, List, In, [], ◌∷◌, ◌++◌, Text, codes, ◌≡◌, refl,
  sym, subst, ◌⊎◌, inl, inr, arith, Platform,
}
use unicast.Daemon.State.{CastCommand}
use unicast.Daemon.Poll.{Entry, media_seconds, cast_times}
use unicast.Cast.Load.{
  MediaResponse, status, Result, done, failed, Replies, context, attempt, load_media, load_reply,
  ◌>>◌,
}
use unicast.Cast.Load.Answers.{FindsMine, Playing, load_reply-Playing}
use unicast.Cast.Thread.{
  Thread, Order, Sent, send, update, guarded, after_load, first_media_session,
}
use unicast.Cast.Thread.Commands.{
  obey_command, seek_cast, seek_start, restream_at, load_at, reload_file, set_source,
  publish_status, entry_session,
}

-- One of the messages that the receiver sent is a status which answers the request or shows the
-- content playing, and whose first entry names the media session.
pub record Answered (F : Type 0) (sent : List (MediaResponse F)) (request_id : ℕ)
    (content_id : Text) (current adopted : ℕ) : Type 0 where
  pub id : ℕ
  pub entries : List (Entry F)
  pub received : In (status id entries) sent
  pub ours : (id ≡ request_id) ⊎ Playing content_id entries
  pub names : adopted ≡ first_media_session entries current

module _ (platform : Platform) where
  open platform use {F64, zero_seconds, add, show_ms}

  -- What is adopted of the result of a load.
  after_load_adopts :
      (sent : List (MediaResponse F64)) (replies : Replies F64) (content_id : Text) (position : F64)
      (t : Thread F64)
      → FindsMine sent replies
      → (r : Result (List (Entry F64)))
      → replies.find_status (load_reply replies.request_id content_id) ≡ r
      → let n = (after_load position r t).media_session_id in
        (n ≡ t.media_session_id)
        ⊎ Answered F64 sent replies.request_id content_id t.media_session_id n
  unfolding after_load
  after_load_adopts sent replies content_id position t finds (failed m) e = inl refl
  after_load_adopts sent replies content_id position t finds (done entries) e =
      let (message, received, found) = finds (load_reply replies.request_id content_id) entries e in
      let (id, is_status, ours) =
        load_reply-Playing replies.request_id content_id message entries found in
      inr (record {
        id = id;
        entries = entries;
        received = subst (λ m. In m sent) is_status received;
        ours = ours;
        names = refl;
      })

  sent_adopts :
      (sent : List (MediaResponse F64)) (replies : Replies F64) (content_id front : Text)
      (position : F64) (t : Thread F64) (send_error : Option Text)
      → FindsMine sent replies
      → let n =
          (after_load position
            (context front (attempt send_error)
              >> replies.find_status (load_reply replies.request_id content_id))
            t).media_session_id in
        (n ≡ t.media_session_id)
        ⊎ Answered F64 sent replies.request_id content_id t.media_session_id n
  unfolding after_load
  sent_adopts sent replies content_id front position t (some m) finds = inl refl
  sent_adopts sent replies content_id front position t none finds =
      after_load_adopts sent replies content_id position t finds _ refl

  -- Where the receiver is given another URL of a stream that it reads itself, the thread keeps its
  -- media session, or adopts the first one of a status that the receiver sent and which answers this
  -- very request or lists an entry that is not idle and holds that URL: never that of an idle status
  -- of another request. What `receive_find_map` returns is taken to be what its test found in one of
  -- the messages that the receiver sent.
  pub reload_adopts :
      (sent : List (MediaResponse F64)) (order : Order F64) (url : Text) (exact_seek : Bool)
      (position : F64) (t : Thread F64)
      → FindsMine sent order.replies
      → let n =
          (obey_command platform
            (CastCommand.reload url false exact_seek position)
            order
            t).media_session_id in
        (n ≡ t.media_session_id)
        ⊎ Answered F64 sent order.replies.request_id url t.media_session_id n
  unfolding obey_command reload_file load_at load_media set_source send
  reload_adopts sent order url exact_seek position t finds =
      let source = set_source platform url false exact_seek t in
      let (request, loaded) =
        load_media platform order.replies t.app_session url t.title source.options position
          zero_seconds in
      sent_adopts sent order.replies url (codes "could not send the load request: ") position
        (send (Sent.json request) (record source { position_offset = zero_seconds }))
        order.replies.send_error finds

  after_load-failed :
      (front m : Text) (position : F64) (t : Thread F64) (sent : Option Text)
      (r : Result (List (Entry F64)))
      → r ≡ failed m
      → after_load position (context front (attempt sent) >> r) t ≡ t
  unfolding after_load
  after_load-failed front m position t (some e) r h = refl
  after_load-failed front m position t none r h = simp h refl

  -- A stream that ffmpeg writes, which the receiver did not load anew.
  not_restreamed : Order F64 → F64 → Thread F64 → Thread F64
  unfolding send load_media
  not_restreamed order start t =
      let content_id = t.content_url ++ codes "?start=" ++ show_ms start in
      send
        (Sent.json
          (load_media platform order.replies t.app_session content_id t.title t.options zero_seconds
            start).0)
        (record t { position_offset = start })

  seek_cast-not_restreamed :
      (order : Order F64) (position : F64) (t : Thread F64)
      → t.options.transcode ≡ true
      → ((f : _) → (m : Text) × (order.replies.find_status f ≡ failed m))
      → seek_cast platform order position t
        ≡ not_restreamed order (seek_start platform order t.options position) t
  unfolding seek_cast restream_at load_at load_media not_restreamed
  seek_cast-not_restreamed order position t transcoded refuses =
      let start = seek_start platform order t.options position in
      simp transcoded (
        after_load-failed (codes "could not send the load request: ") _ start
          (not_restreamed order start t) order.replies.send_error _ (refuses _).1)

  -- The thread has left the session and its media session alone, but adds `start` to the time that
  -- the next status of the media session gives.
  pub Shifted : Thread F64 → Entry F64 → F64 → F64 → Thread F64 → Type 0
  Shifted t entry time start u =
      (u.session ≡ t.session)
      × (u.media_session_id ≡ t.media_session_id)
      × ((publish_status platform u.media_session_id (entry ∷ []) u).session.position
          ≡ add (media_seconds platform time) start)

  -- A seek in a stream that ffmpeg writes, where the load is refused, leaves the session and its
  -- media session alone, and so does not end the session with an error; but the next status of the
  -- stream that still plays is published with the start of the refused stream added to its time.
  pub seek_fails :
      (order : Order F64) (position : F64) (t : Thread F64) (entry : Entry F64) (time : F64)
      → t.options.transcode ≡ true
      → ((f : _) → (m : Text) × (order.replies.find_status f ≡ failed m))
      → t.session.session_id ≡ t.session_id
      → entry.current_time ≡ some time
      → Shifted t entry time
          (seek_start platform order t.options position)
          (seek_cast platform order position t)
  unfolding Shifted publish_status update guarded entry_session cast_times not_restreamed send
  seek_fails order position t entry time transcoded refuses own timed =
      let start = seek_start platform order t.options position in
      let mine : (t.session.session_id == t.session_id) ≡ true = ground arith in
      subst (Shifted t entry time start)
        (sym (seek_cast-not_restreamed order position t transcoded refuses))
        (refl, refl, simp (mine, timed) refl)
