-- ===== src/Cast/Thread/Commands/Obeying.antt =====
-- src/cast.rs: what the commands and the statuses leave as they were.
use unicast.Base.{
  ℕ, ◌==◌, Bool, true, false, ◌&&◌, Option, none, some, List, [], ◌∷◌, Text, ◌≡◌, refl, arith,
  Platform,
}
use unicast.Daemon.State.{CastCommand}
use unicast.Daemon.Poll.{Entry, cast_times}
use unicast.Cast.Load.{Result, done, failed, load_media, edit_tracks}
use unicast.Cast.Thread.{
  Thread, Order, Volume, after_load, buffering_at, with_subtitle, with_state, after_edit,
  accepted_state, paused_of, playing_of,
}
use unicast.Cast.Thread.Commands.{
  publish_volume, publish_answer, publish_status, seek_cast, obey_all, obey_command, volume_of,
  entry_session, load_at, restream_at, seek_in, sought, seek_start, set_source, set_active_track,
  switch_track, in_media, change_volume, reload_file,
}
use unicast.Cast.Thread.Quiet.{
  Quiet, Quiet-refl, Quiet-untouched, Quiet-trans, Quiet-if, Quiet-weaken, send-Quiet, update-Quiet,
  guarded-profile, guarded_foreign,
}

-- The commands that load nothing.
unfoldable pub keeps_media : {F : Type 0} → CastCommand F → Bool
keeps_media (CastCommand.seek _) = false
keeps_media (CastCommand.reload _ _ _ _) = false
keeps_media _ = true

unfoldable pub all_keep : {F : Type 0} → List (Order F) → Bool
unfolding keeps_media
all_keep [] = true
all_keep (order ∷ orders) = keeps_media order.command && all_keep orders

module _ (platform : Platform) where
  open platform use {F64, zero_seconds}

  pub publish_volume-Quiet :
      (m : Bool) (volume : Volume F64) (t : Thread F64)
      → Quiet m t (publish_volume platform volume t)
  unfolding publish_volume volume_of
  publish_volume-Quiet m volume t = update-Quiet m (volume_of platform volume) t λ s. refl

  pub publish_answer-Quiet :
      (m : Bool) (answer : Option (Volume F64)) (t : Thread F64)
      → Quiet m t (publish_answer platform answer t)
  unfolding publish_answer
  publish_answer-Quiet m none t = Quiet-refl m t
  publish_answer-Quiet m (some volume) t = publish_volume-Quiet m volume t

  pub publish_status-Quiet :
      (m : Bool) (media_session_id : ℕ) (entries : List (Entry F64)) (t : Thread F64)
      → Quiet m t (publish_status platform media_session_id entries t)
  unfolding publish_status entry_session cast_times
  publish_status-Quiet m media_session_id [] t = Quiet-refl m t
  publish_status-Quiet m media_session_id (entry ∷ entries) t =
      update-Quiet m (entry_session platform entry media_session_id t.position_offset) t λ s. refl

  after_load-Quiet :
      (position : F64) (r : Result (List (Entry F64))) (t : Thread F64)
      → Quiet false t (after_load position r t)
  unfolding after_load buffering_at
  after_load-Quiet position (failed m) t = Quiet-refl false t
  after_load-Quiet position (done entries) t = record {
    within = record {
      same_id = refl;
      same_profile = guarded-profile t.session_id (buffering_at position) t.session λ s. refl;
      foreign = guarded_foreign t.session_id (buffering_at position) t.session;
    };
    same_events = refl;
    same_stops = refl;
    same_ending = refl;
    same_errors = refl;
    same_media = λ h. absurd (ground arith);
  }

  load_at-Quiet :
      (order : Order F64) (content_id : Text) (current_time track_start position : F64)
      (t : Thread F64)
      → Quiet false t (load_at platform order content_id current_time track_start position t)
  unfolding load_at load_media
  load_at-Quiet order content_id current_time track_start position t =
      Quiet-trans (send-Quiet false _ t refl refl) (after_load-Quiet position _ _)

  reset_offset-Quiet :
      (m : Bool) (offset : F64) (t : Thread F64) → Quiet m t (record t { position_offset = offset })
  reset_offset-Quiet m offset t = Quiet-untouched refl refl refl refl refl refl

  seek_cast-Quiet :
      (order : Order F64) (position : F64) (t : Thread F64)
      → Quiet false t (seek_cast platform order position t)
  unfolding seek_cast restream_at seek_in sought seek_start
  seek_cast-Quiet order position t =
      Quiet-if t.options.transcode
        (Quiet-trans (reset_offset-Quiet false (seek_start platform order t.options position) t)
          (load_at-Quiet order _ _ _ _ _))
        (Quiet-if order.accepted
          (Quiet-trans (send-Quiet false _ t refl refl)
            (update-Quiet false (sought platform position) _ λ s. refl))
          (send-Quiet false _ t refl refl))

  -- A new source of the stream is another field of the thread.
  set_source-Quiet :
      (m : Bool) (url : Text) (transcode exact_seek : Bool) (t : Thread F64)
      → Quiet m t (set_source platform url transcode exact_seek t)
  unfolding set_source
  set_source-Quiet m url transcode exact_seek t = Quiet-untouched refl refl refl refl refl refl

  set_active_track-Quiet :
      (m : Bool) (track : Option ℕ) (t : Thread F64) → Quiet m t (set_active_track platform track t)
  unfolding set_active_track
  set_active_track-Quiet m track t = Quiet-untouched refl refl refl refl refl refl

  after_edit-Quiet :
      (track : Option ℕ) (r : Result (Unit {0})) (t : Thread F64)
      → Quiet true t (after_edit track r t)
  unfolding after_edit with_subtitle
  after_edit-Quiet track (failed m) t = Quiet-refl true t
  after_edit-Quiet track (done _) t = update-Quiet true (with_subtitle track) t λ s. refl

  switch_track-Quiet :
      (order : Order F64) (track : Option ℕ) (t : Thread F64)
      → Quiet true t (switch_track platform order track t)
  unfolding switch_track edit_tracks
  switch_track-Quiet order track t =
      Quiet-trans (send-Quiet true _ t refl refl) (after_edit-Quiet track _ _)

  obey_command-Quiet :
      (command : CastCommand F64) (order : Order F64) (t : Thread F64)
      → Quiet (keeps_media command) t (obey_command platform command order t)
  unfolding obey_command keeps_media in_media accepted_state with_state change_volume reload_file
  obey_command-Quiet CastCommand.pause order t =
      Quiet-if (t.media_session_id == 0) (Quiet-refl true t) (
        Quiet-if order.accepted
          (Quiet-trans (send-Quiet true _ t refl refl)
            (update-Quiet true (with_state paused_of) _ λ s. refl))
          (send-Quiet true _ t refl refl))
  obey_command-Quiet CastCommand.resume order t =
      Quiet-if (t.media_session_id == 0) (Quiet-refl true t) (
        Quiet-if order.accepted
          (Quiet-trans (send-Quiet true _ t refl refl)
            (update-Quiet true (with_state playing_of) _ λ s. refl))
          (send-Quiet true _ t refl refl))
  obey_command-Quiet CastCommand.shutdown order t = Quiet-untouched refl refl refl refl refl refl
  obey_command-Quiet (CastCommand.seek position) order t =
      Quiet-if (t.media_session_id == 0) (Quiet-refl false t) (seek_cast-Quiet order position t)
  obey_command-Quiet (CastCommand.set_subtitle track) order t =
      Quiet-trans (set_active_track-Quiet true track t)
        (Quiet-if (t.media_session_id == 0) (Quiet-refl true _) (switch_track-Quiet order track _))
  obey_command-Quiet (CastCommand.set_volume level) order t =
      Quiet-trans (send-Quiet true _ t refl refl) (publish_answer-Quiet true order.volume _)
  obey_command-Quiet (CastCommand.set_mute muted) order t =
      Quiet-trans (send-Quiet true _ t refl refl) (publish_answer-Quiet true order.volume _)
  obey_command-Quiet (CastCommand.reload url transcode exact_seek position) order t =
      Quiet-if transcode
        (Quiet-trans (set_source-Quiet false url transcode exact_seek t)
          (seek_cast-Quiet order position _))
        (Quiet-trans (set_source-Quiet false url transcode exact_seek t)
          (Quiet-trans (reset_offset-Quiet false zero_seconds _) (load_at-Quiet order _ _ _ _ _)))

  pub obey_all-Quiet :
      (orders : List (Order F64)) (t : Thread F64)
      → Quiet (all_keep orders) t (obey_all platform orders t)
  unfolding obey_all all_keep
  obey_all-Quiet [] t = Quiet-refl true t
  obey_all-Quiet (order ∷ orders) t =
      let m = keeps_media order.command in
      let n = all_keep orders in
      Quiet-trans
        (Quiet-weaken (λ (h : (m && n) ≡ true). ground arith)
          (obey_command-Quiet order.command order t))
        (Quiet-weaken (λ (h : (m && n) ≡ true). ground arith) (obey_all-Quiet orders _))
