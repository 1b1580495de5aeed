-- ===== src/Cast/Thread/Commands.antt =====
-- src/cast.rs: `publish_volume`, `publish_status`, `seek_cast`, and the commands that the thread
-- obeys.
pub mod Obeying
pub mod Loading
use unicast.Base.{
  ℕ, ◌==◌, Bool, true, false, ◌&&◌, Option, none, some, List, [], ◌∷◌, ◌++◌, Text, codes, min,
  if◌then◌else◌, Platform,
}
use unicast.Daemon.State.{Session, SessionState, CastCommand}
use unicast.Daemon.Poll.{Entry, cast_verdict, cast_times}
use unicast.Cast.Load.{CastOptions, Result, load_media, edit_tracks}
use unicast.Cast.Thread.{
  Thread, Order, Volume, Sent, send, update, guarded, after_load, after_edit, accepted_state,
  paused_of, playing_of,
}

module _ (platform : Platform) where
  open platform use {F64, zero_seconds, hundredfold, percent, show_ms, to_f32}

  volume_of : Volume F64 → Session F64 → Session F64
  volume_of volume session = record session {
    volume_supported = true;
    volume = elim volume.level [
      | none ↦ session.volume
      | some level ↦ some (percent (hundredfold level))
    ];
    muted = elim volume.muted [ none ↦ session.muted | some muted ↦ muted ];
  }

  unfoldable pub publish_volume : Volume F64 → Thread F64 → Thread F64
  unfolding update volume_of
  publish_volume volume = update (volume_of volume)

  unfoldable pub publish_answer : Option (Volume F64) → Thread F64 → Thread F64
  unfolding publish_volume
  publish_answer none t = t
  publish_answer (some volume) t = publish_volume volume t

  entry_session : Entry F64 → ℕ → F64 → Session F64 → Session F64
  unfolding cast_times
  entry_session entry media_session_id offset session =
      let v = cast_verdict entry media_session_id session.state session.error in
      record (cast_times platform entry offset session) { state = v.state; error = v.error }

  -- `publish_status`, given the media session that it is about: whether playback is over, and the
  -- thread with the session that the status describes.
  unfoldable pub status_ended : ℕ → List (Entry F64) → Thread F64 → Bool
  unfolding cast_verdict
  status_ended media_session_id [] t = false
  status_ended media_session_id (entry ∷ entries) t =
      (t.session.session_id == t.session_id)
      && (cast_verdict entry media_session_id t.session.state t.session.error).ended

  unfoldable pub publish_status : ℕ → List (Entry F64) → Thread F64 → Thread F64
  unfolding update entry_session
  publish_status media_session_id [] t = t
  publish_status media_session_id (entry ∷ entries) t =
      update (entry_session entry media_session_id t.position_offset) t

  unfoldable pub seek_start : Order F64 → CastOptions F64 → F64 → F64
  seek_start order options position =
      if options.exact_seek
      then position
      else elim (order.keyframe_at_or_before position) [ none ↦ position | some start ↦ start ]

  -- A load, which the thread sends and then takes the answer of.
  load_at : Order F64 → Text → F64 → F64 → F64 → Thread F64 → Thread F64
  unfolding send after_load load_media
  load_at order content_id current_time track_start position t =
      let (request, loaded) =
        load_media platform order.replies t.app_session content_id t.title t.options current_time
          track_start in
      after_load position loaded (send (Sent.json request) t)

  -- A stream that ffmpeg writes is loaded again from where it is to start.
  restream_at : Order F64 → F64 → Thread F64 → Thread F64
  unfolding load_at
  restream_at order start t =
      load_at order (t.content_url ++ codes "?start=" ++ show_ms start) zero_seconds start start
        (record t { position_offset = start })

  sought : F64 → Session F64 → Session F64
  unfolding playing_of
  sought position session = record session { position = position; state = playing_of session.state }

  seek_in : Order F64 → F64 → Thread F64 → Thread F64
  unfolding send update sought
  seek_in order position t =
      let asked = send (Sent.seek t.media_session_id (to_f32 position)) t in
      if order.accepted then update (sought position) asked else asked

  unfoldable pub seek_cast : Order F64 → F64 → Thread F64 → Thread F64
  unfolding seek_start restream_at seek_in
  seek_cast order position t =
      if t.options.transcode
      then restream_at order (seek_start order t.options position) t
      else seek_in order position t

  -- The volume that the receiver has after a change.
  change_volume : Sent F64 → Order F64 → Thread F64 → Thread F64
  unfolding send publish_answer
  change_volume request order t = publish_answer order.volume (send request t)

  set_active_track : Option ℕ → Thread F64 → Thread F64
  set_active_track track t = record t { options = record t.options { active_track = track } }

  switch_track : Order F64 → Option ℕ → Thread F64 → Thread F64
  unfolding send after_edit edit_tracks
  switch_track order track t =
      let (request, edited) = edit_tracks order.replies t.media_session_id track in
      after_edit track edited (send (Sent.json request) t)

  set_source : Text → Bool → Bool → Thread F64 → Thread F64
  set_source url transcode exact_seek t = record t {
    content_url = url;
    options = record t.options { transcode = transcode; exact_seek = exact_seek };
  }

  reload_file : Order F64 → F64 → Thread F64 → Thread F64
  unfolding load_at
  reload_file order position t =
      load_at order t.content_url position zero_seconds position
        (record t { position_offset = zero_seconds })

  -- What is asked of the media session waits until there is one.
  in_media : (Thread F64 → Thread F64) → Thread F64 → Thread F64
  in_media f t = if t.media_session_id == 0 then t else f t

  unfoldable pub obey_command : CastCommand F64 → Order F64 → Thread F64 → Thread F64
  unfolding in_media accepted_state send change_volume set_active_track switch_track set_source
      seek_cast reload_file paused_of playing_of
  obey_command CastCommand.pause order t =
      in_media
        (λ t. accepted_state paused_of order.accepted (send (Sent.pause t.media_session_id) t)) t
  obey_command CastCommand.resume order t =
      in_media
        (λ t. accepted_state playing_of order.accepted (send (Sent.play t.media_session_id) t)) t
  obey_command CastCommand.shutdown order t = record t { running = false }
  obey_command (CastCommand.seek position) order t = in_media (seek_cast order position) t
  obey_command (CastCommand.set_subtitle track) order t =
      in_media (switch_track order track) (set_active_track track t)
  obey_command (CastCommand.set_volume level) order t =
      change_volume (Sent.set_volume (min level 100)) order t
  obey_command (CastCommand.set_mute muted) order t = change_volume (Sent.set_muted muted) order t
  obey_command (CastCommand.reload url transcode exact_seek position) order t =
      if transcode
      then seek_cast order position (set_source url transcode exact_seek t)
      else reload_file order position (set_source url transcode exact_seek t)

  -- Every command that waits is obeyed, those behind a shutdown too.
  unfoldable pub obey_all : List (Order F64) → Thread F64 → Thread F64
  unfolding obey_command
  obey_all [] t = t
  obey_all (order ∷ orders) t = obey_all orders (obey_command order.command order t)
