-- ===== src/Server/Tests.antt =====
-- src/media_server.rs at concrete inputs.
use unicast.Base.{
  take, In, ℕ, ◌-◌, refl, ◌≡◌, ◌↔◌, ◌⊎◌, some, none, codes, arith, List, [], ◌∷◌, ◌++◌, true, false,
  length, drop,
}
use unicast.Server.{header, empty}
use unicast.Server.Range.{parse_range, show_spec, between, meaning, parse_range-show_spec}
use unicast.Server.Access.{constant_time_eq, constant_time_eq_iff}
use unicast.Server.File.{
  Disk, Streams, file_response, accepted_range, range_value, content_range, file_response_partial,
  file_response_whole, file_response_safe,
}
use unicast.Server.Live
use unicast.Server.Live.{
  Event, admit, finish, Inv, run, start, run-start-Inv, admit_transcode, admit_transcode_newest,
  retain_running, max_live_transcodes,
}

abbrev disk : Disk
disk = record { size = some 1000; opens = true; seeks = true }

file_response_partial_example :
    let r = file_response (codes "video/mp4") disk (some (range_value (between 900 5000))) in
    (r.status ≡ 206)
    × Streams 1000 900 100 r
    × (header (codes "content-range") r.headers ≡ some (content_range 900 999 1000))
file_response_partial_example =
    file_response_partial (codes "video/mp4") disk (between 900 5000) 1000 900 5000 refl refl refl
      (omega arith) refl (omega arith) (omega arith)

file_response_whole_example :
    let r = file_response (codes "video/mp4") disk none in (r.status ≡ 200) × Streams 1000 0 1000 r
file_response_whole_example =
    file_response_whole (codes "video/mp4") disk none 1000 refl refl refl (omega arith) no_range
  where
    no_range : accepted_range none 1000 ≡ none
    no_range = unfold accepted_range in refl

file_response_safe_example :
    let r = file_response (codes "video/mp4") disk (some (codes "bytes=5-2")) in
    (r.body ≡ empty) ⊎ ((start : ℕ) × (length : ℕ) × Streams 1000 start length r)
file_response_safe_example =
    file_response_safe (codes "video/mp4") disk (some (codes "bytes=5-2")) {size = 1000} refl

parse_range-show_spec_example :
    parse_range (show_spec (between 0 499)) 1000 ≡ meaning (between 0 499) 1000
parse_range-show_spec_example = parse_range-show_spec (between 0 499) 1000 (omega arith)

constant_time_eq_iff_example :
    (constant_time_eq (codes "token") (codes "tokex") ≡ true) ↔ (codes "token" ≡ codes "tokex")
constant_time_eq_iff_example =
    constant_time_eq_iff (codes "token") (codes "tokex") (omega arith) (omega arith)

abbrev five_events : List Event
five_events = admit ∷ admit ∷ finish 0 ∷ admit ∷ admit ∷ []

run-start-Inv_example : Inv (run start five_events)
run-start-Inv_example = run-start-Inv five_events

abbrev two_streams : Live.Streams
two_streams = record { live = 0 ∷ 1 ∷ []; cancelled = λ t. false }

admit_transcode_newest_example :
    let queue = retain_running two_streams.cancelled two_streams.live ++ 2 ∷ [] in
    ((admit_transcode two_streams 2).live ≡ drop (length queue - max_live_transcodes) queue)
    × ((t : ℕ)
        → In t (take (length queue - max_live_transcodes) queue)
        → (admit_transcode two_streams 2).cancelled t ≡ true)
    × ((admit_transcode two_streams 2).cancelled 2 ≡ two_streams.cancelled 2)
admit_transcode_newest_example = admit_transcode_newest two_streams 2 (omega arith)
