-- ===== src/Airplay/Tests.antt =====
-- src/airplay.rs at concrete inputs: the playback info of the source's test, and a refused stream.
use unicast.Base.{ℕ, ◌≡◌, refl, arith, true, false, none, some, [], ◌∷◌, codes, eq_text}
use unicast.Sample.{platform}
use unicast.Daemon.Poll.{media_seconds}
use unicast.Airplay.{
  start_dictionary, end_collection, info_from, no_readings, parse_playback_info, note, numbered,
  info_of, string_event, play_result, rejected, read_events, turn, key_turn, value_turn, answered,
}
use unicast.Airplay.Listed.{
  Entries, no_entries, entry, plain, group, real_value, integer_value, other_value, nothing, scalar,
  collection, entries_events, noted, parse_playback_info-entries, value_number, unless_error,
  value_events, content_events,
}

abbrev body : Entries ℕ
body = entry (codes "duration") (plain (real_value 120)) (
    entry (codes "position") (plain (real_value 30)) (
      entry (codes "rate") (plain (integer_value (some 1))) (
        entry (codes "loadedTimeRanges")
          (group true (collection false (scalar other_value nothing) nothing)) no_entries)))

-- The whole body has 14 events after its start.
parse_playback_info-entries_example :
    parse_playback_info platform
      (some start_dictionary ∷ entries_events body (some end_collection ∷ []))
    ≡ some (record { position = 30; duration = 120; playing = true })
unfolding entries_events value_events content_events noted unless_error note numbered value_number
    info_from info_of no_readings media_seconds eq_text
parse_playback_info-entries_example = parse_playback_info-entries platform body [] (omega arith)

error_body :
    parse_playback_info platform (
      some start_dictionary
      ∷ some (string_event (codes "error"))
      ∷ some (string_event (codes "x"))
      ∷ some end_collection
      ∷ [])
    ≡ none
unfolding parse_playback_info read_events turn key_turn value_turn info_from eq_text
error_body = refl

play_refused : play_result platform (codes "192.168.50.20") 7000 (some 404) ≡ ([], rejected 404)
unfolding play_result answered
play_refused = refl
