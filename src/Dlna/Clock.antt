-- ===== src/Dlna/Clock.antt =====
-- src/dlna.rs: `format_hms` and the seek that it is for; src/util.rs: `hms`.
pub mod Whole
use unicast.Base.{
  ℕ, Bool, true, false, Option, none, some, List, [], ◌∷◌, ◌++◌, Text, codes, split, trim,
  if◌then◌else◌, Platform,
}
use unicast.Subtitles.{pad}
use unicast.Daemon.Poll.{media_seconds}
use unicast.Dlna.Soap.{SoapRequest, Reply, soap, soap_answer, first_tag, element}

module _ (platform : Platform) where
  open platform use {F64, zero_seconds, max_of, div, rem, of_nat, floor_u64, sexagesimal, parse_f64}

  unfoldable pub format_hms : F64 → Text
  unfolding pad
  format_hms seconds =
      let total = max_of seconds zero_seconds in
      pad 2 (floor_u64 (div total (of_nat 3600)))
      ++ (b':'
          ∷ (pad 2 (floor_u64 (div (rem total (of_nat 3600)) (of_nat 60)))
              ++ (b':' ∷ pad 2 (floor_u64 (rem total (of_nat 60))))))

  -- The parts of a time, read from the left; 0.0 where one is no number.
  sum_parts : F64 → List Text → F64
  unfolding media_seconds
  sum_parts seconds [] = media_seconds platform seconds
  sum_parts seconds (part ∷ parts) = elim (parse_f64 part) [
    | none ↦ zero_seconds
    | some number ↦ sum_parts (sexagesimal seconds number) parts
  ]

  -- At most three parts.
  of_parts : List Text → F64
  unfolding sum_parts
  of_parts (a ∷ b ∷ c ∷ d ∷ parts) = zero_seconds
  of_parts parts = sum_parts zero_seconds parts

  unfoldable pub hms : Text → F64
  unfolding of_parts
  hms value = of_parts (split b':' (trim value))

  unfoldable pub seek_request : Text → F64 → SoapRequest
  unfolding soap element format_hms
  seek_request control seconds =
      soap control (codes "Seek")
        (element (codes "Unit") (codes "REL_TIME") ++ element (codes "Target") (format_hms seconds))

  time_of : Option Text → Option F64
  unfolding hms
  time_of none = none
  time_of (some value) = some (hms value)

  -- The duration and the position.
  unfoldable pub position_info : Reply → Option F64 × Option F64
  unfolding time_of first_tag soap_answer
  position_info reply =
      let body = (soap_answer reply).1 in
      (time_of (first_tag body (codes "TrackDuration")), time_of (first_tag body (codes "RelTime")))
