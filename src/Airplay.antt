-- ===== src/Airplay.antt =====
-- src/airplay.rs: the requests to an AirPlay receiver, and what is read of its playback info, as a
-- bounded stream of events of the crate plist. HTTP and the reading of a plist are not modelled.
pub mod Listed
mod Tests
use unicast.Base.{
  ℕ, zero, suc, Bool, true, false, Option, none, some, List, [], ◌∷◌, ◌++◌, Text, codes, eq_text,
  if◌then◌else◌, ltb, leb, ◌&&◌, print_nat, Platform,
}
use unicast.Daemon.Poll.{PlaybackInfo, media_seconds}

-- A value of the binary plist that a request carries.
pub data Value (F : Type 0) : Type 0 where
  string : Text → Value F
  real : F → Value F

pub data Method : Type 0 where
  get : Method
  post : Method

pub record AirplayRequest (F : Type 0) : Type 0 where
  pub method : Method
  pub url : Text
  pub plist_body : List (Text × Value F)
  pub timeout : ℕ

unfoldable pub address : Text → ℕ → Text → Text
address ip port path = codes "http://" ++ ip ++ (b':' ∷ print_nat port) ++ path

-- An event of `plist::stream`, an integer with its value where `as_signed` has one; a Boolean, data,
-- a date or a UID is another event.
pub data Event (F : Type 0) : Type 0 where
  start_array : Event F
  start_dictionary : Event F
  end_collection : Event F
  real_event : F → Event F
  integer_event : Option F → Event F
  string_event : Text → Event F
  other_event : Event F

pub record Readings (F : Type 0) : Type 0 where
  pub position : F
  pub duration : F
  pub rate : F

-- The variables of the loop: `depth`, `key` and the three numbers.
pub data Reading (F : Type 0) : Type 0 where
  reading : ℕ → Option Text → Readings F → Reading F

-- What an event makes of the loop: `return None`, `break` or the next turn.
pub data Turn (F : Type 0) : Type 0 where
  refused : Turn F
  done : Turn F
  next : Reading F → Turn F

module _ {F : Type 0} where
  unfoldable pub readings_of : Reading F → Readings F
  readings_of (reading depth key r) = r

  unfoldable pub numbered : Text → F → Readings F → Readings F
  numbered name number r =
      if eq_text name (codes "position")
      then record r { position = number }
      else (if eq_text name (codes "duration")
          then record r { duration = number }
          else (if eq_text name (codes "rate") then record r { rate = number } else r))

  unfoldable pub number_of : Event F → Option F
  number_of (real_event value) = some value
  number_of (integer_event value) = value
  number_of _ = none

  unfoldable pub note : Text → Option F → Readings F → Readings F
  unfolding numbered
  note name none r = r
  note name (some number) r = numbered name number r

  -- The depth after an event of the value.
  unfoldable pub deeper : Event F → ℕ → ℕ
  deeper start_array depth = suc depth
  deeper start_dictionary depth = suc depth
  deeper _ depth = depth

  -- An event inside a nested collection, at depth 2 + n.
  unfoldable pub nested : Event F → ℕ → ℕ
  nested start_array n = suc (suc (suc n))
  nested start_dictionary n = suc (suc (suc n))
  nested end_collection n = suc n
  nested _ n = suc (suc n)

  -- An event where a key is expected.
  unfoldable pub key_turn : Event F → ℕ → Readings F → Turn F
  key_turn (string_event name) depth r = next (reading depth (some name) r)
  key_turn end_collection depth r = done
  key_turn _ depth r = refused

  -- An event where the value of a key is expected.
  unfoldable pub value_turn : Text → Event F → ℕ → Readings F → Turn F
  unfolding deeper note number_of
  value_turn name event depth r =
      if eq_text name (codes "error")
      then refused
      else next (reading (deeper event depth) none (note name (number_of event) r))

  unfoldable pub turn : Event F → Reading F → Turn F
  unfolding nested key_turn value_turn
  turn event (reading (suc (suc n)) key r) = next (reading (nested event n) key r)
  turn event (reading depth none r) = key_turn event depth r
  turn event (reading depth (some name) r) = value_turn name event depth r

  -- The loop, on the events that are left and on how many more it may read; an event that cannot be
  -- read is `none`.
  unfoldable pub read_events : ℕ → Reading F → List (Option (Event F)) → Option (Readings F)
  unfolding turn readings_of
  read_events budget state [] = some (readings_of state)
  read_events zero state (event ∷ events) = none
  read_events (suc budget) state (none ∷ events) = none
  read_events (suc budget) state (some event ∷ events) = elim (turn event state) [
    | refused ↦ none
    | done ↦ some (readings_of state)
    | next later ↦ read_events budget later events
  ]

unfoldable pub max_playback_info_events : ℕ
max_playback_info_events = 4096

-- The requests, and what an answer to `play` makes of it, a receiver that answers with a status.
pub data Played : Type 0 where
  accepted : Played
  request_failed : Played
  rejected : ℕ → Played

unfoldable pub answered : Option ℕ → Played
answered none = request_failed
answered (some status) = if leb 200 status && ltb status 300 then accepted else rejected status

module _ (platform : Platform) where
  open platform use {F64, zero_seconds, lt, show_ms}

  unfoldable pub play_request : Text → ℕ → Text → F64 → Text → AirplayRequest F64
  unfolding address
  play_request ip port url position session_id = record {
    method = post;
    url = address ip port (codes "/play");
    plist_body =
        (codes "Content-Location", string url)
        ∷ (codes "Start-Position", real position)
        ∷ (codes "X-Apple-Session-ID", string session_id)
        ∷ [];
    timeout = 8;
  }

  -- A request without a body.
  control_request : Text → ℕ → Text → AirplayRequest F64
  unfolding address
  control_request ip port path = record {
    method = post;
    url = address ip port path;
    plist_body = [];
    timeout = 4;
  }

  unfoldable pub resume : Text → ℕ → AirplayRequest F64
  unfolding control_request
  resume ip port = control_request ip port (codes "/rate?value=1.000000")

  unfoldable pub pause : Text → ℕ → AirplayRequest F64
  unfolding control_request
  pause ip port = control_request ip port (codes "/rate?value=0.000000")

  unfoldable pub stop : Text → ℕ → AirplayRequest F64
  unfolding control_request
  stop ip port = control_request ip port (codes "/stop")

  unfoldable pub seek : Text → ℕ → F64 → AirplayRequest F64
  unfolding control_request
  seek ip port seconds = control_request ip port (codes "/scrub?position=" ++ show_ms seconds)

  -- The second request, once the first one is answered, and the result.
  unfoldable pub play_result : Text → ℕ → Option ℕ → List (AirplayRequest F64) × Played
  unfolding answered resume
  play_result ip port status = elim (answered status) [
    | accepted ↦ (resume ip port ∷ [], accepted)
    | request_failed ↦ ([], request_failed)
    | rejected refusal ↦ ([], rejected refusal)
  ]

  unfoldable pub no_readings : Readings F64
  no_readings = record { position = zero_seconds; duration = zero_seconds; rate = zero_seconds }

  unfoldable pub info_of : Readings F64 → PlaybackInfo F64
  unfolding media_seconds
  info_of r = record {
    position = media_seconds platform r.position;
    duration = media_seconds platform r.duration;
    playing = lt zero_seconds r.rate;
  }

  unfoldable pub info_from : Option (Readings F64) → Option (PlaybackInfo F64)
  unfolding info_of
  info_from none = none
  info_from (some r) = some (info_of r)

  unfoldable pub parse_playback_info : List (Option (Event F64)) → Option (PlaybackInfo F64)
  unfolding info_from read_events max_playback_info_events no_readings
  parse_playback_info (some start_dictionary ∷ events) =
      info_from (read_events max_playback_info_events (reading 1 none no_readings) events)
  parse_playback_info _ = none

  -- An answer that is no success, or too large, has no events.
  unfoldable pub playback_info :
      Option (ℕ × Option (List (Option (Event F64)))) → Option (PlaybackInfo F64)
  unfolding parse_playback_info
  playback_info none = none
  playback_info (some (status, none)) = none
  playback_info (some (status, some events)) =
      if leb 200 status && ltb status 300 then parse_playback_info events else none
