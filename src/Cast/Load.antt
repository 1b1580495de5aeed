-- ===== src/Cast/Load.antt =====
-- src/cast.rs: `media_payload`, `load_media` and `edit_tracks`: the requests that load a medium and
-- switch its subtitles, and which of the receiver's messages answer them. A message has been parsed
-- by the crate rust_cast; one that it cannot handle is `other`.
pub mod Answers
use unicast.Base.{
  ℕ, Bool, true, false, not, ◌&&◌, ◌||◌, Option, none, some, List, [], ◌∷◌, ◌++◌, Text, codes, ◌==◌,
  eq_text, is_empty, if◌then◌else◌, Platform,
}
use unicast.Daemon.Poll.{Entry, PlayerState, idle}

mutual
  pub data Json (F : Type 0) : Type 0 where
    string : Text → Json F
    number : F → Json F
    literal : Text → Json F
    integer : ℕ → Json F
    flag : Bool → Json F
    array : Items F → Json F
    object : Fields F → Json F

  pub data Items (F : Type 0) : Type 0 where
    no_items : Items F
    item : Json F → Items F → Items F

  pub data Fields (F : Type 0) : Type 0 where
    no_fields : Fields F
    field : Text → Json F → Fields F → Fields F

pub record TextTrack : Type 0 where
  pub id : ℕ
  pub url : Text
  pub name : Text
  pub language : Text

pub record CastOptions (F : Type 0) : Type 0 where
  pub duration : Option F
  pub transcode : Bool
  pub exact_seek : Bool
  pub source : Text
  pub tracks : List TextTrack
  pub active_track : Option ℕ

pub data MediaResponse (F : Type 0) : Type 0 where
  status : ℕ → List (Entry F) → MediaResponse F
  load_failed load_cancelled : ℕ → MediaResponse F
  invalid_request error : Text → MediaResponse F
  other : MediaResponse F

-- What a waiting helper makes of one message: `Ok(None)`, `Ok(Some(_))` or `Err(_)`.
pub data Found (A : Type 0) : Type 0 where
  not_mine : Found A
  mine : A → Found A
  refused : Text → Found A

-- `Result<A, String>`.
pub data Result (A : Type 0) : Type 0 where
  done : A → Result A
  failed : Text → Result A

infixl 5 ◌>>=◌ ◌>>◌
abbrev pub ◌>>=◌ : {A B : Type 0} → Result A → (A → Result B) → Result B
done a >>= k = k a
failed m >>= k = failed m

abbrev pub ◌>>◌ : {B : Type 0} → Result (Unit {0}) → Result B → Result B
m >> k = m >>= λ _. k

-- What holds of a result where there is one.
abbrev pub Holds : {A : Type 0} → (A → Type 0) → Result A → Type 0
Holds P (done a) = P a
Holds P (failed m) = Unit {0}

pub Holds-bind :
    {A B : Type 0} (P : B → Type 0) (m : Result A) (k : A → Result B)
    → ((a : A) → Holds P (k a))
    → Holds P (m >>= k)
Holds-bind P (done a) k h = h a
Holds-bind P (failed m) k h = tt

-- `map_err` with a text in front.
abbrev pub context : {A : Type 0} → Text → Result A → Result A
context front (done a) = done a
context front (failed m) = failed (front ++ m)

abbrev pub attempt : Option Text → Result (Unit {0})
attempt none = done tt
attempt (some m) = failed m

-- What the receiver answers to one request: the id that the request is given, the error of sending
-- it, and what `receive_find_map` returns for a test of the messages.
pub record Replies (F : Type 0) : Type 0 where
  pub request_id : ℕ
  pub send_error : Option Text
  pub find_status : (MediaResponse F → Found (List (Entry F))) → Result (List (Entry F))
  pub find_done : (MediaResponse F → Found (Unit {0})) → Result (Unit {0})

unfoldable pub is_idle : PlayerState → Bool
is_idle idle = true
is_idle _ = false

unfoldable pub has_track : ℕ → List TextTrack → Bool
has_track id [] = false
has_track id (track ∷ tracks) = track.id == id || has_track id tracks

holds_content : Text → Option Text → Bool
holds_content content_id none = false
holds_content content_id (some loaded) = eq_text loaded content_id

module _ {F : Type 0} where
  fields_of : List (Text × Json F) → Fields F
  fields_of [] = no_fields
  fields_of ((name, value) ∷ rest) = field name value (fields_of rest)

  object_of : List (Text × Json F) → Json F
  unfolding fields_of
  object_of fields = object (fields_of fields)

  integers : List ℕ → Items F
  integers [] = no_items
  integers (n ∷ ns) = item (integer n) (integers ns)

  duration_field : Option F → List (Text × Json F)
  duration_field none = []
  duration_field (some duration) = (codes "duration", number duration) ∷ []

  -- The session's track, where it is one of those declared.
  unfoldable pub active_ids : CastOptions F → List ℕ
  unfolding has_track
  active_ids options = elim options.active_track [
    | none ↦ []
    | some id ↦ if has_track id options.tracks then id ∷ [] else []
  ]

  active_field : List ℕ → List (Text × Json F)
  unfolding integers
  active_field [] = []
  active_field (id ∷ ids) = (codes "activeTrackIds", array (integers (id ∷ ids))) ∷ []

  text_track_style : Json F
  unfolding object_of
  text_track_style = object_of (
      (codes "backgroundColor", string (codes "#00000066"))
      ∷ (codes "foregroundColor", string (codes "#FFFFFFFF"))
      ∷ (codes "edgeType", string (codes "OUTLINE"))
      ∷ (codes "edgeColor", string (codes "#000000FF"))
      ∷ (codes "fontScale", literal (codes "1.0"))
      ∷ (codes "fontGenericFamily", string (codes "SANS_SERIF"))
      ∷ [])

  playing_content : Text → Entry F → Bool
  unfolding is_idle holds_content
  playing_content content_id entry =
      not (is_idle entry.player_state) && holds_content content_id entry.content_id

  any_playing : Text → List (Entry F) → Bool
  unfolding playing_content
  any_playing content_id [] = false
  any_playing content_id (entry ∷ entries) =
      playing_content content_id entry || any_playing content_id entries

  -- What `load_media` makes of a message while it waits for its answer.
  unfoldable pub load_reply : ℕ → Text → MediaResponse F → Found (List (Entry F))
  unfolding any_playing
  load_reply request_id content_id (status id entries) =
      if id == request_id || any_playing content_id entries then mine entries else not_mine
  load_reply request_id content_id (load_failed id) =
      if id == request_id then refused (codes "the receiver failed to load the media") else not_mine
  load_reply request_id content_id (load_cancelled id) =
      if id == request_id
      then refused (codes "the load was cancelled by another request")
      else not_mine
  load_reply request_id content_id _ = not_mine

  -- What `edit_tracks` makes of one.
  edit_reply : ℕ → MediaResponse F → Found (Unit {0})
  edit_reply request_id (status id entries) = if id == request_id then mine tt else not_mine
  edit_reply request_id (invalid_request m) =
      refused (codes "the receiver rejected the track change: " ++ m)
  edit_reply request_id _ = not_mine

  edit_request : ℕ → ℕ → Option ℕ → Json F
  unfolding object_of integers
  edit_request request_id media_session_id active = object_of (
      (codes "type", string (codes "EDIT_TRACKS_INFO"))
      ∷ (codes "requestId", integer request_id)
      ∷ (codes "mediaSessionId", integer media_session_id)
      ∷ (codes "activeTrackIds", array (integers (elim active [ none ↦ [] | some id ↦ id ∷ [] ])))
      ∷ [])

  -- `edit_tracks`: what was sent, and how it ended.
  unfoldable pub edit_tracks : Replies F → ℕ → Option ℕ → Json F × Result (Unit {0})
  unfolding edit_request edit_reply
  edit_tracks replies media_session_id active = (
    edit_request replies.request_id media_session_id active,
    context (codes "could not send the track change: ") (attempt replies.send_error)
        >> replies.find_done (edit_reply replies.request_id),
  )

module _ (platform : Platform) where
  open platform use {F64, zero_seconds, lt, show_ms}

  -- A stream that begins part-way through the file has its subtitles re-timed.
  track_url : F64 → TextTrack → Text
  track_url track_start track =
      if lt zero_seconds track_start
      then track.url ++ codes "?start=" ++ show_ms track_start
      else track.url

  track_entry : F64 → TextTrack → Json F64
  unfolding object_of track_url
  track_entry track_start track = object_of (
      (codes "trackId", integer track.id)
      ∷ (codes "type", string (codes "TEXT"))
      ∷ (codes "subtype", string (codes "SUBTITLES"))
      ∷ (codes "trackContentId", string (track_url track_start track))
      ∷ (codes "trackContentType", string (codes "text/vtt"))
      ∷ (codes "name", string track.name)
      ∷ (if is_empty track.language then [] else (codes "language", string track.language) ∷ []))

  track_entries : F64 → List TextTrack → Items F64
  unfolding track_entry
  track_entries track_start [] = no_items
  track_entries track_start (track ∷ tracks) =
      item (track_entry track_start track) (track_entries track_start tracks)

  tracks_fields : F64 → List TextTrack → List (Text × Json F64)
  unfolding track_entries text_track_style
  tracks_fields track_start [] = []
  tracks_fields track_start (track ∷ tracks) =
      (codes "tracks", array (track_entries track_start (track ∷ tracks)))
      ∷ (codes "textTrackStyle", text_track_style)
      ∷ []

  unfoldable pub media_payload : Text → Text → CastOptions F64 → F64 → Json F64
  unfolding object_of duration_field tracks_fields
  media_payload content_id title options track_start = object_of (
      (codes "contentId", string content_id)
      ∷ (codes "contentType", string (codes "video/mp4"))
      ∷ (codes "streamType", string (codes "BUFFERED"))
      ∷ (
        codes "metadata",
        object_of (
            (codes "metadataType", integer 0)
            ∷ (codes "title", string title)
            ∷ (codes "images", array no_items)
            ∷ []),
      )
      ∷ (duration_field options.duration ++ tracks_fields track_start options.tracks))

  load_request : ℕ → Text → Text → Text → CastOptions F64 → F64 → F64 → Json F64
  unfolding object_of media_payload active_field active_ids
  load_request request_id app_session content_id title options current_time track_start =
      object_of (
        (codes "type", string (codes "LOAD"))
        ∷ (codes "requestId", integer request_id)
        ∷ (codes "sessionId", string app_session)
        ∷ (codes "media", media_payload content_id title options track_start)
        ∷ (codes "autoplay", flag true)
        ∷ (codes "currentTime", number current_time)
        ∷ active_field (active_ids options))

  -- `load_media`: what was sent, and how it ended.
  unfoldable pub load_media :
      Replies F64
      → Text
      → Text
      → Text
      → CastOptions F64
      → F64
      → F64
      → Json F64 × Result (List (Entry F64))
  unfolding load_request load_reply
  load_media replies app_session content_id title options current_time track_start = (
    load_request replies.request_id app_session content_id title options current_time track_start,
    context (codes "could not send the load request: ") (attempt replies.send_error)
        >> replies.find_status (load_reply replies.request_id content_id),
  )
