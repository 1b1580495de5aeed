-- ===== src/Server.antt =====
-- src/media_server.rs: what the HTTP server of a cast answers. A response is its status, its
-- headers and its body; a streamed body is named by the bytes that it streams.
pub mod Range
pub mod File
pub mod Access
pub mod Live
pub mod Ffmpeg
pub mod Request
pub mod Handle
mod Tests
use unicast.Base.{
  Option, none, some, eq_text, ℕ, Bool, true, false, List, [], ◌∷◌, ◌++◌, Text, codes, print_nat,
  if◌then◌else◌,
}

pub data Container : Type 0 where
  fragmented_mp4 mpeg_ts : Container

unfoldable pub container_content_type : Container → Text
container_content_type fragmented_mp4 = codes "video/mp4"
container_content_type mpeg_ts = codes "video/mpeg"

unfoldable pub container_extension : Container → Text
container_extension fragmented_mp4 = codes "mp4"
container_extension mpeg_ts = codes "ts"

pub data Body : Type 0 where
  empty : Body
  -- `file.take(length)` after a seek to `start`
  slice : ℕ → ℕ → Body
  -- the output of an ffmpeg process
  live : Body
  text : Text → Body

pub record Response : Type 0 where
  pub status : ℕ
  pub headers : List (Text × Text)
  pub body : Body

abbrev pub respond : ℕ → List (Text × Text) → Body → Response
respond status headers body = record { status = status; headers = headers; body = body }

-- The value of a header.
unfoldable pub header : Text → List (Text × Text) → Option Text
unfolding eq_text
header name [] = none
header name ((key, value) ∷ headers) = if eq_text key name then some value else header name headers

-- `(status, "").into_response()`.
abbrev pub plain : ℕ → Response
plain status = respond status [] empty

unfoldable pub forbidden : Response
forbidden = respond 403 ((codes "content-length", codes "0") ∷ []) empty

abbrev pub cors : List (Text × Text) → List (Text × Text)
cors headers =
    headers
    ++ (codes "access-control-allow-origin", codes "*")
      ∷ (
        codes "access-control-expose-headers",
        codes "Content-Length, Content-Range, Accept-Ranges",
      )
      ∷ []

unfoldable pub preflight : Response
preflight =
    respond 204
      (cors []
        ++ (codes "access-control-allow-methods", codes "GET, HEAD, OPTIONS")
          ∷ (codes "access-control-allow-headers", codes "Range, Content-Type, Origin, Accept")
          ∷ (codes "access-control-max-age", codes "86400")
          ∷ (codes "content-length", codes "0")
          ∷ [])
      empty

abbrev pub dlna_features : Text
dlna_features = codes "DLNA.ORG_OP=01;DLNA.ORG_CI=0;DLNA.ORG_FLAGS=01700000000000000000000000000000"

abbrev pub dlna_features_transcode : Text
dlna_features_transcode =
    codes "DLNA.ORG_OP=00;DLNA.ORG_CI=1;DLNA.ORG_FLAGS=01700000000000000000000000000000"

abbrev pub dlna_headers : List (Text × Text) → Text → Bool → List (Text × Text)
dlna_headers headers content_type transcode =
    cors headers
    ++ (codes "content-type", content_type)
      ∷ (codes "transferMode.dlna.org", codes "Streaming")
      ∷ (
        codes "contentFeatures.dlna.org",
        if transcode then dlna_features_transcode else dlna_features,
      )
      ∷ []

abbrev pub nominal_stream_length : Text
nominal_stream_length = codes "999999999999"

live_length : Container → List (Text × Text)
live_length mpeg_ts = (codes "content-length", nominal_stream_length) ∷ []
live_length fragmented_mp4 = []

-- The head of a response that streams from ffmpeg.
unfoldable pub live_stream_headers : Container → List (Text × Text)
unfolding live_length
live_stream_headers container =
    (codes "accept-ranges", codes "none")
    ∷ (codes "connection", codes "close")
    ∷ live_length container
