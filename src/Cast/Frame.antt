-- ===== src/Cast/Frame.antt =====
-- src/cast.rs: `FrameLimit`, which stands between the crate rust_cast and the TLS stream and checks
-- the length prefix of each message, and `FrameBudget`. A byte is a number; what the inner stream
-- answers to one read is a `Source`.
pub mod Walk
pub mod Chunks
use unicast.Base.{
  ℕ, ◌+◌, ◌-◌, ◌*◌, Bool, true, false, not, ◌&&◌, ◌||◌, Option, none, some, List, [], ◌∷◌, ◌++◌,
  ltb, leb, ◌==◌, if◌then◌else◌, length, min, u32_max,
}

abbrev pub max_cast_frame : ℕ
max_cast_frame = 65536

abbrev pub max_unclaimed_frames : ℕ
max_unclaimed_frames = 256

-- `header[..header_len]` is `header`; `frames` is the count of the budget.
pub record FrameLimit : Type 0 where
  pub header : List ℕ
  pub body_left : ℕ
  pub failed : Bool
  pub frames : ℕ

unfoldable pub new : FrameLimit
new = record { header = []; body_left = 0; failed = false; frames = 0 }

-- `FrameBudget::reset`.
unfoldable pub reset : FrameLimit → FrameLimit
reset l = record l { frames = 0 }

-- The bytes read for a buffer of the given size, or an I/O error.
abbrev pub Source : Type 0
Source = ℕ → Option (List ℕ)

pub data ReadResult : Type 0 where
  bytes : List ℕ → ReadResult
  io_error : ReadResult
  frame_too_large : ReadResult

unfoldable pub from_be_bytes : List ℕ → ℕ
from_be_bytes (a ∷ b ∷ c ∷ d ∷ []) = ((a * 256 + b) * 256 + c) * 256 + d
from_be_bytes _ = 0

-- The count after one more frame, which saturates, and whether it is within the limits.
unfoldable pub note_frame : ℕ → Bool → ℕ × Bool
note_frame frames in_time =
    let count = min (frames + 1) u32_max in
    (count, leb count max_unclaimed_frames && (leb count 1 || in_time))

-- The length prefix is complete.
begin_body : FrameLimit → List ℕ → ℕ → Bool → FrameLimit × ReadResult
unfolding note_frame
begin_body l read length in_time =
    let (frames, allowed) = note_frame l.frames in_time in
    if ltb max_cast_frame length
    then (record l { header = []; failed = true }, frame_too_large)
    else (if not allowed
        then (record l { header = []; failed = true; frames = frames }, frame_too_large)
        else (record l { header = []; body_left = length; frames = frames }, bytes read))

read_header : FrameLimit → Bool → Option (List ℕ) → FrameLimit × ReadResult
unfolding begin_body from_be_bytes
read_header l in_time none = (l, io_error)
read_header l in_time (some read) =
    let header = l.header ++ read in
    if length header == 4
    then begin_body l read (from_be_bytes header) in_time
    else (record l { header = header }, bytes read)

read_body : FrameLimit → Option (List ℕ) → FrameLimit × ReadResult
read_body l none = (l, io_error)
read_body l (some read) = (record l { body_left = l.body_left - length read }, bytes read)

-- `in_time` tells whether MAX_UNCLAIMED_WAIT is not over.
unfoldable pub read : FrameLimit → ℕ → Bool → Source → FrameLimit × ReadResult
unfolding read_header read_body
read l buf in_time inner =
    if l.failed
    then (l, frame_too_large)
    else (if buf == 0
        then (l, bytes [])
        else (if ltb 0 l.body_left
            then read_body l (inner (min buf l.body_left))
            else read_header l in_time (inner (min buf (4 - length l.header)))))
