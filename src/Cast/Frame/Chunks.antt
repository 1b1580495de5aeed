-- ===== src/Cast/Frame/Chunks.antt =====
-- src/cast.rs: however the reads cut the stream, `FrameLimit` sees the frames that a reader of
-- single bytes sees.
use unicast.Base.{
  ℕ, ◌+◌, ◌-◌, ◌≤◌, ◌<◌, ◌≡◌, refl, sym, subst, ◌∙◌, ap, Bool, true, false, Option, none, some,
  List, [], ◌∷◌, ◌++◌, arith, append-nil, ltb, ◌==◌, length, length-append, min, inl, inr,
  Bool-cases, ◌⊎◌, leb, ◌&&◌, ◌||◌, u32_max,
}
use unicast.Cast.Frame.{
  FrameLimit, ReadResult, Source, bytes, io_error, frame_too_large, new, reset, read, read_header,
  read_body, begin_body, note_frame, max_cast_frame, max_unclaimed_frames,
}
use unicast.Cast.Frame.Walk.{first_place, walk, walk-append, walk_body, walk_piece, piece_place}

-- The calls on a limiter: a read of so many bytes, with what the clock and the inner stream answer,
-- or a reset of the budget.
pub data Call : Type 0 where
  read_call : ℕ → Bool → Source → Call
  reset_call : Call

abbrev pub delivered : ReadResult → List ℕ
delivered (bytes s) = s
delivered io_error = []
delivered frame_too_large = []

-- The limiter after the calls, and the bytes handed out.
unfoldable pub run_calls : FrameLimit → List ℕ → List Call → FrameLimit × List ℕ
run_calls l got [] = (l, got)
run_calls l got (read_call buf in_time inner ∷ calls) =
    let (l', r) = read l buf in_time inner in run_calls l' (got ++ delivered r) calls
run_calls l got (reset_call ∷ calls) = run_calls (reset l) got calls

-- How many length prefixes were whole in the bytes handed out before the last reset.
unfoldable pub begun_at_reset : FrameLimit → List ℕ → ℕ → List Call → ℕ
unfolding walk
begun_at_reset l got before [] = before
begun_at_reset l got before (read_call buf in_time inner ∷ calls) =
    let (l', r) = read l buf in_time inner in begun_at_reset l' (got ++ delivered r) before calls
begun_at_reset l got before (reset_call ∷ calls) =
    begun_at_reset (reset l) got (walk first_place got).begun calls

-- An inner stream fills at most the buffer that it is given.
abbrev pub Bounded : Source → Type 0
Bounded inner = (n : ℕ) (s : List ℕ) → inner n ≡ some s → length s ≤ n

abbrev pub AllBounded : List Call → Type 0
AllBounded [] = Unit
AllBounded (read_call buf in_time inner ∷ calls) = Bounded inner × AllBounded calls
AllBounded (reset_call ∷ calls) = AllBounded calls

-- The limiter stands where a reader of single bytes stands after the bytes that were handed out,
-- in a frame of allowed size; its count is that of the length prefixes which were whole since those
-- `before` the last reset, and is no larger than allowed.
pub record Tracks (l : FrameLimit) (got : List ℕ) (before : ℕ) : Type 0 where
  pub running : l.failed ≡ false
  pub place :
      walk first_place got
      ≡ record { header = l.header; left = l.body_left; begun = before + l.frames }
  pub small : l.body_left ≤ max_cast_frame
  pub open_header : length l.header < 4
  pub few : l.frames ≤ max_unclaimed_frames

abbrev pub State : ℕ → FrameLimit × List ℕ → Type 0
State before (l, got) = (l.failed ≡ true) ⊎ Tracks l got before

abbrev after : FrameLimit × ReadResult → List ℕ → FrameLimit × List ℕ
after (l, r) got = (l, got ++ delivered r)

body-State :
    (before : ℕ) (l : FrameLimit) (got : List ℕ) (o : Option (List ℕ))
    → Tracks l got before
    → ((s : List ℕ) → o ≡ some s → length s ≤ l.body_left)
    → State before (after (read_body l o) got)
unfolding read_body
body-State before l got none t fits = inr (rw (append-nil got) t)
body-State before l got (some s) t fits = inr (record {
  running = t.running;
  place =
      walk-append _ got s
      ∙ (ap (λ p. walk p s) t.place
          ∙ walk_body l.header l.body_left (before + l.frames) s (fits s refl));
  small = omega (arith, t.small);
  open_header = t.open_header;
  few = t.few;
})

begin_body-State :
    (before : ℕ) (l : FrameLimit) (got s : List ℕ) (length : ℕ) (in_time : Bool)
    → l.failed ≡ false
    → walk first_place (got ++ s)
      ≡ record { header = []; left = length; begun = before + l.frames + 1 }
    → State before (after (begin_body l s length in_time) got)
unfolding begin_body note_frame
begin_body-State before l got s length in_time r e = elim (Bool-cases (ltb max_cast_frame length)) [
  | inl big ↦ rw big (inl refl)
  | inr fits ↦
      elim (Bool-cases (
        leb (min (l.frames + 1) u32_max) max_unclaimed_frames
        && (leb (min (l.frames + 1) u32_max) 1 || in_time))) [
          | inr flooded ↦ rw (fits, flooded) (inl refl)
          | inl allowed ↦
              let one_more : before + l.frames + 1 ≡ before + min (l.frames + 1) u32_max =
                ground arith in
              rw (fits, allowed)
                (inr (record {
                  running = r;
                  place = e ∙ ap (λ n. record { header = []; left = length; begun = n }) one_more;
                  small = ground arith;
                  open_header = omega arith;
                  few = ground arith;
                }))
        ]
]

header-State :
    (before : ℕ) (l : FrameLimit) (got : List ℕ) (in_time : Bool) (o : Option (List ℕ))
    → Tracks l got before
    → l.body_left ≡ 0
    → ((s : List ℕ) → o ≡ some s → length s ≤ 4 - length l.header)
    → State before (after (read_header l in_time o) got)
unfolding read_header
header-State before l got in_time none t z fits = inr (rw (append-nil got) t)
header-State before l got in_time (some s) t z fits =
    let small_piece : length s ≤ 4 - length l.header = fits s refl in
    let open_header = t.open_header in
    let count = before + l.frames in
    let grown : length (l.header ++ s) ≡ length l.header + length s = length-append l.header s in
    let moved : walk first_place (got ++ s) ≡ piece_place count (l.header ++ s) =
      walk-append _ got s
      ∙ (ap (λ p. walk p s)
            (t.place ∙ ap (λ n. record { header = l.header; left = n; begun = count }) z)
          ∙ walk_piece count l.header s open_header (omega arith)) in
    elim (Bool-cases (length (l.header ++ s) == 4)) [
      | inl whole ↦
          rw whole (begin_body-State before l got s _ in_time t.running (rw whole at moved))
      | inr piece ↦ rw piece (
          inr (record {
            running = t.running;
            place =
                (rw piece at moved)
                ∙ ap (λ n. record { header = l.header ++ s; left = n; begun = count }) (sym z);
            small = t.small;
            open_header = ground arith;
            few = t.few;
          }))
    ]

read-State :
    (before : ℕ) (l : FrameLimit) (got : List ℕ) (buf : ℕ) (in_time : Bool) (inner : Source)
    → Bounded inner
    → State before (l, got)
    → State before (after (read l buf in_time inner) got)
unfolding read
read-State before l got buf in_time inner b (inl f) = rw f (inl refl)
read-State before l got buf in_time inner b (inr t) = elim (Bool-cases (buf == 0)) [
  | inl e ↦ simp (t.running, e, append-nil got) (inr t)
  | inr some_room ↦ elim (Bool-cases (ltb 0 l.body_left)) [
    | inl body ↦
        simp (t.running, some_room, body)
          (body-State before l got (inner (min buf l.body_left)) t
            λ s e. omega (arith, b (min buf l.body_left) s e))
    | inr header ↦
        simp (t.running, some_room, header)
          (header-State before l got in_time (inner (min buf (4 - length l.header))) t
            (ground arith) λ s e. omega (arith, b (min buf (4 - length l.header)) s e))
  ]
]

reset-State :
    (before : ℕ) (l : FrameLimit) (got : List ℕ)
    → State before (l, got)
    → State (walk first_place got).begun (reset l, got)
unfolding reset
reset-State before l got (inl f) = inl f
reset-State before l got (inr t) =
    let counted : before + l.frames ≡ (walk first_place got).begun + 0 =
      omega (arith, ap (λ p. p.begun) t.place) in
    inr (record {
      running = t.running;
      place =
          t.place ∙ ap (λ n. record { header = l.header; left = l.body_left; begun = n }) counted;
      small = t.small;
      open_header = t.open_header;
      few = omega arith;
    })

calls-State :
    (l : FrameLimit) (got : List ℕ) (before : ℕ) (calls : List Call)
    → AllBounded calls
    → State before (l, got)
    → State (begun_at_reset l got before calls) (run_calls l got calls)
unfolding run_calls begun_at_reset
calls-State l got before [] b s = s
calls-State l got before (read_call buf in_time inner ∷ calls) b s =
    calls-State _ _ before calls b.1 (read-State before l got buf in_time inner b.0 s)
calls-State l got before (reset_call ∷ calls) b s =
    calls-State (reset l) got (walk first_place got).begun calls b (reset-State before l got s)

-- Whatever reads and resets of the budget follow the start, with buffers of any size, and however
-- the stream cuts its bytes (it fills at most the buffer that it is given): the limiter has failed,
-- or it stands where a reader of single bytes stands after the bytes that were handed out, in a
-- message of at most 65536 bytes, and its count is the number of length prefixes that this reader
-- has read whole since the last reset, which is at most 256.
pub run_calls-new-State :
    (calls : List Call)
    → AllBounded calls
    → let (l, got) = run_calls new [] calls in
      (l.failed ≡ true) ⊎ Tracks l got (begun_at_reset new [] 0 calls)
unfolding new
run_calls-new-State calls b = calls-State new [] 0 calls b (
    inr (record {
      running = refl;
      place = unfold walk in refl;
      small = omega arith;
      open_header = omega arith;
      few = omega arith;
    }))

read_failed :
    (l : FrameLimit) (buf : ℕ) (in_time : Bool) (inner : Source)
    → l.failed ≡ true
    → read l buf in_time inner ≡ (l, frame_too_large)
unfolding read
read_failed l buf in_time inner f = simp f

-- A limiter that has failed hands out nothing more, whatever the stream holds.
pub run_calls_failed :
    (l : FrameLimit) (got : List ℕ) (calls : List Call)
    → l.failed ≡ true
    → ((run_calls l got calls).1 ≡ got) × ((run_calls l got calls).0.failed ≡ true)
unfolding run_calls
run_calls_failed l got [] f = (refl, f)
run_calls_failed l got (read_call buf in_time inner ∷ calls) f =
    subst
      (λ r.
        ((run_calls r.0 (got ++ delivered r.1) calls).1 ≡ got)
        × ((run_calls r.0 (got ++ delivered r.1) calls).0.failed ≡ true))
      (sym (read_failed l buf in_time inner f))
      (subst (λ g. ((run_calls l g calls).1 ≡ got) × ((run_calls l g calls).0.failed ≡ true))
        (sym (append-nil got)) (run_calls_failed l got calls f))
run_calls_failed l got (reset_call ∷ calls) f =
    run_calls_failed (reset l) got calls (unfold reset in f)
