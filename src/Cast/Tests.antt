-- ===== src/Cast/Tests.antt =====
-- src/cast.rs at concrete inputs.
use unicast.Base.{◌≡◌, refl, ◌⊎◌, ℕ, zero, suc, List, [], ◌∷◌, arith, true, some}
use unicast.Cast.Frame.{FrameLimit, Source, new}
use unicast.Cast.Frame.Chunks.{
  Call, read_call, reset_call, Tracks, Bounded, run_calls, begun_at_reset, run_calls-new-State,
  run_calls_failed,
}

-- A stream that fills one byte of a buffer.
abbrev one_byte : ℕ → Source
one_byte b zero = some []
one_byte b (suc n) = some (b ∷ [])

one_byte-Bounded : (b : ℕ) → Bounded (one_byte b)
one_byte-Bounded b zero s e = ground arith
one_byte-Bounded b (suc n) s e = ground arith

-- A prefix that announces two bytes, one of them, and a reset of the budget.
abbrev calls : List Call
calls =
    read_call 4 true (one_byte 0)
    ∷ read_call 3 true (one_byte 0)
    ∷ read_call 2 true (one_byte 0)
    ∷ read_call 1 true (one_byte 2)
    ∷ read_call 9 true (one_byte 7)
    ∷ reset_call
    ∷ []

run_calls-new-State_example :
    let (l, got) = run_calls new [] calls in
    (l.failed ≡ true) ⊎ Tracks l got (begun_at_reset new [] 0 calls)
run_calls-new-State_example = run_calls-new-State calls (
  one_byte-Bounded 0,
  (one_byte-Bounded 0, (one_byte-Bounded 0, (one_byte-Bounded 2, (one_byte-Bounded 7, record {})))),
)

abbrev failed_limit : FrameLimit
failed_limit = record { header = []; body_left = 0; failed = true; frames = 257 }

run_calls_failed_example :
    ((run_calls failed_limit (1 ∷ []) calls).1 ≡ 1 ∷ [])
    × ((run_calls failed_limit (1 ∷ []) calls).0.failed ≡ true)
run_calls_failed_example = run_calls_failed failed_limit (1 ∷ []) calls refl
