-- ===== src/Server/Live.antt =====
-- src/media_server.rs: the bound on live ffmpeg streams. A cancellation token is a number, and the
-- tokens share one store of what was cancelled.
use unicast.Base.{
  ℕ, suc, ◌+◌, ◌≤◌, ◌<◌, ◌≡◌, refl, Bool, true, false, List, [], ◌∷◌, ◌++◌, arith, ltb, ◌==◌,
  if◌then◌else◌, length, In, In-append, inl, inr, Bool-cases, drop, take, ◌-◌, ◌⊎◌,
}

abbrev pub max_live_transcodes : ℕ
max_live_transcodes = 2

-- `live_transcodes`, oldest first, and the store.
pub record Streams : Type 0 where
  pub live : List ℕ
  pub cancelled : ℕ → Bool

abbrev pub cancel : ℕ → (ℕ → Bool) → ℕ → Bool
cancel token cancelled t = if t == token then true else cancelled t

-- `live.retain(|token| !token.is_cancelled())`.
unfoldable pub retain_running : (ℕ → Bool) → List ℕ → List ℕ
retain_running cancelled [] = []
retain_running cancelled (t ∷ ts) =
    if cancelled t then retain_running cancelled ts else t ∷ retain_running cancelled ts

-- `while live.len() > MAX_LIVE_TRANSCODES` take the oldest out and cancel it.
unfoldable pub evict : List ℕ → (ℕ → Bool) → Streams
evict [] cancelled = record { live = []; cancelled = cancelled }
evict (t ∷ ts) cancelled =
    let rest = evict ts (cancel t cancelled) in
    if ltb max_live_transcodes (length (t ∷ ts))
    then rest
    else record { live = t ∷ ts; cancelled = cancelled }

unfoldable pub admit_transcode : Streams → ℕ → Streams
unfolding retain_running evict
admit_transcode s token = evict (retain_running s.cancelled s.live ++ token ∷ []) s.cancelled

-- What happens to the streams of a server: a new one is admitted under a token of its own, or the
-- process of one ends and frees its slot.
pub data Event : Type 0 where
  admit : Event
  finish : ℕ → Event

-- The streams, and the number of tokens handed out.
pub record Server : Type 0 where
  pub streams : Streams
  pub issued : ℕ

unfoldable pub step : Server → Event → Server
unfolding admit_transcode
step s admit = record { streams = admit_transcode s.streams s.issued; issued = s.issued + 1 }
step s (finish token) = record s {
  streams = record (s.streams) { cancelled = cancel token s.streams.cancelled };
}

unfoldable pub run : Server → List Event → Server
run s [] = s
run s (e ∷ es) = run (step s e) es

abbrev pub start : Server
start = record { streams = record { live = []; cancelled = λ t. false }; issued = 0 }

abbrev pub AllBelow : ℕ → List ℕ → Type 0
AllBelow n [] = Unit
AllBelow n (t ∷ ts) = (t < n) × AllBelow n ts

-- Every stream that still runs is in the queue, and the queue is within its bound.
pub record Inv (s : Server) : Type 0 where
  pub bounded : length s.streams.live ≤ max_live_transcodes
  pub registered : (t : ℕ) → t < s.issued → s.streams.cancelled t ≡ false → In t s.streams.live

In-retain_running :
    (cancelled : ℕ → Bool) (t : ℕ) (ts : List ℕ)
    → cancelled t ≡ false
    → In t ts
    → In t (retain_running cancelled ts)
unfolding retain_running
In-retain_running cancelled t [] r i = i
In-retain_running cancelled t (u ∷ us) r (inl e) = ground arith
In-retain_running cancelled t (u ∷ us) r (inr k) =
    ground (arith, In-retain_running cancelled t us r k)

length-evict : (ts : List ℕ) (cancelled : ℕ → Bool) → length (evict ts cancelled).live ≤ 2
unfolding evict
length-evict [] cancelled = omega arith
length-evict (t ∷ ts) cancelled = ground (arith, length-evict ts (cancel t cancelled))

-- What is evicted is cancelled: a token that runs on stays in the queue, and ran before.
evict-running :
    (ts : List ℕ) (cancelled : ℕ → Bool) (t : ℕ)
    → (evict ts cancelled).cancelled t ≡ false
    → (cancelled t ≡ false) × (In t ts → In t (evict ts cancelled).live)
unfolding evict
evict-running [] cancelled t h = (h, λ i. i)
evict-running (u ∷ us) cancelled t h =
    elim (Bool-cases (ltb max_live_transcodes (length (u ∷ us)))) [
      | inr few ↦ ground arith
      | inl many ↦
          let (ran, kept) = evict-running us (cancel u cancelled) t (ground arith) in
          (ground arith, rw many λ i. elim i [ inl e ↦ absurd (ground arith) | inr k ↦ kept k ])
    ]

admit-registered :
    (s : Streams) (n t : ℕ)
    → ((u : ℕ) → u < n → s.cancelled u ≡ false → In u s.live)
    → t < n + 1
    → (admit_transcode s n).cancelled t ≡ false
    → In t (admit_transcode s n).live
unfolding admit_transcode
admit-registered s n t old l h =
    let running = retain_running s.cancelled s.live in
    let (ran, kept) = evict-running (running ++ n ∷ []) s.cancelled t h in
    kept (
      (In-append t running (n ∷ [])).1 (elim (Bool-cases (t == n)) [
        | inl e ↦ inr (inl (ground arith))
        | inr e ↦ inl (In-retain_running s.cancelled t s.live ran (old t (ground arith) ran))
      ]))

start-Inv : Inv start
start-Inv = record { bounded = omega arith; registered = λ t l h. absurd (omega arith) }

step-Inv : (s : Server) (e : Event) → Inv s → Inv (step s e)
unfolding step
step-Inv s admit h = record {
  bounded =
      unfold admit_transcode in
      length-evict (retain_running s.streams.cancelled s.streams.live ++ s.issued ∷ [])
        s.streams.cancelled;
  registered = λ t l r. admit-registered s.streams s.issued t h.registered l r;
}
step-Inv s (finish token) h = record {
  bounded = h.bounded;
  registered = λ t l r. h.registered t l (ground arith);
}

run-Inv : (s : Server) (es : List Event) → Inv s → Inv (run s es)
unfolding run
run-Inv s [] h = h
run-Inv s (e ∷ es) h = run-Inv (step s e) es (step-Inv s e h)

-- However streams are requested and end, at most two ffmpeg streams are registered, and every
-- stream that was admitted and is not cancelled is one of them.
pub run-start-Inv : (es : List Event) → Inv (run start es)
run-start-Inv es = run-Inv start es start-Inv

evict-drop :
    (ts : List ℕ) (cancelled : ℕ → Bool)
    → (evict ts cancelled).live ≡ drop (length ts - max_live_transcodes) ts
unfolding evict
evict-drop [] cancelled = refl
evict-drop (t ∷ []) cancelled = refl
evict-drop (t ∷ u ∷ []) cancelled = refl
evict-drop (t ∷ u ∷ v ∷ ts) cancelled =
    let one_more : length (t ∷ u ∷ v ∷ ts) - max_live_transcodes ≡ suc (length (u ∷ v ∷ ts) - 2) =
      omega arith in
    let many : ltb max_live_transcodes (length (t ∷ u ∷ v ∷ ts)) ≡ true = ground arith in
    simp (many, one_more) (evict-drop (u ∷ v ∷ ts) (cancel t cancelled))

evict-newest :
    (ts : List ℕ) (cancelled : ℕ → Bool) (token : ℕ)
    → AllBelow token ts
    → (evict (ts ++ token ∷ []) cancelled).cancelled token ≡ cancelled token
unfolding evict
evict-newest [] cancelled token h = refl
evict-newest (t ∷ ts) cancelled token h =
    ground (arith, evict-newest ts (cancel t cancelled) token h.1)

AllBelow-retain :
    (cancelled : ℕ → Bool) (n : ℕ) (ts : List ℕ)
    → AllBelow n ts
    → AllBelow n (retain_running cancelled ts)
unfolding retain_running
AllBelow-retain cancelled n [] h = tt
AllBelow-retain cancelled n (t ∷ ts) h = ground (arith, AllBelow-retain cancelled n ts h.1)

evict-cancelled :
    (ts : List ℕ) (cancelled : ℕ → Bool) (t : ℕ)
    → cancelled t ≡ true
    → (evict ts cancelled).cancelled t ≡ true
evict-cancelled ts cancelled t h = elim (Bool-cases ((evict ts cancelled).cancelled t)) [
  | inl e ↦ e
  | inr e ↦ let ran = (evict-running ts cancelled t e).0 in cc (h, ran)
]

evict-take :
    (ts : List ℕ) (cancelled : ℕ → Bool) (t : ℕ)
    → In t (take (length ts - max_live_transcodes) ts)
    → (evict ts cancelled).cancelled t ≡ true
unfolding evict
evict-take [] cancelled t i = absurd i
evict-take (u ∷ []) cancelled t i = absurd i
evict-take (u ∷ v ∷ []) cancelled t i = absurd i
evict-take (u ∷ v ∷ w ∷ ts) cancelled t i =
    let one_more : length (u ∷ v ∷ w ∷ ts) - max_live_transcodes ≡ suc (length (v ∷ w ∷ ts) - 2) =
      omega arith in
    let many : ltb max_live_transcodes (length (u ∷ v ∷ w ∷ ts)) ≡ true = ground arith in
    let taken : (t ≡ u) ⊎ In t (take (length (v ∷ w ∷ ts) - 2) (v ∷ w ∷ ts)) = rw one_more at i in
    simp many (elim taken [
      | inl e ↦ evict-cancelled (v ∷ w ∷ ts) (cancel u cancelled) t (ground arith)
      | inr k ↦ evict-take (v ∷ w ∷ ts) (cancel u cancelled) t k
    ])

-- Admitting a stream keeps the newest two of those that run, cancels all the others of them, and
-- leaves the new one as it was.
pub admit_transcode_newest :
    (s : Streams) (token : ℕ)
    → AllBelow token s.live
    → let queue = retain_running s.cancelled s.live ++ token ∷ [] in
      ((admit_transcode s token).live ≡ drop (length queue - max_live_transcodes) queue)
      × ((t : ℕ)
          → In t (take (length queue - max_live_transcodes) queue)
          → (admit_transcode s token).cancelled t ≡ true)
      × ((admit_transcode s token).cancelled token ≡ s.cancelled token)
unfolding admit_transcode
admit_transcode_newest s token fresh = (
  evict-drop (retain_running s.cancelled s.live ++ token ∷ []) s.cancelled,
  λ t i. evict-take (retain_running s.cancelled s.live ++ token ∷ []) s.cancelled t i,
  evict-newest (retain_running s.cancelled s.live) s.cancelled token
      (AllBelow-retain s.cancelled token s.live fresh),
)
