-- ===== src/Server/File.antt =====
-- src/media_server.rs: `file_response`. `Disk` is what the file system answers during the call:
-- the size of the pinned file, and whether it can be opened and seeked.
pub mod Whole
use unicast.Base.{
  ℕ, ◌+◌, ◌-◌, ◌≤◌, ◌<◌, ◌≡◌, refl, min, Bool, true, false, not, ◌&&◌, ◌||◌, Option, none, some,
  List, [], ◌∷◌, ◌++◌, Text, codes, arith, ltb, leb, ◌==◌, if◌then◌else◌, strip_prefix,
  contains_char, print_nat, inl, inr, Bool-cases, IsDigits, print_nat-IsDigits, strip_prefix-append,
  subst, ◌⊎◌,
}
use unicast.Server.{header, Response, respond, plain, slice, empty, dlna_headers}
use unicast.Server.Range.{
  parse_range, Spec, between, from, suffix, show_spec, meaning, FitsU64, parse_range-show_spec,
}

pub record Disk : Type 0 where
  pub size : Option ℕ
  pub opens : Bool
  pub seeks : Bool

-- The byte positions to serve, and whether they answer a `Range` header.
pub record Wanted : Type 0 where
  pub start : ℕ
  pub end : ℕ
  pub partial : Bool

spec_range : Option Text → ℕ → Option (ℕ × ℕ)
spec_range none size = none
spec_range (some spec) size = if contains_char b',' spec then none else parse_range spec size

unfoldable pub accepted_range : Option Text → ℕ → Option (ℕ × ℕ)
unfolding spec_range
accepted_range none size = none
accepted_range (some value) size = spec_range (strip_prefix (codes "bytes=") value) size

wanted_of : Option (ℕ × ℕ) → ℕ → Wanted
wanted_of none size = record { start = 0; end = size - 1; partial = false }
wanted_of (some (low, high)) size = record {
  start = low;
  end = min high (size - 1);
  partial = true;
}

-- The header is given where its value is visible ASCII (`to_str` succeeds).
unfoldable pub wanted : Option Text → ℕ → Wanted
unfolding spec_range accepted_range wanted_of
wanted range size = wanted_of (accepted_range range size) size

abbrev pub content_range : ℕ → ℕ → ℕ → Text
content_range start end size =
    codes "bytes " ++ (print_nat start ++ (b'-' ∷ (print_nat end ++ (b'/' ∷ print_nat size))))

range_header : Wanted → ℕ → List (Text × Text)
range_header w size =
    if w.partial then (codes "content-range", content_range w.start w.end size) ∷ [] else []

serve_slice : Text → Disk → ℕ → Wanted → Response
unfolding range_header
serve_slice content_type disk size w =
    let length = w.end - w.start + 1 in
    if not disk.opens
    then plain 404
    else (if not disk.seeks
        then plain 500
        else respond (if w.partial then 206 else 200)
            (dlna_headers ((codes "accept-ranges", codes "bytes") ∷ []) content_type false
              ++ (range_header w size ++ (codes "content-length", print_nat length) ∷ []))
            (slice w.start length))

serve_file : Text → Disk → ℕ → Wanted → Response
serve_file content_type disk size w =
    if size == 0 && not w.partial
    then respond 200
        (dlna_headers
          ((codes "accept-ranges", codes "bytes") ∷ (codes "content-length", codes "0") ∷ [])
          content_type false)
        empty
    else (if ltb w.end w.start || leb size w.start
        then respond 416
            ((codes "content-range", codes "bytes */" ++ print_nat size)
              ∷ (codes "content-length", codes "0")
              ∷ [])
            empty
        else serve_slice content_type disk size w)

sized_response : Text → Disk → Option Text → Option ℕ → Response
sized_response content_type disk range none = plain 404
sized_response content_type disk range (some size) =
    serve_file content_type disk size (wanted range size)

unfoldable pub file_response : Text → Disk → Option Text → Response
unfolding serve_slice serve_file sized_response
file_response content_type disk range = sized_response content_type disk range disk.size

-- The bytes that a response streams, for a file of `size` bytes.
pub record Streams (size start length : ℕ) (r : Response) : Type 0 where
  pub body : r.body ≡ slice start length
  pub within : start + length ≤ size
  pub some_bytes : 0 < length
  pub announced : header (codes "content-length") r.headers ≡ some (print_nat length)

module _ (content_type : Text) (disk : Disk) (size : ℕ) (w : Wanted) where
  serve_slice-Streams :
      disk.opens ≡ true
      → disk.seeks ≡ true
      → w.start ≤ w.end
      → w.end < size
      → Streams size w.start (w.end - w.start + 1) (serve_slice content_type disk size w)
  unfolding serve_slice header
  serve_slice-Streams o k ordered inside = elim (Bool-cases w.partial) [
    | inl p ↦ record {
      body = simp (o, k);
      within = omega arith;
      some_bytes = omega arith;
      announced = simp (o, k, p);
    }
    | inr p ↦ record {
      body = simp (o, k);
      within = omega arith;
      some_bytes = omega arith;
      announced = simp (o, k, p);
    }
  ]

  serve_slice-partial :
      disk.opens ≡ true
      → disk.seeks ≡ true
      → w.partial ≡ true
      → ((serve_slice content_type disk size w).status ≡ 206)
        × (header (codes "content-range") (serve_slice content_type disk size w).headers
            ≡ some (content_range w.start w.end size))
  unfolding serve_slice header
  serve_slice-partial o k p = (simp (o, k, p), simp (o, k, p))

  serve_file-slice :
      w.start ≤ w.end
      → w.end < size
      → serve_file content_type disk size w ≡ serve_slice content_type disk size w
  unfolding serve_file
  serve_file-slice ordered inside = ground arith

-- The `Range` header that a client writes for a specification.
abbrev pub range_value : Spec → Text
range_value spec = codes "bytes=" ++ show_spec spec

digits-no_comma : (s : Text) → IsDigits s → contains_char b',' s ≡ false
unfolding contains_char
digits-no_comma [] h = refl
digits-no_comma (c ∷ s) h = ground (arith, digits-no_comma s)

no_comma-append :
    (s t : Text)
    → contains_char b',' s ≡ false
    → contains_char b',' t ≡ false
    → contains_char b',' (s ++ b'-' ∷ t) ≡ false
unfolding contains_char
no_comma-append [] t h k = k
no_comma-append (c ∷ s) t h k = ground (arith, no_comma-append s t)

spec-no_comma : (spec : Spec) → contains_char b',' (show_spec spec) ≡ false
unfolding show_spec
spec-no_comma (between low high) =
    no_comma-append _ _ (digits-no_comma _ (print_nat-IsDigits low))
      (digits-no_comma _ (print_nat-IsDigits high))
spec-no_comma (from low) =
    no_comma-append _ [] (digits-no_comma _ (print_nat-IsDigits low)) (unfold contains_char in refl)
spec-no_comma (suffix n) =
    no_comma-append [] _ (unfold contains_char in refl) (digits-no_comma _ (print_nat-IsDigits n))

accepted_range-spec :
    (spec : Spec) (size : ℕ)
    → FitsU64 spec
    → accepted_range (some (range_value spec)) size ≡ meaning spec size
unfolding accepted_range spec_range
accepted_range-spec spec size h =
    rw (strip_prefix-append (codes "bytes=") (show_spec spec), spec-no_comma spec)
      (parse_range-show_spec spec size h)

-- A range that begins inside the file is answered by 206 with the bytes asked for, cut at the end
-- of the file, and the headers name those bytes and their number.
pub file_response_partial :
    (content_type : Text) (disk : Disk) (spec : Spec) (size low high : ℕ)
    → disk.size ≡ some size
    → disk.opens ≡ true
    → disk.seeks ≡ true
    → FitsU64 spec
    → meaning spec size ≡ some (low, high)
    → low ≤ high
    → low < size
    → let last = min high (size - 1) in
      let r = file_response content_type disk (some (range_value spec)) in
      (r.status ≡ 206)
      × Streams size low (last - low + 1) r
      × (header (codes "content-range") r.headers ≡ some (content_range low last size))
unfolding file_response wanted
file_response_partial content_type disk spec size low high s o k fits m ordered inside =
    let w : Wanted = record { start = low; end = min high (size - 1); partial = true } in
    let sliced = serve_file-slice content_type disk size w (omega arith) (omega arith) in
    let (status, named) = serve_slice-partial content_type disk size w o k refl in
    simp (s, accepted_range-spec spec size fits, m, sliced)
      (status, serve_slice-Streams content_type disk size w o k (omega arith) (omega arith), named)

-- Without a usable range, the whole file is streamed under status 200.
pub file_response_whole :
    (content_type : Text) (disk : Disk) (range : Option Text) (size : ℕ)
    → disk.size ≡ some size
    → disk.opens ≡ true
    → disk.seeks ≡ true
    → 0 < size
    → accepted_range range size ≡ none
    → let r = file_response content_type disk range in (r.status ≡ 200) × Streams size 0 size r
unfolding file_response wanted
file_response_whole content_type disk range size s o k pos unused =
    let w : Wanted = record { start = 0; end = size - 1; partial = false } in
    let sliced = serve_file-slice content_type disk size w (omega arith) (omega arith) in
    let all : size - 1 - 0 + 1 ≡ size = omega arith in
    simp (s, unused, sliced)
      (
        (unfold serve_slice in simp (o, k)),
        subst (λ n. Streams size 0 n (serve_slice content_type disk size w)) all
            (serve_slice-Streams content_type disk size w o k (omega arith) (omega arith)),
      )

wanted_end : (range : Option Text) (size : ℕ) → 0 < size → (wanted range size).end < size
unfolding wanted
wanted_end range size pos = last (accepted_range range size)
  where
    last : (o : Option (ℕ × ℕ)) → (wanted_of o size).end < size
    last none = unfold wanted_of in omega arith
    last (some (low, high)) = unfold wanted_of in omega arith

-- The response streams nothing, or bytes of the file.
abbrev IsSafe : ℕ → Response → Type 0
IsSafe size r = (r.body ≡ empty) ⊎ ((start : ℕ) × (length : ℕ) × Streams size start length r)

serve_slice-IsSafe :
    (content_type : Text) (disk : Disk) (size : ℕ) (w : Wanted)
    → w.start ≤ w.end
    → w.end < size
    → IsSafe size (serve_slice content_type disk size w)
serve_slice-IsSafe content_type disk size w ordered inside = elim (Bool-cases disk.opens) [
  | inr o ↦ inl (unfold serve_slice in simp o)
  | inl o ↦ elim (Bool-cases disk.seeks) [
    | inr k ↦ inl (unfold serve_slice in simp (o, k))
    | inl k ↦ inr (
      w.start,
      w.end - w.start + 1,
      serve_slice-Streams content_type disk size w o k ordered inside,
    )
  ]
]

serve_file-IsSafe :
    (content_type : Text) (disk : Disk) (size : ℕ) (w : Wanted)
    → (0 < size → w.end < size)
    → IsSafe size (serve_file content_type disk size w)
serve_file-IsSafe content_type disk size w inside =
    elim (Bool-cases (ltb w.end w.start || leb size w.start)) [
      | inl refused ↦ inl (unfold serve_file in ground arith)
      | inr good ↦
          let ordered : w.start ≤ w.end = ground arith in
          let before_end : w.start < size = ground arith in
          rw (serve_file-slice content_type disk size w ordered (inside (omega arith)))
            (serve_slice-IsSafe content_type disk size w ordered (inside (omega arith)))
    ]

-- Whatever the `Range` header says, a response streams nothing, or a slice that is not empty, lies
-- inside the file and has its length announced in `Content-Length`.
pub file_response_safe :
    (content_type : Text) (disk : Disk) (range : Option Text) {size : ℕ}
    → disk.size ≡ some size
    → let r = file_response content_type disk range in
      (r.body ≡ empty) ⊎ ((start : ℕ) × (length : ℕ) × Streams size start length r)
unfolding file_response
file_response_safe content_type disk range {size} s =
    simp s (serve_file-IsSafe content_type disk size (wanted range size) (wanted_end range size))
