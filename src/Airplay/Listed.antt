-- ===== src/Airplay/Listed.antt =====
-- src/airplay.rs: the loop of `parse_playback_info` against the dictionary that the events are of.
use unicast.Base.{
  ℕ, zero, suc, ◌≤◌, arith, ◌≡◌, refl, ap, ◌∙◌, Bool, true, false, Option, none, some, List, [],
  ◌∷◌, Text, codes, eq_text, if◌then◌else◌, length, Platform,
}
use unicast.Airplay.{
  Event, start_array, start_dictionary, end_collection, real_event, integer_event, string_event,
  other_event, Readings, Reading, reading, readings_of, Turn, next, refused, done, number_of, note,
  deeper, nested, key_turn, value_turn, turn, read_events, max_playback_info_events, info_from,
  no_readings, parse_playback_info,
}

-- A value that is no collection.
pub data Scalar (F : Type 0) : Type 0 where
  real_value : F → Scalar F
  integer_value : Option F → Scalar F
  string_value : Text → Scalar F
  other_value : Scalar F

-- What a collection holds: scalars, keys among them, and collections, arrays or dictionaries.
pub data Content (F : Type 0) : Type 0 where
  nothing : Content F
  scalar : Scalar F → Content F → Content F
  collection : Bool → Content F → Content F → Content F

-- The value of a key of the top-level dictionary.
pub data Entry (F : Type 0) : Type 0 where
  plain : Scalar F → Entry F
  group : Bool → Content F → Entry F

pub data Entries (F : Type 0) : Type 0 where
  no_entries : Entries F
  entry : Text → Entry F → Entries F → Entries F

module _ {F : Type 0} where
  unfoldable pub scalar_event : Scalar F → Event F
  scalar_event (real_value x) = real_event x
  scalar_event (integer_value x) = integer_event x
  scalar_event (string_value s) = string_event s
  scalar_event other_value = other_event

  unfoldable pub opener : Bool → Event F
  opener true = start_array
  opener false = start_dictionary

  -- The events of a content, of an entry's value and of entries, before those that follow.
  unfoldable pub content_events : Content F → List (Option (Event F)) → List (Option (Event F))
  unfolding scalar_event opener
  content_events nothing rest = rest
  content_events (scalar s c) rest = some (scalar_event s) ∷ content_events c rest
  content_events (collection array inner c) rest =
      some (opener array) ∷ content_events inner (some end_collection ∷ content_events c rest)

  unfoldable pub value_events : Entry F → List (Option (Event F)) → List (Option (Event F))
  unfolding scalar_event opener content_events
  value_events (plain s) rest = some (scalar_event s) ∷ rest
  value_events (group array inner) rest =
      some (opener array) ∷ content_events inner (some end_collection ∷ rest)

  unfoldable pub entries_events : Entries F → List (Option (Event F)) → List (Option (Event F))
  unfolding value_events
  entries_events no_entries rest = rest
  entries_events (entry name v es) rest =
      some (string_event name) ∷ value_events v (entries_events es rest)

  unfoldable pub value_number : Entry F → Option F
  value_number (plain (real_value x)) = some x
  value_number (plain (integer_value x)) = x
  value_number _ = none

  unfoldable pub unless_error : Text → Option (Readings F) → Option (Readings F)
  unless_error name r = if eq_text name (codes "error") then none else r

  -- The last number of each of the three keys, and nothing where a key is `error`.
  unfoldable pub noted : Entries F → Readings F → Option (Readings F)
  unfolding unless_error note value_number
  noted no_entries r = some r
  noted (entry name v es) r = unless_error name (noted es (note name (value_number v) r))

  -- What is left of a budget of as many events as follow is `n`.
  content_cost : Content F → ℕ → ℕ
  content_cost nothing n = n
  content_cost (scalar s c) n = suc (content_cost c n)
  content_cost (collection array inner c) n = suc (content_cost inner (suc (content_cost c n)))

  value_cost : Entry F → ℕ → ℕ
  unfolding content_cost
  value_cost (plain s) n = suc n
  value_cost (group array inner) n = suc (content_cost inner (suc n))

  entries_cost : Entries F → ℕ → ℕ
  unfolding value_cost
  entries_cost no_entries n = n
  entries_cost (entry name v es) n = suc (value_cost v (entries_cost es n))

  length-content_events :
      (c : Content F) (rest : List (Option (Event F)))
      → length (content_events c rest) ≡ content_cost c (length rest)
  unfolding content_events content_cost
  length-content_events nothing rest = refl
  length-content_events (scalar s c) rest = ap suc (length-content_events c rest)
  length-content_events (collection array inner c) rest = ap suc (
      length-content_events inner (some end_collection ∷ content_events c rest)
      ∙ ap (λ n. content_cost inner (suc n)) (length-content_events c rest))

  length-value_events :
      (v : Entry F) (rest : List (Option (Event F)))
      → length (value_events v rest) ≡ value_cost v (length rest)
  unfolding value_events value_cost
  length-value_events (plain s) rest = refl
  length-value_events (group array inner) rest =
      ap suc (length-content_events inner (some end_collection ∷ rest))

  length-entries_events :
      (es : Entries F) (rest : List (Option (Event F)))
      → length (entries_events es rest) ≡ entries_cost es (length rest)
  unfolding entries_events entries_cost
  length-entries_events no_entries rest = refl
  length-entries_events (entry name v es) rest = ap suc (
      length-value_events v (entries_events es rest)
      ∙ ap (value_cost v) (length-entries_events es rest))

  -- The content of a nested collection is read over.
  read_events-content :
      (c : Content F) (d : ℕ) (key : Option Text) (r : Readings F) (n : ℕ)
      → (rest : List (Option (Event F)))
      → read_events (content_cost c n) (reading (suc (suc d)) key r) (content_events c rest)
        ≡ read_events n (reading (suc (suc d)) key r) rest
  unfolding read_events turn nested content_cost content_events scalar_event opener
  read_events-content nothing d key r n rest = refl
  read_events-content (scalar (real_value x) c) d key r n rest =
      read_events-content c d key r n rest
  read_events-content (scalar (integer_value x) c) d key r n rest =
      read_events-content c d key r n rest
  read_events-content (scalar (string_value s) c) d key r n rest =
      read_events-content c d key r n rest
  read_events-content (scalar other_value c) d key r n rest = read_events-content c d key r n rest
  read_events-content (collection true inner c) d key r n rest =
      read_events-content inner (suc d) key r (suc (content_cost c n))
        (some end_collection ∷ content_events c rest)
      ∙ read_events-content c d key r n rest
  read_events-content (collection false inner c) d key r n rest =
      read_events-content inner (suc d) key r (suc (content_cost c n))
        (some end_collection ∷ content_events c rest)
      ∙ read_events-content c d key r n rest

  -- A turn that is refused where `b` holds.
  turn_if :
      (b : Bool) (later : Reading F) (over : Option (Readings F))
      → (k : Reading F → Option (Readings F))
      → (elim (if b then refused else next later) [
        | refused ↦ none
        | done ↦ over
        | next state ↦ k state
      ])
        ≡ (if b then none else k later)
  turn_if true later over k = refl
  turn_if false later over k = refl

  read_events-value :
      (name : Text) (v : Entry F) (r : Readings F) (n : ℕ) (rest : List (Option (Event F)))
      → read_events (value_cost v n) (reading 1 (some name) r) (value_events v rest)
        ≡ unless_error name (read_events n (reading 1 none (note name (value_number v) r)) rest)
  unfolding read_events turn value_turn deeper number_of value_cost value_events scalar_event opener
      unless_error note value_number nested
  read_events-value name (plain (real_value x)) r n rest =
      turn_if (eq_text name (codes "error")) _ _ (λ s. read_events n s rest)
  read_events-value name (plain (integer_value x)) r n rest =
      turn_if (eq_text name (codes "error")) _ _ (λ s. read_events n s rest)
  read_events-value name (plain (string_value x)) r n rest =
      turn_if (eq_text name (codes "error")) _ _ (λ s. read_events n s rest)
  read_events-value name (plain other_value) r n rest =
      turn_if (eq_text name (codes "error")) _ _ (λ s. read_events n s rest)
  read_events-value name (group true inner) r n rest =
      turn_if (eq_text name (codes "error")) _ _ (λ s.
        read_events (content_cost inner (suc n)) s
          (content_events inner (some end_collection ∷ rest)))
      ∙ ap (unless_error name)
          (read_events-content inner 0 none r (suc n) (some end_collection ∷ rest))
  read_events-value name (group false inner) r n rest =
      turn_if (eq_text name (codes "error")) _ _ (λ s.
        read_events (content_cost inner (suc n)) s
          (content_events inner (some end_collection ∷ rest)))
      ∙ ap (unless_error name)
          (read_events-content inner 0 none r (suc n) (some end_collection ∷ rest))

  read_events-entries :
      (es : Entries F) (r : Readings F) (n : ℕ) (rest : List (Option (Event F)))
      → read_events
          (entries_cost es (suc n))
          (reading 1 none r)
          (entries_events es (some end_collection ∷ rest))
        ≡ noted es r
  unfolding read_events turn key_turn readings_of entries_cost entries_events noted
  read_events-entries no_entries r n rest = refl
  read_events-entries (entry name v es) r n rest =
      read_events-value name v r (entries_cost es (suc n))
        (entries_events es (some end_collection ∷ rest))
      ∙ ap (unless_error name) (read_events-entries es (note name (value_number v) r) n rest)

  follow_both :
      {f g : Reading F → Option (Readings F)} (t : Turn F) (over : Option (Readings F))
      → ((s : Reading F) → f s ≡ g s)
      → (elim t [ refused ↦ none | done ↦ over | next s ↦ f s ])
        ≡ (elim t [ refused ↦ none | done ↦ over | next s ↦ g s ])
  follow_both refused over same = refl
  follow_both done over same = refl
  follow_both (next s) over same = same s

  -- A larger budget than there are events reads the same.
  read_events-budget :
      (budget : ℕ) (events : List (Option (Event F))) (state : Reading F)
      → length events ≤ budget
      → read_events budget state events ≡ read_events (length events) state events
  unfolding read_events
  read_events-budget budget [] state fits = refl
  read_events-budget zero (event ∷ events) state fits = absurd (omega arith)
  read_events-budget (suc budget) (none ∷ events) state fits = refl
  read_events-budget (suc budget) (some event ∷ events) state fits =
      follow_both (turn event state) _ λ s. read_events-budget budget events s (omega arith)

module _ (platform : Platform) where
  open platform use {F64}

  -- A dictionary of which at most 4096 events are left after its start, those behind its end
  -- included, is read as the last numbers of `position`, `duration` and `rate`, whatever else it
  -- holds at any depth, and refused where one of its own keys is `error`.
  pub parse_playback_info-entries :
      (es : Entries F64) (rest : List (Option (Event F64)))
      → length (entries_events es (some end_collection ∷ rest)) ≤ 4096
      → parse_playback_info platform
          (some start_dictionary ∷ entries_events es (some end_collection ∷ rest))
        ≡ info_from platform (noted es (no_readings platform))
  unfolding parse_playback_info max_playback_info_events noted
  parse_playback_info-entries es rest fits = ap (info_from platform) (
      read_events-budget 4096 (entries_events es (some end_collection ∷ rest)) _ fits
      ∙ ap
          (λ n.
            read_events n (reading 1 none (no_readings platform))
              (entries_events es (some end_collection ∷ rest)))
          (length-entries_events es (some end_collection ∷ rest))
      ∙ read_events-entries es (no_readings platform) (length rest) rest)
