-- ===== src/Cast/Load/Answers.antt =====
-- src/cast.rs: the statuses that `load_media` takes for the answer to its request.
use unicast.Base.{
  ℕ, Bool, true, false, ◌||◌, Option, none, some, List, [], ◌∷◌, Text, ◌==◌, eq_text_iff,
  if◌then◌else◌, ◌≡◌, refl, ap, subst, ◌⊎◌, inl, inr, arith, Bool-cases, In,
}
use unicast.Daemon.Poll.{Entry}
use unicast.Cast.Load.{
  MediaResponse, status, load_failed, load_cancelled, invalid_request, error, other, Found,
  not_mine, mine, refused, done, Replies, is_idle, load_reply, holds_content, playing_content,
  any_playing,
}

holds_content-some :
    (content_id : Text) (o : Option Text) → holds_content content_id o ≡ true → o ≡ some content_id
unfolding holds_content
holds_content-some content_id none h = absurd (ground arith)
holds_content-some content_id (some loaded) h = ap some ((eq_text_iff loaded content_id).0 h)

module _ {F : Type 0} where
  -- An entry of a player that is not idle and holds the content.
  pub record Playing (content_id : Text) (entries : List (Entry F)) : Type 0 where
    pub entry : Entry F
    pub listed : In entry entries
    pub not_idle : is_idle entry.player_state ≡ false
    pub holds : entry.content_id ≡ some content_id

  -- What `receive_find_map` promises: what it returns, the test found in one of the messages that the
  -- receiver sent.
  abbrev pub FindsMine : List (MediaResponse F) → Replies F → Type 0
  FindsMine sent replies =
      (f : MediaResponse F → Found (List (Entry F))) (entries : List (Entry F))
      → replies.find_status f ≡ done entries
      → (m : MediaResponse F) × In m sent × (f m ≡ mine entries)

  any_playing-Playing :
      (content_id : Text) (entries : List (Entry F))
      → any_playing content_id entries ≡ true
      → Playing content_id entries
  unfolding any_playing playing_content
  any_playing-Playing content_id [] h = absurd (ground arith)
  any_playing-Playing content_id (entry ∷ entries) h =
      elim (Bool-cases (playing_content content_id entry)) [
        | inl e ↦ record {
          entry = entry;
          listed = inl refl;
          not_idle = ground arith;
          holds = holds_content-some content_id entry.content_id (ground arith);
        }
        | inr e ↦
            let p = any_playing-Playing content_id entries (ground arith) in
            record {
              entry = p.entry;
              listed = inr p.listed;
              not_idle = p.not_idle;
              holds = p.holds;
            }
      ]

  if_mine :
      (b : Bool) (found entries : List (Entry F))
      → (if b then mine found else not_mine) ≡ mine entries
      → (b ≡ true) × (found ≡ entries)
  if_mine true found entries h = (refl, cc)
  if_mine false found entries h = cc

  never_mine :
      (b : Bool) (m : Text) (entries : List (Entry F))
      → (if b then refused m else not_mine) ≡ mine entries
      → ⊥
  never_mine true m entries h = cc
  never_mine false m entries h = cc

  -- A message that is taken for the answer is a status with those entries, of the request or with
  -- the content playing.
  pub load_reply-Playing :
      (request_id : ℕ) (content_id : Text) (m : MediaResponse F) (entries : List (Entry F))
      → load_reply request_id content_id m ≡ mine entries
      → (id : ℕ) × (m ≡ status id entries) × ((id ≡ request_id) ⊎ Playing content_id entries)
  unfolding load_reply
  load_reply-Playing request_id content_id (status id found) entries h =
      let (taken, same) =
        if_mine (id == request_id || any_playing content_id found) found entries h in
      (
        id,
        ap (status id) same,
        elim (Bool-cases (id == request_id)) [
          | inl e ↦ inl (ground arith)
          | inr e ↦ inr (
              subst (Playing content_id) same (any_playing-Playing content_id found (ground arith)))
        ],
      )
  load_reply-Playing request_id content_id (load_failed id) entries h =
      absurd (never_mine (id == request_id) _ entries h)
  load_reply-Playing request_id content_id (load_cancelled id) entries h =
      absurd (never_mine (id == request_id) _ entries h)
  load_reply-Playing request_id content_id (invalid_request m) entries h = cc
  load_reply-Playing request_id content_id (error m) entries h = cc
  load_reply-Playing request_id content_id other entries h = cc
