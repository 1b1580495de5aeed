-- ===== src/Subtitles/Discover/Numbered.antt =====
-- src/subtitles.rs: the ids of the tracks.
use unicast.Base.{
  ℕ, zero, suc, ◌+◌, ◌≤◌, some, List, [], ◌∷◌, Text, length, length-take, get_elem?, take, ◌≡◌,
  refl, ap, arith, Platform,
}
use unicast.Subtitles.{SubtitleTrack}
use unicast.Subtitles.Discover.{
  Candidate, Surroundings, number_from, track_of, candidates, discover, max_tracks,
}

length-number_from : (id : ℕ) (cs : List Candidate) → length (number_from id cs) ≡ length cs
unfolding number_from
length-number_from id [] = refl
length-number_from id (c ∷ cs) = omega (arith, length-number_from (id + 1) cs)

-- The track at a place has the id that counts from the first one.
pub number_from-id :
    (id i : ℕ) (cs : List Candidate) {t : SubtitleTrack}
    → get_elem? (number_from id cs) i ≡ some t
    → t.id ≡ id + i
unfolding number_from track_of
number_from-id id i [] h = cc
number_from-id id zero (c ∷ cs) {t} h =
    let first : track_of id c ≡ t = cc in omega (arith, ap (λ (t : SubtitleTrack). t.id) first)
number_from-id id (suc i) (c ∷ cs) {t} h = omega (arith, number_from-id (id + 1) i cs h)

module _ (platform : Platform) where
  pub discover_few :
      (around : Surroundings) (media : Text) → length (discover platform around media) ≤ max_tracks
  unfolding discover
  discover_few around media = omega (
    arith,
    length-number_from 1 (take max_tracks (candidates platform around media)),
    length-take max_tracks (candidates platform around media),
  )
