-- ===== src/Youtube/Pick.antt =====
-- What is picked from search results.
use homeassistant_local_voic.Base.{
  ◌≡◌, refl, Bool, true, false, Option, none, some, List, [], ◌∷◌, any, Bool-cases, inl, inr, ◌⊎◌,
  ◌||◌, ◌&&◌, not, if◌then◌else◌,
}
use homeassistant_local_voic.Youtube.{
  Item, Video, Kind, videos, find_long, pick_from_search, is_long, first_of,
}

-- Live, or at least 20 minutes long.
abbrev pub endless : Video → Bool
endless v = v.live || is_long v.duration_secs

-- `v` stands in `vs` behind videos that are all `skipped`.
pub data FirstAfter (skipped : Video → Bool) : List Video → Video → Type 0 where
  here : (v : Video) (vs : List Video) → FirstAfter skipped (v ∷ vs) v
  behind :
      {v : Video} (u : Video) {vs : List Video}
      → skipped u ≡ true
      → FirstAfter skipped vs v
      → FirstAfter skipped (u ∷ vs) v

abbrev Found : List Video → Option Video → Type 0
Found vs none = any endless vs ≡ false
Found vs (some v) = (endless v ≡ true) × FirstAfter (λ u. not (endless u)) vs v

further :
    (u : Video) (vs : List Video) (o : Option Video)
    → endless u ≡ false
    → Found vs o
    → Found (u ∷ vs) o
further u vs none short f = rw (short, f) refl
further u vs (some v) short (long, first) = (long, behind u (rw short refl) first)

find_long-Found : (vs : List Video) → Found vs (find_long vs)
unfolding find_long
find_long-Found [] = refl
find_long-Found (v ∷ vs) = elim (Bool-cases (endless v)) [
  | inl long ↦ rw (long, find_long) (long, here v vs)
  | inr short ↦ rw (short, find_long) (further v vs _ short (find_long-Found vs))
]

-- Nothing is picked if there is no video; for a genre, the first endless video is, as a mix unless it
-- is live; else the first video.
abbrev pub Picked : Bool → List Video → Option (Kind × Video) → Type 0
Picked genre vs none = vs ≡ []
Picked genre vs (some (k, v)) =
    ((genre ≡ true)
      × (endless v ≡ true)
      × (k ≡ (if v.live then Kind.live_stream else Kind.mix))
      × FirstAfter (λ u. not (endless u)) vs v)
    ⊎ (((genre && any endless vs) ≡ false)
        × (k ≡ (if v.live then Kind.live_stream else Kind.single))
        × (rest : List Video) × (vs ≡ v ∷ rest))

first-Picked :
    (genre : Bool) (vs : List Video)
    → (genre && any endless vs) ≡ false
    → Picked genre vs (first_of vs)
first-Picked genre [] h = refl
first-Picked genre (v ∷ vs) h = inr (h, refl, vs, refl)

-- Of the playable videos of the search results, `pick_from_search` picks none only if there is none; for
-- a genre, it picks the first that is live or at least 20 minutes long, if there is one, as live or as
-- a mix; in all other cases the first, as live or as a video.
pub pick_from_search-Picked :
    (items : List Item) (genre : Bool) → Picked genre (videos items) (pick_from_search items genre)
unfolding pick_from_search
pick_from_search-Picked items false = first-Picked false (videos items) refl
pick_from_search-Picked items true =
    go (find_long (videos items)) refl (find_long-Found (videos items))
  where
    go :
        (o : Option Video)
        → find_long (videos items) ≡ o
        → Found (videos items) o
        → Picked true (videos items) (pick_from_search items true)
    go none q f = rw (q, pick_from_search) (first-Picked true (videos items) f)
    go (some v) q (long, first) = rw (q, pick_from_search) (inl (refl, long, refl, first))
