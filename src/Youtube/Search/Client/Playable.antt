-- ===== src/Youtube/Search/Client/Playable.antt =====
-- src/youtube.rs: what YouTube::search picks, and where it found it.
use homeassistant_local_voic.Base.{
  ℕ, ◌<◌, ◌≡◌, ◌≢◌, ◌⊎◌, inl, inr, refl, ap, sym, ◌∙◌, Bool, true, false, Option, none, some, List,
  [], ◌∷◌, ◌||◌, arith, Bool-cases, if◌then◌else◌,
}
use mathlib.Core.Path.{subst}
use homeassistant_local_voic.Youtube.{
  Video, Item, Kind, playable, is_long, videos, find_long, first_of, pick_from_search,
}

abbrev pub In : {A : Type 0} → A → List A → Type 0
In x [] = ⊥
In x (y ∷ ys) = (x ≡ y) ⊎ In x ys

-- YouTube gives no duration, or one above a minute.
abbrev pub IsLong : Option ℕ → Type 0
IsLong none = Unit
IsLong (some d) = 60 < d

-- Neither a Short nor a coming premiere.
abbrev pub IsPlayable : Video → Type 0
IsPlayable v = (v.short ≡ false) × (v.upcoming ≡ false) × IsLong v.duration_secs

find_long-In : (vs : List Video) {v : Video} → find_long vs ≡ some v → In v vs
unfolding find_long
find_long-In [] {v} h = cc
find_long-In (u ∷ vs) {v} h = elim (Bool-cases (u.live || is_long u.duration_secs)) [
  | inl long ↦ inl (ground arith)
  | inr short ↦ inr (find_long-In vs (ground arith))
]

taken :
    (u v : Video) (items : List Item)
    → playable u ≡ true
    → (In v (videos items) → In (Item.video v) items × (playable v ≡ true))
    → In v (u ∷ videos items)
    → In (Item.video v) (Item.video u ∷ items) × (playable v ≡ true)
taken u v items plays others (inl same) =
    (inl (ap Item.video same), subst (λ w. playable w ≡ true) (sym same) plays)
taken u v items plays others (inr later) = let (rest, p) = others later in (inr rest, p)

pub videos-In :
    (items : List Item) (v : Video)
    → In v (videos items)
    → In (Item.video v) items × (playable v ≡ true)
unfolding videos
videos-In [] v h = absurd h
videos-In (Item.channel_item c ∷ items) v h =
    let (rest, plays) = videos-In items v h in (inr rest, plays)
videos-In (Item.video u ∷ items) v h = elim (Bool-cases (playable u)) [
  | inr skipped ↦ let (rest, plays) = videos-In items v (rw skipped at h) in (inr rest, plays)
  | inl plays ↦ taken u v items plays (videos-In items v) (rw plays at h)
]

some-pair :
    {a k : Kind} {u v : Video}
    → ◌≡◌ {A = Option (Kind × Video)} (some (a, u)) (some (k, v))
    → (a ≡ k) × (u ≡ v)
some-pair h = (cc, cc)

live-ne :
    (b : Bool) (other : Kind)
    → other ≢ Kind.channel_latest
    → (if b then Kind.live_stream else other) ≢ Kind.channel_latest
live-ne true other h e = cc
live-ne false other h e = h e

first_of-In :
    (vs : List Video) {k : Kind} {v : Video}
    → first_of vs ≡ some (k, v)
    → (k ≢ Kind.channel_latest) × In v vs
first_of-In [] h = cc
first_of-In (u ∷ vs) {k} {v} h =
    let (kind, same) = some-pair h in
    (λ latest. live-ne u.live Kind.single (λ e. cc) (kind ∙ latest), inl (sym same))

abbrev of_genre : List Video → Option Video → Option (Kind × Video)
of_genre vs none = first_of vs
of_genre vs (some v) = some (if v.live then Kind.live_stream else Kind.mix, v)

of_genre-In :
    (vs : List Video) (long : Option Video) {k : Kind} {v : Video}
    → ((u : Video) → long ≡ some u → In u vs)
    → of_genre vs long ≡ some (k, v)
    → (k ≢ Kind.channel_latest) × In v vs
of_genre-In vs none found h = first_of-In vs h
of_genre-In vs (some u) {k} {v} found h =
    let (kind, same) = some-pair h in
    (
      λ latest. live-ne u.live Kind.mix (λ e. cc) (kind ∙ latest),
      subst (λ w. In w vs) same (found u refl),
    )

-- What is picked from the results is one of the videos, and no latest video of a channel.
pub pick_from_search-In :
    (items : List Item) (genre : Bool) {k : Kind} {v : Video}
    → pick_from_search items genre ≡ some (k, v)
    → (k ≢ Kind.channel_latest) × In v (videos items)
unfolding pick_from_search
pick_from_search-In items true {k} {v} h =
    of_genre-In (videos items) (find_long (videos items)) (λ u e. find_long-In (videos items) e) h
pick_from_search-In items false {k} {v} h = first_of-In (videos items) h
