-- ===== src/Jellyfin.antt =====
-- src/jellyfin.rs: which title the spoken words mean, and what plays. HTTP, and the trigrams of the fuzzy match,
-- are left out.
pub mod Order
pub mod Best
pub mod Play
pub mod Search
use homeassistant_local_voic.Base.{
  ℕ, zero, suc, ◌+◌, ◌-◌, ◌*◌, ◌/◌, ◌^◌, ltb, leb, ◌==◌, ◌&&◌, ◌||◌, not, Bool, true, false, Option,
  none, some, List, [], ◌∷◌, ◌++◌, length, get_elem?, take, any, all, map, min, if◌then◌else◌,
}
use homeassistant_local_voic.Base.Text.{
  Text, codes, less_text, text_eq, text_mem, trim, split, split_whitespace, join, is_empty,
  is_ascii_digit,
}
unfoldable pub use homeassistant_local_voic.Base.Decimal.{parse_u32}
use homeassistant_local_voic.Base.Int.{ℤ, pos, negsuc}
use homeassistant_local_voic.Json.{Value, at, as_str, obj}
use homeassistant_local_voic.Titles
use homeassistant_local_voic.Media.Docs.{as_bytes}

abbrev pub filler : List Text
filler =
    codes "the"
    ∷ codes "a"
    ∷ codes "an"
    ∷ codes "x"
    ∷ codes "by"
    ∷ codes "and"
    ∷ codes "ex"
    ∷ codes "of"
    ∷ codes "on"
    ∷ codes "jellyfin"
    ∷ []

pub record Item : Type 0 where
  pub id : Text
  pub name : Text
  pub kind : Text
  pub production_year : Option ℤ
  pub played : Bool
  pub playback_position_ticks : ℕ
  pub parent_index_number : Option ℕ
  pub index_number : Option ℕ
  pub series_id : Option Text
  pub series_name : Option Text

pub data Score : Type 0 where
  exact : Score
  main : Score
  all_words : Score

abbrev first_piece : List Text → Text → Text
first_piece [] title = title
first_piece (w ∷ ws) title = w

abbrev pub main_title : Text → Text
unfolding split
main_title title = first_piece (split (λ c. c == b':') title) title

abbrev without_filler : List Text → List Text
unfolding text_eq
without_filler [] = []
without_filler (w ∷ ws) =
    let rest = without_filler ws in if text_mem w filler then rest else w ∷ rest

-- The order of the type i32, as that of natural numbers.
abbrev pub year_rank : Option ℤ → ℕ
year_rank none = 2 ^ 32 - 1
year_rank (some (pos n)) = 2 ^ 31 + n
year_rank (some (negsuc n)) = 2 ^ 31 - 1 - n

abbrev pub bit : Bool → ℕ
bit true = 1
bit false = 0

abbrev pub score_rank : Score → ℕ
score_rank exact = 0
score_rank main = 1
score_rank all_words = 2

-- The tuples that titles are compared by, in the order of lists.
abbrev pub tie_key : Item → List ℕ
unfolding text_eq
tie_key i =
    bit (not (text_eq i.kind (codes "Series"))) ∷ bit i.played ∷ year_rank i.production_year ∷ []

abbrev better : Option (List ℕ × Item) → Option (List ℕ) → Item → Option (List ℕ × Item)
unfolding less_text
better best none i = best
better none (some k) i = some (k, i)
better (some (k', j)) (some k) i = if less_text k k' then some (k, i) else some (k', j)

-- `filter_map` and `min_by_key`: of equal keys the first stays.
unfoldable pub min_from :
    (Item → Option (List ℕ)) → Option (List ℕ × Item) → List Item → Option (List ℕ × Item)
unfolding better
min_from key best [] = best
min_from key best (i ∷ is) = min_from key (better best (key i) i) is

abbrev pub item_of : Option (List ℕ × Item) → Option Item
item_of none = none
item_of (some (k, i)) = some i

-- The place of the first word `key`, counted from `i`, and the word behind it.
unfoldable pub word_after : ℕ → Text → List Text → Option (ℕ × Text)
unfolding text_eq
word_after i key [] = none
word_after i key (w ∷ []) = none
word_after i key (w ∷ v ∷ ws) =
    let rest = word_after (i + 1) key (v ∷ ws) in if text_eq w key then some (i, v) else rest

unfoldable pub number_after : Text → List Text → Option (ℕ × ℕ)
unfolding word_after parse_u32
number_after key lower = elim (word_after 0 key lower) [
  | none ↦ none
  | some (i, v) ↦ elim (parse_u32 v) [ none ↦ none | some n ↦ some (i, n) ]
]

abbrev cut_at : ℕ → Option (ℕ × ℕ) → ℕ
cut_at n none = n
cut_at n (some (i, x)) = min n i

abbrev number_of : Option (ℕ × ℕ) → Option ℕ
number_of none = none
number_of (some (i, n)) = some n

module _ (to_lowercase : Text → Text) (is_alphanumeric : ℕ → Bool) where
  abbrev words : Text → List Text
  unfolding Titles.words
  words = Titles.words to_lowercase is_alphanumeric

  abbrev squashed : Text → Text
  unfolding Titles.squashed
  squashed = Titles.squashed to_lowercase is_alphanumeric

  abbrev covers : List Text → Text → Bool
  unfolding words without_filler text_eq
  covers wanted t =
      let have = without_filler (words t) in
      all (λ w. text_mem w have) wanted && ltb (length have) (length wanted * 2)

  unfoldable pub score : Text → Text → Option Score
  unfolding squashed covers main_title text_eq
  score query title =
      let q = squashed query in
      let wanted = without_filler (words query) in
      if is_empty q
      then none
      else if text_eq q (squashed title)
      then some exact
      else if text_eq q (squashed (main_title title))
      then some main
      else if not (is_empty wanted) && (covers wanted title || covers wanted (main_title title))
      then some all_words
      else none

  -- The key of a title that matches the query.
  unfoldable pub match_key : Text → Item → Option (List ℕ)
  unfolding score tie_key
  match_key query i = elim (score query i.name) [
    | none ↦ none
    | some s ↦ some (score_rank s ∷ tie_key i)
  ]

  unfoldable pub best_match : Text → List Item → Option Item
  unfolding min_from match_key
  best_match query library = item_of (min_from (match_key query) none library)

  abbrev same_sound : Text → List Item → List Item
  unfolding Titles.skeleton main_title text_eq
  same_sound q [] = []
  same_sound q (i ∷ is) =
      let rest = same_sound q is in
      if text_eq (Titles.skeleton to_lowercase is_alphanumeric (main_title i.name)) q
      then i ∷ rest
      else rest

  abbrev same_main : Item → Item → Bool
  unfolding squashed main_title text_eq
  same_main a b = text_eq (squashed (main_title b.name)) (squashed (main_title a.name))

  abbrev one_work : List Item → Option Item
  unfolding same_main min_from tie_key
  one_work [] = none
  one_work (first ∷ rest) =
      if all (same_main first) (first ∷ rest)
      then item_of (min_from (λ i. some (tie_key i)) none (first ∷ rest))
      else none

  unfoldable pub sound_match : Text → List Item → Option Item
  unfolding one_work same_sound as_bytes
  sound_match query library =
      let q = Titles.skeleton to_lowercase is_alphanumeric query in
      if ltb (length (as_bytes q)) 3 then none else one_work (same_sound q library)

  unfoldable pub split_episode : Text → Text × (Option ℕ × Option ℕ)
  unfolding words number_after split_whitespace join trim
  split_episode query =
      let spoken = split_whitespace query in
      let lower = words query in
      let season = number_after (codes "season") lower in
      let episode = number_after (codes "episode") lower in
      if not (length lower == length spoken) then (trim query, (none, none)) else (
        join (codes " ") (take (cut_at (cut_at (length spoken) season) episode) spoken),
        (number_of season, number_of episode),
      )
