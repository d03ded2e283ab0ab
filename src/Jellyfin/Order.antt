-- ===== src/Jellyfin/Order.antt =====
-- Which of two titles that match is offered first, and that the keys stand for it.
use homeassistant_local_voic.Base.{
  ℕ, ◌-◌, ◌^◌, ◌<◌, ◌≡◌, ◌≢◌, ◌↔◌, ◌⊎◌, inl, inr, refl, sym, ap, ◌∙◌, true, false, not, Option,
  none, some, List, ◌∷◌, arith, Bool-cases,
}
use homeassistant_local_voic.Base.Int.{ℤ, pos, negsuc}
use homeassistant_local_voic.Base.Text.{codes, text_eq, text_eq_iff, less_text}
use homeassistant_local_voic.Jellyfin.{
  Item, Score, exact, main, all_words, bit, year_rank, score_rank, tie_key,
}

-- The whole title is said before its main part, and that before words of it.
abbrev pub Stronger : Score → Score → Type 0
Stronger exact main = Unit
Stronger exact all_words = Unit
Stronger main all_words = Unit
Stronger _ _ = ⊥

-- An unknown year is the last of all.
abbrev pub Earlier : Option ℤ → Option ℤ → Type 0
Earlier (some (pos m)) (some (pos n)) = m < n
Earlier (some (pos m)) none = m < 2 ^ 31 - 1
Earlier (some (negsuc m)) (some (pos n)) = Unit
Earlier (some (negsuc m)) (some (negsuc n)) = (n < m) × (m < 2 ^ 31)
Earlier (some (negsuc m)) none = Unit
Earlier _ _ = ⊥

abbrev pub IsSeries : Item → Type 0
IsSeries i = i.kind ≡ codes "Series"

-- Series before others, then what was not watched, then by year.
abbrev pub Before : Item → Item → Type 0
Before i j =
    (IsSeries i × (j.kind ≢ codes "Series"))
    ⊎ ((IsSeries i ↔ IsSeries j)
        × (((i.played ≡ false) × (j.played ≡ true))
            ⊎ ((i.played ≡ j.played) × Earlier i.production_year j.production_year)))

abbrev pub Preferred : Score → Item → Score → Item → Type 0
Preferred s i t j = Stronger s t ⊎ ((s ≡ t) × Before i j)

less_here : (x y : ℕ) (xs ys : List ℕ) → x < y → less_text (x ∷ xs) (y ∷ ys) ≡ true
unfolding less_text
less_here x y xs ys h = ground arith

less_there :
    (x y : ℕ) (xs ys : List ℕ) → x ≡ y → less_text xs ys ≡ true → less_text (x ∷ xs) (y ∷ ys) ≡ true
unfolding less_text
less_there x y xs ys same h = ground arith

score_rank-Stronger : (s t : Score) → Stronger s t → score_rank s < score_rank t
score_rank-Stronger exact main h = omega arith
score_rank-Stronger exact all_words h = omega arith
score_rank-Stronger main all_words h = omega arith
score_rank-Stronger exact exact h = absurd h
score_rank-Stronger main exact h = absurd h
score_rank-Stronger main main h = absurd h
score_rank-Stronger all_words exact h = absurd h
score_rank-Stronger all_words main h = absurd h
score_rank-Stronger all_words all_words h = absurd h

year_rank-Earlier : (a b : Option ℤ) → Earlier a b → year_rank a < year_rank b
year_rank-Earlier (some (pos m)) (some (pos n)) h = omega arith
year_rank-Earlier (some (pos m)) none h = omega arith
year_rank-Earlier (some (negsuc m)) (some (pos n)) h = omega arith
year_rank-Earlier (some (negsuc m)) (some (negsuc n)) h = omega arith
year_rank-Earlier (some (negsuc m)) none h = omega arith
year_rank-Earlier (some (pos m)) (some (negsuc n)) h = absurd h
year_rank-Earlier none none h = absurd h
year_rank-Earlier none (some (pos n)) h = absurd h
year_rank-Earlier none (some (negsuc n)) h = absurd h

kind_bit : Item → ℕ
kind_bit i = bit (not (text_eq i.kind (codes "Series")))

series_bit : (i : Item) → IsSeries i → kind_bit i ≡ 0
unfolding kind_bit
series_bit i h = rw ((text_eq_iff i.kind (codes "Series")).1 h) refl

other_bit : (i : Item) → i.kind ≢ codes "Series" → kind_bit i ≡ 1
unfolding kind_bit
other_bit i h = elim (Bool-cases (text_eq i.kind (codes "Series"))) [
  | inl same ↦ absurd (h ((text_eq_iff i.kind (codes "Series")).0 same))
  | inr other ↦ rw other refl
]

same_bit : (i j : Item) → (IsSeries i ↔ IsSeries j) → kind_bit i ≡ kind_bit j
unfolding kind_bit
same_bit i j both = elim (Bool-cases (text_eq i.kind (codes "Series"))) [
  | inl same ↦
      let is = (text_eq_iff i.kind (codes "Series")).0 same in
      series_bit i is ∙ sym (series_bit j (both.0 is))
  | inr other ↦
      let is_not : i.kind ≢ codes "Series" =
        λ e. let bad = sym other ∙ (text_eq_iff i.kind (codes "Series")).1 e in cc in
      other_bit i is_not ∙ sym (other_bit j (λ e. is_not (both.1 e)))
]

tie_key-Before : (i j : Item) → Before i j → less_text (tie_key i) (tie_key j) ≡ true
unfolding kind_bit tie_key
tie_key-Before i j (inl (is, is_not)) =
    less_here _ _ _ _ (omega (arith, series_bit i is, other_bit j is_not))
tie_key-Before i j (inr (kinds, inl (fresh, seen))) =
    less_there _ _ _ _ (same_bit i j kinds)
      (less_here (bit i.played) (bit j.played) _ _ (rw (fresh, seen) (omega arith)))
tie_key-Before i j (inr (kinds, inr (played, year))) = less_there _ _ _ _ (same_bit i j kinds) (
    less_there (bit i.played) (bit j.played) _ _ (ap bit played)
      (less_here _ _ _ _ (year_rank-Earlier i.production_year j.production_year year)))

-- What is preferred has the lower key.
pub tie_key-Preferred :
    (s : Score) (i : Item) (t : Score) (j : Item)
    → Preferred s i t j
    → less_text (score_rank s ∷ tie_key i) (score_rank t ∷ tie_key j) ≡ true
tie_key-Preferred s i t j (inl stronger) = less_here _ _ _ _ (score_rank-Stronger s t stronger)
tie_key-Preferred s i t j (inr (same, before)) =
    less_there _ _ _ _ (ap score_rank same) (tie_key-Before i j before)
