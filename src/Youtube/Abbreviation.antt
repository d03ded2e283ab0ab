-- ===== src/Youtube/Abbreviation.antt =====
-- `is_subsequence` against subsequences as an inductive family.
use homeassistant_local_voic.Base.{
  ℕ, ◌≡◌, refl, true, [], ◌∷◌, arith, ◌==◌, Bool-cases, inl, inr, ◌↔◌,
}
use homeassistant_local_voic.Base.Text.{Text}
use homeassistant_local_voic.Youtube.{is_subsequence}

pub data Subsequence : Text → Text → Type 0 where
  nothing : (long : Text) → Subsequence [] long
  take_it :
      (c : ℕ) {short long : Text} → Subsequence short long → Subsequence (c ∷ short) (c ∷ long)
  skip_it : (l : ℕ) {short long : Text} → Subsequence short long → Subsequence short (l ∷ long)

is_subsequence-Subsequence :
    (short long : Text) → is_subsequence short long ≡ true → Subsequence short long
unfolding is_subsequence
is_subsequence-Subsequence [] long h = nothing long
is_subsequence-Subsequence (c ∷ short) [] h = absurd (ground arith)
is_subsequence-Subsequence (c ∷ short) (l ∷ long) h = elim (Bool-cases (l == c)) [
  | inl same ↦
      let h' = rw (same, is_subsequence) at h in
      let equal : l ≡ c = ground arith in
      rw equal (take_it c (is_subsequence-Subsequence short long h'))
  | inr other ↦
      let h' = rw (other, is_subsequence) at h in
      skip_it l (is_subsequence-Subsequence (c ∷ short) long h')
]

-- A character less is found as well.
is_subsequence-tail :
    (c : ℕ) (short long : Text)
    → is_subsequence (c ∷ short) long ≡ true
    → is_subsequence short long ≡ true
unfolding is_subsequence
is_subsequence-tail c [] long h = refl
is_subsequence-tail c (d ∷ short) [] h = absurd (ground arith)
is_subsequence-tail c (d ∷ short) (l ∷ long) h =
    let rest = is_subsequence-tail c (d ∷ short) long in
    let deeper = is_subsequence-tail d short long in
    elim (Bool-cases (l == c)) [
      | inl same ↦ step deeper (rw (same, is_subsequence) at h)
      | inr other ↦ step deeper (rest (rw (other, is_subsequence) at h))
    ]
  where
    step :
        (is_subsequence (d ∷ short) long ≡ true → is_subsequence short long ≡ true)
        → is_subsequence (d ∷ short) long ≡ true
        → is_subsequence (d ∷ short) (l ∷ long) ≡ true
    step deeper k = elim (Bool-cases (l == d)) [
      | inl same ↦ rw (same, is_subsequence) (deeper k)
      | inr other ↦ rw (other, is_subsequence) k
    ]

is_subsequence-skip :
    (l : ℕ) (short long : Text)
    → is_subsequence short long ≡ true
    → is_subsequence short (l ∷ long) ≡ true
unfolding is_subsequence
is_subsequence-skip l [] long h = refl
is_subsequence-skip l (c ∷ short) long h = elim (Bool-cases (l == c)) [
  | inl same ↦ rw (same, is_subsequence) (is_subsequence-tail c short long h)
  | inr other ↦ rw (other, is_subsequence) h
]

Subsequence-found : {short long : Text} → Subsequence short long → is_subsequence short long ≡ true
unfolding is_subsequence
Subsequence-found (nothing long) = refl
Subsequence-found (take_it c s) =
    let same : (c == c) ≡ true = ground arith in rw (same, is_subsequence) (Subsequence-found s)
Subsequence-found (skip_it l s) = is_subsequence-skip l _ _ (Subsequence-found s)

-- `is_subsequence` finds exactly the subsequences: the greedy search misses none.
pub is_subsequence_iff :
    (short long : Text) → (is_subsequence short long ≡ true) ↔ Subsequence short long
is_subsequence_iff short long = (is_subsequence-Subsequence short long, Subsequence-found)
