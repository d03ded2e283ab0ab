-- ===== src/Titles/Skeleton.antt =====
-- What the skeleton of a name is.
use mathlib.Core.List.{reverse, reverse-cons}
use homeassistant_local_voic.Base.{
  ℕ, ◌≡◌, refl, sym, ap, ◌∙◌, Bool, false, [], ◌∷◌, ◌++◌, arith, All, All-append, Bool-cases, inl,
  inr, ◌==◌,
}
use homeassistant_local_voic.Base.Text.{Text, ends_with, starts_with, concat}
use homeassistant_local_voic.Titles.{is_vowel, skeleton_from, skeleton, words}

-- No two neighbours are equal.
abbrev pub NoRepeat : Text → Type 0
NoRepeat [] = Unit
NoRepeat (a ∷ []) = Unit
NoRepeat (a ∷ b ∷ cs) = ((a == b) ≡ false) × NoRepeat (b ∷ cs)

abbrev pub Consonants : Text → Type 0
Consonants = All (λ c. is_vowel c ≡ false)

starts_with-front :
    (xs : Text) (a b c : ℕ)
    → starts_with ((xs ++ (b ∷ [])) ++ (a ∷ [])) (c ∷ []) ≡ starts_with (xs ++ (b ∷ [])) (c ∷ [])
unfolding starts_with
starts_with-front [] a b c = refl
starts_with-front (x ∷ xs) a b c = refl

-- The last character does not depend on the first, if there are two.
ends_with-behind :
    (a b c : ℕ) (cs : Text) → ends_with (a ∷ b ∷ cs) (c ∷ []) ≡ ends_with (b ∷ cs) (c ∷ [])
unfolding ends_with
ends_with-behind a b c cs =
    ap (λ x. starts_with x (c ∷ []))
      (reverse-cons a (b ∷ cs) ∙ ap (λ x. x ++ (a ∷ [])) (reverse-cons b cs))
    ∙ starts_with-front (reverse cs) a b c
    ∙ ap (λ x. starts_with x (c ∷ [])) (sym (reverse-cons b cs))

append-NoRepeat :
    (out : Text) (c : ℕ)
    → NoRepeat out
    → ends_with out (c ∷ []) ≡ false
    → NoRepeat (out ++ (c ∷ []))
unfolding ends_with starts_with
append-NoRepeat [] c n e = tt
append-NoRepeat (a ∷ []) c n e = (ground arith, tt)
append-NoRepeat (a ∷ b ∷ cs) c (apart, n) e =
    (apart, append-NoRepeat (b ∷ cs) c n (sym (ends_with-behind a b c cs) ∙ e))

skeleton_from-NoRepeat :
    (out cs : Text)
    → NoRepeat out
    → Consonants out
    → NoRepeat (skeleton_from out cs) × Consonants (skeleton_from out cs)
unfolding skeleton_from
skeleton_from-NoRepeat out [] n k = (n, k)
skeleton_from-NoRepeat out (c ∷ cs) n k = elim (Bool-cases (is_vowel c)) [
  | inl vowel ↦ rw (vowel, skeleton_from) (skeleton_from-NoRepeat out cs n k)
  | inr other ↦ elim (Bool-cases (ends_with out (c ∷ []))) [
    | inl again ↦ rw (other, skeleton_from, again) (skeleton_from-NoRepeat out cs n k)
    | inr new ↦
        rw (other, skeleton_from, new)
          (skeleton_from-NoRepeat (out ++ (c ∷ [])) cs (append-NoRepeat out c n new)
            (All-append (λ x. is_vowel x ≡ false) out (c ∷ []) k (other, tt)))
  ]
]

-- The skeleton of a name has no vowel and no character twice in a row.
pub skeleton-NoRepeat :
    (to_lowercase : Text → Text) (is_alphanumeric : ℕ → Bool) (s : Text)
    → NoRepeat (skeleton to_lowercase is_alphanumeric s)
      × Consonants (skeleton to_lowercase is_alphanumeric s)
unfolding skeleton
skeleton-NoRepeat to_lowercase is_alphanumeric s =
    skeleton_from-NoRepeat [] (concat (words to_lowercase is_alphanumeric s)) tt tt
