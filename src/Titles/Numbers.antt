-- ===== src/Titles/Numbers.antt =====
-- Spoken numbers never stay in the words.
use homeassistant_local_voic.Base.{
  ℕ, ◌≡◌, refl, Bool, false, List, [], ◌∷◌, arith, All, Bool-cases, inl, inr, not,
}
use homeassistant_local_voic.Base.Text.{
  Text, codes, text_eq, text_eq_iff, text_mem, split, filter_nonempty,
}
use homeassistant_local_voic.Titles.{number_words, digits_from, as_digits, words}

abbrev NotDigits : Text → List (Text × Text) → Type 0
NotDigits k = All (λ p. text_eq k p.1 ≡ false)

digits_from-other :
    (table : List (Text × Text)) (k w : Text)
    → NotDigits k table
    → text_eq k w ≡ false
    → text_eq k (digits_from table w) ≡ false
digits_from-other [] k w n h = h
digits_from-other ((word, digit) ∷ rest) k w (d, n) h = elim (Bool-cases (text_eq word w)) [
  | inl same ↦ rw same d
  | inr other ↦ rw other (digits_from-other rest k w n h)
]

one_is_no_digit : NotDigits (codes "one") number_words
unfolding text_eq
one_is_no_digit =
    (refl, (refl, (refl, (refl, (refl, (refl, (refl, (refl, (refl, (refl, (refl, tt)))))))))))

one_becomes_a_digit : text_eq (codes "one") (digits_from number_words (codes "one")) ≡ false
unfolding text_eq
one_becomes_a_digit = refl

digits_from-one : (w : Text) → text_eq (codes "one") (digits_from number_words w) ≡ false
digits_from-one w = elim (Bool-cases (text_eq (codes "one") w)) [
  | inl same ↦
      let equal : codes "one" ≡ w = (text_eq_iff (codes "one") w).0 same in
      rw (← equal) one_becomes_a_digit
  | inr other ↦ digits_from-other number_words (codes "one") w one_is_no_digit other
]

text_mem-cons :
    (k w : Text) (ws : List Text)
    → text_eq k w ≡ false
    → text_mem k ws ≡ false
    → text_mem k (w ∷ ws) ≡ false
text_mem-cons k w ws h t =
    let back : text_eq w k ≡ false = ground (arith, text_eq_iff k w, text_eq_iff w k) in
    rw (back, t) refl

as_digits-one : (ws : List Text) → text_mem (codes "one") (as_digits ws) ≡ false
as_digits-one [] = refl
as_digits-one (w ∷ ws) =
    text_mem-cons (codes "one") (digits_from number_words w) (as_digits ws) (digits_from-one w)
      (as_digits-one ws)

-- `one` is never one of the words of a text: it is the digit there.
pub words-one :
    (to_lowercase : Text → Text) (is_alphanumeric : ℕ → Bool) (s : Text)
    → text_mem (codes "one") (words to_lowercase is_alphanumeric s) ≡ false
unfolding words
words-one to_lowercase is_alphanumeric s =
    as_digits-one (filter_nonempty (split (λ c. not (is_alphanumeric c)) (to_lowercase s)))
