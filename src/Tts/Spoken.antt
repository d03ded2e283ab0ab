-- ===== src/Tts/Spoken.antt =====
-- src/tts.rs: what `speakable` gives to the speech engine.
use homeassistant_local_voic.Base.{
  ℕ, ◌≡◌, refl, sym, Bool, true, false, List, [], ◌∷◌, ◌==◌, All, All-append, Bool-cases, inl, inr,
}
use mathlib.Core.Path.{subst}
use mathlib.Core.List.{reverse, reverse_aux, reverse-append}
use homeassistant_local_voic.Base.Text.{
  Text, codes, starts_with, trim, trim_start_matches, trim_end_matches, is_whitespace, lines, join,
  is_empty,
}
use homeassistant_local_voic.Tts.{
  Patterns, apply_all, starts_mark, ends_mark, finished, trim_markup, sentences, replace_from,
  degrees, speak_degrees, speakable,
}

abbrev pub degree_sign : ℕ
degree_sign = 0xb0

abbrev NoDegree : Text → Type 0
NoDegree = All (λ c. (c == degree_sign) ≡ false)

degrees-NoDegree : NoDegree degrees
degrees-NoDegree = (refl, (refl, (refl, (refl, (refl, (refl, (refl, (refl, tt))))))))

-- After the replacement of one character by a text without it, it is gone.
replace_from-NoDegree : (s : Text) → NoDegree (replace_from 0 (degree_sign ∷ []) degrees s)
unfolding replace_from starts_with
replace_from-NoDegree [] = tt
replace_from-NoDegree (c ∷ cs) = elim (Bool-cases (c == degree_sign)) [
  | inl is ↦ rw is (
      All-append _ degrees (replace_from 0 (degree_sign ∷ []) degrees cs) degrees-NoDegree
        (replace_from-NoDegree cs))
  | inr other ↦ rw other (other, replace_from-NoDegree cs)
]

speak_degrees-NoDegree : (s : Text) → NoDegree (speak_degrees s)
unfolding speak_degrees
speak_degrees-NoDegree s = replace_from-NoDegree (replace_from 0 (codes "°C") degrees s)

finished-mark : (line : Text) → ends_mark (finished line) ≡ true
unfolding finished ends_mark
finished-mark line = elim (Bool-cases (starts_mark (reverse line))) [
  | inl mark ↦ rw mark mark
  | inr bare ↦
      rw bare (subst (λ r. starts_mark r ≡ true) (sym (reverse-append line (codes "."))) refl)
]

-- Every sentence ends with a mark.
sentences-mark :
    (drop_prefix : Text → Text) (ls : List Text)
    → All (λ l. ends_mark l ≡ true) (sentences drop_prefix ls)
unfolding sentences
sentences-mark drop_prefix [] = tt
sentences-mark drop_prefix (l ∷ ls) = elim (Bool-cases (is_empty (trim_markup (drop_prefix l)))) [
  | inl bare ↦ rw bare (sentences-mark drop_prefix ls)
  | inr full ↦ rw full (finished-mark (trim_markup (drop_prefix l)), sentences-mark drop_prefix ls)
]

All-reverse_aux : (Q : ℕ → Type 0) (xs ys : Text) → All Q xs → All Q ys → All Q (reverse_aux xs ys)
All-reverse_aux Q [] ys h k = k
All-reverse_aux Q (x ∷ xs) ys h k = All-reverse_aux Q xs (x ∷ ys) h.1 (h.0, k)

All-trim_start_matches :
    (Q : ℕ → Type 0) (p : ℕ → Bool) (xs : Text) → All Q xs → All Q (trim_start_matches p xs)
unfolding trim_start_matches
All-trim_start_matches Q p [] h = tt
All-trim_start_matches Q p (x ∷ xs) h = elim (Bool-cases (p x)) [
  | inl gone ↦ rw gone (All-trim_start_matches Q p xs h.1)
  | inr kept ↦ rw kept h
]

All-trim : (Q : ℕ → Type 0) (xs : Text) → All Q xs → All Q (trim xs)
unfolding trim trim_end_matches
All-trim Q xs h =
    let front = All-trim_start_matches Q is_whitespace xs h in
    let turned = All-reverse_aux Q (trim_start_matches is_whitespace xs) [] front tt in
    All-reverse_aux Q
      (trim_start_matches is_whitespace (reverse (trim_start_matches is_whitespace xs))) []
      (All-trim_start_matches Q is_whitespace _ turned) tt

-- What is spoken is made of sentences that each end with a mark, and holds no degree sign: every
-- one is spelled out. The expression for white space puts no degree sign where there was none.
pub speakable-marks :
    (p : Patterns) (text : Text)
    → ((t : Text)
        → All (λ c. (c == degree_sign) ≡ false) t
        → All (λ c. (c == degree_sign) ≡ false) (p.join_spaces t))
    → (ss : List Text) × All (λ l. ends_mark l ≡ true) ss
      × (speakable p text ≡ trim (p.join_spaces (speak_degrees (join (codes " ") ss))))
      × All (λ c. (c == degree_sign) ≡ false) (speakable p text)
unfolding speakable
speakable-marks p text keeps = (
  sentences p.drop_prefix (lines (apply_all p.drop_emphasis (p.open_links (p.drop_code text)))),
  sentences-mark p.drop_prefix _,
  refl,
  All-trim _ _ (
      keeps _ (
        speak_degrees-NoDegree (
          join (codes " ") (
            sentences p.drop_prefix
              (lines (apply_all p.drop_emphasis (p.open_links (p.drop_code text)))))))),
)
