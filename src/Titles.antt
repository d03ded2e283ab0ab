-- ===== src/Titles.antt =====
-- src/text.rs: names as they are compared. `to_lowercase` and `is_alphanumeric` are the Unicode tables
-- of std. The similarity of trigrams is a float.
pub mod Skeleton
pub mod Numbers
use homeassistant_local_voic.Base.{
  ℕ, Bool, Option, none, some, List, [], ◌∷◌, ◌++◌, any, not, ◌&&◌, leb, length, if◌then◌else◌,
  ◌==◌,
}
use homeassistant_local_voic.Base.Text.{
  Text, codes, text_eq, text_mem, split, filter_nonempty, concat, ends_with,
}

abbrev pub number_words : List (Text × Text)
number_words =
    (codes "zero", codes "0")
    ∷ (codes "one", codes "1")
    ∷ (codes "two", codes "2")
    ∷ (codes "three", codes "3")
    ∷ (codes "four", codes "4")
    ∷ (codes "five", codes "5")
    ∷ (codes "six", codes "6")
    ∷ (codes "seven", codes "7")
    ∷ (codes "eight", codes "8")
    ∷ (codes "nine", codes "9")
    ∷ (codes "ten", codes "10")
    ∷ []

-- The digits of the first pair whose word is `w`, or `w`.
abbrev pub digits_from : List (Text × Text) → Text → Text
digits_from [] w = w
digits_from ((word, digit) ∷ rest) w = if text_eq word w then digit else digits_from rest w

abbrev pub as_digits : List Text → List Text
as_digits [] = []
as_digits (w ∷ ws) = digits_from number_words w ∷ as_digits ws

abbrev descriptive : List Text
descriptive =
    codes "about"
    ∷ codes "with"
    ∷ codes "where"
    ∷ codes "who"
    ∷ codes "which"
    ∷ codes "that"
    ∷ codes "movie"
    ∷ codes "film"
    ∷ codes "show"
    ∷ codes "series"
    ∷ codes "anime"
    ∷ codes "documentary"
    ∷ codes "one"
    ∷ codes "episode"
    ∷ []

abbrev pub is_vowel : ℕ → Bool
is_vowel c = any (λ v. v == c) (codes "aeiouy")

-- The loop of `skeleton`; `out` is what was pushed so far.
unfoldable pub skeleton_from : Text → Text → Text
unfolding ends_with
skeleton_from out [] = out
skeleton_from out (c ∷ cs) =
    let skipped = skeleton_from out cs in
    let pushed = skeleton_from (out ++ (c ∷ [])) cs in
    if is_vowel c then skipped else if not (ends_with out (c ∷ [])) then pushed else skipped

module _ (to_lowercase : Text → Text) (is_alphanumeric : ℕ → Bool) where
  unfoldable pub words : Text → List Text
  words s = as_digits (filter_nonempty (split (λ c. not (is_alphanumeric c)) (to_lowercase s)))

  unfoldable pub squashed : Text → Text
  squashed s = concat (words s)

  unfoldable pub skeleton : Text → Text
  unfolding skeleton_from
  skeleton s = skeleton_from [] (concat (words s))

  unfoldable pub title_like : Text → Bool
  title_like query =
      let w = words query in leb (length w) 4 && not (any (λ x. text_mem x descriptive) w)
