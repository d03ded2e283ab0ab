-- ===== src/Search.antt =====
-- src/search.rs: the query that is sent and the text of the results. The two regular expressions, the host
-- of a URL and the search itself belong to crates and to SearXNG: they are the record `Matchers` and the
-- results.
use mathlib.Core.List.{reverse}
use homeassistant_local_voic.Base.{
  ℕ, ◌+◌, ◌-◌, max, Bool, Option, none, some, List, [], ◌∷◌, ◌++◌, take, leb, ltb, length,
  if◌then◌else◌,
}
use homeassistant_local_voic.Base.Text.{
  Text, codes, is_empty, filter_nonempty, join, split_once, split_whitespace, to_string,
}

abbrev pub snippet_chars : ℕ
snippet_chars = 300

pub record Infobox : Type 0 where
  pub name : Text
  pub content : Text

pub record Hit : Type 0 where
  pub title : Text
  pub url : Text
  pub content : Text
  pub published : Text

pub record Results : Type 0 where
  pub answers : List Text
  pub infobox : Option Infobox
  pub results : List Hit

-- RECENCY, YEAR's matches and their replacement, and the host of a URL without a leading `www.`.
pub record Matchers : Type 0 where
  pub is_recent : Text → Bool
  pub years_in : Text → List ℕ
  pub replace_years : Text → Text → Text
  pub host_of : Text → Option Text

abbrev newest : List ℕ → Option ℕ
newest [] = none
newest (y ∷ ys) = elim (newest ys) [ none ↦ some y | some z ↦ some (max y z) ]

unfoldable pub with_year : Matchers → Text → ℕ → Text
with_year m query year =
    let dated : Option ℕ → Text = λ newest_year. elim newest_year [
      | none ↦ query ++ (codes " " ++ to_string year)
      | some y ↦ if ltb y year then m.replace_years query (to_string year) else query
    ] in
    if m.is_recent query then dated (newest (m.years_in query)) else query

abbrev without_last_word : Text → Text
without_last_word cut = elim (split_once b' ' (reverse cut)) [
  | none ↦ cut
  | some (last, head) ↦ reverse head
]

unfoldable pub trim_to : Text → ℕ → Text
unfolding split_once split_whitespace join
trim_to text limit =
    let text' = join (codes " ") (split_whitespace text) in
    if leb (length text') limit
    then text'
    else without_last_word (take (limit - 1) text') ++ (8230 ∷ [])

abbrev answer_lines : List Text → List Text
unfolding trim_to
answer_lines [] = []
answer_lines (a ∷ rest) = (codes "Direct answer: " ++ trim_to a snippet_chars) ∷ answer_lines rest

abbrev infobox_lines : Option Infobox → List Text
unfolding trim_to
infobox_lines none = []
infobox_lines (some b) = (b.name ++ (codes ": " ++ trim_to b.content snippet_chars)) ∷ []

abbrev host_text : Option Text → Text
host_text none = []
host_text (some h) = h

-- The lines of the results from the number `n` on.
abbrev hit_lines : Matchers → ℕ → List Hit → List Text
unfolding trim_to join
hit_lines m n [] = []
hit_lines m n (h ∷ hs) =
    let meta =
      join (codes ", ")
        (filter_nonempty (host_text (m.host_of h.url) ∷ take 10 h.published ∷ [])) in
    (to_string n
      ++ (codes ". "
          ++ (trim_to h.title 120
              ++ (codes " (" ++ (meta ++ (codes "): " ++ trim_to h.content snippet_chars))))))
    ∷ hit_lines m (n + 1) hs

unfoldable pub format_results : Matchers → Results → ℕ → Text → Text
unfolding join answer_lines infobox_lines hit_lines
format_results m results max_results today =
    let lines =
      answer_lines results.answers
      ++ (infobox_lines results.infobox ++ hit_lines m 1 (take max_results results.results)) in
    let head =
      codes "Search results from today, "
      ++ (today
          ++ codes
              ". They are newer than your own knowledge. If they disagree with it, answer from the results.") in
    if is_empty lines then codes "No results." else join (b'\n' ∷ []) (head ∷ lines)
