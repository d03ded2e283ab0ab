-- ===== src/Tests/Naming.antt =====
-- Runs of the comparison of names.
use homeassistant_local_voic.Base.{◌≡◌, refl, true}
use homeassistant_local_voic.Base.Text.{
  codes, is_ascii_alphanumeric, split, text_eq, concat, ends_with, starts_with,
}
use homeassistant_local_voic.Titles.{skeleton, skeleton_from, words, title_like}

frieren : skeleton (λ t. t) is_ascii_alphanumeric (codes "frieren") ≡ codes "frn"
unfolding skeleton skeleton_from words concat split text_eq ends_with starts_with
    is_ascii_alphanumeric
frieren = refl

the_one_passes_as_a_title : title_like (λ t. t) is_ascii_alphanumeric (codes "the one") ≡ true
unfolding title_like words split text_eq is_ascii_alphanumeric
the_one_passes_as_a_title = refl
