-- ===== src/Media/Sync/Fetch.antt =====
-- The pages of the library.
use homeassistant_local_voic.Base.{
  ℕ, zero, suc, ◌+◌, ◌-◌, ◌<◌, ◌≤◌, ◌≡◌, ap, true, none, some, List, [], ◌∷◌, arith, length, take,
  drop, length-take, take-long, take-add, Bool-cases, inl, inr, leb, ◌||◌,
}
use homeassistant_local_voic.Base.Text.{Text, is_empty}
use homeassistant_local_voic.Base.Result.{ok}
use homeassistant_local_voic.Json.{Value}
use homeassistant_local_voic.Media.Sync.{World, items_page, fetch_all, page_size}

-- Jellyfin lists `library`, the same in each answer.
abbrev pub Lists : World → Text → Text → List Value → Type 0
Lists world types fields library =
    (start : ℕ)
    → items_page world types fields start page_size none
      ≡ ok (take page_size (drop start library), length library)

nothing_left :
    (n : ℕ) (xs : List Value) → is_empty (take page_size (drop n xs)) ≡ true → length xs ≤ n
nothing_left zero [] h = omega arith
nothing_left zero (x ∷ xs) h = cc
nothing_left (suc n) [] h = omega arith
nothing_left (suc n) (x ∷ xs) h = omega (arith, nothing_left n xs h)

module _ (world : World) (types fields : Text) (library : List Value)
    (lists : Lists world types fields library) where
  fetch_all-from :
      (fuel n : ℕ)
      → n ≤ length library
      → length library - n < fuel
      → fetch_all world fuel types fields (take n library) ≡ some (ok library)
  unfolding fetch_all
  fetch_all-from zero n h f = absurd (omega arith)
  fetch_all-from (suc fuel) n h f =
      let at_n : length (take n library) ≡ n = omega (arith, length-take n library) in
      let long = length-take (n + page_size) library in
      let last = is_empty (take page_size (drop n library)) in
      let all = leb (length library) (length (take (n + page_size) library)) in
      elim (Bool-cases (last || all)) [
        | inl ends ↦
            let short : length library ≤ n + page_size = whole n ends in
            rw (fetch_all, at_n, lists n, take-add n page_size library, ends)
              (ap (λ xs. some (ok xs)) (take-long (n + page_size) library short))
        | inr more ↦
            let below : n + page_size < length library = ground arith in
            rw (fetch_all, at_n, lists n, take-add n page_size library, more)
              (fetch_all-from fuel (n + page_size) (omega arith) (omega arith))
      ]
    where
      whole :
          (n : ℕ)
          → (is_empty (take page_size (drop n library))
              || leb (length library) (length (take (n + page_size) library)))
            ≡ true
          → length library ≤ n + page_size
      whole n h =
          let long = length-take (n + page_size) library in
          elim (Bool-cases (is_empty (take page_size (drop n library)))) [
            | inl none_left ↦ omega (arith, nothing_left n library none_left)
            | inr some_left ↦ ground arith
          ]

  pub fetch_all-Lists :
      (fuel : ℕ) → length library < fuel → fetch_all world fuel types fields [] ≡ some (ok library)
  fetch_all-Lists fuel f = fetch_all-from fuel 0 (omega arith) (omega arith)
