-- ===== src/Media/Index/Changes.antt =====
-- The index as a map from an ID to its row.
use mathlib.Core.List.{append_assoc}
use homeassistant_local_voic.Base.{
  ℕ, zero, suc, ◌+◌, ◌*◌, ◌≡◌, ◌≢◌, refl, sym, ap, ◌∙◌, ◌<◌, ◌≤◌, inl, inr, ◌⊎◌, Option, none, some,
  List, [], ◌∷◌, ◌++◌, arith, length, take, drop, Option-cases, length-take, length-drop,
  take-whole, take-add,
}
use homeassistant_local_voic.Base.Text.{Text}
use homeassistant_local_voic.Media.Index.{Index, Entry, Vector, position_of, entry_at, set_entry}
use homeassistant_local_voic.Media.Index.Rows.{
  Row, rows, rows_from, IsAligned, times_suc, take-at, drop-at,
}

unfoldable pub row_at : List Row → ℕ → Option Row
row_at [] i = none
row_at (r ∷ rs) zero = some r
row_at (r ∷ rs) (suc i) = row_at rs i

-- The row that an ID leads to.
unfoldable pub row_of : Index → Text → Option Row
row_of ix id = elim (position_of ix.by_id id) [ none ↦ none | some i ↦ row_at (rows ix) i ]

-- The vectors are aligned, and an ID leads to an entry with this ID.
pub record IsSound (ix : Index) : Type 0 where
  pub aligned : IsAligned ix
  pub leads :
      (id : Text) (i : ℕ)
      → position_of ix.by_id id ≡ some i
      → (e : Entry) × (entry_at ix.entries i ≡ some e) × (e.id ≡ id)

unfoldable pub set_row : ℕ → Row → List Row → List Row
set_row i r [] = []
set_row zero r (x ∷ rs) = r ∷ rs
set_row (suc i) r (x ∷ rs) = x ∷ set_row i r rs

pub row_at-set_row :
    (i : ℕ) (r : Row) (rs : List Row) → i < length rs → row_at (set_row i r rs) i ≡ some r
unfolding row_at set_row
row_at-set_row i r [] h = absurd (omega arith)
row_at-set_row zero r (x ∷ rs) h = refl
row_at-set_row (suc i) r (x ∷ rs) h = row_at-set_row i r rs (omega arith)

pub row_at-set_other :
    (i j : ℕ) (r : Row) (rs : List Row) → i ≢ j → row_at (set_row i r rs) j ≡ row_at rs j
unfolding row_at set_row
row_at-set_other i j r [] n = refl
row_at-set_other zero zero r (x ∷ rs) n = absurd (n refl)
row_at-set_other zero (suc j) r (x ∷ rs) n = refl
row_at-set_other (suc i) zero r (x ∷ rs) n = refl
row_at-set_other (suc i) (suc j) r (x ∷ rs) n = row_at-set_other i j r rs (λ e. n (ap suc e))

pub row_at-last : (r : Row) (rs : List Row) → row_at (rs ++ (r ∷ [])) (length rs) ≡ some r
unfolding row_at
row_at-last r [] = refl
row_at-last r (x ∷ rs) = row_at-last r rs

pub row_at-append :
    (i : ℕ) (r : Row) (rs : List Row) → i < length rs → row_at (rs ++ (r ∷ [])) i ≡ row_at rs i
unfolding row_at
row_at-append i r [] h = absurd (omega arith)
row_at-append zero r (x ∷ rs) h = refl
row_at-append (suc i) r (x ∷ rs) h = row_at-append i r rs (omega arith)

pub entry_at-length : (es : List Entry) (i : ℕ) {e : Entry} → entry_at es i ≡ some e → i < length es
unfolding entry_at
entry_at-length [] i h = absurd cc
entry_at-length (x ∷ es) zero h = omega arith
entry_at-length (x ∷ es) (suc i) h = omega (arith, entry_at-length es i h)

pub entry_at-append :
    (es : List Entry) (x : Entry) (i : ℕ) {e : Entry}
    → entry_at es i ≡ some e
    → entry_at (es ++ (x ∷ [])) i ≡ some e
unfolding entry_at
entry_at-append [] x i h = absurd cc
entry_at-append (y ∷ es) x zero h = h
entry_at-append (y ∷ es) x (suc i) h = entry_at-append es x i h

pub entry_at-last : (es : List Entry) (x : Entry) → entry_at (es ++ (x ∷ [])) (length es) ≡ some x
unfolding entry_at
entry_at-last [] x = refl
entry_at-last (y ∷ es) x = entry_at-last es x

take-over : (n : ℕ) (xs ys : Vector) → n ≤ length xs → take n (xs ++ ys) ≡ take n xs
take-over zero xs ys h = refl
take-over (suc n) [] ys h = absurd (omega arith)
take-over (suc n) (x ∷ xs) ys h = ap (◌∷◌ x) (take-over n xs ys (omega arith))

drop-over : (n : ℕ) (xs ys : Vector) → n ≤ length xs → drop n (xs ++ ys) ≡ drop n xs ++ ys
drop-over zero xs ys h = refl
drop-over (suc n) [] ys h = absurd (omega arith)
drop-over (suc n) (x ∷ xs) ys h = drop-over n xs ys (omega arith)

pub rows_from-add :
    (dims : ℕ) (es : List Entry) (vs : Vector) (e : Entry) (v : Vector)
    → length vs ≡ length es * dims
    → length v ≡ dims
    → rows_from dims (es ++ (e ∷ [])) (vs ++ v) ≡ rows_from dims es vs ++ ((e, v) ∷ [])
unfolding rows_from
rows_from-add dims [] [] e v a w = rw (← w) (rw (take-whole v) refl)
rows_from-add dims [] (x ∷ vs) e v a w = absurd (omega arith)
rows_from-add dims (y ∷ es) vs e v a w =
    let more = times_suc (length es) dims in
    rw (take-over dims vs v (omega arith)) (
      rw (drop-over dims vs v (omega arith)) (
        ap (λ x. (y, take dims vs) ∷ x)
          (rows_from-add dims es (drop dims vs) e v (omega (arith, length-drop dims vs)) w)))

abbrev no_values : Vector
no_values = []

drop-none : (n : ℕ) → drop n no_values ≡ no_values
drop-none zero = refl
drop-none (suc n) = refl

drop-add : (m n : ℕ) (xs : Vector) → drop (m + n) xs ≡ drop n (drop m xs)
drop-add zero n xs = let e : 0 + n ≡ n = omega arith in rw e refl
drop-add (suc m) n [] = drop-none (suc m + n) ∙ sym (drop-none n)
drop-add (suc m) n (x ∷ xs) =
    let e : suc m + n ≡ suc (m + n) = omega arith in rw e (drop-add m n xs)

-- What `entries[i] = entry` does to a list that has the index.
pub record Replaced (i : ℕ) (e : Entry) (es : List Entry) : Type 0 where
  pub after : List Entry
  pub computed : set_entry i e es ≡ some after
  pub same_length : length after ≡ length es
  pub here : entry_at after i ≡ some e
  pub elsewhere : (j : ℕ) → i ≢ j → entry_at after j ≡ entry_at es j

other_at :
    (x e : Entry) (es : List Entry) (j : ℕ) → 0 ≢ j → entry_at (e ∷ es) j ≡ entry_at (x ∷ es) j
unfolding entry_at
other_at x e es zero n = absurd (n refl)
other_at x e es (suc j) n = refl

behind :
    (i : ℕ) (x : Entry) (es es' : List Entry)
    → ((j : ℕ) → i ≢ j → entry_at es' j ≡ entry_at es j)
    → (j : ℕ) → suc i ≢ j
    → entry_at (x ∷ es') j ≡ entry_at (x ∷ es) j
unfolding entry_at
behind i x es es' same zero n = refl
behind i x es es' same (suc j) n = same j (λ q. n (ap suc q))

pub set_entry-Replaced : (i : ℕ) (e : Entry) (es : List Entry) → i < length es → Replaced i e es
unfolding set_entry entry_at
set_entry-Replaced i e [] h = absurd (omega arith)
set_entry-Replaced zero e (x ∷ es) h = record {
  after = e ∷ es;
  computed = refl;
  same_length = refl;
  here = refl;
  elsewhere = other_at x e es;
}
set_entry-Replaced (suc i) e (x ∷ es) h =
    let r = set_entry-Replaced i e es (omega arith) in
    record {
      after = x ∷ r.after;
      computed = rw r.computed refl;
      same_length = ap suc r.same_length;
      here = r.here;
      elsewhere = behind i x es r.after r.elsewhere;
    }

pub rows_from-set :
    (dims i : ℕ) (es es' : List Entry) (vs : Vector) (e : Entry) (v : Vector)
    → set_entry i e es ≡ some es'
    → length vs ≡ length es * dims
    → length v ≡ dims
    → rows_from dims es' (take (i * dims) vs ++ (v ++ drop ((i + 1) * dims) vs))
      ≡ set_row i (e, v) (rows_from dims es vs)
unfolding rows_from set_row set_entry
rows_from-set dims i [] es' vs e v q a w = absurd cc
rows_from-set dims zero (y ∷ es) es' vs e v q a w =
    let same : e ∷ es ≡ es' = cc in
    let zero_is : 0 * dims ≡ 0 = omega arith in
    let one_is : (0 + 1) * dims ≡ dims = omega arith in
    rw (← same) (
      rw zero_is (
        rw one_is
          (rw (take-at dims v (drop dims vs) w) (rw (drop-at dims v (drop dims vs) w) refl))))
rows_from-set dims (suc i) (y ∷ es) es' vs e v q a w =
    let more = times_suc (length es) dims in
    go
      (λ after q'.
        rows_from-set dims i es after (drop dims vs) e v q' (omega (arith, length-drop dims vs)) w)
      (Option-cases (set_entry i e es))
  where
    go :
        ((after : List Entry)
          → set_entry i e es ≡ some after
          → rows_from dims after
              (take (i * dims) (drop dims vs) ++ (v ++ drop ((i + 1) * dims) (drop dims vs)))
            ≡ set_row i (e, v) (rows_from dims es (drop dims vs)))
        → ((set_entry i e es ≡ none) ⊎ ((after : List Entry) × (set_entry i e es ≡ some after)))
        → rows_from dims es' (take (suc i * dims) vs ++ (v ++ drop ((suc i + 1) * dims) vs))
          ≡ set_row (suc i) (e, v) (rows_from dims (y ∷ es) vs)
    go ih (inl fails) = absurd (let bad = rw (fails, set_entry) at q in cc)
    go ih (inr (after, fits)) =
        let q' = rw (fits, set_entry) at q in
        let same : y ∷ after ≡ es' = cc in
        let more = times_suc (length es) dims in
        let front = take dims vs in
        let mid = take (i * dims) (drop dims vs) in
        let last = v ++ drop ((i + 1) * dims) (drop dims vs) in
        let wide : length front ≡ dims = omega (arith, length-take dims vs) in
        let p : take (suc i * dims) vs ≡ front ++ mid =
          ap (λ n. take n vs) (times_suc i dims) ∙ sym (take-add dims (i * dims) vs) in
        let step : suc i + 1 ≡ suc (i + 1) = omega arith in
        let p' : drop ((suc i + 1) * dims) vs ≡ drop ((i + 1) * dims) (drop dims vs) =
          ap (λ n. drop (n * dims) vs) step
          ∙ ap (λ n. drop n vs) (times_suc (i + 1) dims)
          ∙ drop-add dims ((i + 1) * dims) vs in
        let whole : take (suc i * dims) vs ++ (v ++ drop ((suc i + 1) * dims) vs)
            ≡ front ++ (mid ++ last) =
          ap (λ x. x ++ (v ++ drop ((suc i + 1) * dims) vs)) p
          ∙ ap (λ x. (front ++ mid) ++ (v ++ x)) p'
          ∙ append_assoc front mid last in
        rw whole (
          rw (← same) (
            rw (take-at dims front (mid ++ last) wide) (
              rw (drop-at dims front (mid ++ last) wide)
                (ap (λ x. (y, front) ∷ x) (ih after fits)))))
