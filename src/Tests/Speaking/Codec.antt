-- ===== src/Tests/Speaking/Codec.antt =====
-- A concrete codec for `Serde`: tags and lengths in prefix order. It stands for serde_json in the runs, whose
-- laws it has for every value.

use homeassistant_local_voic.Base.{
  ℕ, zero, suc, ◌+◌, ◌-◌, ◌≤◌, ◌<◌, ◌≡◌, refl, ap, ◌∙◌, true, false, Option, none, some, List, [],
  ◌∷◌, ◌++◌, arith, length, All, ◌==◌, ◌>>=◌, if◌then◌else◌,
}
use homeassistant_local_voic.Base.Text.{Text}
use homeassistant_local_voic.Json
use homeassistant_local_voic.Json.{Value, Items, Fields, Serde}

-- A number never becomes a line feed.
unfoldable pub put_text : Text → List ℕ → List ℕ
put_text [] r = 11 ∷ r
put_text (c ∷ cs) r = 12 ∷ ((c + 11) ∷ put_text cs r)

unfoldable mutual
  pub put : Value → List ℕ → List ℕ
  put Json.null r = 0 ∷ r
  put (Json.bool true) r = 1 ∷ r
  put (Json.bool false) r = 2 ∷ r
  put (Json.num n) r = 3 ∷ ((n + 11) ∷ r)
  put (Json.neg n) r = 4 ∷ ((n + 11) ∷ r)
  put (Json.float t) r = 5 ∷ put_text t r
  put (Json.str t) r = 6 ∷ put_text t r
  put (Json.arr xs) r = 7 ∷ put_items xs r
  put (Json.obj fs) r = 8 ∷ put_fields fs r

  pub put_items : Items → List ℕ → List ℕ
  put_items Json.nil r = 11 ∷ r
  put_items (Json.cons v vs) r = 12 ∷ put v (put_items vs r)

  pub put_fields : Fields → List ℕ → List ℕ
  put_fields Json.end r = 11 ∷ r
  put_fields (Json.field k v fs) r = 12 ∷ put_text k (put v (put_fields fs r))

unfoldable pub take_text : List ℕ → Option (Text × List ℕ)
take_text [] = none
take_text (b ∷ []) = if b == 11 then some ([], []) else none
take_text (b ∷ c ∷ r) =
    let rest : Option (Text × List ℕ) = elim (take_text r) [
      | none ↦ none
      | some (t, s) ↦ some ((c - 11) ∷ t, s)
    ] in
    if b == 11 then some ([], c ∷ r) else rest

unfoldable pub take_number : List ℕ → Option (ℕ × List ℕ)
take_number [] = none
take_number (b ∷ r) = some (b - 11, r)

unfoldable mutual
  pub take_value : ℕ → List ℕ → Option (Value × List ℕ)
  take_value zero r = none
  take_value (suc f) [] = none
  take_value (suc f) (b ∷ r) =
      let items : Option (Value × List ℕ) = take_items f r >>= λ (xs, s). some (Json.arr xs, s) in
      let fields : Option (Value × List ℕ) = take_fields f r >>= λ (fs, s). some (Json.obj fs, s) in
      if b == 0
      then some (Json.null, r)
      else if b == 1
      then some (Json.bool true, r)
      else if b == 2
      then some (Json.bool false, r)
      else if b == 3
      then (take_number r >>= λ (n, s). some (Json.num n, s))
      else if b == 4
      then (take_number r >>= λ (n, s). some (Json.neg n, s))
      else if b == 5
      then (take_text r >>= λ (t, s). some (Json.float t, s))
      else if b == 6
      then (take_text r >>= λ (t, s). some (Json.str t, s))
      else if b == 7
      then items
      else if b == 8
      then fields
      else none

  pub take_items : ℕ → List ℕ → Option (Items × List ℕ)
  take_items zero r = none
  take_items (suc f) [] = none
  take_items (suc f) (b ∷ r) =
      let rest : Option (Items × List ℕ) =
        take_value f r >>= λ (v, s). (take_items f s >>= λ (vs, s'). some (Json.cons v vs, s')) in
      if b == 11 then some (Json.nil, r) else rest

  pub take_fields : ℕ → List ℕ → Option (Fields × List ℕ)
  take_fields zero r = none
  take_fields (suc f) [] = none
  take_fields (suc f) (b ∷ r) =
      let rest : Option (Fields × List ℕ) = take_text r >>= λ (k, s).
      (take_value f s >>= λ (v, s').
      (take_fields f s' >>= λ (fs, s''). some (Json.field k v fs, s''))) in
      if b == 11 then some (Json.end, r) else rest

mutual
  size : Value → ℕ
  size Json.null = 1
  size (Json.bool b) = 1
  size (Json.num n) = 1
  size (Json.neg n) = 1
  size (Json.float t) = 1
  size (Json.str t) = 1
  size (Json.arr xs) = 1 + size_items xs
  size (Json.obj fs) = 1 + size_fields fs

  size_items : Items → ℕ
  size_items Json.nil = 1
  size_items (Json.cons v vs) = 1 + (size v + size_items vs)

  size_fields : Fields → ℕ
  size_fields Json.end = 1
  size_fields (Json.field k v fs) = 1 + (size v + size_fields fs)

size_pos : (v : Value) → 0 < size v
unfolding size
size_pos (Json.arr xs) = omega arith
size_pos _ = omega arith

take-put_text : (t : Text) (r : List ℕ) → take_text (put_text t r) ≡ some (t, r)
unfolding take_text put_text
take-put_text [] [] = refl
take-put_text [] (b ∷ r) = refl
take-put_text (c ∷ cs) r =
    let back : c + 11 - 11 ≡ c = omega arith in rw (take-put_text cs r) (rw back)

mutual
  unfolding take_value take_items take_fields take_number put put_items put_fields size size_items
      size_fields

  take-put : (v : Value) (f : ℕ) (r : List ℕ) → size v ≤ f → take_value f (put v r) ≡ some (v, r)
  take-put Json.null zero r h = absurd (omega arith)
  take-put (Json.bool b) zero r h = absurd (omega arith)
  take-put (Json.num n) zero r h = absurd (omega arith)
  take-put (Json.neg n) zero r h = absurd (omega arith)
  take-put (Json.float t) zero r h = absurd (omega arith)
  take-put (Json.str t) zero r h = absurd (omega arith)
  take-put (Json.arr xs) zero r h = absurd (omega arith)
  take-put (Json.obj fs) zero r h = absurd (omega arith)
  take-put Json.null (suc f) r h = refl
  take-put (Json.bool true) (suc f) r h = refl
  take-put (Json.bool false) (suc f) r h = refl
  take-put (Json.num n) (suc f) r h = let back : n + 11 - 11 ≡ n = omega arith in rw back
  take-put (Json.neg n) (suc f) r h = let back : n + 11 - 11 ≡ n = omega arith in rw back
  take-put (Json.float t) (suc f) r h = rw (take-put_text t r)
  take-put (Json.str t) (suc f) r h = rw (take-put_text t r)
  take-put (Json.arr xs) (suc f) r h = rw (take_items-put xs f r (omega arith))
  take-put (Json.obj fs) (suc f) r h = rw (take_fields-put fs f r (omega arith))

  take_items-put :
      (xs : Items) (f : ℕ) (r : List ℕ)
      → size_items xs ≤ f
      → take_items f (put_items xs r) ≡ some (xs, r)
  take_items-put Json.nil zero r h = absurd (omega arith)
  take_items-put (Json.cons v vs) zero r h = absurd (omega arith)
  take_items-put Json.nil (suc f) r h = refl
  take_items-put (Json.cons v vs) (suc f) r h =
      rw (take-put v f (put_items vs r) (omega arith)) (rw (take_items-put vs f r (omega arith)))

  take_fields-put :
      (fs : Fields) (f : ℕ) (r : List ℕ)
      → size_fields fs ≤ f
      → take_fields f (put_fields fs r) ≡ some (fs, r)
  take_fields-put Json.end zero r h = absurd (omega arith)
  take_fields-put (Json.field k v fs) zero r h = absurd (omega arith)
  take_fields-put Json.end (suc f) r h = refl
  take_fields-put (Json.field k v fs) (suc f) r h = rw (take-put_text k (put v (put_fields fs r))) (
      rw (take-put v f (put_fields fs r) (omega arith)) (rw (take_fields-put fs f r (omega arith))))

length-put_text : (t : Text) (r : List ℕ) → suc (length r) ≤ length (put_text t r)
unfolding put_text
length-put_text [] r = omega arith
length-put_text (c ∷ cs) r = omega (arith, length-put_text cs r)

mutual
  unfolding put put_items put_fields size size_items size_fields

  length-put : (v : Value) (r : List ℕ) → size v + length r ≤ length (put v r)
  length-put Json.null r = omega arith
  length-put (Json.bool true) r = omega arith
  length-put (Json.bool false) r = omega arith
  length-put (Json.num n) r = omega arith
  length-put (Json.neg n) r = omega arith
  length-put (Json.float t) r = omega (arith, length-put_text t r)
  length-put (Json.str t) r = omega (arith, length-put_text t r)
  length-put (Json.arr xs) r = omega (arith, length-put_items xs r)
  length-put (Json.obj fs) r = omega (arith, length-put_fields fs r)

  length-put_items : (xs : Items) (r : List ℕ) → size_items xs + length r ≤ length (put_items xs r)
  length-put_items Json.nil r = omega arith
  length-put_items (Json.cons v vs) r =
      omega (arith, length-put v (put_items vs r), length-put_items vs r)

  length-put_fields :
      (fs : Fields) (r : List ℕ) → size_fields fs + length r ≤ length (put_fields fs r)
  length-put_fields Json.end r = omega arith
  length-put_fields (Json.field k v fs) r = omega (
    arith,
    length-put_text k (put v (put_fields fs r)),
    length-put v (put_fields fs r),
    length-put_fields fs r,
  )

put_text-append : (t : Text) (r s : List ℕ) → put_text t r ++ s ≡ put_text t (r ++ s)
unfolding put_text
put_text-append [] r s = refl
put_text-append (c ∷ cs) r s = ap (λ x. 12 ∷ ((c + 11) ∷ x)) (put_text-append cs r s)

mutual
  unfolding put put_items put_fields

  pub put-append : (v : Value) (r s : List ℕ) → put v r ++ s ≡ put v (r ++ s)
  put-append Json.null r s = refl
  put-append (Json.bool true) r s = refl
  put-append (Json.bool false) r s = refl
  put-append (Json.num n) r s = refl
  put-append (Json.neg n) r s = refl
  put-append (Json.float t) r s = ap (◌∷◌ 5) (put_text-append t r s)
  put-append (Json.str t) r s = ap (◌∷◌ 6) (put_text-append t r s)
  put-append (Json.arr xs) r s = ap (◌∷◌ 7) (put_items-append xs r s)
  put-append (Json.obj fs) r s = ap (◌∷◌ 8) (put_fields-append fs r s)

  put_items-append : (xs : Items) (r s : List ℕ) → put_items xs r ++ s ≡ put_items xs (r ++ s)
  put_items-append Json.nil r s = refl
  put_items-append (Json.cons v vs) r s =
      ap (◌∷◌ 12) (put-append v (put_items vs r) s ∙ ap (put v) (put_items-append vs r s))

  put_fields-append : (fs : Fields) (r s : List ℕ) → put_fields fs r ++ s ≡ put_fields fs (r ++ s)
  put_fields-append Json.end r s = refl
  put_fields-append (Json.field k v fs) r s = ap (◌∷◌ 12) (
      put_text-append k (put v (put_fields fs r)) s
      ∙ ap (put_text k) (put-append v (put_fields fs r) s ∙ ap (put v) (put_fields-append fs r s)))

abbrev pub NoFeed : List ℕ → Type 0
NoFeed = All (λ b. (b == b'\n') ≡ false)

put_text-NoFeed : (t : Text) (r : List ℕ) → NoFeed r → NoFeed (put_text t r)
unfolding put_text
put_text-NoFeed [] r h = (refl, h)
put_text-NoFeed (c ∷ cs) r h = (refl, (ground arith, put_text-NoFeed cs r h))

mutual
  unfolding put put_items put_fields

  pub put-NoFeed : (v : Value) (r : List ℕ) → NoFeed r → NoFeed (put v r)
  put-NoFeed Json.null r h = (refl, h)
  put-NoFeed (Json.bool true) r h = (refl, h)
  put-NoFeed (Json.bool false) r h = (refl, h)
  put-NoFeed (Json.num n) r h = (refl, (ground arith, h))
  put-NoFeed (Json.neg n) r h = (refl, (ground arith, h))
  put-NoFeed (Json.float t) r h = (refl, put_text-NoFeed t r h)
  put-NoFeed (Json.str t) r h = (refl, put_text-NoFeed t r h)
  put-NoFeed (Json.arr xs) r h = (refl, put_items-NoFeed xs r h)
  put-NoFeed (Json.obj fs) r h = (refl, put_fields-NoFeed fs r h)

  put_items-NoFeed : (xs : Items) (r : List ℕ) → NoFeed r → NoFeed (put_items xs r)
  put_items-NoFeed Json.nil r h = (refl, h)
  put_items-NoFeed (Json.cons v vs) r h = (refl, put-NoFeed v _ (put_items-NoFeed vs r h))

  put_fields-NoFeed : (fs : Fields) (r : List ℕ) → NoFeed r → NoFeed (put_fields fs r)
  put_fields-NoFeed Json.end r h = (refl, h)
  put_fields-NoFeed (Json.field k v fs) r h =
      (refl, put_text-NoFeed k _ (put-NoFeed v _ (put_fields-NoFeed fs r h)))

unfoldable pub from_bytes : List ℕ → Option Value
from_bytes bytes = elim (take_value (length bytes) bytes) [ none ↦ none | some (v, r) ↦ some v ]

pub from_bytes-put : (v : Value) (r : List ℕ) → from_bytes (put v r) ≡ some v
unfolding from_bytes
from_bytes-put v r =
    rw (take-put v (length (put v r)) r (omega (arith, length-put v r)), from_bytes) refl

pub written : (v : Value) → 0 < length (put v [])
written v = omega (arith, length-put v [], size_pos v)

unfoldable pub codec : Serde
codec = record {
  from_slice = from_bytes;
  to_vec = λ v. put v [];
  from_slice_to_vec = λ v e. from_bytes-put v [];
  from_slice_line = λ v e. rw (put-append v [] (b'\n' ∷ [])) (from_bytes-put v (b'\n' ∷ []));
  one_line = λ v e. put-NoFeed v [] tt;
  not_empty = λ v e. written v;
}
