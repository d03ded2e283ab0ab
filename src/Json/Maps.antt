-- ===== src/Json/Maps.antt =====
-- Maps: the map rebuilt from its own fields.
use homeassistant_local_voic.Base.{
  true, false, ◌≡◌, refl, sym, ap, ◌∙◌, Bool-cases, inl, inr, not_both, and-eq_true,
}
use homeassistant_local_voic.Base.Text.{
  Text, text_eq, text_eq_iff, less_text, less_text_refl, less_text_asym,
}
use homeassistant_local_voic.Json.{Value, Fields, end, field, insert, extend, all_above, is_map}

abbrev append : Fields → Fields → Fields
append end ys = ys
append (field k v xs) ys = field k v (append xs ys)

-- Every key of `m` is below `k`, or below those of `fs`.
abbrev Below : Fields → Text → Type 0
Below end k = Unit
Below (field j w m) k = (less_text j k ≡ true) × Below m k

abbrev AllBelow : Fields → Fields → Type 0
AllBelow m end = Unit
AllBelow m (field k v fs) = Below m k × AllBelow m fs

less_differs : (j k : Text) → less_text j k ≡ true → text_eq j k ≡ false
less_differs j k less = elim (Bool-cases (text_eq j k)) [
  | inl same ↦
      let is : j ≡ k = (text_eq_iff j k).0 same in
      let less' : less_text k k ≡ true = rw is at less in absurd (not_both less' (less_text_refl k))
  | inr other ↦ other
]

insert-last :
    (m : Fields) (k : Text) (v : Value) → Below m k → insert m k v ≡ append m (field k v end)
unfolding insert
insert-last end k v h = refl
insert-last (field j w m) k v h =
    rw (insert, less_differs j k h.0, less_text_asym j k h.0)
      (ap (field j w) (insert-last m k v h.1))

Below-append :
    (m : Fields) (j k : Text) (v : Value)
    → Below m j
    → less_text k j ≡ true
    → Below (append m (field k v end)) j
Below-append end j k v h less = (less, tt)
Below-append (field i w m) j k v h less = (h.0, Below-append m j k v h.1 less)

AllBelow-append :
    (m fs : Fields) (k : Text) (v : Value)
    → AllBelow m fs
    → all_above k fs ≡ true
    → AllBelow (append m (field k v end)) fs
unfolding all_above
AllBelow-append m end k v a h = tt
AllBelow-append m (field j w fs) k v a h =
    let (less, rest) = and-eq_true (less_text k j) (all_above k fs) h in
    (Below-append m j k v a.0 less, AllBelow-append m fs k v a.1 rest)

append-assoc_one :
    (m fs : Fields) (k : Text) (v : Value)
    → append (append m (field k v end)) fs ≡ append m (field k v fs)
append-assoc_one end fs k v = refl
append-assoc_one (field j w m) fs k v = ap (field j w) (append-assoc_one m fs k v)

append-end : (m : Fields) → append m end ≡ m
append-end end = refl
append-end (field j w m) = ap (field j w) (append-end m)

extend-append : (fs m : Fields) → is_map fs ≡ true → AllBelow m fs → extend m fs ≡ append m fs
unfolding extend is_map
extend-append end m d a = sym (append-end m)
extend-append (field k v fs) m d a =
    let (above, rest) = and-eq_true (all_above k fs) (is_map fs) d in
    rw (insert-last m k v a.0) (
      extend-append fs (append m (field k v end)) rest (AllBelow-append m fs k v a.1 above)
      ∙ append-assoc_one m fs k v)

AllBelow-end : (fs : Fields) → AllBelow end fs
AllBelow-end end = tt
AllBelow-end (field k v fs) = (tt, AllBelow-end fs)

-- A map is what its fields extend the empty map to.
pub extend-end : (fs : Fields) → is_map fs ≡ true → extend end fs ≡ fs
extend-end fs d = extend-append fs end d (AllBelow-end fs)
