-- ===== src/Json.antt =====
-- serde_json's `Value`, as the hub reads and builds it. The codec itself is the crate's: it is the
-- record `Serde`, with the laws that the hub relies on.
pub mod Maps
use homeassistant_local_voic.Base.{
  ℕ, ◌-◌, ◌^◌, Bool, true, false, Option, none, some, List, [], ◌∷◌, ◌++◌, ◌≡◌, ◌==◌, ◌&&◌, ◌||◌,
  ltb, leb, all, All, ◌<◌, length, if◌then◌else◌,
}
use homeassistant_local_voic.Base.Text.{Text, text_eq, less_text}

-- A number is a non-negative integer, a negative one (`neg n` is -(n + 1)), or any other, as text.
mutual
  -- `serde_json::Map`, a BTreeMap: a map that was parsed or built by `insert` has its keys in ascending
  -- order. What `json!` builds stands in the order of the source; it is looked up and sent only.
  pub data Fields : Type 0 where
    field : Text → Value → Fields → Fields
    end : Fields

  pub data Value : Type 0 where
    str : Text → Value
    bool : Bool → Value
    obj : Fields → Value
    num : ℕ → Value
    neg : ℕ → Value
    arr : Items → Value
    float : Text → Value
    null : Value

  pub data Items : Type 0 where
    cons : Value → Items → Items
    nil : Items

unfoldable pub get_field : Fields → Text → Option Value
unfolding text_eq
get_field end key = none
get_field (field k v fs) key = if text_eq k key then some v else get_field fs key

-- `Map::insert`: a key that is there gets the new value, another one its place.
unfoldable pub insert : Fields → Text → Value → Fields
unfolding text_eq less_text
insert end key w = field key w end
insert (field k v fs) key w =
    let rest = insert fs key w in
    if text_eq k key
    then field k w fs
    else if less_text key k
    then field key w (field k v fs)
    else field k v rest

-- `Map::extend`.
unfoldable pub extend : Fields → Fields → Fields
unfolding insert
extend m end = m
extend m (field k v fs) = extend (insert m k v) fs

abbrev pub is_empty : Fields → Bool
is_empty end = true
is_empty (field k v fs) = false

abbrev pub get : Value → Text → Option Value
get (obj fs) key = get_field fs key
get _ key = none

-- `v["key"]`: null for a missing key, and for what is no object.
abbrev pub at : Value → Text → Value
at v key = elim (get v key) [ none ↦ null | some w ↦ w ]

abbrev pub as_str : Value → Option Text
as_str (str s) = some s
as_str _ = none

abbrev pub as_u64 : Value → Option ℕ
as_u64 (num n) = some n
as_u64 _ = none

abbrev pub as_bool : Value → Option Bool
as_bool (bool b) = some b
as_bool _ = none

abbrev pub as_array : Value → Option Items
as_array (arr xs) = some xs
as_array _ = none

abbrev pub is_null : Value → Bool
is_null null = true
is_null _ = false

abbrev pub to_list : Items → List Value
to_list nil = []
to_list (cons v vs) = v ∷ to_list vs

abbrev pub of_list : List Value → Items
of_list [] = nil
of_list (v ∷ vs) = cons v (of_list vs)

abbrev is_scalar : ℕ → Bool
is_scalar c = ltb c 0xd800 || (leb 0xe000 c && ltb c 0x110000)

-- Unicode scalar values, as a `String` has.
unfoldable pub is_string : Text → Bool
is_string t = all is_scalar t

abbrev pub all_above : Text → Fields → Bool
unfolding less_text
all_above k end = true
all_above k (field j v fs) = less_text k j && all_above k fs

-- Every key is below those behind it.
unfoldable pub is_map : Fields → Bool
unfolding all_above
is_map end = true
is_map (field k v fs) = all_above k fs && is_map fs

-- The values that serde_json writes and reads back as they were: integers of 64 bits, maps with
-- their keys once and in order, and at most `depth` levels; no floats, whose last digit may change.
unfoldable mutual
  unfolding is_string is_map

  pub encodable : ℕ → Value → Bool
  encodable depth (str t) = is_string t
  encodable depth (bool b) = true
  encodable depth (num n) = ltb n (2 ^ 64)
  encodable depth (neg n) = ltb n (2 ^ 63)
  encodable depth (float t) = false
  encodable depth null = true
  encodable depth (arr xs) = ltb 0 depth && encodable_items (depth - 1) xs
  encodable depth (obj fs) = ltb 0 depth && (is_map fs && encodable_fields (depth - 1) fs)

  pub encodable_items : ℕ → Items → Bool
  encodable_items depth nil = true
  encodable_items depth (cons v vs) = encodable depth v && encodable_items depth vs

  pub encodable_fields : ℕ → Fields → Bool
  encodable_fields depth end = true
  encodable_fields depth (field k v fs) =
      is_string k && (encodable depth v && encodable_fields depth fs)

-- serde_json's recursion limit is 128.
abbrev pub max_depth : ℕ
max_depth = 127

abbrev pub IsEncodable : Value → Type 0
IsEncodable v = encodable max_depth v ≡ true

-- `from_slice` and `to_vec`. Compact output is not empty and has no line feed, and white space may
-- stand behind a value.
pub record Serde : Type 0 where
  pub from_slice : List ℕ → Option Value
  pub to_vec : Value → List ℕ
  pub from_slice_to_vec : (v : Value) → IsEncodable v → from_slice (to_vec v) ≡ some v
  pub from_slice_line : (v : Value) → IsEncodable v → from_slice (to_vec v ++ b'\n' ∷ []) ≡ some v
  pub one_line : (v : Value) → IsEncodable v → All (λ b. (b == b'\n') ≡ false) (to_vec v)
  pub not_empty : (v : Value) → IsEncodable v → 0 < length (to_vec v)
