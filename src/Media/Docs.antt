-- ===== src/Media/Docs.antt =====
-- src/media/docs.rs: the text that is embedded for an item, and Jellyfin's change messages; with the hash of
-- src/media/index.rs and the prompt of src/media/embed.rs.
pub mod Updates
use mathlib.Core.List.{reverse}
use homeassistant_local_voic.Base.{
  ℕ, zero, suc, ◌+◌, ◌*◌, ◌/◌, ◌%◌, ◌^◌, ◌>>=◌, Bool, true, false, Option, none, some, List, [],
  ◌∷◌, ◌++◌, take, ltb, leb, ◌==◌, not, ◌&&◌, length, if◌then◌else◌,
}
use homeassistant_local_voic.Base.Text.{
  Text, codes, less_text, text_eq, trim, is_empty, split_whitespace, split_once, join, to_string,
}
use homeassistant_local_voic.Base.Int.{ℤ, pos, negsuc}
use homeassistant_local_voic.Json
use homeassistant_local_voic.Json.{Value, Items, at, as_str, as_array, to_list}
use homeassistant_local_voic.Media.Index
use homeassistant_local_voic.Media.Index.{Entry, from_jellyfin}

-- The UTF-8 bytes of a scalar value, and `str::as_bytes`.
abbrev utf8 : ℕ → List ℕ
utf8 c =
    if ltb c 0x80
    then c ∷ []
    else if ltb c 0x800
    then (0xc0 + c / 64) ∷ (0x80 + c % 64) ∷ []
    else if ltb c 0x10000
    then (0xe0 + c / 4096) ∷ (0x80 + c / 64 % 64) ∷ (0x80 + c % 64) ∷ []
    else (0xf0 + c / 262144) ∷ (0x80 + c / 4096 % 64) ∷ (0x80 + c / 64 % 64) ∷ (0x80 + c % 64) ∷ []

unfoldable pub as_bytes : Text → List ℕ
as_bytes [] = []
as_bytes (c ∷ cs) = utf8 c ++ as_bytes cs

-- The exclusive or of the lowest `n` bits.
unfoldable pub xor_bits : ℕ → ℕ → ℕ → ℕ
xor_bits zero x y = 0
xor_bits (suc n) x y = (x % 2 + y % 2) % 2 + 2 * xor_bits n (x / 2) (y / 2)

unfoldable pub hash_from : ℕ → List ℕ → ℕ
unfolding xor_bits
hash_from h [] = h
hash_from h (b ∷ bytes) = hash_from (xor_bits 64 h b * 0x100000001b3 % 2 ^ 64) bytes

unfoldable pub fnv1a : Text → ℕ
unfolding hash_from as_bytes
fnv1a text = hash_from 0xcbf29ce484222325 (as_bytes text)

unfoldable pub document_text : Text → Text → Text
document_text title text = codes "title: " ++ (title ++ (codes " | text: " ++ text))

abbrev pub overview_chars : ℕ
overview_chars = 800

abbrev pub actors_max : ℕ
actors_max = 5

pub record Doc : Type 0 where
  pub entry : Entry
  pub text : Text

-- A text without its last word, or whole if it has but one.
unfoldable pub drop_last_word : Text → Text
unfolding split_once
drop_last_word text = elim (split_once b' ' (reverse text)) [
  | none ↦ text
  | some (last, head) ↦ reverse head ++ (8230 ∷ [])
]

unfoldable pub cut : Text → ℕ → Text
unfolding split_whitespace join drop_last_word
cut text max =
    let text' = join (codes " ") (split_whitespace text) in
    if leb (length text') max then text' else drop_last_word (take max text')

abbrev texts_in : List Value → List Text
texts_in [] = []
texts_in (v ∷ vs) = elim (as_str v) [ none ↦ texts_in vs | some t ↦ t ∷ texts_in vs ]

abbrev elements : Value → List Value
elements v = elim (as_array v) [ none ↦ [] | some xs ↦ to_list xs ]

abbrev pub strings : Value → List Text
strings v = texts_in (elements v)

abbrev text_or : Value → Text
text_or v = elim (as_str v) [ none ↦ [] | some t ↦ t ]

-- `Value::as_i64`.
abbrev as_i64 : Value → Option ℤ
as_i64 (Json.num n) = if ltb n (2 ^ 63) then some (pos n) else none
as_i64 (Json.neg n) = some (negsuc n)
as_i64 _ = none

abbrev shown : ℤ → Text
shown (pos n) = to_string n
shown (negsuc n) = b'-' ∷ to_string (n + 1)

abbrev pub is_text : Value → Text → Bool
is_text v t = elim (as_str v) [ none ↦ false | some s ↦ text_eq s t ]

-- The names of the actors.
abbrev actors_in : List Value → List Text
actors_in [] = []
actors_in (p ∷ ps) =
    let rest = actors_in ps in
    if is_text (at p (codes "Type")) (codes "Actor")
    then elim (as_str (at p (codes "Name"))) [ none ↦ rest | some t ↦ t ∷ rest ]
    else rest

-- A part of the text, if there is something to tell.
abbrev part : Bool → Text → List Text
part true t = t ∷ []
part false t = []

abbrev year_part : Text → Value → Text
year_part what item = elim (as_i64 (at item (codes "ProductionYear"))) [
  | none ↦ what
  | some y ↦ what ++ (codes ", " ++ shown y)
]

unfoldable pub work_parts : Text → Text → Value → List Text
unfolding text_eq trim
work_parts what name item =
    let orig = trim (text_or (at item (codes "OriginalTitle"))) in
    let genres = strings (at item (codes "Genres")) in
    let actors = take actors_max (actors_in (elements (at item (codes "People")))) in
    year_part what item
    ∷ (part (not (is_empty orig) && not (text_eq orig name)) (codes "Original title: " ++ orig)
        ++ (part (not (is_empty genres)) (codes "Genres: " ++ join (codes ", ") genres)
            ++ part (not (is_empty actors)) (codes "Starring " ++ join (codes ", ") actors)))

abbrev series_of : Value → Text
series_of item = trim (text_or (at item (codes "SeriesName")))

abbrev number_part : Text → Value → Text
number_part before v = elim (as_i64 v) [ none ↦ [] | some n ↦ before ++ shown n ]

unfoldable pub episode_part : Value → Text
unfolding trim
episode_part item =
    let series = series_of item in
    codes "Episode"
    ++ (number_part (codes " ") (at item (codes "IndexNumber"))
        ++ (number_part (codes " of season ") (at item (codes "ParentIndexNumber"))
            ++ (if is_empty series then [] else codes " of " ++ series)))

-- `replace("..", ".")`; `pending` tells that a dot is read that is not written yet.
unfoldable pub single_dots : Bool → Text → Text
single_dots true [] = b'.' ∷ []
single_dots false [] = []
single_dots true (c ∷ cs) =
    let rest = single_dots false cs in if c == b'.' then b'.' ∷ rest else b'.' ∷ c ∷ rest
single_dots false (c ∷ cs) =
    let rest = single_dots (c == b'.') cs in if c == b'.' then rest else c ∷ rest

-- Title, parts, series ID and series name.
pub record Described : Type 0 where
  pub title : Text
  pub parts : List Text
  pub series_id : Option Text
  pub series_name : Option Text

unfoldable pub described : Index.Kind → Text → Value → Described
unfolding work_parts episode_part trim
described Index.series name item = record {
  title = name;
  parts = work_parts (codes "Series") name item;
  series_id = none;
  series_name = none;
}
described Index.movie name item = record {
  title = name;
  parts = work_parts (codes "Movie") name item;
  series_id = none;
  series_name = none;
}
described Index.episode name item =
    let series = series_of item in
    record {
      title = if is_empty series then name else series ++ (codes ": " ++ name);
      parts = episode_part item ∷ [];
      series_id = as_str (at item (codes "SeriesId"));
      series_name = if is_empty series then none else some series;
    }

abbrev named : Text → Option Text
named n = if is_empty (trim n) then none else some (trim n)

unfoldable pub document : Value → Option Doc
unfolding from_jellyfin trim cut described single_dots document_text fnv1a
document item = do
  type_name ← as_str (at item (codes "Type"))
  kind ← from_jellyfin type_name
  id ← as_str (at item (codes "Id"))
  full_name ← as_str (at item (codes "Name"))
  name ← named full_name
  let overview = cut (text_or (at item (codes "Overview"))) overview_chars
  let d = described kind name item
  let parts = d.parts ++ part (not (is_empty overview)) overview
  let text = document_text d.title (single_dots false (join (codes ". ") parts ++ codes "."))
  some (record {
    entry = record {
      id = id;
      kind = kind;
      name = name;
      series_id = d.series_id;
      series_name = d.series_name;
      hash = fnv1a text;
    };
    text = text;
  })
