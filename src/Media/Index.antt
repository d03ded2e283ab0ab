-- ===== src/Media/Index.antt =====
-- src/media/index.rs: the entries with their vectors. A 32-bit float is its bit pattern, a number below
-- 2 ^ 32; `none` is a panic by an index out of range; a hash map is the list of its insertions, the
-- newest first.
pub mod Rows
pub mod Changes
pub mod Map
pub mod Saved
pub mod Sound
use homeassistant_local_voic.Base.{
  ℕ, zero, suc, ◌||◌, ◌>>=◌, ◌+◌, ◌*◌, ◌-◌, ◌/◌, ◌%◌, Bool, true, false, Option, none, some, List,
  [], ◌∷◌, ◌++◌, not, ltb, ◌==◌, length, take, drop, if◌then◌else◌,
}
use homeassistant_local_voic.Base.Text.{Text, codes, text_eq, text_mem}
use homeassistant_local_voic.Base.Result.{Result, ok, err}

pub data Kind : Type 0 where
  series : Kind
  movie : Kind
  episode : Kind

unfoldable pub from_jellyfin : Text → Option Kind
from_jellyfin t =
    if text_eq t (codes "Series")
    then some series
    else if text_eq t (codes "Movie")
    then some movie
    else if text_eq t (codes "Episode")
    then some episode
    else none

pub record Entry : Type 0 where
  pub id : Text
  pub kind : Kind
  pub name : Text
  pub series_id : Option Text
  pub series_name : Option Text
  pub hash : ℕ

abbrev pub Vector : Type 0
Vector = List ℕ

abbrev pub ById : Type 0
ById = List (Text × ℕ)

unfoldable pub position_of : ById → Text → Option ℕ
position_of [] id = none
position_of ((k, i) ∷ rest) id = if text_eq k id then some i else position_of rest id

pub record Index : Type 0 where
  pub dims : ℕ
  pub entries : List Entry
  pub vectors : Vector
  pub by_id : ById

abbrev pub new_index : ℕ → Index
new_index dims = record { dims = dims; entries = []; vectors = []; by_id = [] }

unfoldable pub entry_at : List Entry → ℕ → Option Entry
entry_at [] i = none
entry_at (e ∷ es) zero = some e
entry_at (e ∷ es) (suc i) = entry_at es i

-- The outer `none` is a panic.
unfoldable pub get : Index → Text → Option (Option Entry)
unfolding position_of entry_at
get ix id = elim (position_of ix.by_id id) [
  | none ↦ some none
  | some i ↦ elim (entry_at ix.entries i) [ none ↦ none | some e ↦ some (some e) ]
]

-- `entries[i] = entry`.
unfoldable pub set_entry : ℕ → Entry → List Entry → Option (List Entry)
set_entry i e [] = none
set_entry zero e (x ∷ es) = some (e ∷ es)
set_entry (suc i) e (x ∷ es) = elim (set_entry i e es) [ none ↦ none | some es' ↦ some (x ∷ es') ]

-- `xs[from..to]`.
unfoldable pub slice : ℕ → ℕ → Vector → Option Vector
slice from to xs =
    if ltb to from || ltb (length xs) to then none else some (take (to - from) (drop from xs))

-- `xs[from..to].copy_from_slice(v)`.
unfoldable pub copy_slice : ℕ → ℕ → Vector → Vector → Option Vector
copy_slice from to v xs =
    if ltb to from || (ltb (length xs) to || not (length v == to - from))
    then none
    else some (take from xs ++ (v ++ drop to xs))

unfoldable pub replace : Index → ℕ → Entry → Vector → Option Index
unfolding set_entry copy_slice
replace ix i entry vector = do
  entries ← set_entry i entry ix.entries
  vectors ← copy_slice (i * ix.dims) ((i + 1) * ix.dims) vector ix.vectors
  some (record ix { entries = entries; vectors = vectors })

unfoldable pub add : Index → Entry → Vector → Index
add ix entry vector = record ix {
  entries = ix.entries ++ (entry ∷ []);
  vectors = ix.vectors ++ vector;
  by_id = (entry.id, length ix.entries) ∷ ix.by_id;
}

unfoldable pub upsert : Index → Entry → Vector → Option (Result Index)
unfolding replace add position_of
upsert ix entry vector =
    if not (length vector == ix.dims)
    then some (err (codes "vector has the wrong size"))
    else elim (position_of ix.by_id entry.id) [
      | none ↦ some (ok (add ix entry vector))
      | some i ↦ elim (replace ix i entry vector) [ none ↦ none | some ix' ↦ some (ok ix') ]
    ]

-- The loop of `remove` from the entry `i` on: the entries and vectors that stay.
unfoldable pub keep : List Text → ℕ → Vector → ℕ → List Entry → Option (List Entry × Vector)
unfolding slice
keep gone dims vectors i [] = some ([], [])
keep gone dims vectors i (e ∷ es) =
    let rest = keep gone dims vectors (i + 1) es in
    let kept : Option (List Entry × Vector) = (do
      row ← slice (i * dims) ((i + 1) * dims) vectors
      (es', vs') ← rest
      some (e ∷ es', row ++ vs')) in
    if text_mem e.id gone then rest else kept

-- `enumerate` and `collect` into the map.
unfoldable pub collect : ℕ → List Entry → ById → ById
collect i [] m = m
collect i (e ∷ es) m = collect (i + 1) es ((e.id, i) ∷ m)

unfoldable pub remove : Index → List Text → Option (Index × ℕ)
unfolding keep collect
remove ix ids = do
  (entries, vectors) ← keep ids ix.dims ix.vectors 0 ix.entries
  some (
    record ix { entries = entries; vectors = vectors; by_id = collect 0 entries [] },
    length ix.entries - length entries,
  )

-- `f32::to_le_bytes`.
unfoldable pub to_le_bytes : ℕ → List ℕ
to_le_bytes w = (w % 256) ∷ ((w / 256) % 256) ∷ ((w / 65536) % 256) ∷ ((w / 16777216) % 256) ∷ []

-- `as_chunks::<4>` and `f32::from_le_bytes`.
unfoldable pub from_le_bytes : List ℕ → Vector
from_le_bytes (a ∷ b ∷ c ∷ d ∷ bytes) =
    (a + 256 * b + 65536 * c + 16777216 * d) ∷ from_le_bytes bytes
from_le_bytes _ = []

unfoldable pub all_bytes : Vector → List ℕ
all_bytes [] = []
all_bytes (w ∷ ws) = to_le_bytes w ++ all_bytes ws

-- `Header`, the content of `entries.json`; the text of the file is serde_json's.
pub record Header : Type 0 where
  pub fingerprint : Text
  pub header_dims : ℕ
  pub header_entries : List Entry

-- The directory of the index: the content of its two files, `none` for one that cannot be read.
pub record Disk : Type 0 where
  pub entries_json : Option Header
  pub vectors_f32 : Option (List ℕ)

-- The state of the disk behind the first rename of `save`, and behind both.
abbrev pub half_saved : Index → Disk → Disk
half_saved ix disk = record disk { vectors_f32 = some (all_bytes ix.vectors) }

abbrev pub save : Index → Text → Disk → Disk
save ix fingerprint disk = record (half_saved ix disk) {
  entries_json =
      some
        (record { fingerprint = fingerprint; header_dims = ix.dims; header_entries = ix.entries });
}

unfoldable pub load_files : Header → List ℕ → Text → ℕ → Option Index
unfolding from_le_bytes collect
load_files header raw fingerprint dims =
    if not (text_eq header.fingerprint fingerprint) || not (header.header_dims == dims)
    then none
    else if not (length raw == length header.header_entries * dims * 4)
    then none
    else some (record {
      dims = dims;
      entries = header.header_entries;
      vectors = from_le_bytes raw;
      by_id = collect 0 header.header_entries [];
    })

unfoldable pub load : Disk → Text → ℕ → Option Index
unfolding load_files
load disk fingerprint dims = do
  header ← disk.entries_json
  raw ← disk.vectors_f32
  load_files header raw fingerprint dims
