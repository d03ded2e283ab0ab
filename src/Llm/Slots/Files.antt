-- ===== src/Llm/Slots/Files.antt =====
-- src/llm/slots.rs: the files of a saved slot. A directory is the list of its files, each with its
-- name and its content. `remove_file` and `rename` fail only for a missing file.
use homeassistant_local_voic.Base.{
  ℕ, Bool, true, false, Option, none, some, List, [], ◌∷◌, ◌++◌, drop, length, not, ◌&&◌,
  if◌then◌else◌,
}
use homeassistant_local_voic.Base.Text.{Text, codes, text_eq, starts_with}

abbrev pub Directory : Type 0
Directory = List (Text × List ℕ)

unfoldable pub read_file : Directory → Text → Option (List ℕ)
read_file [] name = none
read_file ((n, c) ∷ dir) name = if text_eq n name then some c else read_file dir name

unfoldable pub remove_file : Directory → Text → Directory
remove_file [] name = []
remove_file ((n, c) ∷ dir) name =
    let rest = remove_file dir name in if text_eq n name then rest else (n, c) ∷ rest

unfoldable pub rename : Directory → Text → Text → Option Directory
unfolding read_file remove_file
rename dir from to = elim (read_file dir from) [
  | none ↦ none
  | some c ↦ some ((to, c) ∷ remove_file (remove_file dir from) to)
]

abbrev pub prefix_of : Text → Text
prefix_of file = file ++ codes "."

unfoldable pub sidecars : Directory → Text → List Text
sidecars [] file = []
sidecars ((n, c) ∷ dir) file =
    let rest = sidecars dir file in if starts_with n (prefix_of file) then n ∷ rest else rest

-- The first loop of `move_with_sidecars`.
unfoldable pub drop_old : Text → Directory → List Text → Directory
unfolding remove_file
drop_old from dir [] = dir
drop_old from dir (old ∷ rest) =
    let away = not (text_eq old from) && not (starts_with old (prefix_of from)) in
    drop_old from (if away then remove_file dir old else dir) rest

-- The last loop of `move_with_sidecars`; false: an error.
unfoldable pub rename_all : Text → Text → Directory → List Text → Directory × Bool
unfolding rename
rename_all from to dir [] = (dir, true)
rename_all from to dir (name ∷ rest) = elim (rename dir name (to ++ drop (length from) name)) [
  | none ↦ (dir, false)
  | some dir' ↦ rename_all from to dir' rest
]

unfoldable pub move_with_sidecars : Directory → Text → Text → Directory × Bool
unfolding rename rename_all drop_old sidecars
move_with_sidecars dir from to =
    let cleared : Directory = drop_old from dir (sidecars dir to) in
    elim (rename cleared from to) [
      | none ↦ (cleared, false)
      | some dir' ↦ rename_all from to dir' (sidecars dir' from)
    ]

remove_all : Directory → List Text → Directory
unfolding remove_file
remove_all dir [] = dir
remove_all dir (name ∷ rest) = remove_all (remove_file dir name) rest

unfoldable pub remove_with_sidecars : Directory → Text → Directory
unfolding remove_file remove_all sidecars
remove_with_sidecars dir file =
    let dir' = remove_file dir file in remove_all dir' (sidecars dir' file)
