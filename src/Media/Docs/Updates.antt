-- ===== src/Media/Docs/Updates.antt =====
-- src/media/docs.rs: the change messages of Jellyfin's WebSocket.
use homeassistant_local_voic.Base.{
  Bool, Option, none, some, List, [], ◌∷◌, ◌++◌, ◌&&◌, not, if◌then◌else◌,
}
use homeassistant_local_voic.Base.Text.{Text, codes, less_text, text_eq, is_empty}
use homeassistant_local_voic.Json.{Value, at}
use homeassistant_local_voic.Media.Docs.{strings, is_text}

pub record Changes : Type 0 where
  pub changed : List Text
  pub removed : List Text

abbrev pub no_changes : Changes → Bool
no_changes c = is_empty c.changed && is_empty c.removed

-- `sort`.
unfoldable pub insert_sorted : Text → List Text → List Text
unfolding less_text
insert_sorted t [] = t ∷ []
insert_sorted t (x ∷ xs) =
    let rest = insert_sorted t xs in if less_text x t then x ∷ rest else t ∷ x ∷ xs

unfoldable pub sort : List Text → List Text
unfolding insert_sorted
sort [] = []
sort (t ∷ ts) = insert_sorted t (sort ts)

-- `dedup`: of equal neighbours only the first stays.
unfoldable pub dedup : List Text → List Text
unfolding text_eq
dedup [] = []
dedup (x ∷ []) = x ∷ []
dedup (x ∷ y ∷ ys) = let rest = dedup (y ∷ ys) in if text_eq x y then rest else x ∷ rest

unfoldable pub library_changes : Value → Option Changes
unfolding text_eq sort dedup
library_changes message =
    let data_of = at message (codes "Data") in
    let ids : Text → List Text = λ key. strings (at data_of key) in
    if not (is_text (at message (codes "MessageType")) (codes "LibraryChanged"))
    then none
    else some (record {
      changed = dedup (sort (ids (codes "ItemsAdded") ++ ids (codes "ItemsUpdated")));
      removed = ids (codes "ItemsRemoved");
    })
