-- ===== src/Watch/Paths.antt =====
-- internal/watch/fsnotify.go: `pathWithin`, with what it uses of `path/filepath` on Unix.
pub mod Inside
use mathlib.Core.List.{reverse}
use nudge.Base.{
  Bool, List, Option, [], false, if◌then◌else◌, is_nil, map, none, not, some, true, ◌&&◌, ◌++◌,
  ◌==◌, ◌||◌, ◌∷◌,
}
use nudge.Base.Bytes.{Bytes, bytes_eq, codes, is_empty}
use nudge.Base.Text.{split}
use nudge.Refresh.Reasons.{bool_eq}

-- A path that `filepath.Clean` has cleaned, as the names between its slashes; none for "/" and ".".
pub record CleanPath : Type 0 where
  pub rooted : Bool
  pub names : List Bytes

abbrev pub parent_name : Bytes
parent_name = codes ".."

abbrev pub step_up : Bool → List Bytes → List Bytes
step_up true [] = []
step_up false [] = parent_name ∷ []
step_up rooted (name ∷ names) =
    if bytes_eq name parent_name then parent_name ∷ name ∷ names else names

-- One name of a path, after the names that are kept, the last name first.
unfoldable pub clean_name : Bool → List Bytes → Bytes → List Bytes
clean_name rooted names name =
    if is_empty name || bytes_eq name (codes ".")
    then names
    else if bytes_eq name parent_name
    then step_up rooted names
    else name ∷ names

unfoldable pub clean_names : Bool → List Bytes → List Bytes → List Bytes
clean_names rooted names [] = reverse names
clean_names rooted names (name ∷ rest) = clean_names rooted (clean_name rooted names name) rest

abbrev pub is_rooted : Bytes → Bool
is_rooted [] = false
is_rooted (c ∷ s) = c == b'/'

-- `filepath.Clean`.
unfoldable pub clean : Bytes → CleanPath
clean path = record {
  rooted = is_rooted path;
  names = clean_names (is_rooted path) [] (split path (codes "/"));
}

-- The text of a cleaned path.
unfoldable pub names_text : List Bytes → Bytes
names_text [] = []
names_text (name ∷ []) = name
names_text (name ∷ rest) = name ++ b'/' ∷ names_text rest

abbrev pub path_text : CleanPath → Bytes
path_text p =
    if p.rooted
    then b'/' ∷ names_text p.names
    else if is_nil p.names
    then codes "."
    else names_text p.names

unfoldable pub names_eq : List Bytes → List Bytes → Bool
names_eq [] [] = true
names_eq (a ∷ left) (b ∷ right) = bytes_eq a b && names_eq left right
names_eq _ _ = false

abbrev pub path_eq : CleanPath → CleanPath → Bool
path_eq p q = bool_eq p.rooted q.rooted && names_eq p.names q.names

-- `filepath.Rel` on cleaned paths, as the names of its result, none of them for "."; no result for
-- an error.
unfoldable pub up_from : List Bytes → List Bytes → Option (List Bytes)
up_from [] target = some target
up_from (name ∷ base) target =
    if bytes_eq name parent_name
    then none
    else some (map (λ n. parent_name) (name ∷ base) ++ target)

unfoldable pub rel_names : List Bytes → List Bytes → Option (List Bytes)
rel_names (a ∷ base) (b ∷ target) =
    let rest = rel_names base target in
    if bytes_eq a b then rest else up_from (a ∷ base) (b ∷ target)
rel_names base target = up_from base target

unfoldable pub rel : CleanPath → CleanPath → Option (List Bytes)
rel base target =
    if bool_eq base.rooted target.rooted then rel_names base.names target.names else none

abbrev pub leads_inside : Option (List Bytes) → Bool
leads_inside none = false
leads_inside (some []) = true
leads_inside (some (name ∷ names)) = not (bytes_eq name parent_name)

-- `pathWithin`, on a cleaned path.
unfoldable pub path_within : Bytes → CleanPath → Bool
path_within root path = leads_inside (rel (clean root) path)
