-- ===== src/Program/Paths.antt =====
-- `path.Join` of two elements, as batchiepatchie.go uses it.
pub mod Clean
use Prim.Native.Char.{Char, code}
use batchiepatchie.Prelude.{String, Bool, true, false, List, [], ◌∷◌, ◌==◌, eqb, if◌then◌else◌}
use batchiepatchie.Prelude.Text.{concat, slash}

-- A character put before the first text of a list.
abbrev pub prepend : Char → List String → List String
prepend c [] = String.◌∷◌ c String.[] ∷ []
prepend c (s ∷ ss) = String.◌∷◌ c s ∷ ss

-- The elements of a path.
unfoldable pub split_path : String → List String
split_path String.[] = "" ∷ []
split_path (String.◌∷◌ c s) =
    let rest = split_path s in if eqb (code c) slash then "" ∷ rest else prepend c rest

abbrev pub is_rooted : String → Bool
is_rooted String.[] = false
is_rooted (String.◌∷◌ c s) = eqb (code c) slash

-- `..` takes away the element before it, or stays where there is none; the root has no parent.
abbrev pub up : Bool → List String → List String
up true [] = []
up false [] = ".." ∷ []
up rooted (last ∷ before) = if last == ".." then ".." ∷ last ∷ before else before

-- The elements that are left, the last one first.
unfoldable pub clean_elements : Bool → List String → List String → List String
clean_elements rooted [] kept = kept
clean_elements rooted (element ∷ rest) kept = clean_elements rooted rest (
    if element == ""
    then kept
    else if element == "."
    then kept
    else if element == ".."
    then up rooted kept
    else element ∷ kept)

-- Elements in reverse order, between slashes, before a text.
unfoldable pub joined : List String → String → String
joined [] path = path
joined (element ∷ before) path = joined before (concat element (concat "/" path))

abbrev pub join_reversed : List String → String
join_reversed [] = ""
join_reversed (last ∷ before) = joined before last

abbrev pub or_dot : String → String
or_dot path = if path == "" then "." else path

-- `path.Clean`.
unfoldable pub clean : String → String
clean path =
    if is_rooted path
    then concat "/" (join_reversed (clean_elements true (split_path path) []))
    else or_dot (join_reversed (clean_elements false (split_path path) []))

-- An empty element is left out.
unfoldable pub join_path : String → String → String
join_path directory file =
    clean (if directory == "" then file else concat directory (concat "/" file))
