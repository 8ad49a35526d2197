-- ===== src/Query/Paths.antt =====
-- What the queries use of `std::path::Path`, for relative paths of normal components.
pub mod Dirname
use watchwoman.Base.{
  ℕ, Bool, true, false, Option, none, some, List, [], ◌∷◌, ◌++◌, ◌||◌, ◌==◌, nat_eq, list_eq,
  if◌then◌else◌,
}
use watchwoman.Base.Text.{Text, FilePath, ascii, split}

-- `rel.file_name()` and `rel.parent()`.
unfoldable pub file_name : FilePath → Option Text
file_name [] = none
file_name (c ∷ []) = some c
file_name (c ∷ d ∷ cs) = file_name (d ∷ cs)

unfoldable pub init : FilePath → FilePath
init [] = []
init (c ∷ []) = []
init (c ∷ d ∷ cs) = c ∷ init (d ∷ cs)

unfoldable pub parent : FilePath → Option FilePath
parent [] = none
parent (c ∷ cs) = some (init (c ∷ cs))

-- The bytes of a path.
unfoldable pub path_bytes : FilePath → Text
path_bytes [] = []
path_bytes (c ∷ []) = c
path_bytes (c ∷ d ∷ cs) = c ++ b'/' ∷ path_bytes (d ∷ cs)

-- The last dot splits a name.
unfoldable pub rsplit_dot : Text → Option (Text × Text)
rsplit_dot [] = none
rsplit_dot (c ∷ s) = elim (rsplit_dot s) [
  | some (before, after) ↦ some (c ∷ before, after)
  | none ↦ if c == b'.' then some ([], s) else none
]

-- A name that only starts with a dot has no extension.
abbrev behind_dot : Option (Text × Text) → Option Text
behind_dot none = none
behind_dot (some ([], after)) = none
behind_dot (some (c ∷ before, after)) = some after

unfoldable pub extension : FilePath → Option Text
extension rel = elim (file_name rel) [ none ↦ none | some name ↦ behind_dot (rsplit_dot name) ]

-- The components of `PathBuf::from(s)`, if all are normal: a root, a leading `.` and a `..` are not, an
-- empty piece and another `.` are none.
abbrev is_skipped : Text → Bool
is_skipped piece = piece == [] || piece == ascii "."

unfoldable pub normal_pieces : List Text → Option FilePath
normal_pieces [] = some []
normal_pieces (piece ∷ pieces) =
    let rest = normal_pieces pieces in
    if piece == ascii ".."
    then none
    else if is_skipped piece
    then rest
    else elim rest [ none ↦ none | some cs ↦ some (piece ∷ cs) ]

abbrev behind_head : List Text → Option FilePath
behind_head [] = some []
behind_head (piece ∷ pieces) = if is_skipped piece then none else normal_pieces (piece ∷ pieces)

unfoldable pub normal_components : Text → Option FilePath
normal_components [] = some []
normal_components (c ∷ s) = behind_head (split b'/' (c ∷ s))

-- `rel.strip_prefix(base)` for components.
unfoldable pub strip_base : FilePath → FilePath → Option FilePath
strip_base [] rel = some rel
strip_base (b ∷ base) [] = none
strip_base (b ∷ base) (c ∷ rel) = let rest = strip_base base rel in if b == c then rest else none

unfoldable pub strip_path : Text → FilePath → Option FilePath
strip_path base rel = elim (normal_components base) [ none ↦ none | some cs ↦ strip_base cs rel ]
