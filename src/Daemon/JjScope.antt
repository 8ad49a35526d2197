-- ===== src/Daemon/JjScope.antt =====
-- crates/watchwoman/src/daemon/jj_scope.rs: the ignore files along the paths that events name, cached.
-- An absolute path is the names from the top of the file system.
pub mod Cache
pub mod Examples
use watchwoman.Base.{
  ℕ, Bool, true, false, ◌&&◌, ◌||◌, not, Option, none, some, List, [], ◌∷◌, ◌++◌, leb, list_eq,
  nat_eq, if◌then◌else◌, length,
}
use watchwoman.Base.Map
use watchwoman.Base.Text.{FilePath}

-- What a matcher of the crate `ignore` says of a path.
pub data Match : Type 0 where
  no_match ignored whitelisted : Match

-- `load` is what the `.gitignore` of a directory builds to, if it is a file and builds, and `matched`
-- asks a matcher about a directory.
pub record IgnoreFiles : Type 1 where
  pub Matcher : Type 0
  pub load : FilePath → Option Matcher
  pub matched : Matcher → FilePath → Match

abbrev pub verdict : Match → Bool → Bool
verdict no_match before = before
verdict ignored before = true
verdict whitelisted before = false

abbrev pub has_more : FilePath → Bool
has_more [] = false
has_more (c ∷ cs) = true

module _ (files : IgnoreFiles) where
  pub record JjScope : Type 0 where
    pub rules : List (FilePath × Option files.Matcher)

  unfoldable pub clear : JjScope → JjScope
  clear s = record { rules = [] }

  -- A full cache starts again at a directory that it does not have.
  abbrev pub with_room : JjScope → FilePath → List (FilePath × Option files.Matcher)
  with_room s dir =
      if leb 8192 (length s.rules) && not (Map.contains_key s.rules dir) then [] else s.rules

  -- `entry(dir).or_insert_with(…)`.
  abbrev pub or_insert :
      List (FilePath × Option files.Matcher)
      → FilePath
      → Option (Option files.Matcher)
      → JjScope × Option files.Matcher
  or_insert rules dir (some found) = (record { rules = rules }, found)
  or_insert rules dir none =
      (record { rules = Map.insert rules dir (files.load dir) }, files.load dir)

  unfoldable pub matcher : JjScope → FilePath → JjScope × Option files.Matcher
  matcher s dir = or_insert (with_room s dir) dir (Map.get (with_room s dir) dir)

  abbrev pub judge : Option files.Matcher → FilePath → Bool → Bool
  judge none abs before = before
  judge (some m) abs before = verdict (files.matched m abs) before

  -- The loop over the directories above, each of which overrides those before it.
  unfoldable pub is_ignored : JjScope → List FilePath → FilePath → Bool → JjScope × Bool
  is_ignored s [] abs before = (s, before)
  is_ignored s (ancestor ∷ ancestors) abs before =
      let (s', found) = matcher s ancestor in is_ignored s' ancestors abs (judge found abs before)

  module _ (root : FilePath) (target_is_dir : Bool) where
    -- The loop over the components that are left.
    unfoldable pub ignored_below :
        JjScope → List FilePath → FilePath → FilePath → JjScope × Option FilePath
    ignored_below s ancestors above [] = (s, none)
    ignored_below s ancestors above (component ∷ components) =
        let prefix = above ++ component ∷ [] in
        let abs = root ++ prefix in
        let (s', ignored_here) = is_ignored s ancestors abs false in
        let further = ignored_below s' (ancestors ++ abs ∷ []) prefix components in
        if not (has_more components || target_is_dir)
        then (s, none)
        else if ignored_here
        then (s', some prefix)
        else further

    unfoldable pub ignored_directory : JjScope → FilePath → JjScope × Option FilePath
    ignored_directory s rel = ignored_below s (root ∷ []) [] rel
