-- ===== src/Daemon/Watcher.antt =====
-- crates/watchwoman/src/daemon/watcher.rs: the scan of a root and the rules on what to ignore. The
-- disk is a tree of names; links are not followed, so a scan of it ends. The events
-- are in Daemon/Watcher/Events.antt, the configuration in Daemon/Watcher/Config.antt.
pub mod Scope
pub mod Events
pub mod Shown
pub mod Batch
pub mod Settled
pub mod Mirror
pub mod NodeAt
pub mod Listed
pub mod Followed
pub mod Config
pub mod Examples
use watchwoman.Base.{
  ℕ, ◌+◌, Bool, true, false, ◌&&◌, ◌||◌, not, Option, none, some, List, [], ◌∷◌, ◌++◌, ltb, ◌==◌,
  nat_eq, list_eq, if◌then◌else◌, length, contains, any, map,
}
use watchwoman.Base.Text.{Text, FilePath, ascii}
use watchwoman.Protocol.Utf8.{from_utf8_lossy}
use watchwoman.Daemon.Entry.{Metadata}
use watchwoman.Daemon.Watch.{WatchIgnores}
use watchwoman.Daemon.Root.{Scanned}

-- What `read_dir` lists: for each name what `symlink_metadata` and `read_link` say, if they succeed,
-- and what `read_dir` lists below it, which is nothing if it fails.
pub data Nodes : Type 0 where
  no_nodes : Nodes
  node : Text → Option Metadata → Option Text → Nodes → Nodes → Nodes

abbrev pub link_target : Metadata → Option Text → Option Text
link_target md none = none
link_target md (some link) = if md.is_symlink then some (from_utf8_lossy link) else none

abbrev pub is_real_dir : Metadata → Bool
is_real_dir md = md.is_dir && not md.is_symlink

module _ (ignores : WatchIgnores) where
  abbrev pub is_dir_rule : Text → Bool
  is_dir_rule name = contains ignores.dirs (from_utf8_lossy name)

  abbrev pub is_vcs_rule : Text → Bool
  is_vcs_rule name = contains ignores.vcs (from_utf8_lossy name)

  -- `shallow` inside a VCS directory.
  unfoldable pub walk : Bool → FilePath → Nodes → List Scanned
  walk shallow rel_dir no_nodes = []
  walk shallow rel_dir (node name stat link children siblings) =
      let rel = rel_dir ++ name ∷ [] in
      let below = walk (is_vcs_rule name) rel children in
      let rest = walk shallow rel_dir siblings in
      if is_dir_rule name then rest else elim stat [
        | none ↦ rest
        | some md ↦
            (rel, md, link_target md link)
            ∷ ((if is_real_dir md && not shallow then below else []) ++ rest)
      ]

  abbrev pub initial_scan : Nodes → List Scanned
  initial_scan disk = walk false [] disk

  -- The loop over the names with their indices, of `len` in all.
  unfoldable pub vcs_at : ℕ → ℕ → FilePath → Bool
  vcs_at i len [] = false
  vcs_at i len (s ∷ names) =
      let rest = vcs_at (i + 1) len names in if is_vcs_rule s then ltb (i + 2) len else rest

  unfoldable pub should_ignore : FilePath → Bool
  should_ignore rel = if any is_dir_rule rel then true else vcs_at 0 (length rel) rel

unfoldable pub is_jj_internal : FilePath → Bool
is_jj_internal [] = false
is_jj_internal (c ∷ rel) = c == ascii ".git" || c == ascii ".jj"
