-- ===== src/Daemon/Watcher/Examples.antt =====
-- A disk that a root follows, and a file that is added to it.
use watchwoman.Base.{
  ◌≡◌, refl, Bool, true, false, ◌==◌, nat_eq, list_eq, if◌then◌else◌, List, none, some, [], ◌∷◌,
  arith,
}
use watchwoman.Base.Text.{FilePath, ascii}
use watchwoman.Daemon.Clock
use watchwoman.Daemon.Clock.{bump}
use watchwoman.Protocol.Utf8.{from_utf8_lossy}
use watchwoman.Daemon.Watch.{default_ignores}
use watchwoman.Daemon.Tree.{get}
use watchwoman.Daemon.Root
use watchwoman.Daemon.Root.{Root, apply_changes, seed, prune_tombstones}
use watchwoman.Daemon.Root.Examples.{lib_rs, start_root}
use watchwoman.Daemon.JjScope.Examples.{files}
use watchwoman.Query.Paths.{strip_base}
use watchwoman.Daemon.Watcher.Events.{
  Reported, changed, settle, collect_all, collect_event, collect_paths, collect_path, change_of,
}
use watchwoman.Daemon.Watcher.Shown.{shown}
use watchwoman.Daemon.Watcher.{Nodes, no_nodes, node, initial_scan, should_ignore, vcs_at}
use watchwoman.Daemon.Watcher.Batch.{is_hidden}
use watchwoman.Daemon.Watcher.Mirror.{Disk, Explains, IsReported, content, on_disk}
use watchwoman.Daemon.Watcher.Followed.{
  mounted, scanned, settled, swept, Followed, content-Followed,
}
use watchwoman.Commands.Examples.{directory}

if_false {ℓ} : {A : Type ℓ} (b : Bool) (x y : A) → b ≡ false → (if b then x else y) ≡ y
if_false true x y h = cc
if_false false x y h = refl

-- A disk with a directory, to which a file is added.
abbrev tree : Nodes
tree = node (ascii "src") (some directory) none no_nodes no_nodes

abbrev before : Disk
before = mounted (ascii "repo" ∷ []) tree

abbrev added : FilePath
added = ascii "repo" ∷ lib_rs

abbrev pub after : Disk
after abs = if added == abs then some (directory, none) else before abs

abbrev written : List Reported
written = some (record { kind = changed; need_rescan = false; paths = added ∷ [] }) ∷ []

abbrev started : Root
started = (seed start_root (initial_scan start_root.ignores tree)).0

after_other :
    (abs : FilePath)
    → (added == abs) ≡ false
    → (if added == abs then some (directory, none) else before abs) ≡ before abs
after_other abs other = if_false (added == abs) (some (directory, none)) (before abs) other

written-IsReported : IsReported before after (ascii "repo" ∷ []) started.ignores written
written-IsReported j _ = explained (added == ascii "repo" ∷ j) refl
  where
    explained :
        (b : Bool)
        → (added == ascii "repo" ∷ j) ≡ b
        → Explains before after
            (ascii "repo" ∷ j)
            (if added == ascii "repo" ∷ j then some changed else none)
    explained true here = rw here (λ no. cc)
    explained false other = rw other (after_other (ascii "repo" ∷ j) other)

abbrev pub swept_root : Root
swept_root =
    (prune_tombstones
      (settle files after (ascii "repo" ∷ []) 0 started (record { rules = [] }) written).root).0

pub swept-Followed : Followed files (ascii "repo" ∷ []) after swept_root
unfolding Root.new seed bump Clock.new
swept-Followed = swept (
    settled (scanned start_root tree refl (refl, tt, tt)) after 0 (record { rules = [] }) written
      (omega arith) written-IsReported)

pub swept-is_hidden : is_hidden swept_root.ignores lib_rs ≡ false
unfolding Root.new seed bump Clock.new prune_tombstones settle collect_all collect_event
    collect_paths collect_path change_of strip_base apply_changes should_ignore vcs_at
    default_ignores from_utf8_lossy
swept-is_hidden = refl

content-Followed_example :
    content (shown (get swept_root.tree lib_rs)) ≡ on_disk (after (ascii "repo" ∷ lib_rs))
content-Followed_example =
    content-Followed files (ascii "repo" ∷ []) swept-Followed lib_rs swept-is_hidden
