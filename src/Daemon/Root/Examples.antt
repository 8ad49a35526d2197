-- ===== src/Daemon/Root/Examples.antt =====
-- A root with a full index through a life of changes, and the theorems about roots on it.
use watchwoman.Base.{◌≡◌, refl, true, false, none, [], ◌∷◌, arith, nat_eq, list_eq}
use watchwoman.Base.Map
use watchwoman.Base.Text.{FilePath, ascii}
use watchwoman.Daemon.Clock
use watchwoman.Daemon.Clock.{Clock, bump}
use watchwoman.Daemon.Entry.{FileEntry, missing}
use watchwoman.Daemon.Tree.{get, mark_gone, gone_entry, record_signal, signal_entry}
use watchwoman.Daemon.Watch.{default_ignores}
use watchwoman.Daemon.Root
use watchwoman.Daemon.Root.{
  Root, cursor_tick, remove, signal, apply_change, apply_all, apply_changes, prune_tombstones,
  is_over_cap, set_cursor, watermark_of, changed_paths,
}
use watchwoman.Daemon.Root.Visible.{changed_since, changed_since-apply_changes}
use watchwoman.Daemon.Root.Cursors.{changed_since-prune_tombstones, prune_tombstones_forgets}
use watchwoman.Daemon.Root.Direct.{bump_clock, assert_state}
use watchwoman.Daemon.Root.Invariant.{IsRoot, changes_applied, cursor_set, ticked, state_asserted}
use watchwoman.Daemon.Root.Steps.{Reached, fresh, stepped, Reached-IsRoot}

abbrev pub lib_rs : FilePath
lib_rs = ascii "src" ∷ ascii "lib.rs" ∷ []

abbrev pub start_root : Root
start_root = Root.new (ascii "/repo") 1 default_ignores false 1_700_000_000 4242

-- A file is seen at tick 2 and goes at tick 3.
abbrev pub seen : Root
seen = (apply_changes start_root 0 (signal lib_rs ∷ [])).0

abbrev gone : Root
gone = (apply_changes seen 0 (remove lib_rs ∷ [])).0

pub ticks-seen : seen.clock.ticks ≡ 2
unfolding apply_changes bump Root.new Clock.new
ticks-seen = refl

pub seen-IsRoot : IsRoot seen
unfolding apply_changes bump Root.new Clock.new
seen-IsRoot = Reached-IsRoot (
    stepped (fresh (ascii "/repo") 1 default_ignores false 1_700_000_000 4242)
      (changes_applied start_root 0 (signal lib_rs ∷ []) (omega arith)))

gone-Reached : Reached gone
unfolding apply_changes bump Root.new Clock.new
gone-Reached =
    stepped
      (stepped (fresh (ascii "/repo") 1 default_ignores false 1_700_000_000 4242)
        (changes_applied start_root 0 (signal lib_rs ∷ []) (omega arith)))
      (changes_applied seen 0 (remove lib_rs ∷ []) (omega arith))

-- A client asks for the clock, and another asserts a state.
abbrev asserted : Root
asserted = assert_state (bump_clock gone) (ascii "hg.update")

asserted-Reached : Reached asserted
unfolding apply_changes bump Root.new Clock.new
asserted-Reached =
    stepped (stepped gone-Reached (ticked gone (omega arith)))
      (state_asserted (bump_clock gone) (ascii "hg.update"))

Reached-IsRoot_example : IsRoot asserted
Reached-IsRoot_example = Reached-IsRoot asserted-Reached

-- The client that holds the clock of tick 2 sees the deletion.
changed_since-apply_changes_example : changed_since 2 (get gone.tree lib_rs) ≡ true
unfolding apply_changes bump Root.new Clock.new changed_paths get apply_all apply_change
    record_signal Map.get Map.insert
changed_since-apply_changes_example =
    changed_since-apply_changes seen 0 (remove lib_rs ∷ []) 2 lib_rs (omega arith) (omega arith)
      refl

-- A cursor that stands at tick 2 still sees it after a prune.
abbrev build : Root
build = set_cursor gone (ascii "build") 2

build-Reached : Reached build
unfolding apply_changes bump Root.new Clock.new
build-Reached = stepped gone-Reached (cursor_set gone (ascii "build") 2 (omega arith))

changed_since-prune_tombstones_example :
    changed_since 2 (get (prune_tombstones build).0.tree lib_rs)
    ≡ changed_since 2 (get build.tree lib_rs)
unfolding cursor_tick set_cursor Map.get Map.insert apply_changes Root.new
changed_since-prune_tombstones_example =
    changed_since-prune_tombstones build (ascii "build") lib_rs
      (Reached-IsRoot build-Reached).counted refl

-- The client that holds the clock of tick 2 does not, if there is no cursor.
deleted : FileEntry
deleted = gone_entry (signal_entry 2 2) 3

prune_tombstones_forgets_example :
    (changed_since 2 (get gone.tree lib_rs) ≡ true)
    × (get (prune_tombstones gone).0.tree lib_rs ≡ none)
    × ((prune_tombstones gone).0.oldest_available_tick ≡ gone.oldest_available_tick)
unfolding apply_changes bump Root.new Clock.new get apply_all apply_change record_signal mark_gone
    Map.get Map.insert deleted gone_entry signal_entry missing watermark_of
prune_tombstones_forgets_example =
    prune_tombstones_forgets gone 2 lib_rs deleted (Reached-IsRoot gone-Reached).counted refl refl
      refl (omega arith) (omega arith)
