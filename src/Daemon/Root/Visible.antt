-- ===== src/Daemon/Root/Visible.antt =====
-- What a client that holds an earlier clock sees of a batch of changes.
use watchwoman.Base.{
  ℕ, ◌+◌, ◌^◌, ◌≤◌, ◌<◌, ◌≡◌, refl, Bool, true, false, ◌&&◌, ◌||◌, Option, none, some, List, arith,
  nat_eq, list_eq, ◌==◌, if◌then◌else◌, is_some, any, contains, ltb, lt→ltb,
}
use watchwoman.Base.Text.{FilePath}
use watchwoman.Daemon.Entry.{FileEntry}
use watchwoman.Daemon.Clock.Laws.{bump_lem}
use watchwoman.Daemon.Tree
use watchwoman.Daemon.Tree.{Tree, get}
use watchwoman.Daemon.Root.{
  Root, PathChange, changed_path, apply_all, changed_paths, apply_changes, is_over_cap,
}
use watchwoman.Daemon.Root.Frame.{tick_of, records, get-apply_all}

-- Whether an entry is there that changed after a tick: what a `since` query lets through.
abbrev after : ℕ → Option ℕ → Bool
after since none = false
after since (some tick) = ltb since tick

abbrev pub changed_since : ℕ → Option FileEntry → Bool
changed_since since o = after since (tick_of o)

-- Below the event index's caps and the last u64, for every clock up to the root's own, a path of
-- an applied batch counts as changed since that clock if the index had it or the batch records
-- it (a removal of an unknown path is recorded only by an event index), and every other path
-- counts as before.
pub changed_since-apply_changes :
    (r : Root) (arena_bytes : ℕ) (changes : List PathChange) (since : ℕ) (j : FilePath)
    → r.clock.ticks + 1 < 2 ^ 64
    → since ≤ r.clock.ticks
    → is_over_cap r arena_bytes ≡ false
    → changed_since since (get (apply_changes r arena_bytes changes).0.tree j) ≡ (
        if contains (changed_paths changes) j
        then is_some (get r.tree j)
          || any (λ c. changed_path c == j && records r.jj_events c) changes
        else changed_since since (get r.tree j))
unfolding apply_changes
changed_since-apply_changes r arena_bytes changes since j room past below =
    let (tick, clock) = bump_lem r.clock room in
    let law = get-apply_all r.jj_events (r.clock.ticks + 1) r.tree changes j in
    let later : ltb since (r.clock.ticks + 1) ≡ true =
      lt→ltb since (r.clock.ticks + 1) (omega arith) in
    rw (tick, below, law) (ground (arith, later))

-- Where the event index is over a cap and the clock below the last u64, a batch is applied to an
-- empty index, and the oldest available tick becomes later than every clock from before.
apply_changes-reset :
    (r : Root) (arena_bytes : ℕ) (changes : List PathChange)
    → r.clock.ticks + 1 < 2 ^ 64
    → is_over_cap r arena_bytes ≡ true
    → let r' = (apply_changes r arena_bytes changes).0 in
      (r'.tree ≡ apply_all r.jj_events (r.clock.ticks + 1) Tree.new changes)
      × (r.clock.ticks < r'.oldest_available_tick)
unfolding apply_changes
apply_changes-reset r arena_bytes changes room over =
    let (tick, clock) = bump_lem r.clock room in
    (rw (tick, over) refl, rw (tick, over) (omega arith))
