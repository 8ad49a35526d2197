-- ===== src/Daemon/Root/Invariant.antt =====
-- The invariant of a root: an exact index, and nothing in it, among the cursors or in the oldest tick
-- that is later than the clock.
use watchwoman.Base.{
  ℕ, ◌+◌, ◌^◌, ◌≤◌, ◌<◌, ◌≡◌, refl, sym, subst, Bool, false, none, some, List, [], ◌∷◌, arith,
  nat_eq, list_eq,
}
use watchwoman.Base.Map
use watchwoman.Base.Map.{get-insert}
use watchwoman.Base.Text.{Text, FilePath}
use watchwoman.Daemon.Entry.{from_metadata}
use watchwoman.Daemon.Tree
use watchwoman.Daemon.Tree.{Tree, get, prune_tombstones_before, is_kept}
use watchwoman.Daemon.Tree.Counters.{IsCounted, upsert-IsCounted}
use watchwoman.Daemon.Tree.Lookup.{get-upsert}
use watchwoman.Daemon.Watch.{SubscriptionSpec, Trigger}
use watchwoman.Daemon.Root.{
  Root, PathChange, Scanned, touch, mark_missing, mark_present, upsert_all, promote_to_full,
  prune_tombstones, invalidate_jj_events, set_cursor, install_trigger, remove_trigger,
  add_subscription, remove_subscription, apply_all, apply_changes, seed,
}
use watchwoman.Daemon.Root.Direct.{bump_clock, assert_state, retract_state}
use watchwoman.Daemon.Root.Frame.{tick_of, get-apply_all}

-- No entry is later than a tick.
abbrev pub IsTimed : ℕ → Tree → Type 0
IsTimed now t = (j : FilePath) (k : ℕ) → tick_of (get t j) ≡ some k → k ≤ now

pub record IsRoot (r : Root) : Type 0 where
  pub counted : IsCounted r.tree
  pub timed : IsTimed r.clock.ticks r.tree
  pub available : r.oldest_available_tick ≤ r.clock.ticks
  pub past : (name : Text) (t : ℕ) → Map.get r.cursors name ≡ some t → t ≤ r.clock.ticks

pub get-new : (j : FilePath) → get Tree.new j ≡ none
unfolding get Map.get
get-new j = refl

pub IsTimed-new : (now : ℕ) → IsTimed now Tree.new
IsTimed-new now j k h = ground (arith, get-new j, h)

-- A scan leaves only entries of its tick.
module _ (tick : ℕ) where
  pub upsert_all-IsCounted :
      (t : Tree) (entries : List Scanned) → IsCounted t → IsCounted (upsert_all tick t entries)
  unfolding upsert_all
  upsert_all-IsCounted t [] ok = ok
  upsert_all-IsCounted t ((rel, metadata, target) ∷ entries) ok =
      upsert_all-IsCounted (Tree.upsert t rel metadata target tick false tick) entries
        (upsert-IsCounted rel ok metadata target tick false tick)

  pub upsert_all-IsTimed :
      (t : Tree) (entries : List Scanned)
      → IsTimed tick t
      → IsTimed tick (upsert_all tick t entries)
  unfolding upsert_all from_metadata
  upsert_all-IsTimed t [] h = h
  upsert_all-IsTimed t ((rel, metadata, target) ∷ entries) h =
      upsert_all-IsTimed (Tree.upsert t rel metadata target tick false tick) entries (λ j k found.
        ground (arith, found, h j k, get-upsert t rel metadata target tick false tick j))

pub apply_all-IsTimed :
    (jj_events : Bool) (tick now : ℕ) (t : Tree) (changes : List PathChange)
    → now ≤ tick
    → IsTimed now t
    → IsTimed tick (apply_all jj_events tick t changes)
apply_all-IsTimed jj_events tick now t changes later h j k found =
    ground (arith, later, found, h j k, get-apply_all jj_events tick t changes j)

-- What the daemon does to a root, each operation that changes one. A bump stays below the last u64,
-- and a cursor is set to a tick that was observed. The triggers that a registration reads back are
-- installed one after another.
pub data RootStep : Root → Root → Type 0 where
  touched : (r : Root) (now : ℕ) → RootStep r (touch r now)
  missed : (r : Root) → RootStep r (mark_missing r).0
  present : (r : Root) → RootStep r (mark_present r)
  promoted :
      (r : Root) (entries : List Scanned)
      → r.clock.ticks + 1 < 2 ^ 64
      → RootStep r (promote_to_full r entries)
  pruned : (r : Root) → RootStep r (prune_tombstones r).0
  invalidated : (r : Root) → r.clock.ticks + 1 < 2 ^ 64 → RootStep r (invalidate_jj_events r).0
  cursor_set :
      (r : Root) (name : Text) (t : ℕ) → t ≤ r.clock.ticks → RootStep r (set_cursor r name t)
  ticked : (r : Root) → r.clock.ticks + 1 < 2 ^ 64 → RootStep r (bump_clock r)
  state_asserted : (r : Root) (name : Text) → RootStep r (assert_state r name)
  state_retracted : (r : Root) (name : Text) → RootStep r (retract_state r name)
  trigger_installed : (r : Root) (t : Trigger) → RootStep r (install_trigger r t)
  trigger_removed : (r : Root) (name : Text) → RootStep r (remove_trigger r name).0
  subscribed : (r : Root) (spec : SubscriptionSpec) → RootStep r (add_subscription r spec)
  unsubscribed : (r : Root) (name : Text) → RootStep r (remove_subscription r name).0
  changes_applied :
      (r : Root) (arena_bytes : ℕ) (changes : List PathChange)
      → r.clock.ticks + 1 < 2 ^ 64
      → RootStep r (apply_changes r arena_bytes changes).0
  seeded :
      (r : Root) (entries : List Scanned)
      → r.clock.ticks + 1 < 2 ^ 64
      → RootStep r (seed r entries).0

-- What depends on none of the fields that the invariant is about.
pub same-IsRoot :
    {r r' : Root}
    → r'.clock ≡ r.clock
    → r'.tree ≡ r.tree
    → r'.oldest_available_tick ≡ r.oldest_available_tick
    → r'.cursors ≡ r.cursors
    → IsRoot r
    → IsRoot r'
same-IsRoot {r} {r'} clock tree oldest cursors ok = record {
  counted = subst IsCounted (sym tree) ok.counted;
  timed = rw (clock, tree) ok.timed;
  available = rw (clock, oldest) ok.available;
  past = rw (clock, cursors) ok.past;
}
