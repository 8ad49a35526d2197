-- ===== src/Daemon/Root/Steps.antt =====
-- Every operation on a root keeps its invariant, and its clock only goes forward.
use watchwoman.Base.{
  ℕ, ◌+◌, ◌^◌, ◌≤◌, ◌<◌, ◌≡◌, refl, Bool, List, arith, inl, inr, Bool-cases, nat_eq, list_eq,
}
use watchwoman.Base.Map
use watchwoman.Base.Map.{get-insert}
use watchwoman.Base.Text.{Text}
use watchwoman.Daemon.Clock.Laws.{bump_lem}
use watchwoman.Daemon.Tree
use watchwoman.Daemon.Tree.{Tree, get, prune_tombstones_before, is_kept}
use watchwoman.Daemon.Tree.Counters.{IsCounted, IsCounted-new, prune-IsCounted}
use watchwoman.Daemon.Tree.Lookup.{get-prune}
use watchwoman.Daemon.Watch.{WatchIgnores}
use watchwoman.Daemon.Root.{
  Root, PathChange, Scanned, new, touch, mark_missing, mark_present, promote_to_full, watermark_of,
  prune_tombstones, invalidate_jj_events, set_cursor, install_trigger, remove_trigger,
  add_subscription, remove_subscription, apply_changes, is_over_cap, seed,
}
use watchwoman.Daemon.Root.Direct.{bump_clock, assert_state, retract_state}
use watchwoman.Daemon.Root.Frame.{apply_all-IsCounted}
use watchwoman.Daemon.Root.Invariant.{
  IsTimed, IsRoot, RootStep, touched, missed, present, promoted, pruned, invalidated, cursor_set,
  ticked, state_asserted, state_retracted, trigger_installed, trigger_removed, subscribed,
  unsubscribed, changes_applied, seeded, same-IsRoot, IsTimed-new, upsert_all-IsCounted,
  upsert_all-IsTimed, apply_all-IsTimed,
}

-- An operation that bumps the clock and puts a new index and perhaps a new oldest tick.
pub bumped-IsRoot :
    (r r' : Root)
    → r'.clock.ticks ≡ r.clock.ticks + 1
    → r'.cursors ≡ r.cursors
    → IsCounted r'.tree
    → IsTimed (r.clock.ticks + 1) r'.tree
    → r'.oldest_available_tick ≤ r.clock.ticks + 1
    → IsRoot r
    → IsRoot r'
bumped-IsRoot r r' clock cursors counted timed available ok = record {
  counted = counted;
  timed = rw clock timed;
  available = rw clock available;
  past = λ name t found. omega (arith, clock, ok.past name t (rw⁻¹ cursors found));
}

pub new-IsRoot :
    (path : Text) (root_number : ℕ) (ignores : WatchIgnores) (jj_events : Bool) (now process_id : ℕ)
    → IsRoot (new path root_number ignores jj_events now process_id)
unfolding new Map.get
new-IsRoot path root_number ignores jj_events now process_id = record {
  counted = IsCounted-new;
  timed = IsTimed-new _;
  available = omega arith;
  past = λ name t found. cc;
}

pub prune_tombstones-IsRoot : (r : Root) → IsRoot r → IsRoot (prune_tombstones r).0
unfolding prune_tombstones
prune_tombstones-IsRoot r ok = elim (Bool-cases r.jj_events) [
  | inl jj ↦ rw jj (same-IsRoot refl refl refl refl ok)
  | inr full ↦ rw full (record {
    counted = prune-IsCounted r.tree _ ok.counted;
    timed = λ j k found. ground (
      arith,
      found,
      ok.timed j k,
      get-prune r.tree (watermark_of r.clock.ticks r.cursors) j ok.counted,
    );
    available = ok.available;
    past = ok.past;
  })
]

promote_to_full-IsRoot :
    (r : Root) (entries : List Scanned)
    → r.clock.ticks + 1 < 2 ^ 64
    → IsRoot r
    → IsRoot (promote_to_full r entries)
unfolding promote_to_full
promote_to_full-IsRoot r entries room ok = elim (Bool-cases r.jj_events) [
  | inr full ↦ rw full (same-IsRoot refl refl refl refl ok)
  | inl jj ↦
      let (tick, clock) = bump_lem r.clock room in
      rw (jj, tick, clock)
        (bumped-IsRoot r _ refl refl
          (upsert_all-IsCounted (r.clock.ticks + 1) Tree.new entries IsCounted-new)
          (upsert_all-IsTimed (r.clock.ticks + 1) Tree.new entries (IsTimed-new _)) (omega arith)
          ok)
]

invalidate_jj_events-IsRoot :
    (r : Root) → r.clock.ticks + 1 < 2 ^ 64 → IsRoot r → IsRoot (invalidate_jj_events r).0
unfolding invalidate_jj_events
invalidate_jj_events-IsRoot r room ok = elim (Bool-cases r.jj_events) [
  | inr full ↦ rw full (same-IsRoot refl refl refl refl ok)
  | inl jj ↦
      let (tick, clock) = bump_lem r.clock room in
      rw (jj, tick, clock)
        (bumped-IsRoot r _ refl refl IsCounted-new (IsTimed-new _) (omega arith) ok)
]

seed-IsRoot :
    (r : Root) (entries : List Scanned)
    → r.clock.ticks + 1 < 2 ^ 64
    → IsRoot r
    → IsRoot (seed r entries).0
unfolding seed
seed-IsRoot r entries room ok =
    let (tick, clock) = bump_lem r.clock room in
    rw (tick, clock)
      (bumped-IsRoot r _ refl refl
        (upsert_all-IsCounted (r.clock.ticks + 1) Tree.new entries IsCounted-new)
        (upsert_all-IsTimed (r.clock.ticks + 1) Tree.new entries (IsTimed-new _))
        (omega (arith, ok.available)) ok)

apply_changes-IsRoot :
    (r : Root) (arena_bytes : ℕ) (changes : List PathChange)
    → r.clock.ticks + 1 < 2 ^ 64
    → IsRoot r
    → IsRoot (apply_changes r arena_bytes changes).0
unfolding apply_changes
apply_changes-IsRoot r arena_bytes changes room ok =
    let (tick, clock) = bump_lem r.clock room in
    elim (Bool-cases (is_over_cap r arena_bytes)) [
      | inl over ↦
          rw (tick, clock, over)
            (bumped-IsRoot r _ refl refl
              (apply_all-IsCounted r.jj_events (r.clock.ticks + 1) Tree.new changes IsCounted-new)
              (apply_all-IsTimed r.jj_events (r.clock.ticks + 1) r.clock.ticks Tree.new changes
                (omega arith) (IsTimed-new _))
              (omega arith) ok)
      | inr below ↦
          rw (tick, clock, below)
            (bumped-IsRoot r _ refl refl
              (apply_all-IsCounted r.jj_events (r.clock.ticks + 1) r.tree changes ok.counted)
              (apply_all-IsTimed r.jj_events (r.clock.ticks + 1) r.clock.ticks r.tree changes
                (omega arith) ok.timed)
              (omega (arith, ok.available)) ok)
    ]

set_cursor-IsRoot :
    (r : Root) (name : Text) (t : ℕ) → t ≤ r.clock.ticks → IsRoot r → IsRoot (set_cursor r name t)
unfolding set_cursor
set_cursor-IsRoot r name t h ok = record {
  counted = ok.counted;
  timed = ok.timed;
  available = ok.available;
  past =
      λ other s found. ground (arith, h, found, ok.past other s, get-insert r.cursors name other t);
}

bump_clock-IsRoot : (r : Root) → r.clock.ticks + 1 < 2 ^ 64 → IsRoot r → IsRoot (bump_clock r)
unfolding bump_clock
bump_clock-IsRoot r room ok =
    let (tick, clock) = bump_lem r.clock room in
    bumped-IsRoot r _ (rw clock refl) refl ok.counted
      (λ j k found. omega (arith, ok.timed j k found)) (omega (arith, ok.available)) ok

-- Every operation of the daemon on a root keeps its index exact, every entry, every named cursor and
-- the oldest available tick no later than its clock.
pub RootStep-IsRoot : {r r' : Root} → RootStep r r' → IsRoot r → IsRoot r'
unfolding touch mark_missing mark_present install_trigger remove_trigger add_subscription
    remove_subscription assert_state retract_state
RootStep-IsRoot (touched r now) ok = same-IsRoot refl refl refl refl ok
RootStep-IsRoot (missed r) ok = same-IsRoot refl refl refl refl ok
RootStep-IsRoot (present r) ok = same-IsRoot refl refl refl refl ok
RootStep-IsRoot (promoted r entries room) ok = promote_to_full-IsRoot r entries room ok
RootStep-IsRoot (pruned r) ok = prune_tombstones-IsRoot r ok
RootStep-IsRoot (invalidated r room) ok = invalidate_jj_events-IsRoot r room ok
RootStep-IsRoot (cursor_set r name t h) ok = set_cursor-IsRoot r name t h ok
RootStep-IsRoot (ticked r room) ok = bump_clock-IsRoot r room ok
RootStep-IsRoot (state_asserted r name) ok = same-IsRoot refl refl refl refl ok
RootStep-IsRoot (state_retracted r name) ok = same-IsRoot refl refl refl refl ok
RootStep-IsRoot (trigger_installed r t) ok = same-IsRoot refl refl refl refl ok
RootStep-IsRoot (trigger_removed r name) ok = same-IsRoot refl refl refl refl ok
RootStep-IsRoot (subscribed r spec) ok = same-IsRoot refl refl refl refl ok
RootStep-IsRoot (unsubscribed r name) ok = same-IsRoot refl refl refl refl ok
RootStep-IsRoot (changes_applied r arena_bytes changes room) ok =
    apply_changes-IsRoot r arena_bytes changes room ok
RootStep-IsRoot (seeded r entries room) ok = seed-IsRoot r entries room ok

-- Roots that the operations reach from a new one.
pub data Reached : Root → Type 0 where
  fresh :
      (path : Text) (root_number : ℕ) (ignores : WatchIgnores) (jj_events : Bool)
      (now process_id : ℕ)
      → Reached (new path root_number ignores jj_events now process_id)
  stepped : {r r' : Root} → Reached r → RootStep r r' → Reached r'

-- Every root that the daemon's operations reach from a new one has an index with exact counters
-- and every path once, and no entry, named cursor or oldest available tick later than its clock,
-- as long as no bump passes the last u64 and cursors are set to observed ticks.
pub Reached-IsRoot : {r : Root} → Reached r → IsRoot r
Reached-IsRoot (fresh path root_number ignores jj_events now process_id) =
    new-IsRoot path root_number ignores jj_events now process_id
Reached-IsRoot (stepped reached step) = RootStep-IsRoot step (Reached-IsRoot reached)
