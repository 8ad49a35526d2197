-- ===== src/Daemon/Root/Recent.antt =====
-- What the index holds is no older than the oldest available tick, whatever the operations on a root.
use watchwoman.Base.{
  ℕ, ◌+◌, ◌^◌, ◌≤◌, ◌<◌, ◌≡◌, refl, Bool, false, some, List, [], ◌∷◌, arith, inl, inr, Bool-cases,
  nat_eq, list_eq,
}
use watchwoman.Base.Text.{FilePath}
use watchwoman.Daemon.Clock.Laws.{bump_lem}
use watchwoman.Daemon.Entry.{from_metadata}
use watchwoman.Daemon.Tree
use watchwoman.Daemon.Tree.{Tree, get, prune_tombstones_before, is_kept}
use watchwoman.Daemon.Tree.Counters.{IsCounted}
use watchwoman.Daemon.Tree.Lookup.{get-upsert, get-prune}
use watchwoman.Daemon.Root.{
  Root, PathChange, Scanned, new, touch, mark_missing, mark_present, upsert_all, promote_to_full,
  watermark_of, prune_tombstones, invalidate_jj_events, set_cursor, install_trigger, remove_trigger,
  add_subscription, remove_subscription, apply_all, apply_changes, is_over_cap, seed,
}
use watchwoman.Daemon.Root.Direct.{bump_clock, assert_state, retract_state}
use watchwoman.Daemon.Root.Frame.{tick_of, get-apply_all}
use watchwoman.Daemon.Root.Invariant.{
  IsRoot, RootStep, touched, missed, present, promoted, pruned, invalidated, cursor_set, ticked,
  state_asserted, state_retracted, trigger_installed, trigger_removed, subscribed, unsubscribed,
  changes_applied, seeded, get-new,
}
use watchwoman.Daemon.Root.Steps.{Reached, fresh, stepped, Reached-IsRoot}

-- No entry is earlier than a tick.
abbrev pub IsSince : ℕ → Tree → Type 0
IsSince oldest t = (j : FilePath) (k : ℕ) → tick_of (get t j) ≡ some k → oldest ≤ k

module _ (oldest : ℕ) where
  new-IsSince : IsSince oldest Tree.new
  new-IsSince j k h = ground (arith, get-new j, h)

  module _ (tick : ℕ) (later : oldest ≤ tick) where
    upsert_all-IsSince :
        (t : Tree) (entries : List Scanned)
        → IsSince oldest t
        → IsSince oldest (upsert_all tick t entries)
    unfolding upsert_all from_metadata
    upsert_all-IsSince t [] h = h
    upsert_all-IsSince t ((rel, metadata, target) ∷ entries) h =
        upsert_all-IsSince (Tree.upsert t rel metadata target tick false tick) entries (λ j k found.
          ground (arith, later, found, h j k, get-upsert t rel metadata target tick false tick j))

    apply_all-IsSince :
        (jj_events : Bool) (t : Tree) (changes : List PathChange)
        → IsSince oldest t
        → IsSince oldest (apply_all jj_events tick t changes)
    apply_all-IsSince jj_events t changes h j k found =
        ground (arith, later, found, h j k, get-apply_all jj_events tick t changes j)

  prune-IsSince :
      (t : Tree) (watermark : ℕ)
      → IsCounted t
      → IsSince oldest t
      → IsSince oldest (prune_tombstones_before t watermark).0
  prune-IsSince t watermark ok h j k found =
      ground (arith, found, h j k, get-prune t watermark j ok)

-- Every entry has a positive tick at or past the oldest available one.
pub record IsRecent (r : Root) : Type 0 where
  pub held : IsSince r.oldest_available_tick r.tree
  pub started : IsSince 1 r.tree

same-IsRecent :
    {r r' : Root}
    → r'.tree ≡ r.tree
    → r'.oldest_available_tick ≡ r.oldest_available_tick
    → IsRecent r
    → IsRecent r'
same-IsRecent {r} {r'} tree oldest ok = record {
  held = rw (tree, oldest) ok.held;
  started = rw tree ok.started;
}

new-IsRecent : (r : Root) → r.tree ≡ Tree.new → IsRecent r
new-IsRecent r empty = record {
  held = rw empty (new-IsSince r.oldest_available_tick);
  started = rw empty (new-IsSince 1);
}

-- A scan at a positive tick, with an oldest tick no later.
scanned-IsRecent :
    (r : Root) (tick : ℕ) (entries : List Scanned)
    → r.tree ≡ upsert_all tick Tree.new entries
    → r.oldest_available_tick ≤ tick
    → 0 < tick
    → IsRecent r
scanned-IsRecent r tick entries tree later start =
    let oldest = r.oldest_available_tick in
    record {
      held = rw tree (upsert_all-IsSince oldest tick later Tree.new entries (new-IsSince oldest));
      started =
          rw tree
            (upsert_all-IsSince 1 tick (omega (arith, start)) Tree.new entries (new-IsSince 1));
    }

promote_to_full-IsRecent :
    (r : Root) (entries : List Scanned)
    → r.clock.ticks + 1 < 2 ^ 64
    → IsRecent r
    → IsRecent (promote_to_full r entries)
unfolding promote_to_full
promote_to_full-IsRecent r entries room ok = elim (Bool-cases r.jj_events) [
  | inr full ↦ rw full (same-IsRecent refl refl ok)
  | inl jj ↦
      let (tick, clock) = bump_lem r.clock room in
      rw (jj, tick, clock)
        (scanned-IsRecent _ (r.clock.ticks + 1) entries refl (omega arith) (omega arith))
]

prune_tombstones-IsRecent : (r : Root) → IsRoot r → IsRecent r → IsRecent (prune_tombstones r).0
unfolding prune_tombstones
prune_tombstones-IsRecent r sound ok =
    let watermark = watermark_of r.clock.ticks r.cursors in
    elim (Bool-cases r.jj_events) [
      | inl jj ↦ rw jj (same-IsRecent refl refl ok)
      | inr full ↦ rw full (record {
        held = prune-IsSince r.oldest_available_tick r.tree watermark sound.counted ok.held;
        started = prune-IsSince 1 r.tree watermark sound.counted ok.started;
      })
    ]

invalidate_jj_events-IsRecent :
    (r : Root) → r.clock.ticks + 1 < 2 ^ 64 → IsRecent r → IsRecent (invalidate_jj_events r).0
unfolding invalidate_jj_events
invalidate_jj_events-IsRecent r room ok = elim (Bool-cases r.jj_events) [
  | inr full ↦ rw full (same-IsRecent refl refl ok)
  | inl jj ↦ rw jj (new-IsRecent _ refl)
]

seed-IsRecent :
    (r : Root) (entries : List Scanned)
    → r.clock.ticks + 1 < 2 ^ 64
    → IsRoot r
    → IsRecent (seed r entries).0
unfolding seed
seed-IsRecent r entries room sound =
    let (tick, clock) = bump_lem r.clock room in
    rw (tick, clock)
      (scanned-IsRecent _ (r.clock.ticks + 1) entries refl (omega (arith, sound.available))
        (omega arith))

apply_changes-IsRecent :
    (r : Root) (arena_bytes : ℕ) (changes : List PathChange)
    → r.clock.ticks + 1 < 2 ^ 64
    → IsRoot r
    → IsRecent r
    → IsRecent (apply_changes r arena_bytes changes).0
unfolding apply_changes
apply_changes-IsRecent r arena_bytes changes room sound ok =
    let (tick, clock) = bump_lem r.clock room in
    let now : ℕ = r.clock.ticks + 1 in
    let oldest : ℕ = r.oldest_available_tick in
    let later : oldest ≤ now = omega (arith, sound.available) in
    elim (Bool-cases (is_over_cap r arena_bytes)) [
      | inl over ↦
          rw (tick, clock, over)
            (record {
              held =
                  apply_all-IsSince now now (omega arith) r.jj_events Tree.new changes
                    (new-IsSince now);
              started =
                  apply_all-IsSince 1 now (omega arith) r.jj_events Tree.new changes
                    (new-IsSince 1);
            })
      | inr below ↦
          rw (tick, clock, below)
            (record {
              held = apply_all-IsSince oldest now later r.jj_events r.tree changes ok.held;
              started = apply_all-IsSince 1 now (omega arith) r.jj_events r.tree changes ok.started;
            })
    ]

RootStep-IsRecent : {r r' : Root} → RootStep r r' → IsRoot r → IsRecent r → IsRecent r'
unfolding touch mark_missing mark_present install_trigger remove_trigger add_subscription
    remove_subscription set_cursor bump_clock assert_state retract_state
RootStep-IsRecent (touched r now) sound ok = same-IsRecent refl refl ok
RootStep-IsRecent (missed r) sound ok = same-IsRecent refl refl ok
RootStep-IsRecent (present r) sound ok = same-IsRecent refl refl ok
RootStep-IsRecent (promoted r entries room) sound ok = promote_to_full-IsRecent r entries room ok
RootStep-IsRecent (pruned r) sound ok = prune_tombstones-IsRecent r sound ok
RootStep-IsRecent (invalidated r room) sound ok = invalidate_jj_events-IsRecent r room ok
RootStep-IsRecent (cursor_set r name t h) sound ok = same-IsRecent refl refl ok
RootStep-IsRecent (ticked r room) sound ok = same-IsRecent refl refl ok
RootStep-IsRecent (state_asserted r name) sound ok = same-IsRecent refl refl ok
RootStep-IsRecent (state_retracted r name) sound ok = same-IsRecent refl refl ok
RootStep-IsRecent (trigger_installed r t) sound ok = same-IsRecent refl refl ok
RootStep-IsRecent (trigger_removed r name) sound ok = same-IsRecent refl refl ok
RootStep-IsRecent (subscribed r spec) sound ok = same-IsRecent refl refl ok
RootStep-IsRecent (unsubscribed r name) sound ok = same-IsRecent refl refl ok
RootStep-IsRecent (changes_applied r arena_bytes changes room) sound ok =
    apply_changes-IsRecent r arena_bytes changes room sound ok
RootStep-IsRecent (seeded r entries room) sound ok = seed-IsRecent r entries room sound

-- On every root that the daemon's operations reach from a new one, every entry has a positive tick
-- at or past the oldest available one.
pub Reached-IsRecent : {r : Root} → Reached r → IsRecent r
unfolding new
Reached-IsRecent (fresh path root_number ignores jj_events now process_id) =
    new-IsRecent (new path root_number ignores jj_events now process_id) refl
Reached-IsRecent (stepped reached step) =
    RootStep-IsRecent step (Reached-IsRoot reached) (Reached-IsRecent reached)
