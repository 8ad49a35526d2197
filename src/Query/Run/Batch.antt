-- ===== src/Query/Run/Batch.antt =====
-- What a query lists after one batch of changes.
use watchwoman.Base.{
  ℕ, ◌+◌, ◌^◌, ◌≤◌, ◌<◌, ◌≡◌, refl, sym, ◌∙◌, ap, Bool, true, false, not, Option, none, some, List,
  arith, All-map, filter, contains, if◌then◌else◌, leb, nat_eq, list_eq,
}
use watchwoman.Base.Map
use watchwoman.Base.Map.{Unique-All-get, get-insert}
use watchwoman.Base.Text.{Text, FilePath}
use watchwoman.Protocol.Value.{Items}
use watchwoman.Daemon.Clock
use watchwoman.Daemon.Clock.{Clock, ClockSpec, named, full, tick_against, current_string}
use watchwoman.Daemon.Clock.Laws.{IsClock, bump_lem}
use watchwoman.Daemon.Entry.{FileEntry}
use watchwoman.Daemon.Tree.{get}
use watchwoman.Daemon.Tree.Counters.{IsCounted}
use watchwoman.Daemon.Root.{Root, PathChange, apply_changes, changed_paths, apply_all, is_over_cap}
use watchwoman.Daemon.Root.Frame.{tick_of, get-apply_all, apply_all-IsCounted}
use watchwoman.Daemon.Root.Invariant.{IsRoot}
use watchwoman.Query.Run.{Environment, Spec, run, files_of, resolve_scm_set, is_unchanged}
use watchwoman.Query.Run.Laws.{files_of-filter}
use watchwoman.Query.Run.Asks.{Asks, clock-Asks, encode-resolve_scm_set, cursor-Asks, run-Asks}

settled :
    {now at : ℕ} (listed recorded : Bool) (before : Option ℕ)
    → (before ≡ some at → at ≤ now)
    → some at ≡ (if listed then if recorded then some (now + 1) else none else before)
    → leb at now ≡ not listed
settled true true before h law = ground (arith, law)
settled true false before h law = cc
settled false recorded before h law = ground (arith, h (sym law))

-- The entries that a batch leaves later than the clock before it are those at its paths.
apply_changes-is_unchanged :
    (r : Root) (arena_bytes : ℕ) (changes : List PathChange)
    → IsRoot r
    → r.clock.ticks + 1 < 2 ^ 64
    → is_over_cap r arena_bytes ≡ false
    → (rel : FilePath) (entry : FileEntry)
    → get (apply_changes r arena_bytes changes).0.tree rel ≡ some entry
    → is_unchanged (some r.clock.ticks) entry ≡ not (contains (changed_paths changes) rel)
unfolding apply_changes
apply_changes-is_unchanged r arena_bytes changes ok room below rel entry found =
    let law = get-apply_all r.jj_events (r.clock.ticks + 1) r.tree changes rel in
    let (tick, clock) = bump_lem r.clock room in
    let there : tick_of (get (apply_all r.jj_events (r.clock.ticks + 1) r.tree changes) rel)
        ≡ some entry.oclock =
      ap tick_of (rw (tick, below) at found) in
    settled (contains (changed_paths changes) rel) _ _ (ok.timed rel entry.oclock) (sym there ∙ law)

-- The two facts about a batch that the queries use.
apply_changes-after :
    (r : Root) (arena_bytes : ℕ) (changes : List PathChange)
    → r.clock.ticks + 1 < 2 ^ 64
    → is_over_cap r arena_bytes ≡ false
    → let r' = (apply_changes r arena_bytes changes).0 in
      (r'.clock ≡ record r.clock { ticks = r.clock.ticks + 1 })
      × (r'.oldest_available_tick ≡ r.oldest_available_tick)
      × (r'.cursors ≡ r.cursors)
unfolding apply_changes
apply_changes-after r arena_bytes changes room below =
    let (tick, clock) = bump_lem r.clock room in (clock, rw below refl, refl)

apply_changes-IsCounted :
    (r : Root) (arena_bytes : ℕ) (changes : List PathChange)
    → IsRoot r
    → is_over_cap r arena_bytes ≡ false
    → IsCounted (apply_changes r arena_bytes changes).0.tree
unfolding apply_changes
apply_changes-IsCounted r arena_bytes changes ok below =
    rw below (apply_all-IsCounted r.jj_events (Clock.bump r.clock).1 r.tree changes ok.counted)

module _ (env : Environment) (spec : Spec env) (r : Root) (arena_bytes : ℕ)
    (changes : List PathChange) (ok : IsRoot r) (room : r.clock.ticks + 1 < 2 ^ 64)
    (start : 0 < r.clock.ticks) (below : is_over_cap r arena_bytes ≡ false) where
  abbrev after : Root
  after = (apply_changes r arena_bytes changes).0

  -- What a query without `since` lists of the paths of the batch.
  abbrev batch_files : Items
  batch_files = files_of env after spec none none (
      filter (λ (q : FilePath × FileEntry). contains (changed_paths changes) q.0)
        after.tree.entries)

  run-batch :
      Asks after spec.since r.clock.ticks
      → resolve_scm_set env after spec.since ≡ none
      → ((run env after spec).1.is_fresh_instance ≡ false)
        × ((run env after spec).1.files ≡ batch_files)
  unfolding get
  run-batch asks scm =
      let (old, files) = run-Asks env spec after r.clock.ticks asks scm in
      (
        old,
        files
            ∙ files_of-filter env after spec none r.clock.ticks (contains (changed_paths changes))
                after.tree.entries
                (All-map _ _ after.tree.entries
                  (λ q found.
                    apply_changes-is_unchanged r arena_bytes changes ok room below q.0 q.1 found)
                  (Unique-All-get after.tree.entries
                    (apply_changes-IsCounted r arena_bytes changes ok below).unique)),
      )

  -- On a sound root whose clock is positive and below the last u64, with an event index below its
  -- caps, a query since the clock string from before a batch is not fresh after it, and lists
  -- exactly what the same query without a tick to start from would list of the index's entries at
  -- the batch's paths.
  pub run_since-apply_changes :
      IsClock r.clock
      → spec.since ≡ some (Clock.parse (current_string r.clock))
      → ((run env after spec).1.is_fresh_instance ≡ false)
        × ((run env after spec).1.files ≡ batch_files)
  unfolding Clock.encode Clock.current_string
  run_since-apply_changes clock h =
      let (ticked, oldest, cursors) = apply_changes-after r arena_bytes changes room below in
      let same : Clock.encode after.clock r.clock.ticks ≡ current_string r.clock = rw ticked refl in
      let machine : IsClock after.clock = rw ticked (record {
        ticks = room;
        root_number = clock.root_number;
        start_time = clock.start_time;
        pid = clock.pid;
      }) in
      run-batch
        (rw (h, ← same)
          (clock-Asks after r.clock.ticks machine clock.ticks start (rw oldest ok.available)))
        (rw h (encode-resolve_scm_set env after r.clock r.clock.ticks clock clock.ticks))

  -- On a sound root whose clock is positive and below the last u64, with an event index below its
  -- caps, a query by a named cursor that stands at the clock is not fresh after a batch, and lists
  -- exactly what the same query without a tick to start from would list of the index's entries at
  -- the batch's paths.
  pub run_cursor-apply_changes :
      (name : Text)
      → spec.since ≡ some (named name)
      → Map.get r.cursors name ≡ some r.clock.ticks
      → ((run env after spec).1.is_fresh_instance ≡ false)
        × ((run env after spec).1.files ≡ batch_files)
  run_cursor-apply_changes name h held =
      let (ticked, oldest, cursors) = apply_changes-after r arena_bytes changes room below in
      run-batch
        (rw h
          (cursor-Asks after name r.clock.ticks (rw cursors held) start (rw oldest ok.available)))
        (rw h (unfold resolve_scm_set in refl))
