-- ===== src/Commands/Subscribe/Fence.antt =====
-- The tick from which a subscription is served is taken after its first query.
use watchwoman.Base.{
  ℕ, ◌+◌, ◌^◌, ◌<◌, ◌≡◌, true, false, none, some, List, arith, contains, is_some, list_eq, nat_eq,
}
use watchwoman.Base.Text.{Text, FilePath}
use watchwoman.Protocol.Value.{Value, no_items}
use watchwoman.Daemon.Root.{
  Root, add_subscription, is_over_cap, PathChange, apply_changes, changed_paths,
}
use watchwoman.Daemon.Tree.{get}
use watchwoman.Daemon.Root.Visible.{changed_since, changed_since-apply_changes}
use watchwoman.Daemon.Root.Invariant.{IsRoot, changes_applied, subscribed}
use watchwoman.Daemon.Root.Steps.{RootStep-IsRoot}
use watchwoman.Query.Run.{Spec, files_of}
use watchwoman.Query.Run.Laws.{files_of_unchanged}
use watchwoman.Query.Run.Asks.{entries-le}
use watchwoman.Commands.Outcome.{Host}
use watchwoman.Commands.Subscribe.{subscribe_fence}

module _ (host : Host) (r : Root) (name : Text) (raw_spec : Value) (arena_bytes : ℕ)
    (changes : List PathChange) where
  -- The root and the tick of a subscription whose batch came between its query and its fence.
  abbrev late : Root × ℕ
  late = subscribe_fence (apply_changes r arena_bytes changes).0 name raw_spec

  -- If a batch comes between the first query of a subscription and its fence, on a sound root with
  -- an event index below its caps and a clock below the last u64, a known path of the batch counts
  -- as changed since the clock of the first query, and yet a push from the fence lists no file of
  -- any query.
  pub subscribe_fence-apply_changes :
      (spec : Spec host.env) (j : FilePath)
      → IsRoot r
      → r.clock.ticks + 1 < 2 ^ 64
      → is_over_cap r arena_bytes ≡ false
      → contains (changed_paths changes) j ≡ true
      → is_some (get r.tree j) ≡ true
      → (changed_since r.clock.ticks (get late.0.tree j) ≡ true)
        × (files_of host.env late.0 spec none (some late.1) late.0.tree.entries ≡ no_items)
  unfolding subscribe_fence
  subscribe_fence-apply_changes spec j ok room below listed known =
      let sound = RootStep-IsRoot (changes_applied r arena_bytes changes room) ok in
      let with_sub =
        RootStep-IsRoot
          (subscribed (apply_changes r arena_bytes changes).0
            (record { name = name; query = raw_spec }))
          sound in
      (
        unfold add_subscription in
            ground (
              arith,
              changed_since-apply_changes r arena_bytes changes r.clock.ticks j room (omega arith)
                  below,
              listed,
              known,
            ),
        files_of_unchanged host.env late.0 spec none late.1 late.0.tree.entries
            (entries-le late.0 with_sub),
      )
