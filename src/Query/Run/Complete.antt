-- ===== src/Query/Run/Complete.antt =====
-- What a query lists that is answered as a fresh instance.
use watchwoman.Base.{
  ℕ, ◌≤◌, ◌<◌, ◌≡◌, refl, true, false, Option, none, some, arith, inl, inr, Option-cases, All,
  All-map, nat_eq, list_eq,
}
use watchwoman.Base.Map.{Unique-All-get}
use watchwoman.Base.Text.{FilePath}
use watchwoman.Daemon.Clock.{ClockSpec, epoch, tick, named, full, scm}
use watchwoman.Daemon.Entry.{FileEntry}
use watchwoman.Daemon.Tree.{get}
use watchwoman.Daemon.Root.{Root}
use watchwoman.Daemon.Root.Frame.{tick_of}
use watchwoman.Daemon.Root.Invariant.{IsRoot}
use watchwoman.Daemon.Root.Steps.{Reached, Reached-IsRoot}
use watchwoman.Daemon.Root.Recent.{IsRecent, Reached-IsRecent}
use watchwoman.Query.Run.{
  Environment, Spec, run, is_fresh, files_of, clock_tick_of, resolve_scm_set, resolve_named_cursor,
}
use watchwoman.Query.Run.Laws.{files_of_changed}
use watchwoman.Query.Run.Asks.{since_tick_of}

-- Every entry of the index.
entries-IsRecent :
    (r : Root)
    → IsRoot r
    → IsRecent r
    → All
        (λ (p : FilePath × FileEntry). (r.oldest_available_tick ≤ p.1.oclock) × (0 < p.1.oclock))
        r.tree.entries
unfolding get
entries-IsRecent r sound ok =
    All-map _ _ r.tree.entries
      (λ p found.
        let at : tick_of (get r.tree p.0) ≡ some p.1.oclock = rw found refl in
        (ok.held p.0 p.1.oclock at, omega (arith, ok.started p.0 p.1.oclock at)))
      (Unique-All-get r.tree.entries sound.counted.unique)

-- A tick that a fresh answer counts from is earlier than all that the index holds.
fresh-lt :
    (r : Root) (since : Option ClockSpec) (t k : ℕ)
    → is_fresh r (since_tick_of r since) (clock_tick_of r (resolve_named_cursor r since).0 since)
      ≡ true
    → since_tick_of r since ≡ some t
    → r.oldest_available_tick ≤ k
    → 0 < k
    → t < k
unfolding is_fresh resolve_named_cursor
fresh-lt r none t k is_new asks held start = cc
fresh-lt r (some epoch) t k is_new asks held start = ground (arith, is_new, asks, held, start)
fresh-lt r (some (tick s)) t k is_new asks held start = ground (arith, is_new, asks, held, start)
fresh-lt r (some (named n)) t k is_new asks held start = ground (arith, is_new, asks, held, start)
fresh-lt r (some (scm vcs base)) t k is_new asks held start =
    ground (arith, is_new, asks, held, start)
fresh-lt r (some (full a b c s)) t k is_new asks held start =
    ground (arith, is_new, asks, held, start)

module _ (env : Environment) (spec : Spec env) where
  -- On every root that the daemon's operations reach from a new one, bumps below the last u64 and
  -- cursors set to observed ticks, a query that is answered as a fresh instance, and did not ask
  -- for no files then, lists all that it would list with no clock to count from, narrowed by the
  -- same SCM.
  pub run_complete :
      (r : Root)
      → Reached r
      → (run env r spec).1.is_fresh_instance ≡ true
      → spec.empty_on_fresh_instance ≡ false
      → (run env r spec).1.files
        ≡ files_of env r spec (resolve_scm_set env r spec.since) none r.tree.entries
  unfolding run
  run_complete r reached is_new filled = rw is_new (
      simp filled (elim (Option-cases (since_tick_of r spec.since)) [
        | inl absent ↦ rw absent refl
        | inr (t, asks) ↦ rw asks (
            files_of_changed env r spec (resolve_scm_set env r spec.since) t r.tree.entries (
              All-map _ _ r.tree.entries
                (λ p (held, start). fresh-lt r spec.since t p.1.oclock is_new asks held start)
                (entries-IsRecent r (Reached-IsRoot reached) (Reached-IsRecent reached))))
      ]))
