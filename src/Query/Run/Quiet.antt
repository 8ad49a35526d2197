-- ===== src/Query/Run/Quiet.antt =====
-- What a query lists when nothing happened since the last one.
use watchwoman.Base.{
  ◌<◌, ◌≡◌, refl, ◌∙◌, ap, false, none, some, arith, inl, inr, Option-cases, eq_iff, nat_eq,
  list_eq,
}
use watchwoman.Base.Map
use watchwoman.Base.Map.{Unique-All-get, get-insert}
use watchwoman.Base.Text.{Text}
use watchwoman.Protocol.Value.{no_items}
use watchwoman.Daemon.Clock
use watchwoman.Daemon.Clock.{Clock, ClockSpec, named, full, tick_against, current_string}
use watchwoman.Daemon.Clock.Laws.{IsClock}
use watchwoman.Daemon.Root.{Root, set_cursor}
use watchwoman.Daemon.Root.Invariant.{IsRoot}
use watchwoman.Query.Run.{Environment, Spec, run, resolve_scm_set, resolve_named_cursor}
use watchwoman.Query.Run.Laws.{files_of_unchanged}
use watchwoman.Query.Run.Asks.{
  entries-le, Asks, same_clock-Asks, encode-resolve_scm_set, cursor-Asks, run-Asks,
}

module _ (env : Environment) (r : Root) (ok : IsRoot r) (start : 0 < r.clock.ticks) where
  run-quiet :
      (spec : Spec env) (r' : Root)
      → r'.tree ≡ r.tree
      → Asks r' spec.since r.clock.ticks
      → resolve_scm_set env r' spec.since ≡ none
      → ((run env r' spec).1.is_fresh_instance ≡ false) × ((run env r' spec).1.files ≡ no_items)
  run-quiet spec r' tree asks scm =
      let (old, files) = run-Asks env spec r' r.clock.ticks asks scm in
      (
        old,
        files
            ∙ files_of_unchanged env r' spec none r.clock.ticks r'.tree.entries
                (rw tree (entries-le r ok)),
      )

  -- What a query leaves as it was.
  run-frame :
      (spec : Spec env)
      → let r' = (run env r spec).0 in
        (r'.tree ≡ r.tree)
        × (r'.clock ≡ r.clock)
        × (r'.oldest_available_tick ≡ r.oldest_available_tick)
  unfolding run set_cursor
  run-frame spec = elim (Option-cases (resolve_named_cursor r spec.since).1) [
    | inl unnamed ↦ rw unnamed (refl, refl, refl)
    | inr (name, is_named) ↦ rw is_named (refl, refl, refl)
  ]

  run-clock : (spec : Spec env) → (run env r spec).1.clock ≡ Clock.encode r.clock r.clock.ticks
  unfolding run
  run-clock spec = refl

  run-cursors :
      (spec : Spec env) (name : Text)
      → spec.since ≡ some (named name)
      → Map.get (run env r spec).0.cursors name ≡ some r.clock.ticks
  unfolding run set_cursor resolve_named_cursor
  run-cursors spec name h =
      rw h (ground (arith, get-insert r.cursors name name r.clock.ticks, eq_iff name name))

  -- On a sound root whose clock is positive and within its machine integers, a query since the
  -- clock that the query before it returned lists no file and is not fresh, whatever the two
  -- queries ask.
  pub run_since-run :
      (first next : Spec env)
      → IsClock r.clock
      → next.since ≡ some (Clock.parse (run env r first).1.clock)
      → ((run env (run env r first).0 next).1.is_fresh_instance ≡ false)
        × ((run env (run env r first).0 next).1.files ≡ no_items)
  run_since-run first next clock h =
      let (tree, same, oldest) = run-frame first in
      let asked : next.since ≡ some (Clock.parse (Clock.encode r.clock r.clock.ticks)) =
        h ∙ ap (λ (c : Text). some (Clock.parse c)) (run-clock first) in
      run-quiet next (run env r first).0 tree
        (rw asked (
          same_clock-Asks (run env r first).0 r.clock r.clock.ticks same clock clock.ticks start
            (rw oldest ok.available)))
        (rw asked
          (encode-resolve_scm_set env (run env r first).0 r.clock r.clock.ticks clock clock.ticks))

  pub run_cursor-run :
      (first next : Spec env) (name : Text)
      → first.since ≡ some (named name)
      → next.since ≡ some (named name)
      → ((run env (run env r first).0 next).1.is_fresh_instance ≡ false)
        × ((run env (run env r first).0 next).1.files ≡ no_items)
  run_cursor-run first next name f n =
      let (tree, same, oldest) = run-frame first in
      run-quiet next (run env r first).0 tree
        (rw n (
          cursor-Asks (run env r first).0 name r.clock.ticks (run-cursors first name f) start
            (rw oldest ok.available)))
        (rw n (unfold resolve_scm_set in refl))
