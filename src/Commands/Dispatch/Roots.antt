-- ===== src/Commands/Dispatch/Roots.antt =====
-- The commands on one root keep the daemon's roots sound and answer with an object.
use watchwoman.Base.{
  ◌+◌, ◌^◌, ◌<◌, ◌≡◌, refl, true, false, not, ◌&&◌, Option, none, some, arith, inl, inr, Bool-cases,
  Option-cases, nat_eq, list_eq, ◌==◌, is_some,
}
use watchwoman.Base.Text.{Text, ascii}
use watchwoman.Protocol.Value.{Value, Items, Fields}
use watchwoman.Daemon.Watch.{Trigger}
use watchwoman.Daemon.Root.{Root, invalidate_jj_events, promote_to_full}
use watchwoman.Daemon.Root.Invariant.{
  IsRoot, RootStep, ticked, promoted, invalidated, seeded, trigger_installed, trigger_removed,
  subscribed, unsubscribed,
}
use watchwoman.Daemon.Root.Steps.{RootStep-IsRoot}
use watchwoman.Daemon.State.{DaemonState}
use watchwoman.Query.Expr.Parse.{Parsed, ok, bad, second}
use watchwoman.Query.Run.{Spec, parse_spec, is_jj_fsmonitor_query, result_to_pdu}
use watchwoman.Commands.Outcome.{Host, Result, done, failed, scan}
use watchwoman.Commands.Clock.{clock_of_root}
use watchwoman.Commands.States.{change_states, state_name}
use watchwoman.Commands.Queries.{run_at, query_raw, query_parsed, full_parsed, full_spec, since_raw}
use watchwoman.Commands.Triggers.{
  for_trigger, trigger_raw, trigger_parsed, trigger_named, parse_trigger,
}
use watchwoman.Commands.Subscribe.{
  subscribe_args, subscribe_parsed, unsubscribe_named, subscribe_initial, subscribe_fence,
  subscribe_pdu,
}
use watchwoman.Commands.Subscribe.Covered.{run-IsRoot}
use watchwoman.Commands.Debug.{recrawl_root, inject_root}
use watchwoman.Commands.Dispatch.Kept.{Kept, Good, KeepsAt, put_back-Kept}

pub clock_of_root-KeepsAt : KeepsAt clock_of_root
unfolding clock_of_root
clock_of_root-KeepsAt s path r kept sound room =
    (put_back-Kept s path _ kept (RootStep-IsRoot (ticked r room) sound), refl)

pub change_states-KeepsAt :
    (key : Text) (change : Root → Text → Root) (args : Items)
    → ((r : Root) (name : Text) → RootStep r (change r name))
    → KeepsAt (change_states key change args)
change_states-KeepsAt key change args step s path r kept sound room =
    elim (Option-cases (state_name (second args))) [
      | inl missing ↦ rw missing (kept, tt)
      | inr (name, given) ↦
          rw given (put_back-Kept s path _ kept (RootStep-IsRoot (step r name) sound), refl)
    ]

invalidate_event : (r : Root) → r.jj_events ≡ true → is_some (invalidate_jj_events r).1 ≡ true
unfolding invalidate_jj_events
invalidate_event r jj = rw jj refl

invalidate_none : (r : Root) → r.jj_events ≡ false → invalidate_jj_events r ≡ (r, none)
unfolding invalidate_jj_events
invalidate_none r full = ground (arith, full)

module _ (host : Host) where
  run_at-Good :
      (s : DaemonState) (path : Text) (r : Root) (spec : Spec host.env)
      → Kept s
      → IsRoot r
      → Good (run_at host s path r spec)
  unfolding result_to_pdu
  run_at-Good s path r spec kept sound =
      let (tree, clock, keeps) = run-IsRoot host.env r spec in
      (put_back-Kept s path _ kept (keeps sound), refl)

  promoted-IsRoot :
      (r : Root) → IsRoot r → r.clock.ticks + 1 < 2 ^ 64 → IsRoot (promote_to_full r (scan host r))
  promoted-IsRoot r sound room = RootStep-IsRoot (promoted r (scan host r) room) sound

  query_parsed-KeepsAt :
      (parsed : Parsed (Spec host.env)) → KeepsAt (λ s path r. query_parsed host s path r parsed)
  query_parsed-KeepsAt (bad e) s path r kept sound room = (kept, tt)
  query_parsed-KeepsAt (ok spec) s path r kept sound room =
      elim (Bool-cases (r.jj_events && not (is_jj_fsmonitor_query spec.expression))) [
        | inl full ↦ rw full (run_at-Good s path _ spec kept (promoted-IsRoot r sound room))
        | inr as_is ↦ rw as_is (run_at-Good s path r spec kept sound)
      ]

  pub query_raw-KeepsAt : (raw : Option Value) → KeepsAt (query_raw host raw)
  query_raw-KeepsAt none s path r kept sound room = (kept, tt)
  query_raw-KeepsAt (some raw) s path r kept sound room =
      query_parsed-KeepsAt (parse_spec host.env raw) s path r kept sound room

  full_parsed-KeepsAt :
      (parsed : Parsed (Spec host.env)) → KeepsAt (λ s path r. full_parsed host s path r parsed)
  full_parsed-KeepsAt (bad e) s path r kept sound room = (kept, tt)
  full_parsed-KeepsAt (ok spec) s path r kept sound room =
      run_at-Good s path _ spec kept (promoted-IsRoot r sound room)

  pub full_spec-KeepsAt : (spec : Fields) → KeepsAt (full_spec host spec)
  full_spec-KeepsAt spec = full_parsed-KeepsAt (parse_spec host.env _)

  pub since_raw-KeepsAt : (c : Option Text) → KeepsAt (since_raw host c)
  since_raw-KeepsAt none s path r kept sound room = (kept, tt)
  since_raw-KeepsAt (some c) s path r kept sound room = full_spec-KeepsAt _ s path r kept sound room

  for_trigger-IsRoot :
      (r : Root) (t : Trigger)
      → IsRoot r
      → r.clock.ticks + 1 < 2 ^ 64
      → IsRoot (for_trigger host r t)
  for_trigger-IsRoot r t sound room = elim (Bool-cases (t.name == ascii "jj-background-monitor")) [
    | inl monitor ↦ rw monitor sound
    | inr other ↦ rw other (promoted-IsRoot r sound room)
  ]

  trigger_parsed-KeepsAt :
      (parsed : Result Trigger) → KeepsAt (λ s path r. trigger_parsed host s path r parsed)
  trigger_parsed-KeepsAt (failed e) s path r kept sound room = (kept, tt)
  trigger_parsed-KeepsAt (done t) s path r kept sound room = (
    put_back-Kept s path _ kept
        (RootStep-IsRoot (trigger_installed _ t) (for_trigger-IsRoot r t sound room)),
    refl,
  )

  pub trigger_raw-KeepsAt : (raw : Option Value) → KeepsAt (trigger_raw host raw)
  trigger_raw-KeepsAt none s path r kept sound room = (kept, tt)
  trigger_raw-KeepsAt (some spec) s path r kept sound room =
      trigger_parsed-KeepsAt (parse_trigger spec) s path r kept sound room

  pub trigger_named-KeepsAt : (name : Option Text) → KeepsAt (trigger_named name)
  trigger_named-KeepsAt none s path r kept sound room = (kept, tt)
  trigger_named-KeepsAt (some name) s path r kept sound room =
      (put_back-Kept s path _ kept (RootStep-IsRoot (trigger_removed r name) sound), refl)

  subscribe_parsed-KeepsAt :
      (name : Text) (raw_spec : Value) (parsed : Parsed (Spec host.env))
      → KeepsAt (λ s path r. subscribe_parsed host name raw_spec s path r parsed)
  unfolding subscribe_initial subscribe_fence subscribe_pdu
  subscribe_parsed-KeepsAt name raw_spec (bad e) s path r kept sound room = (kept, tt)
  subscribe_parsed-KeepsAt name raw_spec (ok spec) s path r kept sound room =
      let (tree, clock, keeps) = run-IsRoot host.env (promote_to_full r (scan host r)) spec in
      (
        put_back-Kept s path _ kept (
            RootStep-IsRoot (subscribed _ (record { name = name; query = raw_spec }))
              (keeps (promoted-IsRoot r sound room))),
        refl,
      )

  pub subscribe_args-KeepsAt :
      (name : Option Text) (raw : Option Value) → KeepsAt (subscribe_args host name raw)
  subscribe_args-KeepsAt none raw s path r kept sound room = (kept, tt)
  subscribe_args-KeepsAt (some name) none s path r kept sound room = (kept, tt)
  subscribe_args-KeepsAt (some name) (some raw) s path r kept sound room =
      subscribe_parsed-KeepsAt name raw (parse_spec host.env raw) s path r kept sound room

  pub unsubscribe_named-KeepsAt : (name : Option Text) → KeepsAt (unsubscribe_named name)
  unsubscribe_named-KeepsAt none s path r kept sound room = (kept, tt)
  unsubscribe_named-KeepsAt (some name) s path r kept sound room =
      (put_back-Kept s path _ kept (RootStep-IsRoot (unsubscribed r name) sound), refl)

  pub inject_root-KeepsAt : KeepsAt inject_root
  inject_root-KeepsAt s path r kept sound room =
      (put_back-Kept s path _ kept (RootStep-IsRoot (invalidated r room) sound), refl)

  pub recrawl_root-KeepsAt : KeepsAt (recrawl_root host)
  recrawl_root-KeepsAt s path r kept sound room = elim (Bool-cases r.jj_events) [
    | inl jj ↦
        let dropped = RootStep-IsRoot (invalidated r room) sound in
        rw (invalidate_event r jj) (put_back-Kept s path _ kept dropped, refl)
    | inr full ↦
        rw (invalidate_none r full, recrawl_root)
          (put_back-Kept s path _ kept (RootStep-IsRoot (seeded r (scan host r) room) sound), refl)
  ]
