-- ===== src/Commands/Dispatch/Handlers.antt =====
-- Every handler keeps the roots sound and answers with an object.
use watchwoman.Base.{
  ◌≡◌, refl, true, List, [], inl, inr, Option-cases, nat_eq, list_eq, All, is_some,
}
use watchwoman.Base.Text.{Text, split}
use watchwoman.Protocol.Value.{Value, Items, as_object}
use watchwoman.Daemon.State.{DaemonState, register_root, list_roots, request_shutdown}
use watchwoman.Query.Expr.Parse.{first, str_of}
use watchwoman.Commands.Outcome.{Host, CommandResult, with_root, canonical}
use watchwoman.Commands.Clock
use watchwoman.Commands.States.{state_enter, state_leave}
use watchwoman.Commands.Queries.{query, find, since}
use watchwoman.Commands.Watches.{
  watch, watch_project, watch_list, watch_del, watch_del_all, at_path, register, absolute,
  components, relative_entry, resolve_project_root,
}
use watchwoman.Commands.Debug
use watchwoman.Commands.Debug.{reading}
use watchwoman.Daemon.Root.{Root}
use watchwoman.Commands.Triggers.{trigger, trigger_list, trigger_del}
use watchwoman.Commands.Subscribe.{subscribe, unsubscribe, flush_subscriptions}
use watchwoman.Commands.Dispatch.{Handler, Reports, root_commands, debug_commands}
use watchwoman.Commands.Dispatch.Kept.{Kept, HasRoom, Good, with_root-Good}
use watchwoman.Daemon.Root.Invariant.{state_asserted, state_retracted}
use watchwoman.Commands.Dispatch.Roots.{
  clock_of_root-KeepsAt, change_states-KeepsAt, query_raw-KeepsAt, full_spec-KeepsAt,
  since_raw-KeepsAt, trigger_raw-KeepsAt, trigger_named-KeepsAt, subscribe_args-KeepsAt,
  unsubscribe_named-KeepsAt, inject_root-KeepsAt, recrawl_root-KeepsAt,
}
use watchwoman.Commands.Dispatch.Daemon.{
  register_root-Kept, unregister_root-Kept, drain_all-Kept, ageout-Kept, sweep-Kept,
}

abbrev pub Keeps : Handler → Type 0
Keeps handler = (s : DaemonState) (args : Items) → Kept s → HasRoom s → Good (handler s args)

module _ (host : Host) (reports : Reports) where
  register-Good :
      (s : DaemonState) (path : Text) (extra : List (Text × Value))
      → Kept s
      → Good (register host s path extra)
  register-Good s path extra kept =
      let fine = register_root-Kept s path (host.surroundings path) kept in
      elim (Option-cases (register_root s path (host.surroundings path)).1) [
        | inl unregistered ↦ rw (unregistered, register) (fine, tt)
        | inr (r, registered) ↦ rw (registered, register) (fine, refl)
      ]

  at_path-Good :
      (s : DaemonState) (args : Items) (command : Text → DaemonState × CommandResult)
      → Kept s
      → ((path : Text) → Good (command path))
      → Good (at_path host s args command)
  at_path-Good s args command kept good = elim (Option-cases (str_of (first args))) [
    | inl missing ↦ rw (missing, at_path) (kept, tt)
    | inr (p, given) ↦
        rw (given, at_path)
          (elim (Option-cases (host.canonicalize p)) [
            | inl unknown ↦ rw (unknown, at_path) (kept, tt)
            | inr (path, known) ↦ rw (known, at_path) (good path)
          ])
  ]

  watch-Keeps : Keeps (watch host)
  unfolding watch
  watch-Keeps s args kept room = at_path-Good s args _ kept (λ path. register-Good s path [] kept)

  watch_project-Keeps : Keeps (watch_project host)
  unfolding watch_project
  watch_project-Keeps s args kept room = at_path-Good s args _ kept λ path.
      let (dir, rel) = resolve_project_root host (components (split b'/' path)) in
      register-Good s (absolute dir) (relative_entry rel) kept

  watch_del-Keeps : Keeps (watch_del host)
  unfolding watch_del
  watch_del-Keeps s args kept room = elim (Option-cases (str_of (first args))) [
    | inl missing ↦ rw (missing, watch_del) (kept, tt)
    | inr (p, given) ↦ rw (given, watch_del) (unregister_root-Kept s (canonical host p) kept, refl)
  ]

  pub roots-Keep : All (λ (c : Text × Handler). Keeps c.1) (root_commands host reports)
  unfolding watch_project watch_list watch_del_all Clock.clock query find since subscribe
      unsubscribe flush_subscriptions state_enter state_leave trigger trigger_list trigger_del
  roots-Keep = (
    watch-Keeps,
    (
      watch_project-Keeps,
      (
        (λ s args kept room. (kept, refl)),
        (
          watch_del-Keeps,
          (
            (λ s args kept room. (drain_all-Kept s (list_roots s) kept, refl)),
            (
              (λ s args kept room. with_root-Good host s kept room args _ _ clock_of_root-KeepsAt),
              (
                (λ s args kept room.
                    with_root-Good host s kept room args _ _ (query_raw-KeepsAt host _)),
                (
                  (λ s args kept room.
                      with_root-Good host s kept room args _ _ (full_spec-KeepsAt host _)),
                  (
                    (λ s args kept room.
                        with_root-Good host s kept room args _ _ (since_raw-KeepsAt host _)),
                    (
                      (λ s args kept room.
                          with_root-Good host s kept room args _ _
                            (subscribe_args-KeepsAt host _ _)),
                      (
                        (λ s args kept room.
                            with_root-Good host s kept room args _ _
                              (unsubscribe_named-KeepsAt host _)),
                        (
                          (λ s args kept room.
                              with_root-Good host s kept room args _ _
                                (λ s' path r k i o. (k, refl))),
                          (
                            (λ s args kept room.
                                with_root-Good host s kept room args _ _
                                  (change_states-KeepsAt _ _ args state_asserted)),
                            (
                              (λ s args kept room.
                                  with_root-Good host s kept room args _ _
                                    (change_states-KeepsAt _ _ args state_retracted)),
                              (
                                (λ s args kept room.
                                    with_root-Good host s kept room args _ _
                                      (trigger_raw-KeepsAt host _)),
                                (
                                  (λ s args kept room.
                                      with_root-Good host s kept room args _ _
                                        (λ s' path r k i o. (k, refl))),
                                  (
                                    (λ s args kept room.
                                        with_root-Good host s kept room args _ _
                                          (trigger_named-KeepsAt host _)),
                                    tt,
                                  ),
                                ),
                              ),
                            ),
                          ),
                        ),
                      ),
                    ),
                  ),
                ),
              ),
            ),
          ),
        ),
      ),
    ),
  )

  -- A command on a root that only reads.
  reads :
      (s : DaemonState) (args : Items) (message : Text) (report : Root → Value)
      → ((r : Root) → is_some (as_object (report r)) ≡ true)
      → Kept s
      → HasRoom s
      → Good (with_root host s args message (reading report))
  reads s args message report answers kept room =
      with_root-Good host s kept room args message _ (λ s' path r k i o. (k, answers r))

  pub debug-Keep : All (λ (c : Text × Handler). Keeps c.1) (debug_commands host reports)
  unfolding Debug.recrawl Debug.ageout Debug.show_cursors Debug.get_asserted_states
      Debug.get_subscriptions Debug.root_status Debug.status Debug.watcher_info Debug.contenthash
      Debug.inject_drop request_shutdown
  debug-Keep = (
    (λ s args kept room. with_root-Good host s kept room args _ _ (recrawl_root-KeepsAt host)),
    (
      (λ s args kept room. (ageout-Kept s kept, refl)),
      (
        (λ s args kept room. reads s args _ _ (λ r. refl) kept room),
        (
          (λ s args kept room. (kept, refl)),
          (
            (λ s args kept room. reads s args _ _ (λ r. refl) kept room),
            (
              (λ s args kept room. reads s args _ _ (λ r. refl) kept room),
              (
                (λ s args kept room. reads s args _ _ (λ r. refl) kept room),
                (
                  (λ s args kept room. (kept, refl)),
                  (
                    (λ s args kept room. reads s args _ _ (λ r. refl) kept room),
                    (
                      (λ s args kept room. (kept, refl)),
                      (
                        (λ s args kept room. (kept, refl)),
                        (
                          (λ s args kept room. (kept, refl)),
                          (
                            (λ s args kept room. reads s args _ _ (λ r. refl) kept room),
                            (
                              (λ s args kept room. (kept, refl)),
                              (
                                (λ s args kept room.
                                    with_root-Good host s kept room args _ _
                                      (inject_root-KeepsAt host)),
                                (
                                  (λ s args kept room.
                                      with_root-Good host s kept room args _ _
                                        (recrawl_root-KeepsAt host)),
                                  (
                                    (λ s args kept room. (
                                      sweep-Kept reports.stale_secs host.now reports.is_dir s kept,
                                      refl,
                                    )),
                                    (
                                      (λ s args kept room. (kept, tt)),
                                      (
                                        (λ s args kept room. (kept, tt)),
                                        (
                                          (λ s args kept room. (
                                            record { unique = kept.unique; sound = kept.sound },
                                            refl,
                                          )),
                                          tt,
                                        ),
                                      ),
                                    ),
                                  ),
                                ),
                              ),
                            ),
                          ),
                        ),
                      ),
                    ),
                  ),
                ),
              ),
            ),
          ),
        ),
      ),
    ),
  )
