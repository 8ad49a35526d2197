-- ===== src/Commands/Subscribe/Delivery.antt =====
-- A subscriber that is handed its waiting events is told of everything it has not seen.
use watchwoman.Base.{
  ℕ, ◌^◌, ◌≤◌, ◌<◌, ◌≡◌, refl, ◌∙◌, ap, true, false, none, some, List, [], ◌∷◌, arith, inl, inr,
  Bool-cases, leb, leb→le, nat_eq, list_eq,
}
use watchwoman.Base.Text.{FilePath, ascii}
use watchwoman.Protocol.Value.{Value, string, insert_field}
use watchwoman.Protocol.Fields.{get_field-insert_field}
use watchwoman.Daemon.Clock
use watchwoman.Daemon.Clock.{Clock, encode}
use watchwoman.Daemon.Clock.Laws.{IsClock}
use watchwoman.Daemon.Watch.{TickEvent}
use watchwoman.Daemon.Tree.{get}
use watchwoman.Daemon.Root.{Root}
use watchwoman.Daemon.Root.Frame.{tick_of}
use watchwoman.Daemon.Root.Invariant.{IsTimed}
use watchwoman.Query.Expr.Parse.{ok, str_of}
use watchwoman.Query.Run.{Environment, Spec, QueryResult, parse_spec, run, files_of}
use watchwoman.Query.Run.Asks.{run-Asks, same_clock-Asks, encode-resolve_scm_set}
use watchwoman.Query.Generator.{clock_of}
use watchwoman.Commands.Subscribe.{
  Subscriber, Pushed, since_spec, own_fields, on_event, push_parsed, push_result, run_push_loop,
  push_pdu, is_empty,
}
use watchwoman.Commands.Subscribe.Covered.{
  latest_mono, Covered, FeedStep-Covered, handled, parse_spec-since, on_event-Handled,
  push_result-root,
}

module _ (env : Environment) (sub : Subscriber) (c : Clock) (parsed : ℕ → Spec env)
    (parses : (t : ℕ) → parse_spec env (since_spec sub.raw_spec (encode c t)) ≡ ok (parsed t)) where
  parses_at :
      (t : ℕ) (r : Root)
      → r.clock ≡ c
      → parse_spec env (since_spec sub.raw_spec (encode r.clock t)) ≡ ok (parsed t)
  parses_at t r same =
      ap (λ d. parse_spec env (since_spec sub.raw_spec (encode d t))) same ∙ parses t

  on_event-running :
      (t : ℕ) (r : Root) (ev : TickEvent)
      → r.clock ≡ c
      → (on_event env sub false true t r ev).running ≡ true
  unfolding on_event push_parsed
  on_event-running t r ev same = elim (Bool-cases (leb ev.tick t)) [
    | inl old ↦ rw (old, on_event) refl
    | inr fresh ↦
        rw (fresh, parses_at t r same)
          (push_result-root env sub ev.tick (run env r (parsed t)).0 (run env r (parsed t)).1).2
  ]

  -- Where what waits covers the index and the subscription's query parses for every clock, the
  -- loop that is handed all that waits is still running and has no entry of the index later than
  -- the tick it has reached.
  run_push_loop_caught_up :
      (t : ℕ) (r : Root) (evs : List TickEvent)
      → r.clock ≡ c
      → Covered (record { root = r; waiting = evs; last_tick = t })
      → let p = run_push_loop env sub t r evs in
        (p.running ≡ true) × IsTimed p.last_tick p.root.tree
  unfolding run_push_loop
  run_push_loop_caught_up t r [] same covered = (refl, covered.seen)
  run_push_loop_caught_up t r (ev ∷ evs) same covered =
      let running = on_event-running t r ev same in
      let p : Pushed = on_event env sub false true t r ev in
      let next = FeedStep-Covered (handled r t ev evs running) covered in
      let (tree, clock, sound, past) = on_event-Handled env sub t r ev in
      rw running (run_push_loop_caught_up p.last_tick p.root evs (clock ∙ same) next)

  parsed-since : (t : ℕ) → (parsed t).since ≡ some (Clock.parse (encode c t))
  unfolding since_spec
  parsed-since t =
      parse_spec-since env
        (insert_field (own_fields sub.raw_spec) (ascii "since") (string (encode c t))) (parsed t)
        (parses t)
      ∙ ap (λ v. clock_of (str_of v)) {y = some (string (encode c t))}
          (get_field-insert_field (own_fields sub.raw_spec) (ascii "since") (ascii "since")
            (string (encode c t)))

  push_result-sent :
      (tick : ℕ) (r : Root) (result : QueryResult)
      → is_empty result.files ≡ false
      → (push_result env sub true tick r result).sent ≡ push_pdu sub result ∷ []
  unfolding push_result
  push_result-sent tick r result h = ground (arith, h)

  -- The query of the loop lists what changed since the tick it has handled.
  run-parsed :
      (t : ℕ) (r : Root)
      → r.clock ≡ c
      → IsClock c
      → t < 2 ^ 64
      → 0 < t
      → r.oldest_available_tick ≤ t
      → ((run env r (parsed t)).1.is_fresh_instance ≡ false)
        × ((run env r (parsed t)).1.files ≡ files_of env r (parsed t) none (some t) r.tree.entries)
  run-parsed t r same clock room start held =
      run-Asks env (parsed t) r t
        (rw (parsed-since t) (same_clock-Asks r c t same clock room start held))
        (rw (parsed-since t) (encode-resolve_scm_set env r c t clock room))

  -- The first PDU of a loop that is handed what waits.
  abbrev pub Delivers : ℕ → Root → Pushed → Type 0
  Delivers t r p =
      (result : QueryResult) × (rest : List Value) × (p.sent ≡ push_pdu sub result ∷ rest)
      × (result.is_fresh_instance ≡ false)
      × (result.files ≡ files_of env r (parsed t) none (some t) r.tree.entries)

  -- Where what waits covers a sound root's index, a subscriber's last tick is positive and at or
  -- past the oldest available tick, its query parses for every clock, an entry is later than that
  -- tick and the query since that tick lists some file, the loop that is handed what waits sends
  -- as its first PDU that whole list, not fresh.
  pub run_push_loop-Delivers :
      (t : ℕ) (r : Root) (evs : List TickEvent)
      → r.clock ≡ c
      → Covered (record { root = r; waiting = evs; last_tick = t })
      → IsClock c
      → t < 2 ^ 64
      → 0 < t
      → r.oldest_available_tick ≤ t
      → (j : FilePath) (k : ℕ) → tick_of (get r.tree j) ≡ some k
      → t < k
      → is_empty (files_of env r (parsed t) none (some t) r.tree.entries) ≡ false
      → Delivers t r (run_push_loop env sub t r evs)
  unfolding run_push_loop on_event push_parsed
  run_push_loop-Delivers t r [] same covered clock room start held j k found later some_files =
      absurd (omega (arith, covered.seen j k found))
  run_push_loop-Delivers t r (ev ∷ evs) same covered clock room start held j k found later
        some_files =
      elim (Bool-cases (leb ev.tick t)) [
        | inl old ↦
            rw (old, on_event)
              (run_push_loop-Delivers t r evs same
                (record {
                  sound = covered.sound;
                  seen = λ i l at_i. omega (
                    arith,
                    covered.seen i l at_i,
                    latest_mono ev.tick t evs (leb→le ev.tick t old),
                  );
                })
                clock room start held j k found later some_files)
        | inr fresh ↦
            let result = (run env r (parsed t)).1 in
            let root = (run env r (parsed t)).0 in
            let (new, files) = run-parsed t r same clock room start held in
            let any_files : is_empty result.files ≡ false = rw files some_files in
            let (still, last, running) = push_result-root env sub ev.tick root result in
            rw (fresh, parses_at t r same, running, push_result-sent ev.tick root result any_files)
              (result, _, refl, new, files)
      ]
