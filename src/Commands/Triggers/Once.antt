-- ===== src/Commands/Triggers/Once.antt =====
-- However many events wait, a trigger's command is started once for what changed.
use watchwoman.Base.{
  ℕ, ◌^◌, ◌≤◌, ◌<◌, ◌≡◌, refl, ap, ◌∙◌, Bool, true, false, not, ◌&&◌, none, some, List, [], ◌∷◌,
  arith, All, leb, if◌then◌else◌, eq_refl, nat_eq, list_eq, append-nil,
}
use watchwoman.Base.Map
use watchwoman.Base.Text.{Text}
use watchwoman.Protocol.Value.{get_field}
use watchwoman.Protocol.Json.{SerdeJson}
use watchwoman.Daemon.Clock
use watchwoman.Daemon.Clock.{encode, tick_against}
use watchwoman.Daemon.Clock.Laws.{IsClock, parse-encode, tick_against-parse-encode}
use watchwoman.Daemon.Watch.{TickEvent, Trigger, query_spec}
use watchwoman.Daemon.Root.{Root}
use watchwoman.Query.Expr.Parse.{ok}
use watchwoman.Query.Run.{
  Environment, Spec, QueryResult, parse_spec, run, files_of, resolve_named_cursor,
}
use watchwoman.Query.Run.Asks.{run-Asks, clock-Asks, encode-resolve_scm_set}
use watchwoman.Commands.Subscribe.Covered.{parse_spec-since}
use watchwoman.Commands.Triggers.{collect_names}
use watchwoman.Commands.Triggers.Loop.{
  Launch, Fired, fire, is_no_name, fire_result, fire_parsed, on_tick, run_trigger,
}

-- What is started for some names, if there are any.
abbrev pub launches : SerdeJson → Trigger → Text → List Text → List Launch
launches serde trigger root_path names =
    if is_no_name names then [] else fire serde trigger root_path names trigger.command

-- The loop at the root's clock, having started this.
abbrev launching : Root → List Launch → Fired
launching r started = record {
  root = r;
  last_tick = r.clock.ticks;
  launched = started;
  running = true;
}

abbrev pub fired : SerdeJson → Trigger → Text → Root → List Text → Fired
fired serde trigger root_path r names = launching r (launches serde trigger root_path names)

module _ (serde : SerdeJson) (env : Environment) (root_path : Text) (trigger : Trigger) (r : Root)
    (installed : Map.contains_key r.triggers trigger.name ≡ true) where
  -- Events that the loop is past start nothing.
  run_trigger_past :
      (t : ℕ) (evs : List TickEvent)
      → All (λ (ev : TickEvent). ev.tick ≤ t) evs
      → run_trigger serde env root_path trigger t r evs
        ≡ record { root = r; last_tick = t; launched = []; running = true }
  unfolding run_trigger on_tick
  run_trigger_past t [] past = refl
  run_trigger_past t (ev ∷ evs) (old, past) =
      let is_old : leb ev.tick t ≡ true = ground arith in
      rw (installed, is_old, run_trigger_past t evs past) refl

  module _ (clock : IsClock r.clock) (t : ℕ) (parsed : Spec env)
      (parses : parse_spec env (query_spec trigger (encode r.clock t)) ≡ ok parsed)
      (room : t < 2 ^ 64) (start : 0 < t) (held : r.oldest_available_tick ≤ t) where
    parsed-since : parsed.since ≡ some (Clock.parse (encode r.clock t))
    unfolding query_spec get_field
    parsed-since = parse_spec-since env _ parsed parses

    run-root : (run env r parsed).0 ≡ r
    unfolding run resolve_named_cursor
    run-root = rw (parsed-since, parse-encode r.clock t clock room) refl

    run-tick : tick_against (Clock.parse (run env r parsed).1.clock) r.clock ≡ r.clock.ticks
    unfolding run
    run-tick =
        rw
          (
            tick_against-parse-encode r.clock r.clock r.clock.ticks clock clock.ticks,
            eq_refl r.clock.start_time,
            eq_refl r.clock.pid,
            eq_refl r.clock.root_number,
          )
          refl

    fired_if :
        (b jj : Bool) (x : List Launch)
        → (if b && not (jj && false)
            then record { root = r; last_tick = r.clock.ticks; launched = []; running = true }
            else record { root = r; last_tick = r.clock.ticks; launched = x; running = true })
          ≡ launching r (if b then [] else x)
    fired_if true true x = refl
    fired_if true false x = refl
    fired_if false jj x = refl

    fire_result_lem :
        (result : QueryResult)
        → result.is_fresh_instance ≡ false
        → tick_against (Clock.parse result.clock) r.clock ≡ r.clock.ticks
        → fire_result serde env root_path trigger r result
          ≡ fired serde trigger root_path r (collect_names result.files)
    unfolding fire_result
    fire_result_lem result known same =
        rw (same, known)
          (fired_if (is_no_name (collect_names result.files)) r.jj_events
            (fire serde trigger root_path (collect_names result.files) trigger.command))

    on_tick-fired :
        (ev : TickEvent)
        → t < ev.tick
        → on_tick serde env root_path trigger t r ev
          ≡ fired serde trigger root_path r
              (collect_names (files_of env r parsed none (some t) r.tree.entries))
    unfolding on_tick fire_parsed
    on_tick-fired ev fresh =
        let is_fresh : leb ev.tick t ≡ false = ground arith in
        let (known, files) =
          run-Asks env parsed r t (rw parsed-since (clock-Asks r t clock room start held))
            (rw parsed-since (encode-resolve_scm_set env r r.clock t clock room)) in
        rw (installed, is_fresh, parses, run-root)
          (fire_result_lem (run env r parsed).1 known run-tick
            ∙ ap (λ fs. fired serde trigger root_path r (collect_names fs)) files)

    -- Handed a later event and more that its clock has reached, with a positive last tick at or past
    -- the oldest available one and a query that parses, the loop of an installed trigger stands at
    -- the clock and has started its command once, for the names of the files that the query since
    -- its last tick lists, and not at all if there are none or the command is empty.
    pub run_trigger_once :
        (ev : TickEvent) (evs : List TickEvent)
        → t < ev.tick
        → All (λ (e : TickEvent). e.tick ≤ r.clock.ticks) evs
        → run_trigger serde env root_path trigger t r (ev ∷ evs)
          ≡ fired serde trigger root_path r
              (collect_names (files_of env r parsed none (some t) r.tree.entries))
    unfolding run_trigger
    run_trigger_once ev evs fresh past =
        rw (on_tick-fired ev fresh, run_trigger_past r.clock.ticks evs past)
          (ap (launching r) (append-nil _))
