-- ===== src/Commands/Subscribe/Covered.antt =====
-- What waits for a subscriber covers what it has not seen.
use watchwoman.Base.{
  ℕ, ◌+◌, ◌^◌, ◌≤◌, ◌<◌, ◌≡◌, refl, true, false, Option, none, some, List, [], ◌∷◌, ◌++◌, arith,
  inl, inr, Bool-cases, Option-cases, leb, leb→le, nat_eq, list_eq,
}
use watchwoman.Base.Text.{ascii}
use watchwoman.Protocol.Value.{Fields, object, get_field}
use watchwoman.Daemon.Clock.Laws.{bump_lem}
use watchwoman.Daemon.Watch.{TickEvent}
use watchwoman.Daemon.Root.{Root, set_cursor, PathChange, apply_changes, invalidate_jj_events}
use watchwoman.Daemon.Root.Invariant.{
  IsRoot, IsTimed, IsTimed-new, changes_applied, invalidated, cursor_set,
}
use watchwoman.Daemon.Root.Steps.{RootStep-IsRoot}
use watchwoman.Query.Expr.Parse.{Parsed, ok, bad, str_of}
use watchwoman.Query.Run.{Environment, Spec, QueryResult, parse_spec, run, resolve_named_cursor}
use watchwoman.Query.Generator.{clock_of}
use watchwoman.Commands.Subscribe.{Subscriber, Pushed, on_event, push_parsed, push_result}

-- The tick of the newest event that waits, or the last one handled.
abbrev pub latest : ℕ → List TickEvent → ℕ
latest last_tick [] = last_tick
latest last_tick (ev ∷ evs) = latest ev.tick evs

latest-append :
    (last_tick : ℕ) (evs : List TickEvent) (ev : TickEvent)
    → latest last_tick (evs ++ ev ∷ []) ≡ ev.tick
latest-append last_tick [] ev = refl
latest-append last_tick (e ∷ evs) ev = latest-append e.tick evs ev

-- A subscription's loop: the root, the events that wait, and the last tick handled.
pub record Feed : Type 0 where
  pub root : Root
  pub waiting : List TickEvent
  pub last_tick : ℕ

pub record Covered (f : Feed) : Type 0 where
  pub sound : IsRoot f.root
  pub seen : IsTimed (latest f.last_tick f.waiting) f.root.tree

abbrev wait_for : List TickEvent → Option TickEvent → List TickEvent
wait_for evs none = evs
wait_for evs (some ev) = evs ++ ev ∷ []

abbrev pub after_batch : Feed → ℕ → List PathChange → Feed
after_batch f arena_bytes changes =
    let (r, ev) = apply_changes f.root arena_bytes changes in
    record f { root = r; waiting = f.waiting ++ ev ∷ [] }

abbrev pub after_drop : Feed → Feed
after_drop f =
    let (r, ev) = invalidate_jj_events f.root in
    record f { root = r; waiting = wait_for f.waiting ev }

abbrev pub after_event : Environment → Subscriber → Root → ℕ → TickEvent → List TickEvent → Feed
after_event env sub r t ev evs =
    let p = on_event env sub false true t r ev in
    record { root = p.root; waiting = evs; last_tick = p.last_tick }

-- What happens to a feed: a batch, a dropped event index, an event lost to newer ones in a full
-- channel, and an event handled.
pub data FeedStep (env : Environment) (sub : Subscriber) : Feed → Feed → Type 1 where
  batch :
      (f : Feed) (arena_bytes : ℕ) (changes : List PathChange)
      → f.root.clock.ticks + 1 < 2 ^ 64
      → FeedStep env sub f (after_batch f arena_bytes changes)
  dropped_index : (f : Feed) → f.root.clock.ticks + 1 < 2 ^ 64 → FeedStep env sub f (after_drop f)
  lagged :
      (r : Root) (t : ℕ) (old next : TickEvent) (evs : List TickEvent)
      → FeedStep env sub
          (record { root = r; waiting = old ∷ next ∷ evs; last_tick = t })
          (record { root = r; waiting = next ∷ evs; last_tick = t })
  handled :
      (r : Root) (t : ℕ) (ev : TickEvent) (evs : List TickEvent)
      → (on_event env sub false true t r ev).running ≡ true
      → FeedStep env sub
          (record { root = r; waiting = ev ∷ evs; last_tick = t })
          (after_event env sub r t ev evs)

pub data FeedReached (env : Environment) (sub : Subscriber) : Feed → Feed → Type 1 where
  started : (f : Feed) → FeedReached env sub f f
  then_step :
      {f g h : Feed} → FeedReached env sub f g → FeedStep env sub g h → FeedReached env sub f h

-- The clock of the query that the loop makes.
pub parse_spec-since :
    (env : Environment) (o : Fields) (parsed : Spec env)
    → parse_spec env (object o) ≡ ok parsed
    → parsed.since ≡ clock_of (str_of (get_field o (ascii "since")))
unfolding parse_spec
parse_spec-since env o parsed h = ground (arith, h)

-- A query leaves a root sound, with its index and its clock.
pub run-IsRoot :
    (env : Environment) (r : Root) (spec : Spec env)
    → let r' = (run env r spec).0 in
      (r'.tree ≡ r.tree) × (r'.clock ≡ r.clock) × (IsRoot r → IsRoot r')
unfolding run
run-IsRoot env r spec = elim (Option-cases (resolve_named_cursor r spec.since).1) [
  | inl unnamed ↦ rw unnamed (refl, refl, λ ok. ok)
  | inr (name, is_named) ↦ rw is_named (
    unfold set_cursor in refl,
    unfold set_cursor in refl,
    RootStep-IsRoot (cursor_set r name r.clock.ticks (omega arith)),
  )
]

module _ (env : Environment) (sub : Subscriber) where
  pub push_result-root :
      (tick : ℕ) (r : Root) (result : QueryResult)
      → ((push_result env sub true tick r result).root ≡ r)
        × ((push_result env sub true tick r result).last_tick ≡ tick)
        × ((push_result env sub true tick r result).running ≡ true)
  unfolding push_result
  push_result-root tick r result = ground arith

  -- A handled event leaves the root's index and clock, and moves the loop to its tick or past it.
  abbrev Handled : Root → ℕ → Pushed → Type 0
  Handled r tick p =
      (p.root.tree ≡ r.tree)
      × (p.root.clock ≡ r.clock)
      × (IsRoot r → IsRoot p.root)
      × (p.running ≡ true → tick ≤ p.last_tick)

  push_parsed-Handled :
      (t tick : ℕ) (r : Root) (parsed : Parsed (Spec env))
      → Handled r tick (push_parsed env sub true t tick r parsed)
  unfolding push_parsed
  push_parsed-Handled t tick r (bad e) = (refl, refl, λ ok. ok, λ h. cc)
  push_parsed-Handled t tick r (ok parsed) =
      let (tree, clock, sound) = run-IsRoot env r parsed in
      let (same, last, running) = push_result-root tick (run env r parsed).0 (run env r parsed).1 in
      rw (same, last) (tree, clock, sound, λ h. omega arith)

  pub on_event-Handled :
      (t : ℕ) (r : Root) (ev : TickEvent) → Handled r ev.tick (on_event env sub false true t r ev)
  unfolding on_event
  on_event-Handled t r ev = elim (Bool-cases (leb ev.tick t)) [
    | inl old ↦ rw old (refl, refl, λ ok. ok, λ h. leb→le ev.tick t old)
    | inr fresh ↦ rw fresh (push_parsed-Handled t ev.tick r _)
  ]

IsTimed-invalidate :
    (r : Root) (t : ℕ) (evs : List TickEvent)
    → IsTimed (latest t evs) r.tree
    → IsTimed (latest t (wait_for evs (invalidate_jj_events r).1)) (invalidate_jj_events r).0.tree
unfolding invalidate_jj_events
IsTimed-invalidate r t evs h = elim (Bool-cases r.jj_events) [
  | inl jj ↦ rw jj (IsTimed-new _)
  | inr full ↦ rw full h
]

pub latest_mono : (s t : ℕ) (evs : List TickEvent) → s ≤ t → latest s evs ≤ latest t evs
latest_mono s t [] h = h
latest_mono s t (ev ∷ evs) h = omega arith

apply_changes-tick :
    (r : Root) (arena_bytes : ℕ) (changes : List PathChange)
    → r.clock.ticks + 1 < 2 ^ 64
    → (apply_changes r arena_bytes changes).0.clock.ticks
      ≡ (apply_changes r arena_bytes changes).1.tick
unfolding apply_changes
apply_changes-tick r arena_bytes changes room =
    let (tick, clock) = bump_lem r.clock room in rw (tick, clock) refl

-- However batches, dropped indexes, lost events and handled events follow one another, no entry is
-- later than what waits or was handled.
pub FeedStep-Covered :
    {env : Environment} {sub : Subscriber} {f g : Feed}
    → FeedStep env sub f g
    → Covered f
    → Covered g
FeedStep-Covered (batch f arena_bytes changes room) c =
    let sound = RootStep-IsRoot (changes_applied f.root arena_bytes changes room) c.sound in
    record {
      sound = sound;
      seen =
          rw
            (
              latest-append f.last_tick f.waiting (apply_changes f.root arena_bytes changes).1,
              ← apply_changes-tick f.root arena_bytes changes room,
            )
            sound.timed;
    }
FeedStep-Covered (dropped_index f room) c = record {
  sound = RootStep-IsRoot (invalidated f.root room) c.sound;
  seen = IsTimed-invalidate f.root f.last_tick f.waiting c.seen;
}
FeedStep-Covered (lagged r t old next evs) c = record { sound = c.sound; seen = c.seen }
FeedStep-Covered {env} {sub} (handled r t ev evs running) c =
    let (tree, clock, sound, past) = on_event-Handled env sub t r ev in
    let later = latest_mono ev.tick _ evs (past running) in
    record {
      sound = sound c.sound;
      seen = rw tree (λ j k found. omega (arith, c.seen j k found, later));
    }

-- However batches, dropped event indexes, events lost to newer ones and handled events follow
-- one another, with no bump past the last u64, a root that was sound and covered stays sound,
-- and no entry of its index is later than the newest event that waits, or than the last tick
-- handled if none waits.
pub FeedReached-Covered :
    {env : Environment} {sub : Subscriber} {f g : Feed}
    → FeedReached env sub f g
    → Covered f
    → Covered g
FeedReached-Covered (started f) c = c
FeedReached-Covered (then_step before step) c = FeedStep-Covered step (FeedReached-Covered before c)
