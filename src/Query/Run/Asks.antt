-- ===== src/Query/Run/Asks.antt =====
-- Queries that ask for the changes since a clock string or a named cursor.
use watchwoman.Base.{
  ℕ, ◌^◌, ◌≤◌, ◌<◌, ◌≡◌, refl, sym, false, Option, none, some, arith, All, All-map, eq_refl, subst,
  nat_eq, list_eq,
}
use watchwoman.Base.Map
use watchwoman.Base.Map.{Unique-All-get, get-insert}
use watchwoman.Base.Text.{Text, FilePath}
use watchwoman.Daemon.Clock
use watchwoman.Daemon.Clock.{Clock, ClockSpec, named, full, tick_against, current_string}
use watchwoman.Daemon.Clock.Laws.{IsClock, parse-encode}
use watchwoman.Daemon.Entry.{FileEntry}
use watchwoman.Daemon.Tree.{get}
use watchwoman.Daemon.Root.{Root, cursor_tick}
use watchwoman.Daemon.Root.Invariant.{IsRoot}
use watchwoman.Query.Run.{
  Environment, Spec, run, files_of, is_fresh, clock_tick_of, or_tick, tick_of_spec, resolve_scm_set,
  resolve_named_cursor,
}

-- In a root, no entry of the index is later than the clock.
pub entries-le :
    (r : Root)
    → IsRoot r
    → All (λ (p : FilePath × FileEntry). p.1.oclock ≤ r.clock.ticks) r.tree.entries
unfolding get
entries-le r ok =
    All-map _ _ r.tree.entries (λ p found. ok.timed p.0 p.1.oclock (rw found refl))
      (Unique-All-get r.tree.entries ok.counted.unique)

-- Asking for what changed since a tick.
abbrev pub since_tick_of : Root → Option ClockSpec → Option ℕ
since_tick_of r since = or_tick (resolve_named_cursor r since).0 (tick_of_spec r since)

abbrev pub Asks : Root → Option ClockSpec → ℕ → Type 0
Asks r since t =
    (since_tick_of r since ≡ some t)
    × (is_fresh r (since_tick_of r since) (clock_tick_of r (resolve_named_cursor r since).0 since)
        ≡ false)

pub clock-Asks :
    (r : Root) (t : ℕ)
    → IsClock r.clock
    → t < 2 ^ 64
    → 0 < t
    → r.oldest_available_tick ≤ t
    → Asks r (some (Clock.parse (Clock.encode r.clock t))) t
unfolding is_fresh resolve_named_cursor tick_against
clock-Asks r t clock room start held =
    rw
      (
        parse-encode r.clock t clock room,
        eq_refl r.clock.start_time,
        eq_refl r.clock.pid,
        eq_refl r.clock.root_number,
      )
      (refl, ground arith)

pub same_clock-Asks :
    (r : Root) (c : Clock) (t : ℕ)
    → r.clock ≡ c
    → IsClock c
    → t < 2 ^ 64
    → 0 < t
    → r.oldest_available_tick ≤ t
    → Asks r (some (Clock.parse (Clock.encode c t))) t
same_clock-Asks r c t same clock room start held =
    subst (λ d. Asks r (some (Clock.parse (Clock.encode d t))) t) same
      (clock-Asks r t (subst IsClock (sym same) clock) room start held)

pub encode-resolve_scm_set :
    (env : Environment) (r : Root) (c : Clock) (t : ℕ)
    → IsClock c
    → t < 2 ^ 64
    → resolve_scm_set env r (some (Clock.parse (Clock.encode c t))) ≡ none
unfolding resolve_scm_set
encode-resolve_scm_set env r c t clock room = rw (parse-encode c t clock room) refl

pub cursor-Asks :
    (r : Root) (name : Text) (t : ℕ)
    → Map.get r.cursors name ≡ some t
    → 0 < t
    → r.oldest_available_tick ≤ t
    → Asks r (some (named name)) t
unfolding is_fresh resolve_named_cursor cursor_tick tick_against
cursor-Asks r name t h start held = ground (arith, h, start, held)

module _ (env : Environment) (spec : Spec env) where
  -- What a query lists that asks from a tick, and that no SCM narrows.
  pub run-Asks :
      (r : Root) (t : ℕ)
      → Asks r spec.since t
      → resolve_scm_set env r spec.since ≡ none
      → ((run env r spec).1.is_fresh_instance ≡ false)
        × ((run env r spec).1.files ≡ files_of env r spec none (some t) r.tree.entries)
  unfolding run
  run-Asks r t (asks, old) scm = (old, rw (old, scm, asks) refl)
