-- ===== src/Daemon/State.antt =====
-- crates/watchwoman/src/daemon/state.rs and gc.rs: the daemon's roots, the log of what was collected,
-- and the collector's sweep. What the source asks the disk and the system clock for are arguments.
pub mod Gc
pub mod Policy
pub mod Examples
use watchwoman.Base.{
  ℕ, suc, ◌+◌, ◌%◌, ◌^◌, any, Bool, true, false, ◌&&◌, ◌||◌, not, Option, none, some, List, [], ◌∷◌,
  ◌++◌, ltb, leb, ◌==◌, map, nat_eq, list_eq, if◌then◌else◌, length, is_some, drop,
}
use watchwoman.Base.Map
use watchwoman.Base.Text.{Text, ascii}
use watchwoman.Daemon.Watch.{Trigger, WatchIgnores}
use watchwoman.Daemon.Root
use watchwoman.Daemon.Root.{
  Root, Scanned, seed, promote_to_full, touch, mark_missing, mark_present, subscription_count,
  trigger_count, idle_seconds, prune_tombstones,
}

pub data ReapReason : Type 0 where
  dead stale : ReapReason

unfoldable pub reason_str : ReapReason → Text
reason_str dead = ascii "dead"
reason_str stale = ascii "stale"

pub record ReapEvent : Type 0 where
  pub path : Text
  pub reason : ReapReason
  pub at_unix : ℕ

abbrev pub reap_log_capacity : ℕ
reap_log_capacity = 64

-- The log is a queue with its oldest event in front.
pub record DaemonState : Type 0 where
  pub roots : List (Text × Root)
  pub shutting_down : Bool
  pub reap_log : List ReapEvent
  pub root_counter : ℕ

abbrev pub new : DaemonState
new = record { roots = []; shutting_down = false; reap_log = []; root_counter = 0 }

abbrev pop_front : List ReapEvent → List ReapEvent
pop_front [] = []
pop_front (e ∷ log) = log

unfoldable pub log_reap : DaemonState → ReapEvent → DaemonState
log_reap s event =
    let log = if length s.reap_log == reap_log_capacity then pop_front s.reap_log else s.reap_log in
    record s { reap_log = log ++ event ∷ [] }

unfoldable pub request_shutdown : DaemonState → DaemonState
request_shutdown s = record s { shutting_down = true }

-- A lookup by a command touches the root that it finds.
unfoldable pub root : DaemonState → Text → ℕ → DaemonState × Option Root
root s path now = elim (Map.get s.roots path) [
  | none ↦ (s, none)
  | some r ↦
      let touched = touch r now in
      (record s { roots = Map.insert s.roots path touched }, some touched)
]

abbrev pub is_other_trigger : Text × Trigger → Bool
is_other_trigger (name, t) = not (t.name == ascii "jj-background-monitor")

-- What a registration meets: `dir` is whether the path is a directory, if it can be read at all, then
-- the configuration's rules and `jj_events`, two scans, the persisted triggers, and whether the watcher starts.
pub record Surroundings : Type 0 where
  pub now : ℕ
  pub process_id : ℕ
  pub dir : Option Bool
  pub ignores : WatchIgnores
  pub jj_events : Bool
  pub scanned : List Scanned
  pub rescanned : List Scanned
  pub persisted : List Trigger
  pub watched : Bool

-- `load_persisted_triggers`.
unfoldable pub load_triggers : Root → List Trigger → Root
load_triggers r [] = r
load_triggers r (t ∷ ts) = load_triggers (record r { triggers = Map.insert r.triggers t.name t }) ts

unfoldable pub build_root : Text → ℕ → Surroundings → Root
build_root path root_number env =
    let r = Root.new path root_number env.ignores env.jj_events env.now env.process_id in
    let (seeded, tick) = seed r (if env.jj_events then [] else env.scanned) in
    let loaded = load_triggers seeded env.persisted in
    if any is_other_trigger loaded.triggers then promote_to_full loaded env.rescanned else loaded

-- No root comes back where the source fails.
unfoldable pub register_root : DaemonState → Text → Surroundings → DaemonState × Option Root
register_root s path env = elim (Map.get s.roots path) [
  | some existing ↦
      let touched = touch existing env.now in
      (record s { roots = Map.insert s.roots path touched }, some touched)
  | none ↦ elim env.dir [
    | none ↦ (s, none)
    | some is_dir ↦
        if not is_dir
        then (s, none)
        else let number = (s.root_counter + 1) % 2 ^ 64 in
          let r = build_root path number env in
          let counted = record s { root_counter = number } in
          if env.watched
          then (record counted { roots = Map.insert s.roots path r }, some r)
          else (counted, none)
  ]
]

unfoldable pub keys : List (Text × Root) → List Text
keys [] = []
keys ((path, r) ∷ roots) = path ∷ keys roots

abbrev pub list_roots : DaemonState → List Text
list_roots s = keys s.roots

unfoldable pub unregister_root : DaemonState → Text → DaemonState × Bool
unregister_root s path =
    (record s { roots = Map.remove s.roots path }, is_some (Map.get s.roots path))

-- The loop over the collected keys, with the paths that it removed.
unfoldable pub drain_all : DaemonState → List Text → DaemonState × List Text
drain_all s [] = (s, [])
drain_all s (p ∷ paths) =
    let (s', was_there) = unregister_root s p in
    let (last, removed) = drain_all s' paths in (last, if was_there then p ∷ removed else removed)

abbrev pub drain_roots : DaemonState → DaemonState × List Text
drain_roots s = drain_all s (list_roots s)

unfoldable pub reap : DaemonState → Text → ReapReason → ℕ → DaemonState
reap s path reason now =
    let (s', was_there) = unregister_root s path in
    if was_there then log_reap s' (record { path = path; reason = reason; at_unix = now }) else s'

abbrev pub dead_tick_threshold : ℕ
dead_tick_threshold = 2

abbrev pub is_stale : ℕ → ℕ → Root → Bool
is_stale stale_secs now r =
    ltb 0 stale_secs
    && subscription_count r == 0
    && trigger_count r == 0
    && leb stale_secs (idle_seconds r now)

abbrev put : DaemonState → Text → Root → DaemonState
put s path r = record s { roots = Map.insert s.roots path r }

-- The body of the sweep's loop for a root whose directory is there or not.
unfoldable pub sweep_found : ℕ → ℕ → Bool → DaemonState → Text → Root → DaemonState
sweep_found stale_secs now exists s path r =
    if not exists
    then (let (r', misses) = mark_missing r in
        if leb dead_tick_threshold misses
        then reap (put s path r') path dead now
        else put s path r')
    else (let r' = mark_present r in
        if is_stale stale_secs now r'
        then reap (put s path r') path stale now
        else put s path (prune_tombstones r').0)

unfoldable pub sweep_root : ℕ → ℕ → (Text → Bool) → DaemonState → Text → DaemonState
sweep_root stale_secs now is_dir s path = elim (Map.get s.roots path) [
  | none ↦ s
  | some r ↦ sweep_found stale_secs now (is_dir path) s path r
]

unfoldable pub sweep_all : ℕ → ℕ → (Text → Bool) → DaemonState → List Text → DaemonState
sweep_all stale_secs now is_dir s [] = s
sweep_all stale_secs now is_dir s (path ∷ paths) =
    sweep_all stale_secs now is_dir (sweep_root stale_secs now is_dir s path) paths

unfoldable pub sweep : ℕ → ℕ → (Text → Bool) → DaemonState → DaemonState
sweep stale_secs now is_dir s = sweep_all stale_secs now is_dir s (list_roots s)
