-- ===== src/Daemon/State/Policy.antt =====
-- The collector's promises: which roots survive a sweep, and how long its log grows.
use watchwoman.Base.{
  ℕ, suc, ◌+◌, ◌≤◌, ◌≡◌, refl, Bool, true, false, none, some, List, [], ◌∷◌, arith, inl, inr,
  Bool-cases, Option-cases, nat_eq, list_eq, ◌==◌, nat_beq_iff, leb, length, length-append,
}
use watchwoman.Base.Map
use watchwoman.Base.Map.{Unique}
use watchwoman.Base.Text.{Text}
use watchwoman.Daemon.Root.{
  Root, mark_missing, mark_present, prune_tombstones, subscription_count, trigger_count,
}
use watchwoman.Daemon.State.{
  DaemonState, ReapEvent, ReapReason, log_reap, pop_front, reap, unregister_root, reap_log_capacity,
  is_stale, dead, stale, dead_tick_threshold, sweep_found, sweep_root, sweep_all, sweep, list_roots,
}
use watchwoman.Daemon.State.Gc.{swept, get-sweep, sweep-Unique}

-- Among roots with distinct paths, a root with a subscription or a trigger whose directory is
-- there survives a sweep, with its misses forgotten and its tombstones pruned, however long it
-- has idled.
pub sweep_keeps_active :
    (stale_secs now : ℕ) (is_dir : Text → Bool) (s : DaemonState) (path : Text) (r : Root)
    → Unique s.roots
    → Map.get s.roots path ≡ some r
    → is_dir path ≡ true
    → 1 ≤ subscription_count r + trigger_count r
    → Map.get (sweep stale_secs now is_dir s).roots path
      ≡ some (prune_tombstones (mark_present r)).0
unfolding swept mark_present
sweep_keeps_active stale_secs now is_dir s path r unique found there used =
    let busy : is_stale stale_secs now (mark_present r) ≡ false =
      ground (arith, used, nat_beq_iff (subscription_count r) 0, nat_beq_iff (trigger_count r) 0) in
    rw (get-sweep stale_secs now is_dir s path unique, found, there, busy) refl

-- Among roots with distinct paths, a root without counted misses whose directory is missing
-- survives the first sweep that misses it, with one miss counted, and is gone after the next one
-- if the directory is still missing.
pub sweep_collects_dead :
    (stale_secs now later : ℕ) (is_dir : Text → Bool) (s : DaemonState) (path : Text) (r : Root)
    → Unique s.roots
    → Map.get s.roots path ≡ some r
    → r.missing_ticks ≡ 0
    → is_dir path ≡ false
    → let s' = sweep stale_secs now is_dir s in
      (Map.get s'.roots path ≡ some (record r { missing_ticks = 1 }))
      × (Map.get (sweep stale_secs later is_dir s').roots path ≡ none)
unfolding swept mark_missing
sweep_collects_dead stale_secs now later is_dir s path r unique found none_yet gone =
    let s' : DaemonState = sweep stale_secs now is_dir s in
    let unique' = sweep-Unique stale_secs now is_dir s unique in
    let first : Map.get s'.roots path ≡ some (record r { missing_ticks = 1 }) =
      rw (get-sweep stale_secs now is_dir s path unique, found, gone, none_yet) refl in
    (first, rw (get-sweep stale_secs later is_dir s' path unique', first, gone) refl)

-- No more events than the log's capacity.
abbrev pub IsLogged : DaemonState → Type 0
IsLogged s = length s.reap_log ≤ reap_log_capacity

length-pop_front : (log : List ReapEvent) (n : ℕ) → length log ≡ suc n → length (pop_front log) ≡ n
length-pop_front [] n h = absurd (omega arith)
length-pop_front (e ∷ log) n h = omega arith

log_reap-IsLogged : (s : DaemonState) (e : ReapEvent) → IsLogged s → IsLogged (log_reap s e)
unfolding log_reap
log_reap-IsLogged s e h = elim (Bool-cases (length s.reap_log == reap_log_capacity)) [
  | inl full ↦ rw full (
      omega (
        arith,
        length-pop_front s.reap_log 63 ((nat_beq_iff (length s.reap_log) reap_log_capacity).0 full),
        length-append (pop_front s.reap_log) (e ∷ []),
      ))
  | inr room ↦ rw room (
      ground (
        arith,
        h,
        room,
        nat_beq_iff (length s.reap_log) reap_log_capacity,
        length-append s.reap_log (e ∷ []),
      ))
]

reap-IsLogged :
    (s : DaemonState) (path : Text) (reason : ReapReason) (now : ℕ)
    → IsLogged s
    → IsLogged (reap s path reason now)
unfolding reap unregister_root
reap-IsLogged s path reason now h = elim (Option-cases (Map.get s.roots path)) [
  | inl absent ↦ rw (absent, reap) h
  | inr (r, found) ↦ rw (found, reap) (log_reap-IsLogged _ _ h)
]

sweep_found-IsLogged :
    (stale_secs now : ℕ) (exists : Bool) (s : DaemonState) (path : Text) (r : Root)
    → IsLogged s
    → IsLogged (sweep_found stale_secs now exists s path r)
unfolding sweep_found
sweep_found-IsLogged stale_secs now true s path r h =
    elim (Bool-cases (is_stale stale_secs now (mark_present r))) [
      | inl idle ↦ rw idle (reap-IsLogged _ path stale now h)
      | inr used ↦ rw used h
    ]
sweep_found-IsLogged stale_secs now false s path r h =
    elim (Bool-cases (leb dead_tick_threshold (mark_missing r).1)) [
      | inl twice ↦ rw twice (reap-IsLogged _ path dead now h)
      | inr once ↦ rw once h
    ]

sweep_all-IsLogged :
    (stale_secs now : ℕ) (is_dir : Text → Bool) (s : DaemonState) (paths : List Text)
    → IsLogged s
    → IsLogged (sweep_all stale_secs now is_dir s paths)
unfolding sweep_all sweep_root
sweep_all-IsLogged stale_secs now is_dir s [] h = h
sweep_all-IsLogged stale_secs now is_dir s (path ∷ paths) h =
    sweep_all-IsLogged stale_secs now is_dir (sweep_root stale_secs now is_dir s path) paths
      (elim (Option-cases (Map.get s.roots path)) [
        | inl absent ↦ rw (absent, sweep_root) h
        | inr (r, found) ↦
            rw (found, sweep_root) (sweep_found-IsLogged stale_secs now (is_dir path) s path r h)
      ])

-- A sweep, whatever it collects, leaves at most 64 events in a log of collected roots that had
-- no more.
pub sweep-IsLogged :
    (stale_secs now : ℕ) (is_dir : Text → Bool) (s : DaemonState)
    → IsLogged s
    → IsLogged (sweep stale_secs now is_dir s)
unfolding sweep
sweep-IsLogged stale_secs now is_dir s = sweep_all-IsLogged stale_secs now is_dir s (list_roots s)
