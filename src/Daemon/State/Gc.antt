-- ===== src/Daemon/State/Gc.antt =====
-- What a sweep keeps and what it collects.
use watchwoman.Base.{
  ℕ, ◌≡◌, refl, subst, Bool, true, false, Option, none, some, List, [], ◌∷◌, arith, inl, inr, ◌⊎◌,
  Bool-cases, Option-cases, nat_eq, list_eq, ◌==◌, eq_iff, eq_refl, if◌then◌else◌, is_some,
  contains, leb,
}
use watchwoman.Base.Map
use watchwoman.Base.Map.{Unique, get-insert, get-remove, insert-Unique, remove-Unique}
use watchwoman.Base.Text.{Text}
use watchwoman.Daemon.Root.{Root, mark_missing, mark_present, prune_tombstones}
use watchwoman.Daemon.State.{
  DaemonState, ReapReason, dead, stale, log_reap, keys, reap, unregister_root, is_stale,
  sweep_found, sweep_root, sweep_all, sweep, dead_tick_threshold,
}

-- What a sweep makes of one root: gone at the second miss in a row, gone if nothing uses it and it has
-- idled, else kept with its miss counted, or with none and its tombstones pruned.
unfoldable pub swept : ℕ → ℕ → Bool → Root → Option Root
swept stale_secs now exists r =
    if exists
    then (if is_stale stale_secs now (mark_present r)
        then none
        else some (prune_tombstones (mark_present r)).0)
    else (if leb dead_tick_threshold (mark_missing r).1 then none else some (mark_missing r).0)

roots-reap :
    (s : DaemonState) (path : Text) (reason : ReapReason) (now : ℕ)
    → (reap s path reason now).roots ≡ Map.remove s.roots path
unfolding reap unregister_root log_reap
roots-reap s path reason now = elim (Option-cases (Map.get s.roots path)) [
  | inl absent ↦ rw absent refl
  | inr (r, found) ↦ rw found refl
]

-- The two ways that the roots go in one turn of the loop.
abbrev Turn : DaemonState → Text → Option Root → DaemonState → Type 0
Turn s path o s' =
    ((r' : Root) × (o ≡ none) × (s'.roots ≡ Map.remove (Map.insert s.roots path r') path))
    ⊎ ((r' : Root) × (o ≡ some r') × (s'.roots ≡ Map.insert s.roots path r'))

sweep_found-Turn :
    (stale_secs now : ℕ) (exists : Bool) (s : DaemonState) (path : Text) (r : Root)
    → Turn s path (swept stale_secs now exists r) (sweep_found stale_secs now exists s path r)
unfolding sweep_found swept
sweep_found-Turn stale_secs now true s path r =
    elim (Bool-cases (is_stale stale_secs now (mark_present r))) [
      | inl idle ↦ rw idle (inl (mark_present r, refl, roots-reap _ path stale now))
      | inr used ↦ rw used (inr ((prune_tombstones (mark_present r)).0, refl, refl))
    ]
sweep_found-Turn stale_secs now false s path r =
    elim (Bool-cases (leb dead_tick_threshold (mark_missing r).1)) [
      | inl twice ↦ rw twice (inl ((mark_missing r).0, refl, roots-reap _ path dead now))
      | inr once ↦ rw once (inr ((mark_missing r).0, refl, refl))
    ]

contains-keys : (m : List (Text × Root)) (k : Text) → contains (keys m) k ≡ is_some (Map.get m k)
unfolding keys Map.get
contains-keys [] k = refl
contains-keys ((j, r) ∷ m) k = ground (arith, contains-keys m k)

-- No path twice.
abbrev AreDistinct : List Text → Type 0
AreDistinct [] = Unit
AreDistinct (k ∷ ks) = (contains ks k ≡ false) × AreDistinct ks

AreDistinct-keys : (m : List (Text × Root)) → Unique m → AreDistinct (keys m)
unfolding keys
AreDistinct-keys [] u = tt
AreDistinct-keys ((j, r) ∷ m) (h, u) = (rw (contains-keys m j, h) refl, AreDistinct-keys m u)

module _ (stale_secs now : ℕ) (is_dir : Text → Bool) where
  -- What a sweep leaves at a path.
  abbrev pub left_at : Text → Option Root → Option Root
  left_at k none = none
  left_at k (some r) = swept stale_secs now (is_dir k) r

  at_key :
      (s : DaemonState) (path k : Text) (r : Root)
      → Map.get s.roots path ≡ some r
      → (roots : List (Text × Root)) → Map.get roots path ≡ swept stale_secs now (is_dir path) r
      → ((path == k) ≡ false → Map.get roots k ≡ Map.get s.roots k)
      → Map.get roots k ≡ (if path == k then left_at k (Map.get s.roots k) else Map.get s.roots k)
  at_key s path k r found roots here there = elim (Bool-cases (path == k)) [
    | inl same ↦ rw same (
        subst (λ j. Map.get roots j ≡ left_at j (Map.get s.roots j)) ((eq_iff path k).0 same)
          (rw found here))
    | inr other ↦ rw other (there other)
  ]

  -- One turn of the loop changes its root and no other, and keeps the paths apart.
  get-sweep_root :
      (s : DaemonState) (path k : Text)
      → Unique s.roots
      → (Map.get (sweep_root stale_secs now is_dir s path).roots k
          ≡ (if path == k then left_at k (Map.get s.roots k) else Map.get s.roots k))
        × Unique (sweep_root stale_secs now is_dir s path).roots
  unfolding sweep_root
  get-sweep_root s path k unique = elim (Option-cases (Map.get s.roots path)) [
    | inl absent ↦ rw (absent, sweep_root) (ground (arith, absent, eq_iff path k), unique)
    | inr (r, found) ↦ elim (sweep_found-Turn stale_secs now (is_dir path) s path r) [
      | inl (r', gone, roots) ↦
          rw (found, sweep_root, roots)
            (
              at_key s path k r found _
                  (rw
                    (
                      get-remove _ path path (insert-Unique s.roots path r' unique),
                      eq_refl path,
                      gone,
                    )
                    refl)
                  (λ other.
                    rw
                      (
                        get-remove _ path k (insert-Unique s.roots path r' unique),
                        other,
                        get-insert s.roots path k r',
                        other,
                      )
                      refl),
              remove-Unique _ path (insert-Unique s.roots path r' unique),
            )
      | inr (r', kept, roots) ↦
          rw (found, sweep_root, roots)
            (
              at_key s path k r found _
                  (rw (get-insert s.roots path path r', eq_refl path, kept) refl)
                  (λ other. rw (get-insert s.roots path k r', other) refl),
              insert-Unique s.roots path r' unique,
            )
    ]
  ]

  get-sweep_all :
      (s : DaemonState) (paths : List Text) (k : Text)
      → Unique s.roots
      → AreDistinct paths
      → Map.get (sweep_all stale_secs now is_dir s paths).roots k
        ≡ (if contains paths k then left_at k (Map.get s.roots k) else Map.get s.roots k)
  unfolding sweep_all
  get-sweep_all s [] k unique distinct = refl
  get-sweep_all s (path ∷ paths) k unique (fresh, distinct) =
      let s' : DaemonState = sweep_root stale_secs now is_dir s path in
      let (turn, unique') = get-sweep_root s path k unique in
      let rest = get-sweep_all s' paths k unique' distinct in
      elim (Bool-cases (path == k)) [
        | inl same ↦
            let absent : contains paths k ≡ false =
              subst (λ j. contains paths j ≡ false) ((eq_iff path k).0 same) fresh in
            ground (arith, same, absent, turn, rest)
        | inr other ↦ ground (arith, other, turn, rest)
      ]

  sweep_all-Unique :
      (s : DaemonState) (paths : List Text)
      → Unique s.roots
      → Unique (sweep_all stale_secs now is_dir s paths).roots
  unfolding sweep_all
  sweep_all-Unique s [] unique = unique
  sweep_all-Unique s (path ∷ paths) unique =
      sweep_all-Unique (sweep_root stale_secs now is_dir s path) paths
        (get-sweep_root s path path unique).1

pub sweep-Unique :
    (stale_secs now : ℕ) (is_dir : Text → Bool) (s : DaemonState)
    → Unique s.roots
    → Unique (sweep stale_secs now is_dir s).roots
unfolding sweep
sweep-Unique stale_secs now is_dir s = sweep_all-Unique stale_secs now is_dir s (keys s.roots)

-- A sweep over roots with distinct paths decides each root by itself: a path is left with what
-- `swept` makes of its root (gone at the second miss in a row, gone if unused and idle, else
-- kept with its miss counted or with its tombstones pruned).
pub get-sweep :
    (stale_secs now : ℕ) (is_dir : Text → Bool) (s : DaemonState) (k : Text)
    → Unique s.roots
    → Map.get (sweep stale_secs now is_dir s).roots k
      ≡ elim (Map.get s.roots k) [ none ↦ none | some r ↦ swept stale_secs now (is_dir k) r ]
unfolding sweep
get-sweep stale_secs now is_dir s k unique = ground (
  arith,
  get-sweep_all stale_secs now is_dir s (keys s.roots) k unique (AreDistinct-keys s.roots unique),
  contains-keys s.roots k,
)
