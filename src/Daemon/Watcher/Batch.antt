-- ===== src/Daemon/Watcher/Batch.antt =====
-- What a batch of reports does to the index of a root in full mode: the changes that are collected of it.
use watchwoman.Base.{
  ℕ, ◌+◌, ◌^◌, ◌<◌, ◌≡◌, refl, sym, ap, ◌∙◌, subst, Bool, false, ◌&&◌, ◌||◌, Option, none, some,
  List, [], ◌∷◌, ◌++◌, arith, inl, inr, Bool-cases, Option-cases, nat_eq, list_eq, ◌==◌,
  if◌then◌else◌, append_assoc, append-nil,
}
use watchwoman.Base.Text.{Text, FilePath}
use watchwoman.Daemon.Clock.Laws.{bump_lem}
use watchwoman.Daemon.Entry.{Metadata}
use watchwoman.Daemon.Tree.{get}
use watchwoman.Daemon.Tree.Counters.{IsCounted}
use watchwoman.Daemon.Root.Frame.{apply_all-IsCounted}
use watchwoman.Daemon.Watch.{WatchIgnores, TickEvent}
use watchwoman.Daemon.Root.{Root, PathChange, apply_changes, invalidate_jj_events}
use watchwoman.Daemon.JjScope.{IgnoreFiles, JjScope}
use watchwoman.Query.Paths.{strip_base}
use watchwoman.Daemon.Watcher.{should_ignore}
use watchwoman.Daemon.Watcher.Events.{
  EventKind, access, removed, changed, Reported, Collected, dropped, change_of, collect_path,
  collect_paths, collect_kind, collect_event, collect_all, applied, settle,
}
use watchwoman.Daemon.Watcher.Shown.{shown, batch_shown, shown-apply_all}

invalidate_full : (r : Root) → r.jj_events ≡ false → invalidate_jj_events r ≡ (r, none)
unfolding invalidate_jj_events
invalidate_full r full = rw full refl

-- The paths whose changes are passed over.
abbrev pub is_hidden : WatchIgnores → FilePath → Bool
is_hidden ignores rel = rel == [] || should_ignore ignores rel

module _ (files : IgnoreFiles) (stat : FilePath → Option (Metadata × Option Text))
    (root_dir : FilePath) (r : Root) (full : r.jj_events ≡ false) where
  abbrev state : JjScope files → List PathChange → List TickEvent → Collected files
  state scope batch broadcast = record {
    root = r;
    scope = scope;
    batch = batch;
    broadcast = broadcast;
  }

  -- The change that a path of an event stands for.
  abbrev pub path_changes : EventKind → FilePath → List PathChange
  path_changes kind abs = elim (strip_base root_dir abs) [
    | none ↦ []
    | some rel ↦
        if is_hidden r.ignores rel then [] else change_of files stat root_dir kind abs rel ∷ []
  ]

  abbrev pub paths_changes : EventKind → List FilePath → List PathChange
  paths_changes kind [] = []
  paths_changes kind (abs ∷ paths) = path_changes kind abs ++ paths_changes kind paths

  abbrev pub event_changes : EventKind → List FilePath → List PathChange
  event_changes access paths = []
  event_changes kind paths = paths_changes kind paths

  abbrev pub report_changes : Reported → List PathChange
  report_changes none = []
  report_changes (some event) = event_changes event.kind event.paths

  abbrev pub changes_of : List Reported → List PathChange
  changes_of [] = []
  changes_of (event ∷ events) = report_changes event ++ changes_of events

  collect_path-state :
      (kind : EventKind) (scope : JjScope files) (batch : List PathChange)
      (broadcast : List TickEvent) (abs : FilePath)
      → collect_path files stat root_dir false kind (state scope batch broadcast) abs
        ≡ state scope (batch ++ path_changes kind abs) broadcast
  unfolding collect_path
  collect_path-state kind scope batch broadcast abs =
      elim (Option-cases (strip_base root_dir abs)) [
        | inl outside ↦
            rw (collect_path, path_changes, outside)
              (ap (λ b. state scope b broadcast) (sym (append-nil batch)))
        | inr (rel, inside) ↦ elim (Bool-cases (is_hidden r.ignores rel)) [
          | inl hidden ↦
              rw (collect_path, path_changes, inside, hidden)
                (ap (λ b. state scope b broadcast) (sym (append-nil batch)))
          | inr seen ↦ rw (collect_path, path_changes, inside, seen) refl
        ]
      ]

  collect_paths-state :
      (kind : EventKind) (scope : JjScope files) (broadcast : List TickEvent)
      (paths : List FilePath) (batch : List PathChange)
      → collect_paths files stat root_dir false kind (state scope batch broadcast) paths
        ≡ state scope (batch ++ paths_changes kind paths) broadcast
  unfolding collect_paths
  collect_paths-state kind scope broadcast [] batch =
      ap (λ b. state scope b broadcast) (sym (append-nil batch))
  collect_paths-state kind scope broadcast (abs ∷ paths) batch =
      ap (λ c. collect_paths files stat root_dir false kind c paths)
        (collect_path-state kind scope batch broadcast abs)
      ∙ collect_paths-state kind scope broadcast paths _
      ∙ ap (λ b. state scope b broadcast) (append_assoc batch _ _)

  unchanged :
      (scope : JjScope files) (batch : List PathChange) (broadcast : List TickEvent)
      → state scope batch broadcast ≡ state scope (batch ++ []) broadcast
  unchanged scope batch broadcast = ap (λ b. state scope b broadcast) (sym (append-nil batch))

  collect_kind-state :
      (kind : EventKind) (scope : JjScope files) (batch : List PathChange)
      (broadcast : List TickEvent) (paths : List FilePath)
      → collect_kind files stat root_dir false kind (state scope batch broadcast) paths
        ≡ state scope (batch ++ event_changes kind paths) broadcast
  collect_kind-state access scope batch broadcast paths = unchanged scope batch broadcast
  collect_kind-state removed scope batch broadcast paths =
      collect_paths-state removed scope broadcast paths batch
  collect_kind-state changed scope batch broadcast paths =
      collect_paths-state changed scope broadcast paths batch

  collect_event-state :
      (scope : JjScope files) (batch : List PathChange) (broadcast : List TickEvent)
      (event : Reported)
      → collect_event files stat root_dir false (state scope batch broadcast) event
        ≡ state scope (batch ++ report_changes event) broadcast
  unfolding collect_event dropped
  collect_event-state scope batch broadcast none =
      rw (invalidate_full r full) (unchanged scope batch broadcast)
  collect_event-state scope batch broadcast (some event) =
      let no_rescan : (event.need_rescan && r.jj_events) ≡ false = ground (arith, full) in
      rw no_rescan (collect_kind-state event.kind scope batch broadcast event.paths)

  collect_all-state :
      (scope : JjScope files) (broadcast : List TickEvent) (events : List Reported)
      (batch : List PathChange)
      → collect_all files stat root_dir false (state scope batch broadcast) events
        ≡ state scope (batch ++ changes_of events) broadcast
  unfolding collect_all
  collect_all-state scope broadcast [] batch = unchanged scope batch broadcast
  collect_all-state scope broadcast (event ∷ events) batch =
      ap (λ c. collect_all files stat root_dir false c events)
        (collect_event-state scope batch broadcast event)
      ∙ collect_all-state scope broadcast events _
      ∙ ap (λ b. state scope b broadcast) (append_assoc batch _ _)

  -- What a batch does to the index, also where nothing is to be done.
  shown-applied :
      (arena_bytes : ℕ) (scope : JjScope files) (changes : List PathChange) (j : FilePath)
      → r.clock.ticks + 1 < 2 ^ 64
      → shown (
          get
            (applied files stat root_dir arena_bytes (state scope changes []) changes).root.tree
            j)
        ≡ batch_shown (r.clock.ticks + 1) j (shown (get r.tree j)) changes
  unfolding apply_changes
  shown-applied arena_bytes scope [] j room = refl
  shown-applied arena_bytes scope (c ∷ changes) j room =
      let (tick, clock) = bump_lem r.clock room in
      rw (tick, full) (shown-apply_all (r.clock.ticks + 1) r.tree (c ∷ changes) j)

  pub settle-applied :
      (arena_bytes : ℕ) (scope : JjScope files) (events : List Reported)
      → settle files stat root_dir arena_bytes r scope events
        ≡ applied files stat root_dir arena_bytes
            (state scope (changes_of events) [])
            (changes_of events)
  unfolding settle
  settle-applied arena_bytes scope events =
      ap (λ c. applied files stat root_dir arena_bytes c c.batch)
        (subst
          (λ b.
            collect_all files stat root_dir b (state scope [] []) events
            ≡ state scope (changes_of events) [])
          (sym full) (collect_all-state scope [] events []))

  pub shown-changes_of :
      (arena_bytes : ℕ) (scope : JjScope files) (events : List Reported) (j : FilePath)
      → r.clock.ticks + 1 < 2 ^ 64
      → shown (get (settle files stat root_dir arena_bytes r scope events).root.tree j)
        ≡ batch_shown (r.clock.ticks + 1) j (shown (get r.tree j)) (changes_of events)
  shown-changes_of arena_bytes scope events j room =
      ap (λ c. shown (get c.root.tree j)) (settle-applied arena_bytes scope events)
      ∙ shown-applied arena_bytes scope (changes_of events) j room

  applied-full :
      (arena_bytes : ℕ) (scope : JjScope files) (changes : List PathChange)
      → IsCounted r.tree
      → let r' = (applied files stat root_dir arena_bytes (state scope changes []) changes).root in
        (r'.ignores ≡ r.ignores) × (r'.jj_events ≡ false) × IsCounted r'.tree
  unfolding apply_changes
  applied-full arena_bytes scope [] counted = (refl, full, counted)
  applied-full arena_bytes scope (c ∷ changes) counted =
      (refl, full, rw full (apply_all-IsCounted false _ r.tree (c ∷ changes) counted))

  -- The rules and the mode stay, and the counters stay exact.
  pub settle-full :
      (arena_bytes : ℕ) (scope : JjScope files) (events : List Reported)
      → IsCounted r.tree
      → let r' = (settle files stat root_dir arena_bytes r scope events).root in
        (r'.ignores ≡ r.ignores) × (r'.jj_events ≡ false) × IsCounted r'.tree
  settle-full arena_bytes scope events counted =
      rw (settle-applied arena_bytes scope events)
        (applied-full arena_bytes scope (changes_of events) counted)
