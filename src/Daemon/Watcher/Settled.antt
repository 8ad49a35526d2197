-- ===== src/Daemon/Watcher/Settled.antt =====
-- What the index of a root in full mode shows after a batch of reports.
use watchwoman.Base.{
  ℕ, ◌+◌, ◌^◌, ◌<◌, ◌≡◌, refl, ap, ◌∙◌, subst, true, false, ◌&&◌, not, Option, none, some, List, [],
  ◌∷◌, ◌++◌, arith, inl, inr, Bool-cases, Option-cases, nat_eq, list_eq, ◌==◌, eq_iff, eq_refl,
  if◌then◌else◌,
}
use watchwoman.Base.Text.{Text, FilePath}
use watchwoman.Daemon.Entry.{Metadata, FileEntry, from_metadata}
use watchwoman.Daemon.Tree.{get}
use watchwoman.Daemon.Root.{Root, changed_path}
use watchwoman.Daemon.JjScope.{IgnoreFiles, JjScope}
use watchwoman.Query.Paths.{strip_base}
use watchwoman.Daemon.Watcher.{link_target}
use watchwoman.Daemon.Watcher.Events.{
  EventKind, access, removed, changed, is_removed, Reported, change_of, settle,
}
use watchwoman.Daemon.Watcher.Batch.{
  is_hidden, path_changes, paths_changes, event_changes, report_changes, changes_of,
  shown-changes_of,
}
use watchwoman.Daemon.Watcher.Shown.{as_stat, shown, change_shown, batch_shown, batch_shown-append}

-- What is left of a path below another is what the other is put in front of.
pub strip_base-append : (base rel : FilePath) → strip_base base (base ++ rel) ≡ some rel
unfolding strip_base
strip_base-append [] rel = refl
strip_base-append (b ∷ base) rel = rw (eq_refl b) (strip_base-append base rel)

pub strip_base-some : (base abs rel : FilePath) → strip_base base abs ≡ some rel → abs ≡ base ++ rel
unfolding strip_base
strip_base-some [] abs rel h = cc
strip_base-some (b ∷ base) [] rel h = cc
strip_base-some (b ∷ base) (c ∷ abs) rel h =
    ground (arith, strip_base-some base abs rel, eq_iff b c)

-- What a batch of reports says of a path: that of the last event that names it, or what was there.
module _ (stat : FilePath → Option (Metadata × Option Text)) (root_dir : FilePath) (r : Root)
    (j : FilePath) where
  abbrev pub latest : EventKind → Option FileEntry
  latest kind = if is_removed kind then none else elim (stat (root_dir ++ j)) [
    | none ↦ none
    | some (metadata, link) ↦
        some (as_stat (from_metadata metadata (link_target metadata link) (r.clock.ticks + 1)))
  ]

  abbrev pub told_path : EventKind → Option FileEntry → FilePath → Option FileEntry
  told_path kind v abs =
      if abs == root_dir ++ j && not (is_hidden r.ignores j) then latest kind else v

  abbrev pub told_paths : EventKind → Option FileEntry → List FilePath → Option FileEntry
  told_paths kind v [] = v
  told_paths kind v (abs ∷ paths) = told_paths kind (told_path kind v abs) paths

  abbrev pub told_kind : EventKind → Option FileEntry → List FilePath → Option FileEntry
  told_kind access v paths = v
  told_kind kind v paths = told_paths kind v paths

  abbrev pub told_event : Option FileEntry → Reported → Option FileEntry
  told_event v none = v
  told_event v (some event) = told_kind event.kind v event.paths

  abbrev pub told : Option FileEntry → List Reported → Option FileEntry
  told v [] = v
  told v (event ∷ events) = told (told_event v event) events

module _ (files : IgnoreFiles) (stat : FilePath → Option (Metadata × Option Text))
    (root_dir : FilePath) (r : Root) (full : r.jj_events ≡ false) (j : FilePath) where
  changed_path-change_of :
      (kind : EventKind) (abs rel : FilePath)
      → changed_path (change_of files stat root_dir kind abs rel) ≡ rel
  unfolding change_of
  changed_path-change_of removed abs rel = refl
  changed_path-change_of access abs rel = elim (Option-cases (stat abs)) [
    | inl none' ↦ rw (change_of, none') refl
    | inr (found, there) ↦ rw (change_of, there) refl
  ]
  changed_path-change_of changed abs rel = elim (Option-cases (stat abs)) [
    | inl none' ↦ rw (change_of, none') refl
    | inr (found, there) ↦ rw (change_of, there) refl
  ]

  change_of-latest :
      (kind : EventKind)
      → change_shown (r.clock.ticks + 1) (change_of files stat root_dir kind (root_dir ++ j) j)
        ≡ latest stat root_dir r j kind
  unfolding change_of
  change_of-latest removed = refl
  change_of-latest access = elim (Option-cases (stat (root_dir ++ j))) [
    | inl none' ↦ rw (change_of, latest, none') refl
    | inr (found, there) ↦ rw (change_of, latest, there) refl
  ]
  change_of-latest changed = elim (Option-cases (stat (root_dir ++ j))) [
    | inl none' ↦ rw (change_of, latest, none') refl
    | inr (found, there) ↦ rw (change_of, latest, there) refl
  ]

  outside_path : (abs : FilePath) → strip_base root_dir abs ≡ none → (abs == root_dir ++ j) ≡ false
  outside_path abs h = ground (arith, h, eq_iff abs (root_dir ++ j), strip_base-append root_dir j)

  inside_path :
      (abs rel : FilePath)
      → strip_base root_dir abs ≡ some rel
      → (abs == root_dir ++ j) ≡ (rel == j)
  inside_path abs rel h = ground (
    arith,
    h,
    eq_iff abs (root_dir ++ j),
    eq_iff rel j,
    strip_base-append root_dir j,
    strip_base-some root_dir abs rel h,
  )

  path_shown :
      (kind : EventKind) (v : Option FileEntry) (abs : FilePath)
      → strip_base root_dir abs ≡ some j
      → batch_shown (r.clock.ticks + 1) j v (path_changes files stat root_dir r full kind abs)
        ≡ told_path stat root_dir r j kind v abs
  path_shown kind v abs inside =
      let here : abs ≡ root_dir ++ j = strip_base-some root_dir abs j inside in
      let named : (abs == root_dir ++ j) ≡ true = (eq_iff abs (root_dir ++ j)).1 here in
      elim (Bool-cases (is_hidden r.ignores j)) [
        | inl hidden ↦ rw (path_changes, inside, hidden, named, told_path) refl
        | inr seen ↦
            rw
              (
                path_changes,
                inside,
                seen,
                named,
                told_path,
                changed_path-change_of kind abs j,
                eq_refl j,
              )
              (ap (λ a. change_shown (r.clock.ticks + 1) (change_of files stat root_dir kind a j))
                  here
                ∙ change_of-latest kind)
      ]

  batch_shown-path_changes :
      (kind : EventKind) (v : Option FileEntry) (abs : FilePath)
      → batch_shown (r.clock.ticks + 1) j v (path_changes files stat root_dir r full kind abs)
        ≡ told_path stat root_dir r j kind v abs
  batch_shown-path_changes kind v abs = elim (Option-cases (strip_base root_dir abs)) [
    | inl outside ↦ rw (path_changes, outside, outside_path abs outside) refl
    | inr (rel, inside) ↦
        let same = inside_path abs rel inside in
        elim (Bool-cases (rel == j)) [
          | inr other ↦ elim (Bool-cases (is_hidden r.ignores rel)) [
            | inl hidden ↦ rw (path_changes, inside, hidden, same, other) refl
            | inr seen ↦
                rw (path_changes, inside, seen, changed_path-change_of kind abs rel, same, other)
                  refl
          ]
          | inl here ↦
              path_shown kind v abs
                (subst (λ k. strip_base root_dir abs ≡ some k) ((eq_iff rel j).0 here) inside)
        ]
  ]

  batch_shown-paths_changes :
      (kind : EventKind) (paths : List FilePath) (v : Option FileEntry)
      → batch_shown (r.clock.ticks + 1) j v (paths_changes files stat root_dir r full kind paths)
        ≡ told_paths stat root_dir r j kind v paths
  batch_shown-paths_changes kind [] v = refl
  batch_shown-paths_changes kind (abs ∷ paths) v =
      batch_shown-append (r.clock.ticks + 1) j (path_changes files stat root_dir r full kind abs)
        (paths_changes files stat root_dir r full kind paths) v
      ∙ batch_shown-paths_changes kind paths _
      ∙ ap (λ w. told_paths stat root_dir r j kind w paths) (batch_shown-path_changes kind v abs)

  batch_shown-event_changes :
      (kind : EventKind) (paths : List FilePath) (v : Option FileEntry)
      → batch_shown (r.clock.ticks + 1) j v (event_changes files stat root_dir r full kind paths)
        ≡ told_kind stat root_dir r j kind v paths
  batch_shown-event_changes access paths v = refl
  batch_shown-event_changes removed paths v = batch_shown-paths_changes removed paths v
  batch_shown-event_changes changed paths v = batch_shown-paths_changes changed paths v

  batch_shown-report_changes :
      (event : Reported) (v : Option FileEntry)
      → batch_shown (r.clock.ticks + 1) j v (report_changes files stat root_dir r full event)
        ≡ told_event stat root_dir r j v event
  batch_shown-report_changes none v = refl
  batch_shown-report_changes (some event) v = batch_shown-event_changes event.kind event.paths v

  batch_shown-changes_of :
      (events : List Reported) (v : Option FileEntry)
      → batch_shown (r.clock.ticks + 1) j v (changes_of files stat root_dir r full events)
        ≡ told stat root_dir r j v events
  batch_shown-changes_of [] v = refl
  batch_shown-changes_of (event ∷ events) v =
      batch_shown-append (r.clock.ticks + 1) j (report_changes files stat root_dir r full event)
        (changes_of files stat root_dir r full events) v
      ∙ batch_shown-changes_of events _
      ∙ ap (λ w. told stat root_dir r j w events) (batch_shown-report_changes event v)

  -- After a batch of reports about a root in full mode, whose clock is below the last u64, the
  -- index shows at a path that the ignore rules let through what the disk had there if the last
  -- event that names the path was no removal, nothing if it was one, and at every other path what
  -- it showed before; an error, a rescan or a mere access names nothing.
  pub settle-shown :
      (arena_bytes : ℕ) (scope : JjScope files) (events : List Reported)
      → r.clock.ticks + 1 < 2 ^ 64
      → shown (get (settle files stat root_dir arena_bytes r scope events).root.tree j)
        ≡ told stat root_dir r j (shown (get r.tree j)) events
  settle-shown arena_bytes scope events room =
      shown-changes_of files stat root_dir r full arena_bytes scope events j room
      ∙ batch_shown-changes_of events (shown (get r.tree j))
