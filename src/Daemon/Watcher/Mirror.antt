-- ===== src/Daemon/Watcher/Mirror.antt =====
-- The index of a root in full mode against the disk: what the reports of the kernel keep.
use watchwoman.Base.{
  ℕ, ◌+◌, ◌^◌, ◌<◌, ◌≡◌, refl, sym, ap, ◌∙◌, true, false, Option, none, some, List, [], ◌∷◌, ◌++◌,
  inl, inr, Bool-cases, nat_eq, list_eq, ◌==◌, if◌then◌else◌,
}
use watchwoman.Base.Text.{Text, FilePath}
use watchwoman.Daemon.Entry.{Metadata, FileEntry, from_metadata}
use watchwoman.Daemon.Tree.{get}
use watchwoman.Daemon.Watch.{WatchIgnores}
use watchwoman.Daemon.Root.{Root}
use watchwoman.Daemon.JjScope.{IgnoreFiles, JjScope}
use watchwoman.Daemon.Watcher.{link_target}
use watchwoman.Daemon.Watcher.Events.{
  EventKind, access, removed, changed, is_removed, Reported, settle,
}
use watchwoman.Daemon.Watcher.Batch.{is_hidden}
use watchwoman.Daemon.Watcher.Shown.{as_stat, shown}
use watchwoman.Daemon.Watcher.Settled.{
  latest, told_path, told_paths, told_kind, told_event, told, settle-shown,
}

-- What `symlink_metadata` and `read_link` say of absolute paths.
abbrev pub Disk : Type 0
Disk = FilePath → Option (Metadata × Option Text)

-- An entry without its ticks.
abbrev pub timeless : FileEntry → FileEntry
timeless e = record (as_stat e) { oclock = 0 }

abbrev pub content : Option FileEntry → Option FileEntry
content none = none
content (some e) = some (timeless e)

abbrev pub on_disk : Option (Metadata × Option Text) → Option FileEntry
on_disk none = none
on_disk (some (metadata, link)) =
    some (timeless (from_metadata metadata (link_target metadata link) 0))

-- At every path that the rules let through the index shows what the disk has.
abbrev pub IsMirror : Disk → FilePath → Root → Type 0
IsMirror stat root_dir r =
    (j : FilePath)
    → is_hidden r.ignores j ≡ false
    → content (shown (get r.tree j)) ≡ on_disk (stat (root_dir ++ j))

-- The kind of the last event that names a path, if one does.
module _ (path : FilePath) where
  abbrev last_paths : EventKind → Option EventKind → List FilePath → Option EventKind
  last_paths kind k [] = k
  last_paths kind k (abs ∷ paths) = last_paths kind (if abs == path then some kind else k) paths

  abbrev last_kind : EventKind → Option EventKind → List FilePath → Option EventKind
  last_kind access k paths = k
  last_kind kind k paths = last_paths kind k paths

  abbrev last_event : Option EventKind → Reported → Option EventKind
  last_event k none = k
  last_event k (some event) = last_kind event.kind k event.paths

  abbrev pub last_of : Option EventKind → List Reported → Option EventKind
  last_of k [] = k
  last_of k (event ∷ events) = last_of (last_event k event) events

-- A path that no event names is as it was, and one whose last event is a removal is gone.
abbrev pub Explains : Disk → Disk → FilePath → Option EventKind → Type 0
Explains before after path none = after path ≡ before path
Explains before after path (some kind) = is_removed kind ≡ true → after path ≡ none

-- The events tell of all that changed on the disk, where the rules let it through.
abbrev pub IsReported : Disk → Disk → FilePath → WatchIgnores → List Reported → Type 0
IsReported before after root_dir ignores events =
    (j : FilePath)
    → is_hidden ignores j ≡ false
    → Explains before after (root_dir ++ j) (last_of (root_dir ++ j) none events)

module _ (stat : Disk) (root_dir : FilePath) (r : Root) (j : FilePath)
    (seen : is_hidden r.ignores j ≡ false) where
  abbrev pick : Option FileEntry → Option EventKind → Option FileEntry
  pick v none = v
  pick v (some kind) = latest stat root_dir r j kind

  pick-path :
      (kind : EventKind) (v : Option FileEntry) (k : Option EventKind) (abs : FilePath)
      → told_path stat root_dir r j kind (pick v k) abs
        ≡ pick v (if abs == root_dir ++ j then some kind else k)
  pick-path kind v k abs = elim (Bool-cases (abs == root_dir ++ j)) [
    | inl here ↦ rw (told_path, here, seen) refl
    | inr other ↦ rw (told_path, other) refl
  ]

  pick-paths :
      (kind : EventKind) (v : Option FileEntry) (paths : List FilePath) (k : Option EventKind)
      → told_paths stat root_dir r j kind (pick v k) paths
        ≡ pick v (last_paths (root_dir ++ j) kind k paths)
  pick-paths kind v [] k = refl
  pick-paths kind v (abs ∷ paths) k =
      ap (λ w. told_paths stat root_dir r j kind w paths) (pick-path kind v k abs)
      ∙ pick-paths kind v paths _

  pick-kind :
      (kind : EventKind) (v : Option FileEntry) (paths : List FilePath) (k : Option EventKind)
      → told_kind stat root_dir r j kind (pick v k) paths
        ≡ pick v (last_kind (root_dir ++ j) kind k paths)
  pick-kind access v paths k = refl
  pick-kind removed v paths k = pick-paths removed v paths k
  pick-kind changed v paths k = pick-paths changed v paths k

  pick-event :
      (v : Option FileEntry) (event : Reported) (k : Option EventKind)
      → told_event stat root_dir r j (pick v k) event ≡ pick v (last_event (root_dir ++ j) k event)
  pick-event v none k = refl
  pick-event v (some event) k = pick-kind event.kind v event.paths k

  pick-told :
      (v : Option FileEntry) (events : List Reported) (k : Option EventKind)
      → told stat root_dir r j (pick v k) events ≡ pick v (last_of (root_dir ++ j) k events)
  pick-told v [] k = refl
  pick-told v (event ∷ events) k =
      ap (λ w. told stat root_dir r j w events) (pick-event v event k) ∙ pick-told v events _

  content-seen :
      (o : Option (Metadata × Option Text))
      → content (elim o [
        | none ↦ none
        | some (metadata, link) ↦
            some (as_stat (from_metadata metadata (link_target metadata link) (r.clock.ticks + 1)))
      ])
        ≡ on_disk o
  unfolding from_metadata
  content-seen none = refl
  content-seen (some (metadata, link)) = refl

  content-latest :
      (kind : EventKind)
      → (is_removed kind ≡ true → stat (root_dir ++ j) ≡ none)
      → content (latest stat root_dir r j kind) ≡ on_disk (stat (root_dir ++ j))
  content-latest removed gone = rw (gone refl) refl
  content-latest access gone = content-seen (stat (root_dir ++ j))
  content-latest changed gone = content-seen (stat (root_dir ++ j))

  content-pick :
      (before : Disk) (v : Option FileEntry) (k : Option EventKind)
      → content v ≡ on_disk (before (root_dir ++ j))
      → Explains before stat (root_dir ++ j) k
      → content (pick v k) ≡ on_disk (stat (root_dir ++ j))
  content-pick before v none same kept = same ∙ ap on_disk (sym kept)
  content-pick before v (some kind) same gone = content-latest kind gone

module _ (files : IgnoreFiles) (root_dir : FilePath) where
  -- A batch of reports that tells of all that changed keeps the index a mirror of the disk.
  pub settle-IsMirror :
      (before stat : Disk) (r : Root) (arena_bytes : ℕ) (scope : JjScope files)
      (events : List Reported)
      → r.jj_events ≡ false
      → r.clock.ticks + 1 < 2 ^ 64
      → IsMirror before root_dir r
      → IsReported before stat root_dir r.ignores events
      → (j : FilePath) → is_hidden r.ignores j ≡ false
      → content (shown (get (settle files stat root_dir arena_bytes r scope events).root.tree j))
        ≡ on_disk (stat (root_dir ++ j))
  settle-IsMirror before stat r arena_bytes scope events full room mirror reported j seen =
      ap content (settle-shown files stat root_dir r full j arena_bytes scope events room)
      ∙ ap content (pick-told stat root_dir r j seen (shown (get r.tree j)) events none)
      ∙ content-pick stat root_dir r j seen before (shown (get r.tree j))
          (last_of (root_dir ++ j) none events) (mirror j seen) (reported j seen)
