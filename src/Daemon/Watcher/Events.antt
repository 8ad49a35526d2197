-- ===== src/Daemon/Watcher/Events.antt =====
-- crates/watchwoman/src/daemon/watcher.rs: what becomes of the events that the library notify reports,
-- in batches. An absolute path is the names from the top of the file system.
use watchwoman.Base.{
  ℕ, Bool, true, false, ◌&&◌, ◌||◌, not, Option, none, some, List, [], ◌∷◌, ◌++◌, ◌==◌, nat_eq,
  list_eq, if◌then◌else◌, is_some,
}
use watchwoman.Base.Text.{Text, FilePath, ascii}
use watchwoman.Daemon.Entry.{Metadata}
use watchwoman.Daemon.Watch.{WatchIgnores, TickEvent}
use watchwoman.Daemon.Root.{
  Root, PathChange, upsert, remove, signal, invalidate_jj_events, apply_changes,
}
use watchwoman.Daemon.JjScope.{IgnoreFiles, JjScope, ignored_directory}
use watchwoman.Daemon.JjScope
use watchwoman.Daemon.Watcher.{link_target, should_ignore, is_jj_internal}
use watchwoman.Query.Paths.{strip_base, file_name}

-- The kinds of `notify::EventKind` that the source tells apart; `access` is one that is not a close after
-- writing.
pub data EventKind : Type 0 where
  access removed changed : EventKind

pub record Event : Type 0 where
  pub kind : EventKind
  pub need_rescan : Bool
  pub paths : List FilePath

-- `notify::Result<Event>`: none is an error.
abbrev pub Reported : Type 0
Reported = Option Event

abbrev pub is_removed : EventKind → Bool
is_removed removed = true
is_removed _ = false

-- What the task has: the root, the ignore files it has read, the batch, and what the root broadcast.
pub record Collected (files : IgnoreFiles) : Type 0 where
  pub root : Root
  pub scope : JjScope files
  pub batch : List PathChange
  pub broadcast : List TickEvent

-- `symlink_metadata` and `read_link` of a path, at the time of the batch, and the path of the root.
module _ (files : IgnoreFiles) (stat : FilePath → Option (Metadata × Option Text))
    (root_dir : FilePath) where
  abbrev broadcast_of : Option TickEvent → List TickEvent
  broadcast_of none = []
  broadcast_of (some ev) = ev ∷ []

  -- Where the event index was dropped, so are the ignore files and the batch.
  unfoldable pub dropped : Collected files → Collected files
  dropped c =
      let (root, event) = invalidate_jj_events c.root in
      if is_some event
      then record {
        root = root;
        scope = JjScope.clear files c.scope;
        batch = [];
        broadcast = c.broadcast ++ broadcast_of event;
      }
      else record c { root = root }

  -- A `.gitignore` changed: the ignore files and the batch are dropped in any case.
  unfoldable pub restarted : Collected files → Collected files
  restarted c =
      let (root, event) = invalidate_jj_events c.root in
      record {
        root = root;
        scope = JjScope.clear files c.scope;
        batch = [];
        broadcast = c.broadcast ++ broadcast_of event;
      }

  abbrev pub push : Collected files → PathChange → Collected files
  push c change = record c { batch = c.batch ++ change ∷ [] }

  -- Gone where there is nothing to stat.
  unfoldable pub change_of : EventKind → FilePath → FilePath → PathChange
  change_of kind abs rel = if is_removed kind then remove rel else elim (stat abs) [
    | none ↦ remove rel
    | some (metadata, link) ↦ upsert rel metadata (link_target metadata link)
  ]

  abbrev is_dir_at : Option (Metadata × Option Text) → Bool
  is_dir_at none = false
  is_dir_at (some (metadata, link)) = metadata.is_dir

  abbrev is_gitignore : Option Text → Bool
  is_gitignore none = false
  is_gitignore (some name) = name == ascii ".gitignore"

  -- A path below an ignored directory stands for that directory's ignore file.
  abbrev pub signalled : Collected files → EventKind → FilePath → FilePath → Collected files
  signalled c kind rel ignored =
      let change = signal (ignored ++ ascii ".gitignore" ∷ []) in
      if ignored == rel && is_removed kind then push (push c (remove rel)) change else push c change

  abbrev pub collect_plain :
      Bool → Collected files → EventKind → FilePath → FilePath → Collected files
  collect_plain jj_mode c kind abs rel =
      if jj_mode && is_gitignore (file_name rel)
      then restarted c
      else push c (change_of kind abs rel)

  abbrev pub collect_jj : Collected files → EventKind → FilePath → FilePath → Collected files
  collect_jj c kind abs rel =
      let is_dir = is_dir_at (stat abs) || is_removed kind in
      let (scope, found) = ignored_directory files root_dir is_dir c.scope rel in
      let seen : Collected files = record c { scope = scope } in
      elim found [
        | some ignored ↦ signalled seen kind rel ignored
        | none ↦ collect_plain true seen kind abs rel
      ]

  abbrev pub is_outside : Bool → WatchIgnores → FilePath → Bool
  is_outside jj_mode ignores rel =
      rel == [] || (jj_mode && is_jj_internal rel || not jj_mode && should_ignore ignores rel)

  -- The body of the loop over an event's paths.
  unfoldable pub collect_path : Bool → EventKind → Collected files → FilePath → Collected files
  collect_path jj_mode kind c abs = elim (strip_base root_dir abs) [
    | none ↦ c
    | some rel ↦
        if is_outside jj_mode c.root.ignores rel
        then c
        else if jj_mode
        then collect_jj c kind abs rel
        else collect_plain false c kind abs rel
  ]

  unfoldable pub collect_paths :
      Bool → EventKind → Collected files → List FilePath → Collected files
  collect_paths jj_mode kind c [] = c
  collect_paths jj_mode kind c (abs ∷ paths) =
      collect_paths jj_mode kind (collect_path jj_mode kind c abs) paths

  abbrev pub collect_kind : Bool → EventKind → Collected files → List FilePath → Collected files
  collect_kind jj_mode access c paths = c
  collect_kind jj_mode kind c paths = collect_paths jj_mode kind c paths

  -- A rescan drops an event index, and nothing else.
  unfoldable pub collect_event : Bool → Collected files → Reported → Collected files
  collect_event jj_mode c none = dropped c
  collect_event jj_mode c (some event) =
      if event.need_rescan && c.root.jj_events
      then dropped c
      else collect_kind jj_mode event.kind c event.paths

  unfoldable pub collect_all : Bool → Collected files → List Reported → Collected files
  collect_all jj_mode c [] = c
  collect_all jj_mode c (event ∷ events) =
      collect_all jj_mode (collect_event jj_mode c event) events

  abbrev pub applied : ℕ → Collected files → List PathChange → Collected files
  applied arena_bytes c [] = c
  applied arena_bytes c (change ∷ changes) =
      let (root, event) = apply_changes c.root arena_bytes (change ∷ changes) in
      record c { root = root; batch = []; broadcast = c.broadcast ++ event ∷ [] }

  -- What the task does with the events that settled.
  unfoldable pub settle : ℕ → Root → JjScope files → List Reported → Collected files
  settle arena_bytes root scope events =
      let c =
        collect_all root.jj_events
          (record { root = root; scope = scope; batch = []; broadcast = [] }) events in
      applied arena_bytes c c.batch
