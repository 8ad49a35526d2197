-- ===== src/Daemon/Root.antt =====
-- crates/watchwoman/src/daemon/root.rs: the state of one watched root, and its operations. A clock
-- or a scan of the disk that the source asks for, and the size that the arena reports, are arguments;
-- an event that it broadcasts is a result. What is written to disk of the triggers is in
-- Daemon/Persisted.antt.
pub mod Frame
pub mod Direct
pub mod Visible
pub mod Cursors
pub mod Invariant
pub mod Steps
pub mod Recent
pub mod Examples
use watchwoman.Base.{
  ℕ, ◌+◌, ◌-◌, ◌*◌, ◌%◌, ◌^◌, Bool, true, false, ◌&&◌, ◌||◌, not, Option, none, some, List, [], ◌∷◌,
  ltb, leb, nat_eq, list_eq, if◌then◌else◌, length, is_some,
}
use watchwoman.Base.Map
use watchwoman.Base.Text.{Text, FilePath}
use watchwoman.Daemon.Clock
use watchwoman.Daemon.Clock.{Clock, bump, current_string}
use watchwoman.Daemon.Watch.{TickEvent, SubscriptionSpec, Trigger, WatchIgnores}
use watchwoman.Daemon.Entry.{Metadata, FileEntry}
use watchwoman.Daemon.Tree
use watchwoman.Daemon.Tree.{Tree, mark_gone, record_gone, record_signal, prune_tombstones_before}

pub record Root : Type 0 where
  pub path : Text
  pub clock : Clock
  pub tree : Tree
  pub asserted_states : List Text
  pub ignores : WatchIgnores
  pub jj_events : Bool
  pub oldest_available_tick : ℕ
  pub subscriptions : List (Text × SubscriptionSpec)
  pub triggers : List (Text × Trigger)
  pub cursors : List (Text × ℕ)
  pub registered_at : ℕ
  pub last_used : ℕ
  pub missing_ticks : ℕ

pub data PathChange : Type 0 where
  upsert : FilePath → Metadata → Option Text → PathChange
  remove : FilePath → PathChange
  signal : FilePath → PathChange

-- `now` is `unix_now()`.
unfoldable pub new : Text → ℕ → WatchIgnores → Bool → ℕ → ℕ → Root
new path root_number ignores jj_events now process_id = record {
  path = path;
  clock = Clock.new root_number now process_id;
  tree = Tree.new;
  asserted_states = [];
  ignores = ignores;
  jj_events = jj_events;
  oldest_available_tick = 0;
  subscriptions = [];
  triggers = [];
  cursors = [];
  registered_at = now;
  last_used = now;
  missing_ticks = 0;
}

unfoldable pub touch : Root → ℕ → Root
touch r now = record r { last_used = now }

abbrev pub idle_seconds : Root → ℕ → ℕ
idle_seconds r now = now - r.last_used

-- With the new count, a u32.
unfoldable pub mark_missing : Root → Root × ℕ
mark_missing r =
    let misses = (r.missing_ticks + 1) % 2 ^ 32 in (record r { missing_ticks = misses }, misses)

unfoldable pub mark_present : Root → Root
mark_present r = record r { missing_ticks = 0 }

abbrev pub subscription_count : Root → ℕ
subscription_count r = length r.subscriptions

abbrev pub trigger_count : Root → ℕ
trigger_count r = length r.triggers

-- What `initial_scan` returns for a path.
abbrev pub Scanned : Type 0
Scanned = FilePath × Metadata × Option Text

unfoldable pub upsert_all : ℕ → Tree → List Scanned → Tree
upsert_all tick t [] = t
upsert_all tick t ((rel, metadata, target) ∷ entries) =
    upsert_all tick (Tree.upsert t rel metadata target tick false tick) entries

unfoldable pub promote_to_full : Root → List Scanned → Root
promote_to_full r entries =
    if not r.jj_events
    then r
    else let (clock, tick) = bump r.clock in
      record r {
        clock = clock;
        tree = upsert_all tick Tree.new entries;
        oldest_available_tick = tick;
        jj_events = false;
      }

abbrev pub min_tick : ℕ → ℕ → ℕ
min_tick a b = if leb a b then a else b

-- The loop over the cursors.
unfoldable pub watermark_of : ℕ → List (Text × ℕ) → ℕ
watermark_of watermark [] = watermark
watermark_of watermark ((name, t) ∷ cursors) = watermark_of (min_tick watermark t) cursors

-- With the watermark and the number of entries removed.
unfoldable pub prune_tombstones : Root → Root × ℕ × ℕ
prune_tombstones r =
    if r.jj_events
    then (r, r.clock.ticks, 0)
    else let watermark = watermark_of r.clock.ticks r.cursors in
      let (tree, removed) = prune_tombstones_before r.tree watermark in
      (record r { tree = tree }, watermark, removed)

-- With the event that is broadcast, if the event index was dropped.
unfoldable pub invalidate_jj_events : Root → Root × Option TickEvent
invalidate_jj_events r =
    if not r.jj_events
    then (r, none)
    else let (clock, tick) = bump r.clock in
      (
        record r { clock = clock; tree = Tree.new; oldest_available_tick = tick },
        some (record { tick = tick; changed = [] }),
      )

abbrev tick_or_zero : Option ℕ → ℕ
tick_or_zero none = 0
tick_or_zero (some t) = t

unfoldable pub cursor_tick : Root → Text → ℕ
cursor_tick r name = tick_or_zero (Map.get r.cursors name)

unfoldable pub set_cursor : Root → Text → ℕ → Root
set_cursor r name tick = record r { cursors = Map.insert r.cursors name tick }

unfoldable pub install_trigger : Root → Trigger → Root
install_trigger r t = record r { triggers = Map.insert r.triggers t.name t }

unfoldable pub remove_trigger : Root → Text → Root × Bool
remove_trigger r name =
    (record r { triggers = Map.remove r.triggers name }, is_some (Map.get r.triggers name))

unfoldable pub add_subscription : Root → SubscriptionSpec → Root
add_subscription r spec = record r { subscriptions = Map.insert r.subscriptions spec.name spec }

unfoldable pub remove_subscription : Root → Text → Root × Bool
remove_subscription r name = (
  record r { subscriptions = Map.remove r.subscriptions name },
  is_some (Map.get r.subscriptions name),
)

abbrev pub changed_path : PathChange → FilePath
changed_path (upsert rel metadata target) = rel
changed_path (remove rel) = rel
changed_path (signal rel) = rel

-- Whether a path is new to the index, and the tick at which it was first seen.
abbrev pub first_seen : Option FileEntry → ℕ → Bool × ℕ
first_seen none tick = (true, tick)
first_seen (some e) tick = (false, e.cclock)

unfoldable pub apply_change : Bool → ℕ → Tree → PathChange → Tree
apply_change jj_events tick t (upsert rel metadata target) =
    let (fresh, cclock) = first_seen (Tree.get t rel) tick in
    Tree.upsert t rel metadata target tick fresh cclock
apply_change jj_events tick t (remove rel) =
    if jj_events then record_gone t rel tick else mark_gone t rel tick
apply_change jj_events tick t (signal rel) = record_signal t rel tick

unfoldable pub apply_all : Bool → ℕ → Tree → List PathChange → Tree
apply_all jj_events tick t [] = t
apply_all jj_events tick t (c ∷ changes) =
    apply_all jj_events tick (apply_change jj_events tick t c) changes

unfoldable pub changed_paths : List PathChange → List FilePath
changed_paths [] = []
changed_paths (c ∷ changes) = changed_path c ∷ changed_paths changes

abbrev pub jj_event_index_max_entries : ℕ
jj_event_index_max_entries = 65_536

abbrev pub jj_event_index_max_arena_bytes : ℕ
jj_event_index_max_arena_bytes = 64 * 1024 * 1024

-- Whether the event index is over a cap, and starts again.
abbrev pub is_over_cap : Root → ℕ → Bool
is_over_cap r arena_bytes =
    r.jj_events
    && (leb jj_event_index_max_entries (Tree.len r.tree)
        || leb jj_event_index_max_arena_bytes arena_bytes)

-- With the event that is broadcast; its tick is the one returned.
unfoldable pub apply_changes : Root → ℕ → List PathChange → Root × TickEvent
apply_changes r arena_bytes changes =
    let (clock, tick) = bump r.clock in
    let reset = is_over_cap r arena_bytes in
    (
      record r {
        clock = clock;
        tree = apply_all r.jj_events tick (if reset then Tree.new else r.tree) changes;
        oldest_available_tick = if reset then tick else r.oldest_available_tick;
      },
      record { tick = tick; changed = changed_paths changes },
    )

-- With the tick of the scan.
unfoldable pub seed : Root → List Scanned → Root × ℕ
seed r entries =
    let (clock, tick) = bump r.clock in
    (record r { clock = clock; tree = upsert_all tick Tree.new entries }, tick)

abbrev pub clock_string : Root → Text
clock_string r = current_string r.clock
