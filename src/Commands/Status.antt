-- ===== src/Commands/Status.antt =====
-- crates/watchwoman/src/commands/info.rs: the report on the daemon's roots and its memory.
use watchwoman.Base.{
  ℕ, ◌+◌, ◌-◌, ◌*◌, ◌/◌, ◌%◌, ◌^◌, min, Bool, Option, none, some, List, [], ◌∷◌, nat_eq, list_eq,
  if◌then◌else◌,
}
use watchwoman.Base.Int.{pos_part}
use watchwoman.Base.Text.{Text, ascii}
use watchwoman.Protocol.Value.{
  Value, Items, Fields, bool, string, array, object, no_items, item, no_fields, insert_field,
}
use watchwoman.Daemon.Tree
use watchwoman.Daemon.Root.{Root, subscription_count, trigger_count, idle_seconds, clock_string}
use watchwoman.Daemon.State.{DaemonState, ReapEvent, reason_str}
use watchwoman.Query.Field.{int_of}
use watchwoman.Query.Run.{watchman_compat_version}
use watchwoman.Commands.Outcome.{CommandResult, obj, obj_from, text_value}
use watchwoman.Commands.Info.{TimeVal, Process, health_of, health_str, done_obj}

abbrev pub u64_max : ℕ
u64_max = 2 ^ 64 - 1

abbrev pub saturating_add : ℕ → ℕ → ℕ
saturating_add a b = min u64_max (a + b)

abbrev mode_name : Root → Text
mode_name r = if r.jj_events then ascii "jj-events" else ascii "full"

unfoldable pub root_report : Process → ℕ → ℕ → (Text → Bool) → Text → Root → Value
root_report process stale_secs now is_dir path r = obj (
    (ascii "path", text_value path)
    ∷ (ascii "num_files", int_of (Tree.len r.tree))
    ∷ (ascii "live_files", int_of r.tree.live)
    ∷ (ascii "tombstones", int_of r.tree.tombstones)
    ∷ (ascii "tree_bytes_est", int_of (process.arena_bytes path))
    ∷ (ascii "index_mode", string (mode_name r))
    ∷ (ascii "clock", string (clock_string r))
    ∷ (ascii "subscriptions", int_of (subscription_count r))
    ∷ (ascii "triggers", int_of (trigger_count r))
    ∷ (ascii "idle_seconds", int_of (idle_seconds r now))
    ∷ (ascii "registered_at_unix", int_of r.registered_at)
    ∷ (ascii "exists", bool (is_dir path))
    ∷ (ascii "missing_ticks", int_of r.missing_ticks)
    ∷ (ascii "health", string (health_str (health_of stale_secs now (is_dir path) r)))
    ∷ [])

-- What the loop over the roots adds up.
pub record Totals : Type 0 where
  pub files : ℕ
  pub live : ℕ
  pub tombstones : ℕ
  pub subs : ℕ
  pub triggers : ℕ
  pub tree_bytes : ℕ
  pub reports : Items

abbrev pub no_totals : Totals
no_totals = record {
  files = 0;
  live = 0;
  tombstones = 0;
  subs = 0;
  triggers = 0;
  tree_bytes = 0;
  reports = no_items;
}

abbrev push_item : Items → Value → Items
push_item no_items v = item v no_items
push_item (item w vs) v = item w (push_item vs v)

unfoldable pub total : Process → ℕ → ℕ → (Text → Bool) → Totals → List (Text × Root) → Totals
total process stale_secs now is_dir t [] = t
total process stale_secs now is_dir t ((path, r) ∷ roots) =
    total process stale_secs now is_dir
      (record {
        files = t.files + Tree.len r.tree;
        live = t.live + r.tree.live;
        tombstones = t.tombstones + r.tree.tombstones;
        subs = t.subs + subscription_count r;
        triggers = t.triggers + trigger_count r;
        tree_bytes = saturating_add t.tree_bytes (process.arena_bytes path);
        reports = push_item t.reports (root_report process stale_secs now is_dir path r);
      })
      roots

abbrev or_zero : Option ℕ → ℕ
or_zero none = 0
or_zero (some n) = n

abbrev rss_bytes : Process → ℕ
rss_bytes process = or_zero process.rss

abbrev or_rss : Option ℕ → ℕ → ℕ
or_rss none rss = rss
or_rss (some n) rss = n

-- Without a footprint, the resident set is a lower bound of it.
unfoldable pub footprint_bytes : Process → ℕ
footprint_bytes process = or_rss process.footprint (rss_bytes process)

unfoldable pub to_ms : TimeVal → ℕ
to_ms t = (min u64_max (pos_part t.tv_sec * 1000) + pos_part t.tv_usec / 1000) % 2 ^ 64

abbrev cpu_ms : Option (TimeVal × TimeVal) → ℕ × ℕ
cpu_ms none = (0, 0)
cpu_ms (some (user, system)) = (to_ms user, to_ms system)

abbrev insert_stat : Fields → Text → Option ℕ → Fields
insert_stat memory key none = memory
insert_stat memory key (some n) = insert_field memory key (int_of n)

unfoldable pub memory_of : Process → Totals → Fields
memory_of process t =
    let memory : Fields = obj_from no_fields (
      (ascii "rss_bytes", int_of (rss_bytes process))
      ∷ (ascii "footprint_bytes", int_of (footprint_bytes process))
      ∷ (ascii "tree_bytes_est", int_of t.tree_bytes)
      ∷ (ascii "unaccounted_bytes", int_of (footprint_bytes process - t.tree_bytes))
      ∷ (ascii "live_entries", int_of t.live)
      ∷ (ascii "tombstone_entries", int_of t.tombstones)
      ∷ (ascii "entry_size_bytes", int_of process.entry_size)
      ∷ (ascii "allocator", string process.allocator)
      ∷ []) in
    let allocated = insert_stat memory (ascii "allocator_allocated_bytes") process.allocated in
    let active = insert_stat allocated (ascii "allocator_active_bytes") process.active in
    insert_stat active (ascii "allocator_mapped_bytes") process.mapped

abbrev reaped_items : List ReapEvent → Items
reaped_items [] = no_items
reaped_items (e ∷ events) =
    item
      (obj (
        (ascii "path", text_value e.path)
        ∷ (ascii "reason", string (reason_str e.reason))
        ∷ (ascii "at_unix", int_of e.at_unix)
        ∷ []))
      (reaped_items events)

unfoldable pub status : Process → ℕ → ℕ → ℕ → (Text → Bool) → DaemonState → CommandResult
status process pid stale_secs now is_dir s =
    let t = total process stale_secs now is_dir no_totals s.roots in
    let (user, system) = cpu_ms process.getrusage in
    done_obj (
      (ascii "version", string process.version)
      ∷ (ascii "compat_version", string watchman_compat_version)
      ∷ (ascii "pid", int_of pid)
      ∷ (ascii "sockname", text_value process.sock_path)
      ∷ (ascii "uptime_seconds", int_of process.uptime_seconds)
      ∷ (ascii "started_at_unix", int_of process.started_at_unix)
      ∷ (ascii "rss_bytes", int_of (rss_bytes process))
      ∷ (ascii "footprint_bytes", int_of (footprint_bytes process))
      ∷ (ascii "user_cpu_ms", int_of user)
      ∷ (ascii "system_cpu_ms", int_of system)
      ∷ (ascii "total_tracked_files", int_of t.files)
      ∷ (ascii "total_live_files", int_of t.live)
      ∷ (ascii "total_tombstones", int_of t.tombstones)
      ∷ (ascii "total_subscriptions", int_of t.subs)
      ∷ (ascii "total_triggers", int_of t.triggers)
      ∷ (ascii "memory", object (memory_of process t))
      ∷ (ascii "roots", array t.reports)
      ∷ (ascii "reaped", array (reaped_items s.reap_log))
      ∷ [])
