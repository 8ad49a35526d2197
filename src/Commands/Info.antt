-- ===== src/Commands/Info.antt =====
-- crates/watchwoman/src/commands/info.rs: the commands that report on the daemon. What they ask of the
-- process, the allocator and the platform is in `Process`.
pub mod Reaping
use watchwoman.Base.{
  ℕ, ◌+◌, ◌-◌, ◌*◌, ◌/◌, ◌%◌, ◌^◌, min, Bool, true, false, not, ◌&&◌, ◌||◌, Option, none, some,
  List, [], ◌∷◌, ◌++◌, ltb, ◌==◌, nat_eq, list_eq, if◌then◌else◌, contains, is_some,
}
use watchwoman.Base.Int.{ℤ, pos, to_signed, is_le, pos_part}
use watchwoman.Base.Text.{Text, ascii}
use watchwoman.Protocol.Value.{
  Value, Items, Fields, bool, int, string, array, object, no_items, item, no_fields, field,
  insert_field, get_field, as_object, as_array, as_str,
}
use watchwoman.Protocol.Json.{SerdeJson, json_to_value}
use watchwoman.Daemon.Tree
use watchwoman.Daemon.Root.{Root, subscription_count, trigger_count, idle_seconds, clock_string}
use watchwoman.Daemon.State.{DaemonState, ReapEvent, reason_str}
use watchwoman.Query.Expr.Parse.{first, second, str_of}
use watchwoman.Query.Field.{int_of}
use watchwoman.Query.Run.{watchman_compat_version}
use watchwoman.Commands.Outcome.{CommandResult, done, failed, bad_args, obj, obj_from, text_value}
use watchwoman.Commands.Capabilities.{capabilities}

-- A TimeVal of `getrusage`.
pub record TimeVal : Type 0 where
  pub tv_sec : ℤ
  pub tv_usec : ℤ

-- `getrusage` is the user's and the system's time, `rss` and `footprint` what the platform reports.
pub record Process : Type 1 where
  pub serde : SerdeJson
  pub config_file : Text → Option (List ℕ)
  pub sock_path : Text
  pub version : Text
  pub watcher_capability : Text
  pub getrusage : Option (TimeVal × TimeVal)
  pub rss : Option ℕ
  pub footprint : Option ℕ
  pub allocator : Text
  pub allocated : Option ℕ
  pub active : Option ℕ
  pub mapped : Option ℕ
  pub arena_bytes : Text → ℕ
  pub entry_size : ℕ
  pub uptime_seconds : ℕ
  pub started_at_unix : ℕ

unfoldable pub has_capability : Process → Text → Bool
has_capability process name = contains capabilities name || name == process.watcher_capability

abbrev pub done_obj : List (Text × Value) → CommandResult
done_obj entries = done (obj entries)

unfoldable pub get_sockname : Process → CommandResult
get_sockname process = done_obj (
    (ascii "version", string watchman_compat_version)
    ∷ (ascii "sockname", text_value process.sock_path)
    ∷ (ascii "unix_domain", text_value process.sock_path)
    ∷ [])

unfoldable pub get_pid : ℕ → CommandResult
get_pid pid = done_obj ((ascii "pid", int_of pid) ∷ [])

abbrev pub unsupported : Text → Text
unsupported name = ascii "required capability `" ++ (name ++ ascii "` is not supported")

abbrev pub or_first : Option Text → Text → Option Text
or_first none msg = some msg
or_first (some e) msg = some e

-- The loops over the required and the optional capabilities.
unfoldable pub required_caps : Process → Fields → Option Text → Items → Fields × Option Text
required_caps process caps error no_items = (caps, error)
required_caps process caps error (item (string name) names) =
    let have = has_capability process name in
    required_caps process (insert_field caps name (bool have))
      (if have then error else or_first error (unsupported name)) names
required_caps process caps error (item _ names) = required_caps process caps error names

unfoldable pub optional_caps : Process → Fields → Items → Fields
optional_caps process caps no_items = caps
optional_caps process caps (item (string name) names) =
    optional_caps process (insert_field caps name (bool (has_capability process name))) names
optional_caps process caps (item _ names) = optional_caps process caps names

abbrev array_of : Option Value → Items
array_of (some (array vs)) = vs
array_of _ = no_items

-- Where the first argument is no object, or a list is missing, nothing is asked for.
abbrev asked_for : Option Value → Text → Items
asked_for (some (object spec)) key = array_of (get_field spec key)
asked_for _ key = no_items

abbrev is_no_fields : Fields → Bool
is_no_fields no_fields = true
is_no_fields (field k v fs) = false

abbrev with_error : Fields → Option Text → Fields
with_error out none = out
with_error out (some msg) = insert_field out (ascii "error") (string msg)

unfoldable pub version : Process → Items → CommandResult
version process args =
    let (required, error) =
      required_caps process no_fields none (asked_for (first args) (ascii "required")) in
    let caps = optional_caps process required (asked_for (first args) (ascii "optional")) in
    let out : Fields =
      field (ascii "version") (string watchman_compat_version)
        (field (ascii "buildinfo") (string (ascii "watchwoman " ++ process.version)) no_fields) in
    let listed =
      if is_no_fields caps then out else insert_field out (ascii "capabilities") (object caps) in
    done (object (with_error listed error))

abbrev text_items : List Text → Items
text_items [] = no_items
text_items (s ∷ ss) = item (string s) (text_items ss)

unfoldable pub list_capabilities : Process → CommandResult
list_capabilities process = done_obj (
    (ascii "capabilities", array (text_items (capabilities ++ process.watcher_capability ∷ [])))
    ∷ [])

-- `None` where the file cannot be read or parsed.
abbrev pub config_of : Process → Option Text → Option Value
config_of process none = none
config_of process (some path) = elim (process.config_file path) [
  | none ↦ none
  | some bytes ↦ elim (process.serde.from_slice bytes) [
    | none ↦ none
    | some v ↦ some (json_to_value process.serde v)
  ]
]

unfoldable pub get_config : Process → Items → CommandResult
get_config process args = elim (config_of process (str_of (first args))) [
  | some config ↦ done_obj ((ascii "config", config) ∷ [])
  | none ↦ done_obj ((ascii "config", object no_fields) ∷ [])
]

unfoldable pub get_log : CommandResult
get_log = done_obj ((ascii "log", array no_items) ∷ [])

unfoldable pub log_level : Items → CommandResult
log_level args = done_obj ((ascii "log_level", string (ascii "warn")) ∷ [])

unfoldable pub log : Items → CommandResult
log args = elim (str_of (second args)) [
  | none ↦ failed (bad_args (ascii "log message missing"))
  | some msg ↦ done_obj ((ascii "logged", bool true) ∷ [])
]

-- `n as i64` of a u64.
abbrev pub as_signed : ℕ → ℤ
as_signed n = to_signed (2 ^ 63) (n % 2 ^ 64)

pub data Health : Type 0 where
  gone missing active idling unused : Health

abbrev pub health_str : Health → Text
health_str gone = ascii "dead"
health_str missing = ascii "missing"
health_str active = ascii "active"
health_str idling = ascii "idle"
health_str unused = ascii "stale"

-- `threshold` is the collector's `stale_idle_secs() as i64`.
unfoldable pub classify_health : ℤ → Bool → ℤ → ℤ → ℤ → ℤ → Health
classify_health threshold exists missing_ticks idle_seconds subs triggers =
    if not exists
    then (if is_le (pos 2) missing_ticks then gone else missing)
    else if is_le (pos 1) subs || is_le (pos 1) triggers
    then active
    else if is_le (pos 1) threshold && is_le threshold idle_seconds
    then unused
    else idling

-- What the report says of a root, by the settings, the time and whether its directory is there.
unfoldable pub health_of : ℕ → ℕ → Bool → Root → Health
health_of stale_secs now exists r =
    classify_health (as_signed stale_secs) exists (as_signed r.missing_ticks)
      (as_signed (idle_seconds r now)) (as_signed (subscription_count r))
      (as_signed (trigger_count r))
