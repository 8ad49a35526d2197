-- ===== src/Cli.antt =====
-- crates/watchwoman/src/cli.rs: the PDUs that the command line sends, and what it makes of the answer,
-- on a system other than macOS. clap's parse of the arguments comes before, and an error's text is left out.
pub mod Served
pub mod Table
pub mod Examples
use watchwoman.Base.{
  ℕ, ◌^◌, Bool, true, false, not, ◌&&◌, ◌||◌, Option, none, some, List, [], ◌∷◌, ◌++◌, ◌==◌, nat_eq,
  list_eq, if◌then◌else◌, is_some,
}
use watchwoman.Base.Int.{ℤ, to_signed}
use watchwoman.Base.Text.{Text, ascii}
use watchwoman.Protocol.Utf8.{from_utf8_lossy}
use watchwoman.Protocol.Value.{
  Value, Items, Fields, int, string, array, object, no_items, item, no_fields, insert_field,
  get_field,
}
use watchwoman.Protocol.Outcome.{Outcome, ok}
use watchwoman.Protocol.Json
use watchwoman.Protocol.Json.{SerdeJson, json_to_value}

pub data Encoding : Type 0 where
  json bser bser2 : Encoding

-- The commands, with their arguments; the shell of a completion is left out.
pub data Command : Type 0 where
  foreground_daemon completion get_sockname get_pid list_capabilities watch_list watch_del_all :
      Command
  shutdown_server get_log debug_status debug_watcher_info_clear debug_set_parallel_crawl : Command
  debug_set_subscriptions_paused debug_symlink_target_cache : Command
  version : List Text → List Text → Command
  watch_project watch watch_del clock get_config debug_recrawl debug_show_cursors : Text → Command
  debug_poll_for_settle trigger_list debug_contenthash debug_root_status debug_watcher_info :
      Text → Command
  debug_get_asserted_states debug_get_subscriptions debug_kqueue_and_fs_events_recrawl :
      Text → Command
  debug_fs_events_inject_drop raw : Text → Command
  query unsubscribe state_enter state_leave log since trigger trigger_del : Text → Text → Command
  subscribe : Text → Text → Text → Command
  flush_subscriptions : Text → ℕ → Command
  log_level global_log_level : Option Text → Command
  status : Bool → Command
  debug_ageout : Text → ℤ → Command
  find : Text → List Text → Command

-- What the file system says of paths: `current_dir` is empty if there is none.
pub record System : Type 0 where
  pub canonicalize : Text → Option Text
  pub current_dir : Text

abbrev pub is_absolute : Text → Bool
is_absolute [] = false
is_absolute (b ∷ path) = b == b'/'

abbrev ends_in_slash : Text → Bool
ends_in_slash [] = true
ends_in_slash (b ∷ []) = b == b'/'
ends_in_slash (b ∷ c ∷ path) = ends_in_slash (c ∷ path)

-- `cwd.join(path)` for a relative path.
unfoldable pub join : Text → Text → Text
join cwd path = if ends_in_slash cwd then cwd ++ path else cwd ++ b'/' ∷ path

unfoldable pub absolutise : System → Text → Text
absolutise system path = elim (system.canonicalize path) [
  | some p ↦ from_utf8_lossy p
  | none ↦ if is_absolute path then path else from_utf8_lossy (join system.current_dir path)
]

-- A PDU, an error in a JSON argument, or the panic of `unreachable!`.
pub data Built : Type 0 where
  pdu : Value → Built
  bad_json unreachable : Built

abbrev pub texts : List Text → Items
texts [] = no_items
texts (s ∷ ss) = item (string s) (texts ss)

abbrev array_pdu : Text → Items → Built
array_pdu name args = pdu (array (item (string name) args))

abbrev pub insert_list : Fields → Text → List Text → Fields
insert_list m key [] = m
insert_list m key (s ∷ ss) = insert_field m key (array (texts (s ∷ ss)))

abbrev pub is_given : List Text → Bool
is_given [] = false
is_given (s ∷ ss) = true

abbrev optional_text : Option Text → Items
optional_text none = no_items
optional_text (some s) = item (string s) no_items

unfoldable pub version_args : List Text → List Text → Items
version_args required optional =
    if is_given required || is_given optional
    then item
        (object (
          insert_list (insert_list no_fields (ascii "required") required) (ascii "optional")
            optional))
        no_items
    else no_items

module _ (serde : SerdeJson) (system : System) where
  unfoldable pub parse_json : Text → Option Value
  parse_json s = elim (serde.from_slice s) [ none ↦ none | some j ↦ some (json_to_value serde j) ]

  abbrev pub with_path : Text → Items → Items
  with_path path args = item (string (absolutise system path)) args

  abbrev on_path : Text → Text → Built
  on_path name path = array_pdu name (with_path path no_items)

  abbrev path_and_text : Text → Text → Text → Built
  path_and_text name path s = array_pdu name (with_path path (item (string s) no_items))

  -- The last argument is JSON.
  abbrev pub with_json : Text → (Items → Items) → Option Value → Built
  with_json name before none = bad_json
  with_json name before (some v) = array_pdu name (before (item v no_items))

  abbrev raw_pdu : Option Value → Built
  raw_pdu none = bad_json
  raw_pdu (some v) = pdu v

  unfoldable pub build_pdu : Command → Built
  build_pdu foreground_daemon = unreachable
  build_pdu completion = unreachable
  build_pdu (status want_json) = array_pdu (ascii "status") no_items
  build_pdu get_sockname = array_pdu (ascii "get-sockname") no_items
  build_pdu get_pid = array_pdu (ascii "get-pid") no_items
  build_pdu (version required optional) =
      array_pdu (ascii "version") (version_args required optional)
  build_pdu list_capabilities = array_pdu (ascii "list-capabilities") no_items
  build_pdu (watch_project path) = on_path (ascii "watch-project") path
  build_pdu (watch path) = on_path (ascii "watch") path
  build_pdu watch_list = array_pdu (ascii "watch-list") no_items
  build_pdu (watch_del path) = on_path (ascii "watch-del") path
  build_pdu watch_del_all = array_pdu (ascii "watch-del-all") no_items
  build_pdu (clock path) = on_path (ascii "clock") path
  build_pdu (query path spec) = with_json (ascii "query") (with_path path) (parse_json spec)
  build_pdu (subscribe path name spec) =
      with_json (ascii "subscribe") (λ args. with_path path (item (string name) args))
        (parse_json spec)
  build_pdu (unsubscribe path name) = path_and_text (ascii "unsubscribe") path name
  build_pdu (flush_subscriptions path timeout_ms) =
      array_pdu (ascii "flush-subscriptions")
        (with_path path (item (int (to_signed (2 ^ 63) timeout_ms)) no_items))
  build_pdu (state_enter path name) = path_and_text (ascii "state-enter") path name
  build_pdu (state_leave path name) = path_and_text (ascii "state-leave") path name
  build_pdu (get_config path) = on_path (ascii "get-config") path
  build_pdu (log_level level) = array_pdu (ascii "log-level") (optional_text level)
  build_pdu (log level message) =
      array_pdu (ascii "log") (item (string level) (item (string message) no_items))
  build_pdu shutdown_server = array_pdu (ascii "shutdown-server") no_items
  build_pdu (debug_recrawl path) = on_path (ascii "debug-recrawl") path
  build_pdu (debug_ageout path age) =
      array_pdu (ascii "debug-ageout") (with_path path (item (int age) no_items))
  build_pdu (debug_show_cursors path) = on_path (ascii "debug-show-cursors") path
  build_pdu (debug_poll_for_settle path) = on_path (ascii "debug-poll-for-settle") path
  build_pdu (find path patterns) = array_pdu (ascii "find") (with_path path (texts patterns))
  build_pdu (since path since_clock) = path_and_text (ascii "since") path since_clock
  build_pdu (trigger path spec) = with_json (ascii "trigger") (with_path path) (parse_json spec)
  build_pdu (trigger_list path) = on_path (ascii "trigger-list") path
  build_pdu (trigger_del path name) = path_and_text (ascii "trigger-del") path name
  build_pdu get_log = array_pdu (ascii "get-log") no_items
  build_pdu (global_log_level level) = array_pdu (ascii "global-log-level") (optional_text level)
  build_pdu (debug_contenthash path) = on_path (ascii "debug-contenthash") path
  build_pdu debug_status = array_pdu (ascii "debug-status") no_items
  build_pdu (debug_root_status path) = on_path (ascii "debug-root-status") path
  build_pdu (debug_watcher_info path) = on_path (ascii "debug-watcher-info") path
  build_pdu debug_watcher_info_clear = array_pdu (ascii "debug-watcher-info-clear") no_items
  build_pdu (debug_get_asserted_states path) = on_path (ascii "debug-get-asserted-states") path
  build_pdu (debug_get_subscriptions path) = on_path (ascii "debug-get-subscriptions") path
  build_pdu (debug_kqueue_and_fs_events_recrawl path) =
      on_path (ascii "debug-kqueue-and-fsevents-recrawl") path
  build_pdu (debug_fs_events_inject_drop path) = on_path (ascii "debug-fsevents-inject-drop") path
  build_pdu debug_set_parallel_crawl = array_pdu (ascii "debug-set-parallel-crawl") no_items
  build_pdu debug_set_subscriptions_paused =
      array_pdu (ascii "debug-set-subscriptions-paused") no_items
  build_pdu debug_symlink_target_cache = array_pdu (ascii "debug-symlink-target-cache") no_items
  build_pdu (raw s) = raw_pdu (parse_json s)

-- Who runs a command: this process as the daemon, clap, the status report, or the client.
pub data Route : Type 0 where
  as_daemon as_completion : Route
  as_status : Bool → Route
  as_client : Command → Route

unfoldable pub route : Encoding → Command → Route
route encoding foreground_daemon = as_daemon
route encoding completion = as_completion
route json (status want_json) = as_status want_json
route encoding cmd = as_client cmd

abbrev pub status_pdu : Value
status_pdu = array (item (string (ascii "status")) no_items)

-- What the exit code says of a response.
unfoldable pub err_present : Value → Bool
err_present (object o) = is_some (get_field o (ascii "error"))
err_present _ = false

abbrev pub exit_code : Value → ℕ
exit_code response = if err_present response then 1 else 0

abbrev exit_of : Outcome (Option Value × List ℕ) → Option ℕ
exit_of (ok (some response, rest)) = some (exit_code response)
exit_of _ = none

-- The bytes that a client sends, and its exit code for the bytes that come back, if it gets that far; it
-- does not stay connected, and what it prints is left out.
module _ (serde : SerdeJson) where
  abbrev pub request : Value → List ℕ
  request v = Json.encode_pdu serde v

  unfoldable pub send_and_print : List ℕ → Option ℕ
  send_and_print reply = exit_of (Json.read_pdu serde reply)
