-- ===== src/Cli/Table.antt =====
-- What the command line sends against the daemon's table of commands.
use watchwoman.Base.{◌≡◌, refl, Bool, true, false, Option, none, some, is_some, nat_eq, list_eq}
use watchwoman.Base.Map
use watchwoman.Base.Text.{Text, ascii}
use watchwoman.Protocol.Value.{Value, Items, array, item, string}
use watchwoman.Protocol.Json.{SerdeJson}
use watchwoman.Protocol.Json.View.{view}
use watchwoman.Commands.Outcome.{Host}
use watchwoman.Commands.Dispatch.{Reports, commands}
use watchwoman.Cli
use watchwoman.Cli.{
  Encoding, Command, System, Built, pdu, bad_json, unreachable, Route, as_client, as_status, route,
  status_pdu, build_pdu, with_json, with_path, parse_json, clock, completion, debug_ageout,
  debug_contenthash, debug_fs_events_inject_drop, debug_get_asserted_states,
  debug_get_subscriptions, debug_kqueue_and_fs_events_recrawl, debug_poll_for_settle, debug_recrawl,
  debug_root_status, debug_set_parallel_crawl, debug_set_subscriptions_paused, debug_show_cursors,
  debug_status, debug_symlink_target_cache, debug_watcher_info, debug_watcher_info_clear, find,
  flush_subscriptions, foreground_daemon, get_config, get_log, get_pid, get_sockname,
  global_log_level, list_capabilities, log, log_level, query, raw, shutdown_server, since,
  state_enter, state_leave, status, subscribe, trigger, trigger_del, trigger_list, unsubscribe,
  version, watch, watch_del, watch_del_all, watch_list, watch_project,
}

module _ (host : Host) (reports : Reports) where
  -- A PDU whose command is in the table, as the daemon has it.
  abbrev is_known : Value → Bool
  is_known (array (item (string name) args)) = is_some (Map.get (commands host reports) name)
  is_known _ = false

  abbrev is_built : Built → Bool
  is_built (pdu v) = is_known (view v)
  is_built bad_json = true
  is_built unreachable = false

  abbrev pub is_sent : SerdeJson → System → Route → Bool
  is_sent serde system (as_client (raw s)) = true
  is_sent serde system (as_client cmd) = is_built (build_pdu serde system cmd)
  is_sent serde system (as_status want_json) = is_known (view status_pdu)
  is_sent serde system _ = true

  module _ (serde : SerdeJson) (system : System) where
    is_built-with_json :
        (name : Text) (before : Items → Items) (v : Option Value)
        → is_some (Map.get (commands host reports) name) ≡ true
        → is_built (with_json serde system name before v) ≡ true
    unfolding view
    is_built-with_json name before none known = refl
    is_built-with_json name before (some v) known = known

    -- Whoever runs a command and in whatever encoding, and whatever the file system and serde_json
    -- say of its arguments, no command but `raw` reaches the `unreachable!` of the client, and a PDU
    -- that is sent for it names, on any host, a command of the daemon's table.
    pub is_sent-route :
        (encoding : Encoding) (cmd : Command) → is_sent serde system (route encoding cmd) ≡ true
    unfolding route build_pdu commands Map.get view
    is_sent-route encoding foreground_daemon = refl
    is_sent-route encoding completion = refl
    is_sent-route Cli.json (status want_json) = refl
    is_sent-route Cli.bser (status want_json) = refl
    is_sent-route Cli.bser2 (status want_json) = refl
    is_sent-route encoding get_sockname = refl
    is_sent-route encoding get_pid = refl
    is_sent-route encoding (version required optional) = refl
    is_sent-route encoding list_capabilities = refl
    is_sent-route encoding (watch_project path) = refl
    is_sent-route encoding (watch path) = refl
    is_sent-route encoding watch_list = refl
    is_sent-route encoding (watch_del path) = refl
    is_sent-route encoding watch_del_all = refl
    is_sent-route encoding (clock path) = refl
    is_sent-route encoding (query path spec) =
        is_built-with_json (ascii "query") (with_path serde system path)
          (parse_json serde system spec) refl
    is_sent-route encoding (subscribe path name spec) =
        is_built-with_json (ascii "subscribe")
          (λ args. with_path serde system path (item (string name) args))
          (parse_json serde system spec) refl
    is_sent-route encoding (unsubscribe path name) = refl
    is_sent-route encoding (flush_subscriptions path timeout_ms) = refl
    is_sent-route encoding (state_enter path name) = refl
    is_sent-route encoding (state_leave path name) = refl
    is_sent-route encoding (get_config path) = refl
    is_sent-route encoding (log_level level) = refl
    is_sent-route encoding (log level message) = refl
    is_sent-route encoding shutdown_server = refl
    is_sent-route encoding (debug_recrawl path) = refl
    is_sent-route encoding (debug_ageout path age) = refl
    is_sent-route encoding (debug_show_cursors path) = refl
    is_sent-route encoding (debug_poll_for_settle path) = refl
    is_sent-route encoding (find path patterns) = refl
    is_sent-route encoding (since path since_clock) = refl
    is_sent-route encoding (trigger path spec) =
        is_built-with_json (ascii "trigger") (with_path serde system path)
          (parse_json serde system spec) refl
    is_sent-route encoding (trigger_list path) = refl
    is_sent-route encoding (trigger_del path name) = refl
    is_sent-route encoding get_log = refl
    is_sent-route encoding (global_log_level level) = refl
    is_sent-route encoding (debug_contenthash path) = refl
    is_sent-route encoding debug_status = refl
    is_sent-route encoding (debug_root_status path) = refl
    is_sent-route encoding (debug_watcher_info path) = refl
    is_sent-route encoding debug_watcher_info_clear = refl
    is_sent-route encoding (debug_get_asserted_states path) = refl
    is_sent-route encoding (debug_get_subscriptions path) = refl
    is_sent-route encoding (debug_kqueue_and_fs_events_recrawl path) = refl
    is_sent-route encoding (debug_fs_events_inject_drop path) = refl
    is_sent-route encoding debug_set_parallel_crawl = refl
    is_sent-route encoding debug_set_subscriptions_paused = refl
    is_sent-route encoding debug_symlink_target_cache = refl
    is_sent-route encoding (raw s) = refl
