-- ===== src/Commands/Dispatch.antt =====
-- crates/watchwoman/src/commands.rs: the dispatch of commands. The text of an error is a parameter.
pub mod Kept
pub mod Roots
pub mod Daemon
pub mod Handlers
pub mod Sound
pub mod Advertised
use watchwoman.Base.{
  ℕ, Bool, true, false, Option, none, some, List, [], ◌∷◌, ◌++◌, nat_eq, list_eq, if◌then◌else◌,
  is_some,
}
use watchwoman.Base.Map
use watchwoman.Base.Text.{Text, ascii}
use watchwoman.Protocol.Value.{
  Value, Items, Fields, bool, string, array, object, no_items, item, no_fields, field, get_field,
  as_array, as_str,
}
use watchwoman.Daemon.State.{DaemonState, request_shutdown, sweep}
use watchwoman.Query.Expr.Parse.{first, str_of}
use watchwoman.Query.Run.{watchman_compat_version}
use watchwoman.Commands.Outcome.{
  Host, CommandError, CommandResult, done, failed, bad_args, unknown, obj,
}
use watchwoman.Commands.Clock
use watchwoman.Commands.States.{state_enter, state_leave}
use watchwoman.Commands.Queries.{query, find, since}
use watchwoman.Commands.Watches.{watch, watch_project, watch_list, watch_del, watch_del_all}
use watchwoman.Commands.Debug
use watchwoman.Commands.Info
use watchwoman.Commands.Status
use watchwoman.Commands.Info.{Process}
use watchwoman.Commands.Triggers.{trigger, trigger_list, trigger_del}
use watchwoman.Commands.Subscribe.{subscribe, unsubscribe, flush_subscriptions}

abbrev pub Handler : Type 0
Handler = DaemonState → Items → DaemonState × CommandResult

-- What the reports ask of the process, how an error is formatted, and a sweep's settings and what it
-- finds of the roots' directories.
pub record Reports : Type 1 where
  pub process : Process
  pub error_text : CommandError → Text
  pub stale_secs : ℕ
  pub is_dir : Text → Bool

abbrev pub answering : Value → Handler
answering v s args = (s, done v)

abbrev pub refusing : CommandError → Handler
refusing e s args = (s, failed e)

-- An em dash between two texts.
abbrev dashed : Text → Text → Text
dashed a b = a ++ 226 ∷ 128 ∷ 148 ∷ b

abbrev pub no_privs : Text
no_privs =
    dashed (ascii "debug-drop-privs is refused by design ")
      (ascii " watchwoman doesn't run as root")

abbrev pub no_poison : Text
no_poison = dashed (ascii "debug-poison is refused ") (ascii " use `shutdown-server` instead")

abbrev pub gc_tick : Host → Reports → Handler
gc_tick host reports s args = (
  sweep reports.stale_secs host.now reports.is_dir s,
  done (obj ((ascii "swept", bool true) ∷ [])),
)

abbrev pub shutdown_server : Handler
shutdown_server s args = (request_shutdown s, done (obj ((ascii "shutdown", bool true) ∷ [])))

abbrev pub handle : Text → Option Handler → Handler
handle name none s args = (s, failed (unknown name))
handle name (some handler) s args = handler s args

abbrev missing_name : DaemonState → DaemonState × CommandResult
missing_name s = (s, failed (bad_args (ascii "missing command name")))

abbrev pub response_of : Reports → CommandResult → Value
response_of reports (done v) = v
response_of reports (failed e) = obj ((ascii "error", string (reports.error_text e)) ∷ [])

unfoldable pub with_version : Value → Value
with_version (object map) =
    if is_some (get_field map (ascii "version"))
    then object map
    else object (field (ascii "version") (string watchman_compat_version) map)
with_version v = v

-- A command that only reports.
abbrev pub informing : (DaemonState → Items → CommandResult) → Handler
informing report s args = (s, report s args)

module _ (host : Host) (reports : Reports) where
  abbrev pub info_commands : List (Text × Handler)
  info_commands =
      (ascii "get-sockname", informing λ s args. Info.get_sockname reports.process)
      ∷ (ascii "get-pid", informing λ s args. Info.get_pid host.pid)
      ∷ (ascii "version", informing λ s args. Info.version reports.process args)
      ∷ (ascii "list-capabilities", informing λ s args. Info.list_capabilities reports.process)
      ∷ (ascii "get-config", informing λ s args. Info.get_config reports.process args)
      ∷ (ascii "log-level", informing λ s args. Info.log_level args)
      ∷ (ascii "log", informing λ s args. Info.log args)
      ∷ (
        ascii "status",
        informing λ s args.
            Status.status reports.process host.pid reports.stale_secs host.now reports.is_dir s,
      )
      ∷ (ascii "get-log", informing λ s args. Info.get_log)
      ∷ (ascii "global-log-level", informing λ s args. Info.log_level args)
      ∷ []

  abbrev pub root_commands : List (Text × Handler)
  root_commands =
      (ascii "watch", watch host)
      ∷ (ascii "watch-project", watch_project host)
      ∷ (ascii "watch-list", λ s args. watch_list s)
      ∷ (ascii "watch-del", watch_del host)
      ∷ (ascii "watch-del-all", λ s args. watch_del_all s)
      ∷ (ascii "clock", Clock.clock host)
      ∷ (ascii "query", query host)
      ∷ (ascii "find", find host)
      ∷ (ascii "since", since host)
      ∷ (ascii "subscribe", subscribe host)
      ∷ (ascii "unsubscribe", unsubscribe host)
      ∷ (ascii "flush-subscriptions", flush_subscriptions host)
      ∷ (ascii "state-enter", state_enter host)
      ∷ (ascii "state-leave", state_leave host)
      ∷ (ascii "trigger", trigger host)
      ∷ (ascii "trigger-list", trigger_list host)
      ∷ (ascii "trigger-del", trigger_del host)
      ∷ []

  abbrev pub debug_commands : List (Text × Handler)
  debug_commands =
      (ascii "debug-recrawl", Debug.recrawl host)
      ∷ (ascii "debug-ageout", λ s args. Debug.ageout s)
      ∷ (ascii "debug-show-cursors", Debug.show_cursors host)
      ∷ (ascii "debug-poll-for-settle", answering (obj ((ascii "collected", bool true) ∷ [])))
      ∷ (ascii "debug-get-asserted-states", Debug.get_asserted_states host)
      ∷ (ascii "debug-get-subscriptions", Debug.get_subscriptions host)
      ∷ (ascii "debug-root-status", Debug.root_status host)
      ∷ (ascii "debug-status", λ s args. Debug.status host s)
      ∷ (ascii "debug-watcher-info", Debug.watcher_info host)
      ∷ (ascii "debug-watcher-info-clear", answering (obj ((ascii "cleared", bool true) ∷ [])))
      ∷ (
        ascii "debug-set-parallel-crawl",
        answering (obj ((ascii "parallel_crawl_enabled", bool true) ∷ [])),
      )
      ∷ (
        ascii "debug-set-subscriptions-paused",
        answering (obj ((ascii "paused", bool false) ∷ [])),
      )
      ∷ (ascii "debug-contenthash", Debug.contenthash host)
      ∷ (
        ascii "debug-symlink-target-cache",
        answering (obj ((ascii "entries", array no_items) ∷ [])),
      )
      ∷ (ascii "debug-fsevents-inject-drop", Debug.inject_drop host)
      ∷ (ascii "debug-kqueue-and-fsevents-recrawl", Debug.recrawl host)
      ∷ (ascii "debug-gc-tick", gc_tick host reports)
      ∷ (ascii "debug-drop-privs", refusing (bad_args no_privs))
      ∷ (ascii "debug-poison", refusing (bad_args no_poison))
      ∷ (ascii "shutdown-server", shutdown_server)
      ∷ []

  -- The arms of the `match` on the command's name.
  unfoldable pub commands : List (Text × Handler)
  commands = info_commands ++ (root_commands ++ debug_commands)

  unfoldable pub dispatch_array : DaemonState → Items → DaemonState × CommandResult
  dispatch_array s (item (string name) args) = handle name (Map.get commands name) s args
  dispatch_array s _ = missing_name s

  unfoldable pub dispatch_inner : DaemonState → Value → DaemonState × CommandResult
  dispatch_inner s (array arr) = dispatch_array s arr
  dispatch_inner s _ = (s, failed (bad_args (ascii "PDU must be an array")))

  unfoldable pub dispatch : DaemonState → Value → DaemonState × Value
  dispatch s pdu =
      let (s', result) = dispatch_inner s pdu in (s', with_version (response_of reports result))
