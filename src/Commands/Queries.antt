-- ===== src/Commands/Queries.antt =====
-- crates/watchwoman/src/commands/query.rs: the commands that run a query.
use watchwoman.Base.{◌&&◌, not, Option, none, some, if◌then◌else◌}
use watchwoman.Base.Text.{Text, ascii}
use watchwoman.Protocol.Value.{
  Value, Items, Fields, string, array, object, no_items, item, no_fields, field,
}
use watchwoman.Daemon.Root.{Root, promote_to_full}
use watchwoman.Daemon.State.{DaemonState}
use watchwoman.Query.Expr.Parse.{Parsed, ok, bad, second, str_of}
use watchwoman.Query.Run.{Spec, parse_spec, run, result_to_pdu, is_jj_fsmonitor_query}
use watchwoman.Commands.Outcome.{
  Host, CommandResult, done, failed, bad_args, bad_spec, put_back, scan, with_root,
}

module _ (host : Host) where
  abbrev pub run_at : DaemonState → Text → Root → Spec host.env → DaemonState × CommandResult
  run_at s path r spec =
      let (r', result) = run host.env r spec in
      (put_back s path r', done (result_to_pdu path result))

  -- Whether a query needs the full index.
  abbrev pub for_query : Root → Spec host.env → Root
  for_query r spec =
      if r.jj_events && not (is_jj_fsmonitor_query spec.expression)
      then promote_to_full r (scan host r)
      else r

  abbrev pub query_parsed :
      DaemonState → Text → Root → Parsed (Spec host.env) → DaemonState × CommandResult
  query_parsed s path r (bad e) = (s, failed (bad_spec e))
  query_parsed s path r (ok spec) = run_at s path (for_query r spec) spec

  abbrev pub query_raw : Option Value → DaemonState → Text → Root → DaemonState × CommandResult
  query_raw none s path r = (s, failed (bad_args (ascii "query requires a spec object")))
  query_raw (some raw) s path r = query_parsed s path r (parse_spec host.env raw)

  unfoldable pub query : DaemonState → Items → DaemonState × CommandResult
  query s args = with_root host s args (ascii "query requires a root") (query_raw (second args))

  -- `find` and `since` always take the full index.
  abbrev pub full_parsed :
      DaemonState → Text → Root → Parsed (Spec host.env) → DaemonState × CommandResult
  full_parsed s path r (bad e) = (s, failed (bad_spec e))
  full_parsed s path r (ok spec) = run_at s path (promote_to_full r (scan host r)) spec

  abbrev pub full_spec : Fields → DaemonState → Text → Root → DaemonState × CommandResult
  full_spec spec s path r = full_parsed s path r (parse_spec host.env (object spec))

  abbrev pub strings_only : Items → Items
  strings_only no_items = no_items
  strings_only (item (string s) vs) = item (string s) (strings_only vs)
  strings_only (item _ vs) = strings_only vs

  abbrev pub rest_of : Items → Items
  rest_of no_items = no_items
  rest_of (item v vs) = vs

  abbrev pub find_spec : Items → Fields
  find_spec no_items = no_fields
  find_spec patterns = field (ascii "glob") (array patterns) no_fields

  unfoldable pub find : DaemonState → Items → DaemonState × CommandResult
  find s args =
      with_root host s args (ascii "find requires a root")
        (full_spec (find_spec (strings_only (rest_of args))))

  abbrev pub since_raw : Option Text → DaemonState → Text → Root → DaemonState × CommandResult
  since_raw none s path r = (s, failed (bad_args (ascii "since requires a clock")))
  since_raw (some c) s path r = full_spec (field (ascii "since") (string c) no_fields) s path r

  unfoldable pub since : DaemonState → Items → DaemonState × CommandResult
  since s args =
      with_root host s args (ascii "since requires a root") (since_raw (str_of (second args)))
