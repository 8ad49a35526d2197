-- ===== src/Commands/Triggers.antt =====
-- crates/watchwoman/src/commands/trigger.rs: triggers come and go, and the query that one makes on an
-- event. The loop that starts a trigger's command is in
-- Commands/Triggers/Loop.antt.
pub mod RoundTrip
pub mod Loop
pub mod Once
pub mod Examples
use watchwoman.Base.{
  ℕ, ◌%◌, ◌^◌, Bool, true, false, ◌&&◌, ◌||◌, not, Option, none, some, List, [], ◌∷◌, ◌++◌, ◌==◌,
  nat_eq, list_eq, leb, if◌then◌else◌,
}
use watchwoman.Base.Int.{ℤ, pos_part}
use watchwoman.Base.Text.{Text, ascii}
use watchwoman.Protocol.Value.{
  Value, Items, Fields, bool, int, string, array, object, no_items, item, no_fields, field,
  insert_field, get_field, as_object, as_str, as_array, as_i64,
}
use watchwoman.Daemon.Watch.{Trigger, TriggerStdin, name_per_line, json_name}
use watchwoman.Daemon.Root.{Root, promote_to_full, install_trigger, remove_trigger}
use watchwoman.Daemon.State.{DaemonState}
use watchwoman.Query.Expr.Parse.{second, str_of, i64_of}
use watchwoman.Query.Field.{int_of}
use watchwoman.Commands.Outcome.{
  Host, Result, CommandResult, done, failed, bad_args, or_failed, obj, put_back, scan, with_root,
}

abbrev array_of : Option Value → Option Items
array_of none = none
array_of (some v) = as_array v

-- `filter_map(as_str)`.
abbrev command_strings : Items → List Text
command_strings no_items = []
command_strings (item (string s) vs) = s ∷ command_strings vs
command_strings (item _ vs) = command_strings vs

abbrev true_of : Option Value → Bool
true_of (some (bool b)) = b
true_of _ = false

abbrev value_or : Option Value → Value → Value
value_or none default = default
value_or (some v) default = v

abbrev stdin_of : Option Value → Option TriggerStdin
stdin_of (some (string s)) =
    if s == ascii "NAME_PER_LINE"
    then some name_per_line
    else if s == ascii "json" || s == ascii "JSON"
    then some json_name
    else none
stdin_of _ = none

-- `n.max(0) as usize`.
abbrev count_of : Option ℤ → Option ℕ
count_of none = none
count_of (some n) = some (pos_part n)

infixl 5 ◌>>=◌
abbrev ◌>>=◌ : {A B : Type 0} → Result A → (A → Result B) → Result B
done a >>= f = f a
failed e >>= f = failed e

unfoldable pub parse_trigger : Value → Result Trigger
parse_trigger spec = do
  o ← or_failed (as_object spec) (bad_args (ascii "trigger spec must be an object"))
  name ←
      or_failed (str_of (get_field o (ascii "name"))) (bad_args (ascii "trigger.name is required"))
  command ←
      or_failed (array_of (get_field o (ascii "command")))
        (bad_args (ascii "trigger.command array is required"))
  done (record {
    name = name;
    command = command_strings command;
    expression = value_or (get_field o (ascii "expression")) (string (ascii "true"));
    append_files = true_of (get_field o (ascii "append_files"));
    stdin = stdin_of (get_field o (ascii "stdin"));
    max_files_stdin = count_of (i64_of (get_field o (ascii "max_files_stdin")));
  })

abbrev command_items : List Text → Items
command_items [] = no_items
command_items (s ∷ ss) = item (string s) (command_items ss)

abbrev with_stdin : Fields → Option TriggerStdin → Fields
with_stdin m none = m
with_stdin m (some name_per_line) = insert_field m (ascii "stdin") (string (ascii "NAME_PER_LINE"))
with_stdin m (some json_name) = insert_field m (ascii "stdin") (string (ascii "json"))

abbrev with_max : Fields → Option ℕ → Fields
with_max m none = m
with_max m (some n) = insert_field m (ascii "max_files_stdin") (int_of n)

unfoldable pub trigger_to_value : Trigger → Value
trigger_to_value t =
    let m = field (ascii "name") (string t.name) (
      field (ascii "command") (array (command_items t.command)) (
        field (ascii "expression") t.expression
          (field (ascii "append_files") (bool t.append_files) no_fields))) in
    object (with_max (with_stdin m t.stdin) t.max_files_stdin)

-- A trigger's index is full, but for the monitor of jj.
abbrev pub for_trigger : Host → Root → Trigger → Root
for_trigger host r t =
    if t.name == ascii "jj-background-monitor" then r else promote_to_full r (scan host r)

abbrev pub trigger_parsed :
    Host → DaemonState → Text → Root → Result Trigger → DaemonState × CommandResult
trigger_parsed host s path r (failed e) = (s, failed e)
trigger_parsed host s path r (done t) = (
  put_back s path (install_trigger (for_trigger host r t) t),
  done (obj ((ascii "trigger", string t.name) ∷ [])),
)

abbrev pub trigger_raw :
    Host → Option Value → DaemonState → Text → Root → DaemonState × CommandResult
trigger_raw host none s path r = (s, failed (bad_args (ascii "trigger requires a spec")))
trigger_raw host (some spec) s path r = trigger_parsed host s path r (parse_trigger spec)

unfoldable pub trigger : Host → DaemonState → Items → DaemonState × CommandResult
trigger host s args =
    with_root host s args (ascii "trigger requires a root") (trigger_raw host (second args))

abbrev pub trigger_items : List (Text × Trigger) → Items
trigger_items [] = no_items
trigger_items ((name, t) ∷ triggers) = item (trigger_to_value t) (trigger_items triggers)

unfoldable pub trigger_list : Host → DaemonState → Items → DaemonState × CommandResult
trigger_list host s args =
    with_root host s args (ascii "trigger command requires a root")
      λ s' path r. (s', done (obj ((ascii "triggers", array (trigger_items r.triggers)) ∷ [])))

abbrev pub trigger_named : Option Text → DaemonState → Text → Root → DaemonState × CommandResult
trigger_named none s path r = (s, failed (bad_args (ascii "trigger-del requires a name")))
trigger_named (some name) s path r =
    let (r', removed) = remove_trigger r name in
    (
      put_back s path r',
      done (obj ((ascii "deleted", bool removed) ∷ (ascii "trigger", string name) ∷ [])),
    )

unfoldable pub trigger_del : Host → DaemonState → Items → DaemonState × CommandResult
trigger_del host s args =
    with_root host s args (ascii "trigger command requires a root")
      (trigger_named (str_of (second args)))

-- The names of the files of a result.
abbrev name_of : Value → Option Text
name_of (string s) = some s
name_of (object o) = str_of (get_field o (ascii "name"))
name_of _ = none

unfoldable pub collect_names : Items → List Text
collect_names no_items = []
collect_names (item f fs) =
    let rest = collect_names fs in elim (name_of f) [ none ↦ rest | some n ↦ n ∷ rest ]
