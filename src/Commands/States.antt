-- ===== src/Commands/States.antt =====
-- crates/watchwoman/src/commands/state.rs: the states that clients assert on a root.
use watchwoman.Base.{Option, none, some, [], ◌∷◌, nat_eq, list_eq}
use watchwoman.Base.Text.{Text, ascii}
use watchwoman.Protocol.Value.{Value, Items, string, object, get_field}
use watchwoman.Daemon.Root.{Root}
use watchwoman.Daemon.Root.Direct.{assert_state, retract_state}
use watchwoman.Daemon.State.{DaemonState}
use watchwoman.Query.Expr.Parse.{second, str_of}
use watchwoman.Commands.Outcome.{
  Host, CommandResult, done, failed, bad_args, obj, put_back, with_root,
}

-- The second argument: a string, or an object with a name.
abbrev pub state_name : Option Value → Option Text
state_name (some (string s)) = some s
state_name (some (object o)) = str_of (get_field o (ascii "name"))
state_name _ = none

abbrev pub with_name :
    Text
    → Option Text
    → (Text → DaemonState × CommandResult)
    → DaemonState
    → DaemonState × CommandResult
with_name message none command s = (s, failed (bad_args message))
with_name message (some name) command s = command name

abbrev pub change_states :
    Text → (Root → Text → Root) → Items → DaemonState → Text → Root → DaemonState × CommandResult
change_states key change args s path r =
    with_name (ascii "expected a state name") (state_name (second args))
      (λ name. (put_back s path (change r name), done (obj ((key, string name) ∷ [])))) s

unfoldable pub state_enter : Host → DaemonState → Items → DaemonState × CommandResult
state_enter host s args =
    with_root host s args (ascii "expected a root path")
      (change_states (ascii "state-enter") assert_state args)

unfoldable pub state_leave : Host → DaemonState → Items → DaemonState × CommandResult
state_leave host s args =
    with_root host s args (ascii "expected a root path")
      (change_states (ascii "state-leave") retract_state args)
