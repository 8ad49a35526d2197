-- ===== src/Commands/Outcome.antt =====
-- crates/watchwoman/src/commands.rs: results of commands, and the lookup of a root that they share. What
-- they ask of libraries, of the disk and of the system clock is in `Host`.
use watchwoman.Base.{ℕ, Bool, Option, none, some, List, [], ◌∷◌, nat_eq, list_eq}
use watchwoman.Base.Map
use watchwoman.Base.Text.{Text}
use watchwoman.Protocol.Value.{
  Value, Items, Fields, object, string, no_items, item, no_fields, insert_field,
}
use watchwoman.Protocol.Utf8.{from_utf8_lossy}
use watchwoman.Daemon.Root.{Root, Scanned}
use watchwoman.Daemon.State
use watchwoman.Daemon.State.{DaemonState, Surroundings}
use watchwoman.Daemon.Watcher.{Nodes, initial_scan}
use watchwoman.Query.Expr.Parse.{BadArgs, Parsed, ok, bad, first, str_of}
use watchwoman.Query.Run.{Environment}

-- `bad_spec` is a `BadArgs` of the queries.
pub data CommandError : Type 0 where
  unknown : Text → CommandError
  bad_args : Text → CommandError
  bad_spec : BadArgs → CommandError
  unknown_root : Text → CommandError
  internal : CommandError

pub data Result (A : Type 0) : Type 0 where
  done : A → Result A
  failed : CommandError → Result A

abbrev pub CommandResult : Type 0
CommandResult = Result Value

-- `canonicalize` is `std::fs::canonicalize`, `disk` the tree below a root, `now` the seconds since the
-- epoch, `surroundings` what a registration meets at a path, `exists` whether a directory has a name,
-- and `watcher` the name of the platform's watcher.
pub record Host : Type 1 where
  pub env : Environment
  pub canonicalize : Text → Option Text
  pub disk : Text → Nodes
  pub now : ℕ
  pub pid : ℕ
  pub surroundings : Text → Surroundings
  pub exists : Text → Text → Bool
  pub watcher : Text

-- `obj([…])`.
abbrev pub obj_from : Fields → List (Text × Value) → Fields
obj_from m [] = m
obj_from m ((k, v) ∷ entries) = obj_from (insert_field m k v) entries

abbrev pub obj : List (Text × Value) → Value
obj entries = object (obj_from no_fields entries)

abbrev pub from_parsed : {A : Type 0} → Parsed A → Result A
from_parsed (ok a) = done a
from_parsed (bad e) = failed (bad_spec e)

abbrev pub or_failed : {A : Type 0} → Option A → CommandError → Result A
or_failed none e = failed e
or_failed (some a) e = done a

abbrev pub text_value : Text → Value
text_value s = string (from_utf8_lossy s)

abbrev pub text_values : List Text → Items
text_values [] = no_items
text_values (s ∷ ss) = item (text_value s) (text_values ss)

-- `fs::canonicalize(p).unwrap_or_else(|_| PathBuf::from(p))`.
abbrev pub canonical : Host → Text → Text
canonical host p = elim (host.canonicalize p) [ none ↦ p | some c ↦ c ]

-- `initial_scan(&root.path, &root.ignores)`.
abbrev pub scan : Host → Root → List Scanned
scan host r = initial_scan r.ignores (host.disk r.path)

-- A root in place of the one at its path.
abbrev pub put_back : DaemonState → Text → Root → DaemonState
put_back s path r = record s { roots = Map.insert s.roots path r }

-- What a command does with the root that its first argument names: `message` is the error if there is
-- none, and the lookup touches the root.
abbrev pub at_found :
    DaemonState × Option Root
    → Text
    → (DaemonState → Text → Root → DaemonState × CommandResult)
    → DaemonState × CommandResult
at_found (s, none) path command = (s, failed (unknown_root path))
at_found (s, some r) path command = command s path r

abbrev pub at_root :
    Host
    → DaemonState
    → Text
    → (DaemonState → Text → Root → DaemonState × CommandResult)
    → DaemonState × CommandResult
at_root host s path command = at_found (State.root s path host.now) path command

unfoldable pub with_root :
    Host
    → DaemonState
    → Items
    → Text
    → (DaemonState → Text → Root → DaemonState × CommandResult)
    → DaemonState × CommandResult
with_root host s args message command = elim (str_of (first args)) [
  | none ↦ (s, failed (bad_args message))
  | some p ↦ at_root host s (canonical host p) command
]
