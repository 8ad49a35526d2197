-- ===== src/Commands/Watches.antt =====
-- crates/watchwoman/src/commands/watch.rs: roots come and go.
pub mod Project
use watchwoman.Base.{
  Bool, true, false, Option, none, some, List, [], ◌∷◌, ◌++◌, any, if◌then◌else◌, ◌==◌, nat_eq,
  list_eq,
}
use watchwoman.Base.Text.{Text, FilePath, ascii, split}
use watchwoman.Protocol.Value.{Value, Items, bool, string, array, object}
use watchwoman.Daemon.Root.{Root}
use watchwoman.Daemon.State.{DaemonState, register_root, unregister_root, drain_roots, list_roots}
use watchwoman.Query.Expr.Parse.{first, str_of}
use watchwoman.Query.Paths.{path_bytes}
use watchwoman.Commands.Outcome.{
  Host, CommandResult, done, failed, bad_args, internal, obj, obj_from, text_value, text_values,
  canonical,
}

abbrev pub root_markers : List Text
root_markers =
    ascii ".watchmanconfig"
    ∷ ascii ".git"
    ∷ ascii ".hg"
    ∷ ascii ".svn"
    ∷ ascii ".jj"
    ∷ ascii "package.json"
    ∷ ascii "Cargo.toml"
    ∷ ascii "mix.exs"
    ∷ ascii "pyproject.toml"
    ∷ ascii "go.mod"
    ∷ []

-- A canonical path: a slash, and its components.
abbrev pub absolute : FilePath → Text
absolute cs = b'/' ∷ path_bytes cs

unfoldable pub components : List Text → FilePath
components [] = []
components (piece ∷ pieces) =
    let rest = components pieces in if piece == [] then rest else piece ∷ rest

-- A reversed path, and back in front of others.
abbrev pub onto : FilePath → FilePath → FilePath
onto [] cs = cs
onto (c ∷ up) cs = onto up (c ∷ cs)

abbrev pub relative : FilePath → Option FilePath
relative [] = none
relative (c ∷ cs) = some (c ∷ cs)

abbrev pub relative_entry : Option FilePath → List (Text × Value)
relative_entry none = []
relative_entry (some rel) = (ascii "relative_path", text_value (path_bytes rel)) ∷ []

module _ (host : Host) where
  unfoldable pub has_root_marker : FilePath → Bool
  has_root_marker dir = any (λ m. host.exists (absolute dir) m) root_markers

  -- The loop upwards from a directory, whose components come in reverse; `below` is what `start` has
  -- below it. The top directory has no parent, and is not looked at.
  unfoldable pub climb : FilePath → FilePath → Option (FilePath × FilePath)
  climb [] below = none
  climb (c ∷ up) below =
      let next = climb up (c ∷ below) in
      if has_root_marker (onto (c ∷ up) []) then some (onto (c ∷ up) [], below) else next

  unfoldable pub resolve_project_root : FilePath → FilePath × Option FilePath
  resolve_project_root start = elim (climb (onto start []) []) [
    | none ↦ (start, none)
    | some (dir, below) ↦ (dir, relative below)
  ]

  abbrev pub register : DaemonState → Text → List (Text × Value) → DaemonState × CommandResult
  register s path extra =
      let (s', registered) = register_root s path (host.surroundings path) in
      elim registered [
        | none ↦ (s', failed internal)
        | some r ↦ (
          s',
          done (
              obj (
                (ascii "watch", text_value path) ∷ (ascii "watcher", string host.watcher) ∷ extra)),
        )
      ]

  -- With the canonical path of the first argument.
  abbrev pub at_path :
      DaemonState → Items → (Text → DaemonState × CommandResult) → DaemonState × CommandResult
  at_path s args command = elim (str_of (first args)) [
    | none ↦ (s, failed (bad_args (ascii "expected a path argument")))
    | some p ↦ elim (host.canonicalize p) [ none ↦ (s, failed internal) | some path ↦ command path ]
  ]

  unfoldable pub watch : DaemonState → Items → DaemonState × CommandResult
  watch s args = at_path s args λ path. register s path []

  abbrev pub register_project : DaemonState → Text → DaemonState × CommandResult
  register_project s path =
      let (dir, rel) = resolve_project_root (components (split b'/' path)) in
      register s (absolute dir) (relative_entry rel)

  unfoldable pub watch_project : DaemonState → Items → DaemonState × CommandResult
  watch_project s args = at_path s args λ path. register_project s path

  unfoldable pub watch_del : DaemonState → Items → DaemonState × CommandResult
  watch_del s args = elim (str_of (first args)) [
    | none ↦ (s, failed (bad_args (ascii "expected a path argument")))
    | some p ↦
        let path = canonical host p in
        let (s', removed) = unregister_root s path in
        (s', done (obj ((ascii "watch-del", bool removed) ∷ (ascii "root", text_value path) ∷ [])))
  ]

unfoldable pub watch_list : DaemonState → DaemonState × CommandResult
watch_list s = (s, done (obj ((ascii "roots", array (text_values (list_roots s))) ∷ [])))

unfoldable pub watch_del_all : DaemonState → DaemonState × CommandResult
watch_del_all s =
    let (s', drained) = drain_roots s in
    (s', done (obj ((ascii "roots", array (text_values drained)) ∷ [])))
