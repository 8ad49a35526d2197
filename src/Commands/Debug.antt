-- ===== src/Commands/Debug.antt =====
-- crates/watchwoman/src/commands/debug.rs.
use watchwoman.Base.{ℕ, ◌+◌, true, List, [], ◌∷◌, ◌++◌, if◌then◌else◌, length, is_some}
use watchwoman.Base.Text.{Text, ascii}
use watchwoman.Protocol.Value.{
  Value, Items, Fields, bool, string, array, object, no_items, item, no_fields, insert_field,
}
use watchwoman.Daemon.Clock.{Clock, encode}
use watchwoman.Daemon.Watch.{SubscriptionSpec}
use watchwoman.Daemon.Tree
use watchwoman.Daemon.Root.{Root, invalidate_jj_events, seed, prune_tombstones, clock_string}
use watchwoman.Daemon.State.{DaemonState, list_roots}
use watchwoman.Query.Field.{int_of}
use watchwoman.Commands.Outcome.{
  Host, CommandResult, done, obj, text_value, text_values, put_back, scan, with_root,
}

abbrev pub resolve :
    Host
    → DaemonState
    → Items
    → (DaemonState → Text → Root → DaemonState × CommandResult)
    → DaemonState × CommandResult
resolve host s args command = with_root host s args (ascii "debug command requires a root") command

abbrev pub recrawled : Root → ℕ → Value
recrawled r count = obj (
    (ascii "recrawled", bool true)
    ∷ (ascii "root", text_value r.path)
    ∷ (ascii "files", int_of count)
    ∷ [])

-- With an event index it starts again; a full index is seeded from a scan.
abbrev pub recrawl_root : Host → DaemonState → Text → Root → DaemonState × CommandResult
recrawl_root host s path r =
    let (r', event) = invalidate_jj_events r in
    if is_some event
    then (put_back s path r', done (recrawled r' 0))
    else (let entries = scan host r' in
        (put_back s path (seed r' entries).0, done (recrawled r' (length entries))))

unfoldable pub recrawl : Host → DaemonState → Items → DaemonState × CommandResult
recrawl host s args = resolve host s args (recrawl_root host)

abbrev pub inject_root : DaemonState → Text → Root → DaemonState × CommandResult
inject_root s path r =
    let (r', event) = invalidate_jj_events r in
    (put_back s path r', done (obj ((ascii "injected", bool (is_some event)) ∷ [])))

unfoldable pub inject_drop : Host → DaemonState → Items → DaemonState × CommandResult
inject_drop host s args = resolve host s args inject_root

-- The loop over the roots, with what it freed.
unfoldable pub prune_all : List (Text × Root) → List (Text × Root) × ℕ
prune_all [] = ([], 0)
prune_all ((path, r) ∷ roots) =
    let (r', watermark, removed) = prune_tombstones r in
    let (rest, freed) = prune_all roots in ((path, r') ∷ rest, removed + freed)

unfoldable pub ageout : DaemonState → DaemonState × CommandResult
ageout s =
    let (roots, freed) = prune_all s.roots in
    (
      record s { roots = roots },
      done (obj ((ascii "ageout", bool true) ∷ (ascii "files", int_of freed) ∷ [])),
    )

-- A command that only reads.
abbrev pub reading : (Root → Value) → DaemonState → Text → Root → DaemonState × CommandResult
reading report s path r = (s, done (report r))

abbrev pub cursor_fields : Clock → Fields → List (Text × ℕ) → Fields
cursor_fields clock m [] = m
cursor_fields clock m ((name, t) ∷ cursors) =
    cursor_fields clock (insert_field m (ascii "n:" ++ name) (string (encode clock t))) cursors

unfoldable pub show_cursors : Host → DaemonState → Items → DaemonState × CommandResult
show_cursors host s args =
    resolve host s args (
      reading λ r. obj ((ascii "cursors", object (cursor_fields r.clock no_fields r.cursors)) ∷ []))

abbrev pub state_items : List Text → Items
state_items [] = no_items
state_items (s ∷ ss) = item (string s) (state_items ss)

unfoldable pub get_asserted_states : Host → DaemonState → Items → DaemonState × CommandResult
get_asserted_states host s args = resolve host s args (
    reading λ r. obj (
      (ascii "root", text_value r.path)
      ∷ (ascii "states", array (state_items r.asserted_states))
      ∷ []))

abbrev pub subscription_items : List (Text × SubscriptionSpec) → Items
subscription_items [] = no_items
subscription_items ((name, spec) ∷ subs) =
    item (obj ((ascii "name", string spec.name) ∷ (ascii "query", spec.query) ∷ []))
      (subscription_items subs)

unfoldable pub get_subscriptions : Host → DaemonState → Items → DaemonState × CommandResult
get_subscriptions host s args =
    resolve host s args
      (reading λ r. obj ((ascii "subscriptions", array (subscription_items r.subscriptions)) ∷ []))

unfoldable pub root_status : Host → DaemonState → Items → DaemonState × CommandResult
root_status host s args = resolve host s args (
    reading λ r. obj (
      (ascii "root", text_value r.path)
      ∷ (ascii "num_files", int_of (Tree.len r.tree))
      ∷ (ascii "clock", string (clock_string r))
      ∷ []))

unfoldable pub status : Host → DaemonState → DaemonState × CommandResult
status host s = (
  s,
  done (
      obj (
        (ascii "roots", array (text_values (list_roots s))) ∷ (ascii "pid", int_of host.pid) ∷ [])),
)

unfoldable pub watcher_info : Host → DaemonState → Items → DaemonState × CommandResult
watcher_info host s args = resolve host s args (
    reading
      λ r. obj ((ascii "root", text_value r.path) ∷ (ascii "watcher", string host.watcher) ∷ []))

unfoldable pub contenthash : Host → DaemonState → Items → DaemonState × CommandResult
contenthash host s args =
    resolve host s args
      (reading λ r. obj ((ascii "root", text_value r.path) ∷ (ascii "enabled", bool true) ∷ []))
