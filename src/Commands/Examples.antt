-- ===== src/Commands/Examples.antt =====
-- Commands at a daemon with one root, and the theorems about them on it.
use watchwoman.Base.{
  ◌+◌, ◌^◌, ◌<◌, ◌≡◌, refl, true, false, none, some, Option, [], ◌∷◌, arith, nat_eq, list_eq,
  filter, ◌==◌, ◌&&◌, Bool-cases, inl, inr, subst, ◌↔◌, ◌≢◌,
}
use watchwoman.Base.Map
use watchwoman.Base.Map.{Unique}
use watchwoman.Base.Text.{ascii}
use watchwoman.Protocol.Value.{Value, string, array, no_items, item}
use watchwoman.Daemon.Watch.{Trigger, default_ignores, json_name}
use watchwoman.Daemon.Entry.{Metadata}
use watchwoman.Daemon.Root
use watchwoman.Daemon.Root.{Root, mark_missing}
use watchwoman.Daemon.Root.Examples.{seen, seen-IsRoot, ticks-seen}
use watchwoman.Daemon.State
use watchwoman.Daemon.State.{DaemonState}
use watchwoman.Daemon.Watcher.{Nodes, no_nodes, node, initial_scan}
use watchwoman.Daemon.Watcher.Scope.{initial_scan-filter, is_listed}
use watchwoman.Query.Run.Examples.{nothing}
use watchwoman.Protocol.Json.Examples.{serde}
use watchwoman.Commands.Info.{Process, health_of, gone, unused}
use watchwoman.Commands.Info.Reaping.{IsSmall, health_of-swept, swept-ne-gone}
use watchwoman.Daemon.State.Gc.{swept}
use watchwoman.Commands.Outcome.{Host, done, put_back}
use watchwoman.Commands.Triggers.{parse_trigger, trigger_to_value}
use watchwoman.Commands.Triggers.RoundTrip.{parse_trigger-trigger_to_value}
use watchwoman.Commands.Watches.{resolve_project_root}
use watchwoman.Commands.Watches.Project.{IsProjectRoot, resolve_project_root-IsProjectRoot}
use watchwoman.Commands.Dispatch.{Reports, dispatch}
use watchwoman.Commands.Dispatch.Kept.{Kept, HasRoom, put_back-Kept}
use watchwoman.Commands.Dispatch.Sound.{HasVersion, dispatch-Kept, dispatch-HasVersion}

-- A disk with one marked directory.
abbrev pub host : Host
host = record {
  env = nothing;
  canonicalize = λ p. some p;
  disk = λ p. no_nodes;
  now = 1_700_000_100;
  pid = 4242;
  surroundings = λ p. record {
    now = 1_700_000_100;
    process_id = 4242;
    dir = some true;
    ignores = default_ignores;
    jj_events = false;
    scanned = [];
    rescanned = [];
    persisted = [];
    watched = true;
  };
  exists = λ dir marker. dir == ascii "/repo" && marker == ascii ".git";
  watcher = ascii "inotify";
}

abbrev process : Process
process = record {
  serde = serde;
  config_file = λ path. none;
  sock_path = ascii "/tmp/sock";
  version = ascii "0.1";
  watcher_capability = ascii "watcher-inotify";
  getrusage = none;
  rss = none;
  footprint = none;
  allocator = ascii "system";
  allocated = none;
  active = none;
  mapped = none;
  arena_bytes = λ path. 0;
  entry_size = 96;
  uptime_seconds = 0;
  started_at_unix = 0;
}

abbrev pub reports : Reports
reports = record {
  process = process;
  error_text = λ e. [];
  stale_secs = 3600;
  is_dir = λ path. true;
}

abbrev pub daemon : DaemonState
daemon = put_back State.new (ascii "/repo") seen

daemon-Kept : Kept daemon
unfolding Map.get
daemon-Kept =
    put_back-Kept State.new (ascii "/repo") seen
      (record { unique = tt; sound = λ path r found. cc }) seen-IsRoot

abbrev RoomOf : Option Root → Type 0
RoomOf none = Unit
RoomOf (some r) = r.clock.ticks + 1 < 2 ^ 64

daemon-HasRoom : HasRoom daemon
unfolding Map.get Map.insert
daemon-HasRoom path r found = elim (Bool-cases (ascii "/repo" == path)) [
  | inl here ↦ subst RoomOf (rw here at found) (omega (arith, ticks-seen))
  | inr there ↦ let gone : none ≡ some r = rw there at found in cc
]

abbrev clock_command : Value
clock_command = array (item (string (ascii "clock")) (item (string (ascii "/repo")) no_items))

dispatch-Kept_example : Kept (dispatch host reports daemon clock_command).0
dispatch-Kept_example = dispatch-Kept host reports daemon clock_command daemon-Kept daemon-HasRoom

dispatch-HasVersion_example : HasVersion (dispatch host reports daemon clock_command).1
dispatch-HasVersion_example =
    dispatch-HasVersion host reports daemon clock_command daemon-Kept daemon-HasRoom

abbrev make : Trigger
make = record {
  name = ascii "build";
  command = ascii "make" ∷ [];
  expression = array (item (string (ascii "exists")) no_items);
  append_files = true;
  stdin = some json_name;
  max_files_stdin = some 100;
}

parse_trigger-trigger_to_value_example : parse_trigger (trigger_to_value make) ≡ done make
parse_trigger-trigger_to_value_example = parse_trigger-trigger_to_value make (omega arith)

resolve_project_root-IsProjectRoot_example :
    IsProjectRoot host
      (ascii "repo" ∷ ascii "src" ∷ [])
      (resolve_project_root host (ascii "repo" ∷ ascii "src" ∷ []))
resolve_project_root-IsProjectRoot_example =
    resolve_project_root-IsProjectRoot host (ascii "repo" ∷ ascii "src" ∷ [])

-- A scan that leaves `.git` shallow.
abbrev pub directory : Metadata
directory = record {
  is_symlink = false;
  is_dir = true;
  is_file = false;
  is_block_device = false;
  is_char_device = false;
  is_fifo = false;
  is_socket = false;
  len = 4096;
  mode = 16_877;
  uid = 1000;
  gid = 1000;
  ino = 7;
  dev = 1;
  nlink = 3;
  modified = none;
  created = none;
}

abbrev disk : Nodes
disk =
    node (ascii ".git") (some directory) none
      (node (ascii "refs") (some directory) none
        (node (ascii "heads") (some directory) none no_nodes no_nodes) no_nodes)
      no_nodes

initial_scan-filter_example :
    initial_scan default_ignores disk
    ≡ filter (is_listed default_ignores) (initial_scan (record { dirs = []; vcs = [] }) disk)
initial_scan-filter_example = initial_scan-filter default_ignores disk

abbrev idle_root : Root
idle_root = Root.new (ascii "/repo") 1 default_ignores false 1_700_000_000 4242

idle-IsSmall : IsSmall 3600 1_700_004_000 idle_root
unfolding Root.new
idle-IsSmall = record {
  stale_small = omega arith;
  now_small = omega arith;
  subs_small = omega arith;
  triggers_small = omega arith;
  misses_small = omega arith;
}

health_of-swept_example :
    (health_of 3600 1_700_004_000 true idle_root ≡ unused)
    ↔ ((true ≡ true) × (swept 3600 1_700_004_000 true idle_root ≡ none))
health_of-swept_example = health_of-swept 3600 1_700_004_000 true idle_root idle-IsSmall

swept-ne-gone_example : health_of 3600 1_700_004_000 false (mark_missing idle_root).0 ≢ gone
unfolding swept mark_missing Root.new
swept-ne-gone_example =
    swept-ne-gone 3600 1_700_004_000 false idle_root (mark_missing idle_root).0 3600 1_700_004_000
      false refl
