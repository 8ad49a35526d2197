-- ===== src/Commands/Triggers/Loop.antt =====
-- crates/watchwoman/src/commands/trigger.rs: the loop that starts a trigger's command when its query
-- lists files. What a started process does is left out.
use watchwoman.Base.{
  ℕ, Bool, true, false, ◌&&◌, not, Option, none, some, List, [], ◌∷◌, ◌++◌, leb, nat_eq, list_eq,
  if◌then◌else◌, length, take,
}
use watchwoman.Base.Map
use watchwoman.Base.Text.{Text, ascii}
use watchwoman.Protocol.Json.{
  JsonItems, SerdeJson, j_string, j_array, j_object, no_elements, element, no_entries, entry,
}
use watchwoman.Daemon.Clock
use watchwoman.Daemon.Clock.{encode, tick_against}
use watchwoman.Daemon.Watch.{TickEvent, Trigger, TriggerStdin, name_per_line, json_name, query_spec}
use watchwoman.Daemon.Root.{Root}
use watchwoman.Query.Expr.Parse.{Parsed, ok, bad}
use watchwoman.Query.Run.{Environment, Spec, QueryResult, parse_spec, run}
use watchwoman.Commands.Triggers.{collect_names}

-- A process that is tried to start: the program, its arguments, its directory, and its input if it has any.
pub record Launch : Type 0 where
  pub exe : Text
  pub args : List Text
  pub current_dir : Text
  pub input : Option (List ℕ)

abbrev cap_or : Option ℕ → ℕ → ℕ
cap_or none n = n
cap_or (some cap) n = cap

-- At most as many names as the trigger is to pass.
abbrev pub capped : Trigger → List Text → List Text
capped trigger filenames = take (cap_or trigger.max_files_stdin (length filenames)) filenames

unfoldable pub lines_of : List Text → List ℕ
lines_of [] = []
lines_of (name ∷ names) = name ++ b'\n' ∷ lines_of names

module _ (serde : SerdeJson) where
  -- `[{"name": n}, …]`.
  unfoldable pub name_rows : List Text → JsonItems serde.Number
  name_rows [] = no_elements
  name_rows (name ∷ names) =
      element (j_object (entry (ascii "name") (j_string name) no_entries)) (name_rows names)

  unfoldable pub input_of : Option TriggerStdin → List Text → Option (List ℕ)
  input_of none names = none
  input_of (some name_per_line) names = some (lines_of names)
  input_of (some json_name) names = some (serde.to_writer (j_array (name_rows names)))

  -- No process where the command is empty.
  unfoldable pub fire : Trigger → Text → List Text → List Text → List Launch
  fire trigger root filenames [] = []
  fire trigger root filenames (exe ∷ base_args) =
      record {
        exe = exe;
        args = base_args ++ (if trigger.append_files then capped trigger filenames else []);
        current_dir = root;
        input = input_of trigger.stdin (capped trigger filenames);
      }
      ∷ []

-- Where the loop goes on from, and what it started.
pub record Fired : Type 0 where
  pub root : Root
  pub last_tick : ℕ
  pub launched : List Launch
  pub running : Bool

abbrev pub is_no_name : List Text → Bool
is_no_name [] = true
is_no_name (n ∷ ns) = false

module _ (serde : SerdeJson) (env : Environment) (root_path : Text) (trigger : Trigger) where
  -- What the loop does with a result, whose clock it goes on from.
  unfoldable pub fire_result : Root → QueryResult → Fired
  fire_result root result =
      let last_tick = tick_against (Clock.parse result.clock) root.clock in
      let filenames = collect_names result.files in
      if is_no_name filenames && not (root.jj_events && result.is_fresh_instance)
      then record { root = root; last_tick = last_tick; launched = []; running = true }
      else record {
        root = root;
        last_tick = last_tick;
        launched = fire serde trigger root_path filenames trigger.command;
        running = true;
      }

  unfoldable pub fire_parsed : ℕ → Root → Parsed (Spec env) → Fired
  fire_parsed last_tick root (bad e) = record {
    root = root;
    last_tick = last_tick;
    launched = [];
    running = false;
  }
  fire_parsed last_tick root (ok parsed) =
      let (root', result) = run env root parsed in fire_result root' result

  -- The body of the loop for an event.
  unfoldable pub on_tick : ℕ → Root → TickEvent → Fired
  on_tick last_tick root ev =
      if not (Map.contains_key root.triggers trigger.name)
      then record { root = root; last_tick = last_tick; launched = []; running = false }
      else if leb ev.tick last_tick
      then record { root = root; last_tick = last_tick; launched = []; running = true }
      else fire_parsed last_tick root
          (parse_spec env (query_spec trigger (encode root.clock last_tick)))

  -- The loop over the events that wait.
  unfoldable pub run_trigger : ℕ → Root → List TickEvent → Fired
  run_trigger last_tick root [] = record {
    root = root;
    last_tick = last_tick;
    launched = [];
    running = true;
  }
  run_trigger last_tick root (ev ∷ evs) =
      let p = on_tick last_tick root ev in
      let q = run_trigger p.last_tick p.root evs in
      if p.running then record q { launched = p.launched ++ q.launched } else p
