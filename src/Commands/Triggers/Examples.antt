-- ===== src/Commands/Triggers/Examples.antt =====
-- A trigger that runs `make` where a file was seen.
use watchwoman.Base.{◌≡◌, refl, true, none, some, [], ◌∷◌, arith}
use watchwoman.Base.Map
use watchwoman.Base.Text.{ascii}
use watchwoman.Protocol.Value.{string, get_field}
use watchwoman.Daemon.Clock
use watchwoman.Daemon.Clock.{encode, bump}
use watchwoman.Daemon.Clock.Laws.{IsClock}
use watchwoman.Daemon.Watch.{TickEvent, Trigger, query_spec}
use watchwoman.Daemon.Root
use watchwoman.Daemon.Root.{Root, install_trigger, apply_changes}
use watchwoman.Daemon.Root.Examples.{seen}
use watchwoman.Query.Expr.Parse.{ok, parse, parse_bare}
use watchwoman.Query.Field
use watchwoman.Query.Field.{parse_list, parse_items}
use watchwoman.Query.Generator.{from_spec}
use watchwoman.Query.Run.{Spec, parse_spec, files_of}
use watchwoman.Query.Run.Examples.{nothing, names_since}
use watchwoman.Protocol.Json.Examples.{serde}
use watchwoman.Commands.Triggers.{collect_names}
use watchwoman.Commands.Triggers.Loop.{run_trigger}
use watchwoman.Commands.Triggers.Once.{fired, run_trigger_once}

abbrev make : Trigger
make = record {
  name = ascii "build";
  command = ascii "make" ∷ [];
  expression = string (ascii "true");
  append_files = true;
  stdin = none;
  max_files_stdin = none;
}

abbrev watched : Root
watched = install_trigger seen make

watched-IsClock : IsClock watched.clock
unfolding install_trigger apply_changes bump Root.new Clock.new
watched-IsClock = record {
  ticks = omega arith;
  root_number = omega arith;
  start_time = omega arith;
  pid = omega arith;
}

abbrev asked : Spec nothing
asked =
    let since = some (Clock.parse (encode watched.clock 1)) in
    record (names_since since) {
      generators = record { suffix = none; glob = none; paths = none; since = since };
    }

asked_lem : parse_spec nothing (query_spec make (encode watched.clock 1)) ≡ ok asked
unfolding parse_spec query_spec get_field parse_list parse_items Field.parse from_spec parse
    parse_bare
asked_lem = refl

abbrev events : TickEvent
events = record { tick = 2; changed = [] }

run_trigger_once_example :
    run_trigger serde nothing (ascii "/repo") make 1 watched (events ∷ [])
    ≡ fired serde make
        (ascii "/repo")
        watched
        (collect_names (files_of nothing watched asked none (some 1) watched.tree.entries))
unfolding install_trigger apply_changes Root.new Map.get Map.insert
run_trigger_once_example =
    run_trigger_once serde nothing (ascii "/repo") make watched refl watched-IsClock 1 asked
      asked_lem (omega arith) (omega arith) (omega arith) events [] (omega arith) tt
