-- ===== src/Daemon/Examples.antt =====
-- Runs of the daemon's parts, and their theorems at concrete values.
use watchwoman.Base.{◌≡◌, true, false, some, none, [], ◌∷◌, arith}
use watchwoman.Base.Int.{pos}
use watchwoman.Base.Text.{FilePath, ascii}
use watchwoman.Daemon.Clock
use watchwoman.Daemon.Clock.{Clock, parse, encode, tick_against, bump}
use watchwoman.Daemon.Clock.Laws.{IsClock, parse-encode, tick_against-parse-encode}
use watchwoman.Daemon.Entry.{Metadata}
use watchwoman.Daemon.Tree
use watchwoman.Daemon.Tree.{Tree, upsert, record_gone, get, prune_tombstones_before, gone_entry}
use watchwoman.Daemon.Tree.Counters.{
  IsCounted, Reachable, start, upserted, recorded_gone, Reachable-IsCounted,
}

abbrev clock : Clock
clock = Clock.new 3 1_700_000_000 4242

clock-IsClock : IsClock clock
unfolding Clock.new
clock-IsClock = record {
  ticks = omega arith;
  root_number = omega arith;
  start_time = omega arith;
  pid = omega arith;
}

parse-encode_example :
    parse (encode clock 17) ≡ Clock.full clock.start_time clock.pid clock.root_number 17
parse-encode_example = parse-encode clock 17 clock-IsClock (omega arith)

tick_against-parse-encode_example : tick_against (parse (encode clock 17)) clock ≡ 17
unfolding Clock.new
tick_against-parse-encode_example =
    tick_against-parse-encode clock clock 17 clock-IsClock (omega arith)

regular : Metadata
regular = record {
  is_symlink = false;
  is_dir = false;
  is_file = true;
  is_block_device = false;
  is_char_device = false;
  is_fifo = false;
  is_socket = false;
  len = 12;
  mode = 0o100644;
  uid = 501;
  gid = 20;
  ino = 77;
  dev = 1;
  nlink = 1;
  modified = some (pos 1_700_000_000_000_000_000);
  created = none;
}

abbrev main_rs : FilePath
main_rs = ascii "src" ∷ ascii "main.rs" ∷ []

abbrev lib_rs : FilePath
lib_rs = ascii "src" ∷ ascii "lib.rs" ∷ []

-- A file that is seen at tick 2, and another that goes at tick 3.
abbrev index : Tree
index = record_gone (upsert Tree.new main_rs regular none 2 true 2) lib_rs 3

index-Reachable : Reachable index
index-Reachable = recorded_gone lib_rs 3 (upserted main_rs regular none 2 true 2 start)

Reachable-IsCounted_example : IsCounted index
Reachable-IsCounted_example = Reachable-IsCounted index-Reachable
