-- ===== src/Commands/Subscribe/Examples.antt =====
-- A subscription to names, on a root whose file is seen and goes.
use watchwoman.Base.{ℕ, ◌≡◌, refl, true, none, some, List, [], ◌∷◌, arith, nat_eq, list_eq}
use watchwoman.Base.Map
use watchwoman.Base.Text.{ascii}
use watchwoman.Protocol.Value.{
  string, array, object, no_items, item, no_fields, field, get_field, insert_field,
}
use watchwoman.Daemon.Clock
use watchwoman.Daemon.Clock.{Clock, bump, encode}
use watchwoman.Daemon.Clock.Laws.{IsClock}
use watchwoman.Daemon.Entry.{missing}
use watchwoman.Daemon.Tree.{get, record_signal, mark_gone, signal_entry, gone_entry}
use watchwoman.Daemon.Root.Visible.{changed_since}
use watchwoman.Protocol.Utf8.{from_utf8_lossy}
use watchwoman.Query.Paths.{file_name, path_bytes}
use watchwoman.Query.Expr.{eval}
use watchwoman.Base.Text.{strip_prefix}
use watchwoman.Daemon.Root
use watchwoman.Daemon.Root.{
  Root, PathChange, remove, apply_changes, apply_all, apply_change, changed_paths, add_subscription,
}
use watchwoman.Daemon.Root.Examples.{lib_rs, seen, seen-IsRoot, ticks-seen}
use watchwoman.Query.Expr.Parse.{ok}
use watchwoman.Query.Field
use watchwoman.Query.Field.{parse_list, parse_items, render_row, render}
use watchwoman.Query.Generator.{from_spec, accept}
use watchwoman.Query.Run.{Spec, parse_spec, files_of, row_of, is_cookie}
use watchwoman.Query.Run.Examples.{nothing, names_since}
use watchwoman.Commands.Examples.{host}
use watchwoman.Commands.Subscribe.{Subscriber, since_spec, run_push_loop, subscribe_fence}
use watchwoman.Commands.Subscribe.Covered.{
  Feed, Covered, FeedReached, started, then_step, batch, FeedReached-Covered, after_batch,
}
use watchwoman.Commands.Subscribe.Delivery.{run_push_loop-Delivers, Delivers}
use watchwoman.Commands.Subscribe.Fence.{subscribe_fence-apply_changes}

abbrev names : Subscriber
names = record {
  name = ascii "names";
  root_path = ascii "/repo";
  raw_spec =
      object (field (ascii "fields") (array (item (string (ascii "name")) no_items)) no_fields);
}

abbrev quiet : Feed
quiet = record { root = seen; waiting = []; last_tick = seen.clock.ticks }

quiet-Covered : Covered quiet
quiet-Covered = record { sound = seen-IsRoot; seen = seen-IsRoot.timed }

abbrev removal : List PathChange
removal = remove lib_rs ∷ []

abbrev busy : Feed
busy = after_batch quiet 0 removal

removed : FeedReached nothing names quiet busy
removed = then_step (started quiet) (batch quiet 0 removal (omega (arith, ticks-seen)))

FeedReached-Covered_example : Covered busy
FeedReached-Covered_example = FeedReached-Covered removed quiet-Covered

-- The query that the loop makes after a tick.
abbrev asked : ℕ → Spec nothing
asked t =
    let since = some (Clock.parse (encode busy.root.clock t)) in
    record (names_since since) {
      generators = record { suffix = none; glob = none; paths = none; since = since };
    }

asked_lem :
    (t : ℕ)
    → parse_spec nothing (since_spec names.raw_spec (encode busy.root.clock t)) ≡ ok (asked t)
unfolding parse_spec since_spec get_field insert_field parse_list parse_items Field.parse from_spec
asked_lem t = refl

busy-IsClock : IsClock busy.root.clock
unfolding apply_changes bump Root.new Clock.new
busy-IsClock = record {
  ticks = omega arith;
  root_number = omega arith;
  start_time = omega arith;
  pid = omega arith;
}

run_push_loop-Delivers_example :
    Delivers nothing names busy.root.clock asked asked_lem 2 busy.root
      (run_push_loop nothing names 2 busy.root busy.waiting)
unfolding apply_changes bump Root.new Clock.new apply_all apply_change changed_paths record_signal
    mark_gone Map.get Map.insert get files_of row_of is_cookie accept eval file_name strip_prefix
    from_utf8_lossy path_bytes render_row render signal_entry missing gone_entry
run_push_loop-Delivers_example =
    run_push_loop-Delivers nothing names busy.root.clock asked asked_lem 2 busy.root busy.waiting
      refl FeedReached-Covered_example busy-IsClock (omega arith) (omega arith) (omega arith) lib_rs
      3 refl (omega arith) refl

abbrev late_root : Root
late_root = (subscribe_fence (apply_changes seen 0 removal).0 (ascii "names") names.raw_spec).0

subscribe_fence-apply_changes_example :
    (changed_since seen.clock.ticks (get late_root.tree lib_rs) ≡ true)
    × (files_of nothing late_root
          (names_since none)
          none
          (some late_root.clock.ticks)
          late_root.tree.entries
        ≡ no_items)
unfolding subscribe_fence add_subscription apply_changes bump Root.new Clock.new apply_all
    apply_change changed_paths record_signal Map.get Map.insert get
subscribe_fence-apply_changes_example =
    subscribe_fence-apply_changes host seen (ascii "names") names.raw_spec 0 removal
      (names_since none) lib_rs seen-IsRoot (omega (arith, ticks-seen)) refl refl refl
