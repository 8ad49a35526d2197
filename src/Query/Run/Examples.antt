-- ===== src/Query/Run/Examples.antt =====
-- Queries on a root whose file is seen and goes, and on a mapping of fields.
use watchwoman.Base.{
  ◌≡◌, refl, true, false, none, some, Option, List, [], ◌∷◌, arith, filter, contains, nat_eq,
  list_eq,
}
use watchwoman.Base.Text.{Text, FilePath, ascii}
use watchwoman.Protocol.Value.{Fields, no_items, object, get_field}
use watchwoman.Daemon.Clock
use watchwoman.Daemon.Clock.{ClockSpec, tick, named, current_string, bump, tick_against}
use watchwoman.Daemon.Clock.Laws.{IsClock}
use watchwoman.Daemon.Entry.{FileEntry, missing}
use watchwoman.Daemon.Root
use watchwoman.Daemon.Root.{
  Root, PathChange, remove, signal, apply_changes, changed_paths, set_cursor, invalidate_jj_events,
}
use watchwoman.Daemon.Root.Invariant.{changes_applied, invalidated}
use watchwoman.Daemon.Root.Steps.{Reached, fresh, stepped}
use watchwoman.Daemon.Watch.{default_ignores}
use watchwoman.Daemon.Root.Examples.{lib_rs, seen, seen-IsRoot, ticks-seen}
use watchwoman.Query.Examples.{literal}
use watchwoman.Query.Expr.{always}
use watchwoman.Query.Field.{name, size, parse, render_row}
use watchwoman.Query.Field.Laws.{render_row_fields, is_asked, cell, at}
use watchwoman.Query.Run.{
  Environment, Spec, run, files_of, is_fresh, resolve_named_cursor, resolve_scm_set,
}
use watchwoman.Query.Run.Batch.{run_since-apply_changes}
use watchwoman.Query.Run.Quiet.{run_since-run}
use watchwoman.Query.Run.Complete.{run_complete}

-- No file can be read, no program runs.
abbrev pub nothing : Environment
nothing = record {
  engines = literal;
  files = record { contents = λ root rel. none; digest = λ b. b; real_seconds = λ ns. 0 };
  programs = record { run = λ dir program args. none; trim = λ s. s };
}

-- A query for the names of all files, from a clock on.
abbrev pub names_since : Option ClockSpec → Spec nothing
names_since since = record {
  expression = always;
  fields = name ∷ [];
  generators = record { suffix = none; glob = none; paths = none; since = none };
  since = since;
  relative_root = none;
  empty_on_fresh_instance = false;
  always_include_directories = true;
  dedup_results = false;
  omit_changed_files = false;
  case_sensitive = true;
}

pub seen-IsClock : IsClock seen.clock
unfolding apply_changes bump Root.new Clock.new
seen-IsClock = record {
  ticks = omega arith;
  root_number = omega arith;
  start_time = omega arith;
  pid = omega arith;
}

abbrev batch : List PathChange
batch = remove lib_rs ∷ []

abbrev gone : Root
gone = (apply_changes seen 0 batch).0

abbrev since_seen : Spec nothing
since_seen = names_since (some (Clock.parse (current_string seen.clock)))

run_since-apply_changes_example :
    ((run nothing gone since_seen).1.is_fresh_instance ≡ false)
    × ((run nothing gone since_seen).1.files
        ≡ files_of nothing gone since_seen none none (
            filter
              (λ (q : FilePath × FileEntry). contains (changed_paths batch) q.0)
              gone.tree.entries))
unfolding apply_changes Root.new
run_since-apply_changes_example =
    run_since-apply_changes nothing since_seen seen 0 batch seen-IsRoot (omega (arith, ticks-seen))
      (omega (arith, ticks-seen)) refl seen-IsClock refl

abbrev first : Spec nothing
first = names_since none

abbrev next : Spec nothing
next = names_since (some (Clock.parse (run nothing seen first).1.clock))

run_since-run_example :
    ((run nothing (run nothing seen first).0 next).1.is_fresh_instance ≡ false)
    × ((run nothing (run nothing seen first).0 next).1.files ≡ no_items)
run_since-run_example =
    run_since-run nothing seen seen-IsRoot (omega (arith, ticks-seen)) first next seen-IsClock refl

render_row_fields_example :
    (o : Fields) × (render_row nothing.files
        (ascii "/repo")
        lib_rs
        (missing 3)
        seen.clock
        (name ∷ size ∷ [])
      ≡ object o)
    × ((k : Text)
        → get_field o k
          ≡ cell
              (is_asked (name ∷ size ∷ []) k)
              (at nothing.files (ascii "/repo") lib_rs (missing 3) seen.clock)
              (parse k)
              none)
render_row_fields_example =
    render_row_fields nothing.files (ascii "/repo") lib_rs (missing 3) seen.clock (name ∷ size ∷ [])
      refl

-- An event index that is dropped between two batches, and a clock from before.
abbrev events : Root
events = Root.new (ascii "/repo") 1 default_ignores true 1_700_000_000 4242

abbrev dropped : Root
dropped = (invalidate_jj_events (apply_changes events 0 (signal lib_rs ∷ [])).0).0

abbrev renewed : Root
renewed = (apply_changes dropped 0 (signal lib_rs ∷ [])).0

renewed-Reached : Reached renewed
unfolding apply_changes invalidate_jj_events bump Root.new Clock.new
renewed-Reached =
    stepped
      (stepped
        (stepped (fresh (ascii "/repo") 1 default_ignores true 1_700_000_000 4242)
          (changes_applied events 0 (signal lib_rs ∷ []) (omega arith)))
        (invalidated (apply_changes events 0 (signal lib_rs ∷ [])).0 (omega arith)))
      (changes_applied dropped 0 (signal lib_rs ∷ []) (omega arith))

abbrev since_dropped : Spec nothing
since_dropped = names_since (some (tick 2))

renewed-is_fresh : (run nothing renewed since_dropped).1.is_fresh_instance ≡ true
unfolding run is_fresh resolve_named_cursor apply_changes invalidate_jj_events bump Root.new
    Clock.new tick_against
renewed-is_fresh = refl

run_complete_example :
    (run nothing renewed since_dropped).1.files
    ≡ files_of nothing renewed since_dropped
        (resolve_scm_set nothing renewed (some (tick 2)))
        none
        renewed.tree.entries
run_complete_example =
    run_complete nothing since_dropped renewed renewed-Reached renewed-is_fresh refl
