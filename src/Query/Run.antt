-- ===== src/Query/Run.antt =====
-- crates/watchwoman/src/query/run.rs: the query executor. What it asks of libraries, of the disk and
-- of other programs is in `Environment`.
pub mod Laws
pub mod Asks
pub mod Batch
pub mod Quiet
pub mod Complete
pub mod Mirrored
pub mod Examples
use watchwoman.Base.{
  ℕ, suc, Bool, true, false, ◌&&◌, ◌||◌, not, Option, none, some, List, [], ◌∷◌, ◌++◌, ltb, leb,
  ◌==◌, nat_eq, list_eq, if◌then◌else◌, length, contains, is_some,
}
use watchwoman.Base.Text.{Text, FilePath, ascii}
use watchwoman.Protocol.Utf8.{from_utf8_lossy}
use watchwoman.Protocol.Value.{
  Value, Items, Fields, string, bool, array, object, no_items, item, no_fields, field, get_field,
  as_object, as_bool,
}
use watchwoman.Daemon.Clock
use watchwoman.Daemon.Clock.{ClockSpec, tick, named, full, scm, tick_against, encode, current_tick}
use watchwoman.Daemon.Entry.{FileEntry, FileKind, dir, as_wire_str}
use watchwoman.Daemon.Tree.{Tree}
use watchwoman.Daemon.Root.{Root, cursor_tick, set_cursor}
use watchwoman.Daemon.Scm
use watchwoman.Daemon.Scm.{Programs}
use watchwoman.Query.Paths.{file_name, strip_path}
use watchwoman.Query.Expr
use watchwoman.Query.Expr.{
  Engines, Expr, Exprs, MatchScope, wholename, name, dirname, negated, any_of, no_exprs, expr,
  always, EvalCtx, eval, starts_with,
}
use watchwoman.Query.Expr.Parse
use watchwoman.Query.Expr.Parse.{Parsed, ok, bad, ◌>>=◌, or_bad, str_of, spec_not_object}
use watchwoman.Query.Field
use watchwoman.Query.Field.{Field, Files, parse_list, default_fields, render_row}
use watchwoman.Query.Generator.{Generators, from_spec, clock_of, accept}

pub record Environment : Type 1 where
  pub engines : Engines
  pub files : Files
  pub programs : Programs

-- `WATCHMAN_COMPAT_VERSION`.
abbrev pub watchman_compat_version : Text
watchman_compat_version = ascii "2026.03.30.00"

pub record QuerySpec (Glob Regex : Type 0) : Type 0 where
  pub expression : Expr Glob Regex
  pub fields : List Field
  pub generators : Generators Glob
  pub since : Option ClockSpec
  pub relative_root : Option Text
  pub empty_on_fresh_instance : Bool
  pub always_include_directories : Bool
  pub dedup_results : Bool
  pub omit_changed_files : Bool
  pub case_sensitive : Bool

pub record QueryResult : Type 0 where
  pub files : Items
  pub clock : Text
  pub is_fresh_instance : Bool

-- A Boolean of the spec, or its default.
abbrev flag : Option Value → Bool → Bool
flag none default = default
flag (some (bool b)) default = b
flag (some _) default = default

abbrev always_include_dirs_default : Bool
always_include_dirs_default = true

abbrev is_git_and_jj : List Text → Bool
is_git_and_jj names =
    length names == 2 && contains names (ascii ".git") && contains names (ascii ".jj")

module _ {Glob Regex : Type 0} where
  abbrev is_vcs_names : Expr Glob Regex → Bool
  is_vcs_names (name names wholename case_sensitive) = is_git_and_jj names
  is_vcs_names _ = false

  abbrev is_dirname : Text → Expr Glob Regex → Bool
  is_dirname d (dirname path case_sensitive) = path == d
  is_dirname d _ = false

  abbrev any_expr : (Expr Glob Regex → Bool) → Exprs Glob Regex → Bool
  any_expr p no_exprs = false
  any_expr p (expr e es) = p e || any_expr p es

  abbrev length_exprs : Exprs Glob Regex → ℕ
  length_exprs no_exprs = 0
  length_exprs (expr e es) = suc (length_exprs es)

  abbrev are_vcs_excludes : Exprs Glob Regex → Bool
  are_vcs_excludes excludes =
      if not (length_exprs excludes == 3)
      then false
      else any_expr is_vcs_names excludes
        && any_expr (is_dirname (ascii ".git")) excludes
        && any_expr (is_dirname (ascii ".jj")) excludes

  unfoldable pub is_jj_fsmonitor_query : Expr Glob Regex → Bool
  is_jj_fsmonitor_query (negated (any_of excludes)) = are_vcs_excludes excludes
  is_jj_fsmonitor_query _ = false

unfoldable pub resolve_named_cursor : Root → Option ClockSpec → Option ℕ × Option Text
resolve_named_cursor root (some (named n)) = (some (cursor_tick root n), some n)
resolve_named_cursor root _ = (none, none)

-- `opt.or_else(…)`.
abbrev pub or_tick : Option ℕ → Option ℕ → Option ℕ
or_tick none t = t
or_tick (some s) t = some s

abbrev pub tick_of_spec : Root → Option ClockSpec → Option ℕ
tick_of_spec root none = none
tick_of_spec root (some s) = some (tick_against s root.clock)

-- A clock on the tick axis, which can predate what the index still holds.
abbrev pub clock_tick_of : Root → Option ℕ → Option ClockSpec → Option ℕ
clock_tick_of root (some t) s = if ltb 0 t then some t else none
clock_tick_of root none (some (tick t)) = some (tick_against (tick t) root.clock)
clock_tick_of root none (some (full a b c t)) = some (tick_against (full a b c t) root.clock)
clock_tick_of root none _ = none

abbrev is_zero : Option ℕ → Bool
is_zero none = false
is_zero (some t) = t == 0

abbrev is_before : ℕ → Option ℕ → Bool
is_before oldest none = false
is_before oldest (some t) = ltb t oldest

unfoldable pub is_fresh : Root → Option ℕ → Option ℕ → Bool
is_fresh root since_tick clock_tick =
    not (is_some since_tick)
    || (is_zero since_tick && root.jj_events)
    || is_before root.oldest_available_tick clock_tick

-- Whether the loop passes over an entry: it did not change, it is a cookie, or it is a directory that
-- the query leaves out.
abbrev pub is_unchanged : Option ℕ → FileEntry → Bool
is_unchanged none entry = false
is_unchanged (some t) entry = leb entry.oclock t

unfoldable pub is_cookie : FilePath → Bool
is_cookie rel = elim (file_name rel) [
  | none ↦ false
  | some n ↦ starts_with (from_utf8_lossy n) (ascii ".watchman-cookie-")
]

abbrev is_dir_kind : FileKind → Bool
is_dir_kind dir = true
is_dir_kind _ = false

abbrev display_rel_of : Option Text → FilePath → Option FilePath
display_rel_of none rel = some rel
display_rel_of (some base) rel = strip_path base rel

abbrev is_allowed : Option (List FilePath) → FilePath → FilePath → Bool
is_allowed none rel display_rel = true
is_allowed (some allowed) rel display_rel = contains allowed rel || contains allowed display_rel

abbrev advance : Root → Option Text → ℕ → Root
advance root none observed_tick = root
advance root (some n) observed_tick = set_cursor root n observed_tick

module _ (env : Environment) where
  abbrev pub Spec : Type 0
  Spec = QuerySpec env.engines.Glob env.engines.Regex

  abbrev expression_of : Option Value → Parsed (Expr env.engines.Glob env.engines.Regex)
  expression_of none = ok always
  expression_of (some v) = Parse.parse env.engines v

  abbrev fields_of : Option Value → Parsed (List Field)
  fields_of none = ok default_fields
  fields_of (some v) = parse_list v

  unfoldable pub parse_spec : Value → Parsed Spec
  parse_spec raw = do
    map ← or_bad (as_object raw) spec_not_object
    expression ← expression_of (get_field map (ascii "expression"))
    fields ← fields_of (get_field map (ascii "fields"))
    generators ← from_spec env.engines map
    ok (record {
      expression = expression;
      fields = fields;
      generators = generators;
      since = clock_of (str_of (get_field map (ascii "since")));
      relative_root = str_of (get_field map (ascii "relative_root"));
      empty_on_fresh_instance = flag (get_field map (ascii "empty_on_fresh_instance")) false;
      always_include_directories =
          flag (get_field map (ascii "always_include_directories")) always_include_dirs_default;
      dedup_results = flag (get_field map (ascii "dedup_results")) false;
      omit_changed_files = flag (get_field map (ascii "omit_changed_files")) false;
      case_sensitive = flag (get_field map (ascii "case_sensitive")) true;
    })

  unfoldable pub resolve_scm_set : Root → Option ClockSpec → Option (List FilePath)
  resolve_scm_set root (some (scm vcs mergebase)) =
      Scm.changed_paths env.programs root.path vcs mergebase
  resolve_scm_set root _ = none

  module _ (root : Root) (spec : Spec) (scm_allowed : Option (List FilePath)) where
    -- From the path that is shown on: the generators, the paths of the SCM and the expression.
    abbrev shown_row : FilePath → FilePath → FileEntry → Option Value
    shown_row rel display_rel entry =
        if not (accept env.engines spec.generators display_rel)
        then none
        else if not (is_allowed scm_allowed rel display_rel)
        then none
        else (let ctx : EvalCtx = record {
          clock = root.clock;
          rel = display_rel;
          case_sensitive = spec.case_sensitive;
        } in
            if eval env.engines entry ctx spec.expression
            then some (render_row env.files root.path display_rel entry root.clock spec.fields)
            else none)

    -- What an entry adds to the files, past the test of its tick.
    unfoldable pub row_of : FilePath → FileEntry → Option Value
    row_of rel entry =
        if is_cookie rel
        then none
        else if not spec.always_include_directories && is_dir_kind entry.kind
        then none
        else elim (display_rel_of spec.relative_root rel) [
          | none ↦ none
          | some display_rel ↦ shown_row rel display_rel entry
        ]

    unfoldable pub files_of : Option ℕ → List (FilePath × FileEntry) → Items
    files_of since_tick [] = no_items
    files_of since_tick ((rel, entry) ∷ entries) =
        let rest = files_of since_tick entries in
        if is_unchanged since_tick entry
        then rest
        else elim (row_of rel entry) [ none ↦ rest | some row ↦ item row rest ]

  unfoldable pub run : Root → Spec → Root × QueryResult
  run root spec =
      let (cursor_since, cursor_name) = resolve_named_cursor root spec.since in
      let scm_allowed = resolve_scm_set root spec.since in
      let observed_tick = current_tick root.clock in
      let since_tick = or_tick cursor_since (tick_of_spec root spec.since) in
      let is_fresh_instance =
        is_fresh root since_tick (clock_tick_of root cursor_since spec.since) in
      (
        advance root cursor_name observed_tick,
        record {
          files =
              if is_fresh_instance && spec.empty_on_fresh_instance
              then no_items
              else files_of root spec scm_allowed since_tick root.tree.entries;
          clock = encode root.clock observed_tick;
          is_fresh_instance = is_fresh_instance;
        },
      )

unfoldable pub result_to_pdu : Text → QueryResult → Value
result_to_pdu root_path result = object (
    field (ascii "version") (string watchman_compat_version) (
      field (ascii "clock") (string result.clock) (
        field (ascii "is_fresh_instance") (bool result.is_fresh_instance) (
          field (ascii "files") (array result.files)
            (field (ascii "root") (string (from_utf8_lossy root_path)) no_fields)))))
