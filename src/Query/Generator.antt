-- ===== src/Query/Generator.antt =====
-- crates/watchwoman/src/query/generator.rs: which paths a query looks at. The glob engine is that of
-- the expressions.
pub mod Laws
use watchwoman.Base.{
  ℕ, ◌+◌, ◌%◌, ◌^◌, Bool, true, false, not, Option, none, some, List, [], ◌∷◌, ◌==◌, map, any, leb,
  nat_eq, list_eq, if◌then◌else◌, length, contains,
}
use watchwoman.Base.Int.{ℤ, to_unsigned}
use watchwoman.Base.Text.{Text, FilePath, ascii, to_ascii_lowercase}
use watchwoman.Protocol.Value.{
  Value, Items, Fields, string, object, no_items, item, get_field, as_array, as_str, as_i64,
}
use watchwoman.Daemon.Clock
use watchwoman.Daemon.Clock.{ClockSpec}
use watchwoman.Query.Paths.{path_bytes, strip_path}
use watchwoman.Query.Expr.{Engines, is_suffix}
use watchwoman.Query.Expr.Parse.{
  Parsed, ok, bad, ◌>>=◌, or_bad, str_of, i64_of, bad_glob, expected_array, expected_string,
  paths_not_array, path_without_path, path_entry,
}

pub record PathSpec : Type 0 where
  pub path : Text
  pub depth : Option ℕ

pub record Generators (Glob : Type 0) : Type 0 where
  pub suffix : Option (List Text)
  pub glob : Option (List Glob)
  pub paths : Option (List PathSpec)
  pub since : Option ClockSpec

unfoldable pub strings_of : Items → Parsed (List Text)
strings_of no_items = ok []
strings_of (item v vs) =
    or_bad (as_str v) expected_string >>= λ s. strings_of vs >>= λ out. ok (s ∷ out)

unfoldable pub as_string_list : Value → Parsed (List Text)
as_string_list v = or_bad (as_array v) expected_array >>= λ arr. strings_of arr

-- `d as u32`.
abbrev depth_of : Option ℤ → Option ℕ
depth_of none = none
depth_of (some d) = some (to_unsigned (2 ^ 32) d)

unfoldable pub path_spec : Value → Parsed PathSpec
path_spec (string s) = ok (record { path = s; depth = none })
path_spec (object o) = or_bad (str_of (get_field o (ascii "path"))) path_without_path >>= λ path.
    ok (record { path = path; depth = depth_of (i64_of (get_field o (ascii "depth"))) })
path_spec _ = bad path_entry

unfoldable pub path_specs : Items → Parsed (List PathSpec)
path_specs no_items = ok []
path_specs (item v vs) = path_spec v >>= λ s. path_specs vs >>= λ out. ok (s ∷ out)

-- The value of a key, if it is there, through a parser.
abbrev pub optional : {A : Type 0} → Option Value → (Value → Parsed A) → Parsed (Option A)
optional none parser = ok none
optional (some v) parser = parser v >>= λ a. ok (some a)

abbrev pub clock_of : Option Text → Option ClockSpec
clock_of none = none
clock_of (some s) = some (Clock.parse s)

-- `rel.components().count() as u32 <= d + 1`, where a release build wraps.
abbrev pub is_within : Option ℕ → FilePath → Bool
is_within none sub = true
is_within (some d) sub = leb (length sub % 2 ^ 32) ((d + 1) % 2 ^ 32)

unfoldable pub accept_path : FilePath → PathSpec → Bool
accept_path rel spec =
    if spec.path == []
    then is_within spec.depth rel
    else elim (strip_path spec.path rel) [ none ↦ false | some sub ↦ is_within spec.depth sub ]

abbrev accept_suffix : Option (List Text) → FilePath → Bool
accept_suffix none rel = true
accept_suffix (some sufs) rel = is_suffix rel sufs

abbrev accept_paths : Option (List PathSpec) → FilePath → Bool
accept_paths none rel = true
accept_paths (some paths) rel = any (λ spec. accept_path rel spec) paths

module _ (lib : Engines) where
  unfoldable pub compile_all : List Text → Parsed (List lib.Glob)
  compile_all [] = ok []
  compile_all (pat ∷ patterns) = or_bad (lib.compile_glob pat false true) bad_glob >>= λ g.
      compile_all patterns >>= λ matchers. ok (g ∷ matchers)

  unfoldable pub from_spec : Fields → Parsed (Generators lib.Glob)
  from_spec spec = do
    suffix ←
        optional (get_field spec (ascii "suffix"))
          λ v. as_string_list v >>= λ list. ok (map to_ascii_lowercase list)
    glob ←
        optional (get_field spec (ascii "glob"))
          λ v. as_string_list v >>= λ patterns. compile_all patterns
    paths ←
        optional (get_field spec (ascii "path"))
          λ v. or_bad (as_array v) paths_not_array >>= λ arr. path_specs arr
    ok (record {
      suffix = suffix;
      glob = glob;
      paths = paths;
      since = clock_of (str_of (get_field spec (ascii "since")));
    })

  abbrev accept_glob : Option (List lib.Glob) → FilePath → Bool
  accept_glob none rel = true
  accept_glob (some globs) rel = any (λ g. lib.is_glob_match g (path_bytes rel)) globs

  unfoldable pub accept : Generators lib.Glob → FilePath → Bool
  accept gen rel =
      if not (accept_suffix gen.suffix rel)
      then false
      else if not (accept_glob gen.glob rel)
      then false
      else accept_paths gen.paths rel
