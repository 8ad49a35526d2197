-- ===== src/Query/Expr.antt =====
-- crates/watchwoman/src/query/expr.rs: query expressions. The glob and regular expression engines are
-- parameters: a type of compiled patterns, a compiler that may refuse, and a match.
pub mod Parse
pub mod Cases
use watchwoman.Base.{
  ℕ, ◌+◌, ◌%◌, ◌^◌, Bool, true, false, ◌&&◌, ◌||◌, not, Option, none, some, List, [], ◌∷◌, ◌++◌,
  ltb, leb, ◌==◌, map, nat_eq, list_eq, if◌then◌else◌, contains, any, is_some,
}
use watchwoman.Base.Int.{ℤ, to_unsigned}
use watchwoman.Base.Text.{Text, FilePath, ascii, strip_prefix, to_ascii_lowercase}
use watchwoman.Protocol.Utf8.{is_utf8, from_utf8_lossy}
use watchwoman.Protocol.Value.{Value, Items, string, array, no_items, item, as_str, as_i64}
use watchwoman.Daemon.Clock
use watchwoman.Daemon.Clock.{Clock, ClockSpec, tick_against}
use watchwoman.Daemon.Entry.{FileEntry, FileKind, as_wire_str}
use watchwoman.Query.Paths.{file_name, parent, path_bytes, extension}

pub data MatchScope : Type 0 where
  basename wholename : MatchScope

pub data CmpOp : Type 0 where
  eq ne lt le gt ge : CmpOp

unfoldable pub parse_op : Text → Option CmpOp
parse_op s =
    if s == ascii "eq"
    then some eq
    else if s == ascii "ne"
    then some ne
    else if s == ascii "lt"
    then some lt
    else if s == ascii "le"
    then some le
    else if s == ascii "gt"
    then some gt
    else if s == ascii "ge"
    then some ge
    else none

unfoldable pub apply : CmpOp → ℕ → ℕ → Bool
apply eq a b = a == b
apply ne a b = not (a == b)
apply lt a b = ltb a b
apply le a b = leb a b
apply gt a b = ltb b a
apply ge a b = leb b a

-- The compiled patterns of globset and regex.
pub record Engines : Type 1 where
  pub Glob : Type 0
  pub Regex : Type 0
  pub compile_glob : Text → Bool → Bool → Option Glob
  pub compile_regex : Text → Bool → Option Regex
  pub is_glob_match : Glob → Text → Bool
  pub is_regex_match : Regex → Text → Bool

mutual
  pub data Expr (Glob Regex : Type 0) : Type 0 where
    always never : Expr Glob Regex
    all_of any_of : Exprs Glob Regex → Expr Glob Regex
    negated : Expr Glob Regex → Expr Glob Regex
    name : List Text → MatchScope → Bool → Expr Glob Regex
    match : Glob → MatchScope → Expr Glob Regex
    pcre : Regex → MatchScope → Expr Glob Regex
    suffix : List Text → Expr Glob Regex
    type : FileKind → Expr Glob Regex
    size : CmpOp → ℕ → Expr Glob Regex
    exists empty : Expr Glob Regex
    since : ClockSpec → Expr Glob Regex
    dirname : Text → Bool → Expr Glob Regex

  pub data Exprs (Glob Regex : Type 0) : Type 0 where
    no_exprs : Exprs Glob Regex
    expr : Expr Glob Regex → Exprs Glob Regex → Exprs Glob Regex

pub record EvalCtx : Type 0 where
  pub clock : Clock
  pub rel : FilePath
  pub case_sensitive : Bool

-- `to_string_lossy` of the name or of the path.
abbrev lossy_or_empty : Option Text → Text
lossy_or_empty none = []
lossy_or_empty (some b) = from_utf8_lossy b

unfoldable pub haystack : FilePath → MatchScope → Text
haystack rel basename = lossy_or_empty (file_name rel)
haystack rel wholename = from_utf8_lossy (path_bytes rel)

unfoldable pub match_name : FilePath → List Text → MatchScope → Bool → Bool
match_name rel names scope case_sensitive =
    let hay = haystack rel scope in
    if case_sensitive
    then any (λ n. n == hay) names
    else any (λ n. to_ascii_lowercase n == to_ascii_lowercase hay) names

abbrev pub starts_with : Text → Text → Bool
starts_with s p = is_some (strip_prefix p s)

unfoldable pub match_dir : Text → Text → Bool → Bool
match_dir p target case_sensitive =
    if case_sensitive
    then p == target || starts_with p (target ++ b'/' ∷ [])
    else (to_ascii_lowercase p == to_ascii_lowercase target
        || starts_with (to_ascii_lowercase p) (to_ascii_lowercase target ++ b'/' ∷ []))

unfoldable pub match_dirname : FilePath → Text → Bool → Bool
match_dirname rel target case_sensitive = elim (parent rel) [
  | none ↦ false
  | some p ↦ match_dir (from_utf8_lossy (path_bytes p)) target case_sensitive
]

-- `extension` as a `str`, in lower case.
unfoldable pub lower_extension : FilePath → Option Text
lower_extension rel = elim (extension rel) [
  | none ↦ none
  | some e ↦ if is_utf8 e then some (to_ascii_lowercase e) else none
]

unfoldable pub is_suffix : FilePath → List Text → Bool
is_suffix rel exts = elim (lower_extension rel) [ none ↦ false | some e ↦ contains exts e ]

abbrev same_kind : FileKind → FileKind → Bool
same_kind a b = as_wire_str a == as_wire_str b

module _ (lib : Engines) (entry : FileEntry) (ctx : EvalCtx) where
  unfoldable pub eval_match : lib.Glob → MatchScope → Bool
  eval_match matcher basename = elim (file_name ctx.rel) [
    | none ↦ false
    | some b ↦ lib.is_glob_match matcher b
  ]
  eval_match matcher wholename = lib.is_glob_match matcher (path_bytes ctx.rel)

  unfoldable mutual
    pub eval : Expr lib.Glob lib.Regex → Bool
    eval always = true
    eval never = false
    eval (all_of list) = eval_all list
    eval (any_of list) = eval_any list
    eval (negated inner) = not (eval inner)
    eval exists = entry.exists
    eval empty = entry.size == 0
    eval (name names scope case_sensitive) =
        match_name ctx.rel names scope (case_sensitive && ctx.case_sensitive)
    eval (match matcher scope) = eval_match matcher scope
    eval (pcre regex scope) = lib.is_regex_match regex (haystack ctx.rel scope)
    eval (suffix exts) = is_suffix ctx.rel exts
    eval (type kind) = same_kind entry.kind kind
    eval (size op rhs) = apply op entry.size rhs
    eval (since spec) = ltb (tick_against spec ctx.clock) entry.oclock
    eval (dirname path case_sensitive) =
        match_dirname ctx.rel path (case_sensitive && ctx.case_sensitive)

    pub eval_all : Exprs lib.Glob lib.Regex → Bool
    eval_all no_exprs = true
    eval_all (expr e es) = eval e && eval_all es

    pub eval_any : Exprs lib.Glob lib.Regex → Bool
    eval_any no_exprs = false
    eval_any (expr e es) = eval e || eval_any es
