-- ===== src/Query/Expr/Parse.antt =====
-- The parser of expr.rs: from a value that a client sent to an expression.
use watchwoman.Base.{
  ◌^◌, Bool, true, false, ◌||◌, Option, none, some, List, [], ◌∷◌, ◌++◌, ◌==◌, map, nat_eq, list_eq,
  if◌then◌else◌,
}
use watchwoman.Base.Int.{ℤ, to_unsigned}
use watchwoman.Base.Text.{Text, ascii, to_ascii_lowercase}
use watchwoman.Protocol.Value.{Value, Items, string, array, no_items, item, as_str, as_i64}
use watchwoman.Daemon.Clock
use watchwoman.Daemon.Entry.{FileKind, file, dir, symlink, block, char, fifo, socket}
use watchwoman.Query.Expr.{
  Engines, Expr, Exprs, MatchScope, CmpOp, basename, wholename, parse_op, always, never, all_of,
  any_of, negated, name, match, pcre, suffix, type, size, exists, empty, since, dirname, no_exprs,
  expr,
}

-- The texts of `CommandError::BadArgs`, one constructor for each.
pub data BadArgs : Type 0 where
  unknown_bare unknown_operator unknown_scope unknown_type unknown_field : Text → BadArgs
  not_an_array no_head no_operand no_name no_pattern bad_glob bad_regex no_kind no_op no_bytes
        no_clock no_path not_strings fields_not_array field_not_string expected_array
        expected_string paths_not_array path_without_path path_entry spec_not_object :
      BadArgs

pub data Parsed (A : Type 0) : Type 0 where
  ok : A → Parsed A
  bad : BadArgs → Parsed A

infixl 5 ◌>>=◌
abbrev pub ◌>>=◌ : {A B : Type 0} → Parsed A → (A → Parsed B) → Parsed B
ok a >>= f = f a
bad e >>= f = bad e

abbrev pub or_bad : {A : Type 0} → Option A → BadArgs → Parsed A
or_bad none e = bad e
or_bad (some a) e = ok a

-- `rest.first()`, `rest.get(1)`, and what they are as strings.
abbrev pub first : Items → Option Value
first no_items = none
first (item v vs) = some v

abbrev pub second : Items → Option Value
second no_items = none
second (item v vs) = first vs

abbrev pub str_of : Option Value → Option Text
str_of none = none
str_of (some v) = as_str v

abbrev pub i64_of : Option Value → Option ℤ
i64_of none = none
i64_of (some v) = as_i64 v

unfoldable pub parse_scope : Text → Parsed MatchScope
parse_scope s =
    if s == ascii "basename"
    then ok basename
    else if s == ascii "wholename"
    then ok wholename
    else bad (unknown_scope s)

-- The scope argument, the base name if there is none.
abbrev scope_of : Option Text → Parsed MatchScope
scope_of none = ok basename
scope_of (some s) = parse_scope s

abbrev strings_in : Items → List Text
strings_in no_items = []
strings_in (item (string s) vs) = s ∷ strings_in vs
strings_in (item _ vs) = strings_in vs

unfoldable pub flatten_strings : Items → Parsed (List Text)
flatten_strings no_items = ok []
flatten_strings (item (string s) vs) = flatten_strings vs >>= λ out. ok (s ∷ out)
flatten_strings (item (array inner) vs) = flatten_strings vs >>= λ out. ok (strings_in inner ++ out)
flatten_strings (item _ vs) = bad not_strings

unfoldable pub parse_name_args : Items → Parsed (List Text × MatchScope)
parse_name_args rest = do
  v ← or_bad (first rest) no_name
  names ← flatten_strings (item v no_items)
  scope ← scope_of (str_of (second rest))
  ok (names, scope)

unfoldable pub parse_kind : Text → Parsed FileKind
parse_kind t =
    if t == ascii "f"
    then ok file
    else if t == ascii "d"
    then ok dir
    else if t == ascii "l"
    then ok symlink
    else if t == ascii "b"
    then ok block
    else if t == ascii "c"
    then ok char
    else if t == ascii "p"
    then ok fifo
    else if t == ascii "s"
    then ok socket
    else bad (unknown_type t)

abbrev option_op : Option Text → Option CmpOp
option_op none = none
option_op (some s) = parse_op s

module _ (lib : Engines) where
  abbrev Query : Type 0
  Query = Expr lib.Glob lib.Regex

  unfoldable pub parse_bare : Text → Parsed Query
  parse_bare s =
      if s == ascii "true"
      then ok always
      else if s == ascii "false"
      then ok never
      else if s == ascii "exists"
      then ok exists
      else if s == ascii "empty"
      then ok empty
      else bad (unknown_bare s)

  unfoldable pub parse_match : Bool → Items → Parsed Query
  parse_match case_insensitive rest = do
    pattern ← or_bad (str_of (first rest)) no_pattern
    scope ← scope_of (str_of (second rest))
    matcher ← or_bad (lib.compile_glob pattern case_insensitive (separates scope)) bad_glob
    ok (match matcher scope)
    where
      separates : MatchScope → Bool
      separates basename = false
      separates wholename = true

  unfoldable pub parse_pcre : Bool → Items → Parsed Query
  parse_pcre case_insensitive rest = do
    pattern ← or_bad (str_of (first rest)) no_pattern
    scope ← scope_of (str_of (second rest))
    regex ← or_bad (lib.compile_regex pattern case_insensitive) bad_regex
    ok (pcre regex scope)

  unfoldable pub parse_size : Items → Parsed Query
  parse_size rest = do
    op ← or_bad (option_op (str_of (first rest))) no_op
    bytes ← or_bad (i64_of (second rest)) no_bytes
    ok (size op (to_unsigned (2 ^ 64) bytes))

  -- The operators that hold no expression.
  unfoldable pub parse_leaf : Text → Items → Parsed Query
  parse_leaf head rest =
      if head == ascii "name" || head == ascii "iname"
      then (parse_name_args rest >>= λ (names, scope). ok (name names scope (head == ascii "name")))
      else if head == ascii "match" || head == ascii "imatch"
      then parse_match (head == ascii "imatch") rest
      else if head == ascii "pcre" || head == ascii "ipcre"
      then parse_pcre (head == ascii "ipcre") rest
      else if head == ascii "suffix"
      then (flatten_strings rest >>= λ list. ok (suffix (map to_ascii_lowercase list)))
      else if head == ascii "type"
      then (or_bad (str_of (first rest)) no_kind >>= λ t. parse_kind t >>= λ kind. ok (type kind))
      else if head == ascii "size"
      then parse_size rest
      else if head == ascii "since"
      then (or_bad (str_of (first rest)) no_clock >>= λ s. ok (since (Clock.parse s)))
      else if head == ascii "dirname" || head == ascii "idirname"
      then (or_bad (str_of (first rest)) no_path >>= λ path.
          ok (dirname path (head == ascii "dirname")))
      else bad (unknown_operator head)

  unfoldable mutual
    pub parse : Value → Parsed Query
    parse (string s) = parse_bare s
    parse (array items) = parse_array items
    parse _ = bad not_an_array

    pub parse_array : Items → Parsed Query
    parse_array (item (string head) rest) =
        let operand = parse_first rest in
        let operands = parse_all rest in
        if head == ascii "true"
        then ok always
        else if head == ascii "false"
        then ok never
        else if head == ascii "exists"
        then ok exists
        else if head == ascii "empty"
        then ok empty
        else if head == ascii "not"
        then (operand >>= λ inner. ok (negated inner))
        else if head == ascii "allof"
        then (operands >>= λ list. ok (all_of list))
        else if head == ascii "anyof"
        then (operands >>= λ list. ok (any_of list))
        else parse_leaf head rest
    parse_array _ = bad no_head

    pub parse_first : Items → Parsed Query
    parse_first no_items = bad no_operand
    parse_first (item v vs) = parse v

    pub parse_all : Items → Parsed (Exprs lib.Glob lib.Regex)
    parse_all no_items = ok no_exprs
    parse_all (item v vs) = parse v >>= λ e. parse_all vs >>= λ es. ok (expr e es)
