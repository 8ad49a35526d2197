-- ===== src/Query/Examples.antt =====
-- Queries at concrete paths.
use watchwoman.Base.{◌≡◌, refl, true, false, some, [], ◌∷◌, arith}
use watchwoman.Base.Text.{Text, FilePath, ascii}
use watchwoman.Protocol.Utf8.{is_utf8}
use watchwoman.Protocol.Value.{Value, Items, string, array, no_items, item}
use watchwoman.Daemon.Clock
use watchwoman.Daemon.Clock.{Clock}
use watchwoman.Daemon.Entry.{missing}
use watchwoman.Query.Paths.{path_bytes, init}
use watchwoman.Query.Expr.{Engines, EvalCtx, match_dirname, eval}
use watchwoman.Query.Expr.Parse.{
  ok, parse, parse_leaf, parse_name_args, flatten_strings, parse_scope,
}
use watchwoman.Query.Expr.Cases.{match_dirname-is_under, jj_expression, eval-jj_expression}

-- Engines whose patterns match only themselves.
abbrev pub literal : Engines
literal = record {
  Glob = Text;
  Regex = Text;
  compile_glob = λ p i s. some p;
  compile_regex = λ p i. some p;
  is_glob_match = λ p b. false;
  is_regex_match = λ p b. false;
}

abbrev config : FilePath
config = ascii ".jj" ∷ ascii "repo" ∷ ascii "config" ∷ []

abbrev ctx : EvalCtx
ctx = record { clock = Clock.new 1 1000 7; rel = config; case_sensitive = true }

match_dirname-is_under_example : match_dirname config (path_bytes (ascii ".jj" ∷ [])) true ≡ true
unfolding init
match_dirname-is_under_example =
    match_dirname-is_under (ascii ".jj") (ascii "repo" ∷ ascii "config" ∷ []) b'.' (ascii "jj") []
      (unfold is_utf8 path_bytes in refl) (ground arith) (ground arith)

eval-jj_expression_example : eval literal (missing 3) ctx jj_expression ≡ false
unfolding init
eval-jj_expression_example =
    eval-jj_expression literal (missing 3) ctx (ascii ".jj") (ascii "repo" ∷ ascii "config" ∷ [])
      refl refl (unfold is_utf8 path_bytes in refl) (unfold is_utf8 path_bytes in refl)
      (ground arith)

-- What jj sends is parsed to that expression.
abbrev str : Text → Items → Items
str s vs = item (string s) vs

abbrev dirname_term : Text → Value
dirname_term d = array (str (ascii "dirname") (str d no_items))

abbrev sent : Value
sent = array (
    str (ascii "not") (
      item
        (array (
          str (ascii "anyof") (
            item
              (array (
                str (ascii "name") (
                  item (array (str (ascii ".git") (str (ascii ".jj") no_items)))
                    (str (ascii "wholename") no_items))))
              (item (dirname_term (ascii ".git")) (item (dirname_term (ascii ".jj")) no_items)))))
        no_items))

parse-sent : parse literal sent ≡ ok jj_expression
unfolding parse parse_leaf parse_name_args flatten_strings parse_scope
parse-sent = refl
