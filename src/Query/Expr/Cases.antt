-- ===== src/Query/Expr/Cases.antt =====
-- Which paths a `dirname` term and jj's query let through.
use watchwoman.Base.{
  ℕ, ◌≡◌, refl, true, false, ◌||◌, not, [], ◌∷◌, ◌++◌, arith, ◌==◌, nat_eq, list_eq, All, eq_iff,
}
use watchwoman.Base.Text.{Text, FilePath, ascii, strip_prefix}
use watchwoman.Protocol.Utf8.{is_utf8}
use watchwoman.Protocol.Utf8.Valid.{from_utf8_lossy_valid}
use watchwoman.Daemon.Entry.{FileEntry}
use watchwoman.Query.Paths.{init, parent, path_bytes}
use watchwoman.Query.Paths.Dirname.{is_under, NoSlash, path_bytes-is_under}
use watchwoman.Query.Expr.{
  Engines, Expr, EvalCtx, wholename, name, dirname, negated, any_of, expr, no_exprs, haystack,
  match_name, match_dir, match_dirname, eval,
}

-- A case-sensitive `dirname` term lets exactly those paths through whose parent is the directory
-- or lies below it, component by component, where no component holds a separator, the parent is
-- valid UTF-8 and the directory's first component is not empty.
pub match_dirname-is_under :
    (c : Text) (cs : FilePath) (a : ℕ) (t : Text) (ts : FilePath)
    → let rel = c ∷ cs in
      let target = (a ∷ t) ∷ ts in
      is_utf8 (path_bytes (init rel)) ≡ true
      → NoSlash (init rel)
      → NoSlash target
      → match_dirname rel (path_bytes target) true ≡ is_under target (init rel)
unfolding match_dirname match_dir parent init path_bytes strip_prefix
match_dirname-is_under c [] a t [] utf8 hp ht = rw (from_utf8_lossy_valid [] utf8) refl
match_dirname-is_under c [] a t (u ∷ ts) utf8 hp ht = rw (from_utf8_lossy_valid [] utf8) refl
match_dirname-is_under c (d ∷ ds) a t ts utf8 hp ht =
    rw (from_utf8_lossy_valid (path_bytes (c ∷ init (d ∷ ds))) utf8)
      (path_bytes-is_under c (init (d ∷ ds)) (a ∷ t) ts hp ht)

-- A name is no path of more than one component.
no_separator : (n c s : Text) → All (λ b. (b == b'/') ≡ false) n → (n == (c ++ b'/' ∷ s)) ≡ false
no_separator [] [] s h = refl
no_separator [] (b ∷ c) s h = refl
no_separator (a ∷ n) [] s (h, hs) = rw h refl
no_separator (a ∷ n) (b ∷ c) s (h, hs) = ground (arith, no_separator n c s hs)

-- The query by which jj asks for changes: all but `.git` and `.jj` and what is below them.
abbrev pub jj_expression : {Glob Regex : Type 0} → Expr Glob Regex
jj_expression = negated (
    any_of (
      expr (name (ascii ".git" ∷ ascii ".jj" ∷ []) wholename true)
        (expr (dirname (ascii ".git") true) (expr (dirname (ascii ".jj") true) no_exprs))))

NoSlash-git : NoSlash (ascii ".git" ∷ [])
NoSlash-git = ground arith

NoSlash-jj : NoSlash (ascii ".jj" ∷ [])
NoSlash-jj = ground arith

-- Jj's query, asked with case sensitivity, lets a path of valid UTF-8 and without separators in
-- its components through exactly if its first component is neither `.git` nor `.jj`.
pub eval-jj_expression :
    (lib : Engines) (entry : FileEntry) (ctx : EvalCtx) (c : Text) (cs : FilePath)
    → ctx.rel ≡ c ∷ cs
    → ctx.case_sensitive ≡ true
    → is_utf8 (path_bytes (c ∷ cs)) ≡ true
    → is_utf8 (path_bytes (init (c ∷ cs))) ≡ true
    → NoSlash (init (c ∷ cs))
    → eval lib entry ctx jj_expression ≡ not (c == ascii ".git" || c == ascii ".jj")
unfolding eval match_name haystack path_bytes init
eval-jj_expression lib entry ctx c [] rel exact whole utf8 hp =
    let git = match_dirname-is_under c [] b'.' (ascii "git") [] utf8 hp NoSlash-git in
    let jj = match_dirname-is_under c [] b'.' (ascii "jj") [] utf8 hp NoSlash-jj in
    rw (rel, exact, from_utf8_lossy_valid c whole, git, jj)
      (ground (
        arith,
        eq_iff c (ascii ".git"),
        eq_iff (ascii ".git") c,
        eq_iff c (ascii ".jj"),
        eq_iff (ascii ".jj") c,
      ))
eval-jj_expression lib entry ctx c (d ∷ ds) rel exact whole utf8 hp =
    let rest : Text = path_bytes (d ∷ ds) in
    let git = match_dirname-is_under c (d ∷ ds) b'.' (ascii "git") [] utf8 hp NoSlash-git in
    let jj = match_dirname-is_under c (d ∷ ds) b'.' (ascii "jj") [] utf8 hp NoSlash-jj in
    rw
      (
        rel,
        exact,
        from_utf8_lossy_valid (c ++ b'/' ∷ rest) whole,
        git,
        jj,
        no_separator (ascii ".git") c rest NoSlash-git.0,
        no_separator (ascii ".jj") c rest NoSlash-jj.0,
      )
      (ground arith)
