-- ===== src/Query/Generator/Laws.antt =====
-- Which paths a path generator takes.
use watchwoman.Base.{
  ℕ, Option, Bool, length-append, ◌+◌, ◌^◌, ◌≤◌, ◌<◌, ◌≡◌, refl, sym, ◌∙◌, ap, ◌↔◌, true, false,
  none, some, [], ◌∷◌, ◌++◌, arith, eq_iff, nat_eq, list_eq, length, leb, le→leb, leb→le,
}
use native.Mathlib.Nat.{mod-eq_of_lt}
use watchwoman.Base.Text.{Text, FilePath}
use watchwoman.Query.Paths.{normal_components, strip_base, strip_path}
use watchwoman.Query.Generator.{is_within, accept_path}

pub strip_base-append : (base sub : FilePath) → strip_base base (base ++ sub) ≡ some sub
unfolding strip_base
strip_base-append [] sub = refl
strip_base-append (b ∷ base) sub = ground (arith, eq_iff b b, strip_base-append base sub)

pub strip_base-eq-some :
    (base rel sub : FilePath) → strip_base base rel ≡ some sub → rel ≡ base ++ sub
unfolding strip_base
strip_base-eq-some [] rel sub h = cc
strip_base-eq-some (b ∷ base) [] sub h = cc
strip_base-eq-some (b ∷ base) (c ∷ rel) sub h =
    ground (arith, eq_iff b c, strip_base-eq-some base rel sub)

is_within-le :
    (d : ℕ) (sub : FilePath)
    → length sub < 2 ^ 32
    → d + 1 < 2 ^ 32
    → is_within (some d) sub ≡ leb (length sub) (d + 1)
is_within-le d sub short small = rw (mod-eq_of_lt short, mod-eq_of_lt small) refl

abbrev taken : ℕ → Option FilePath → Bool
taken d none = false
taken d (some sub) = is_within (some d) sub

accept_path-strip_base :
    (path : Text) (base : FilePath) (d : ℕ) (rel : FilePath)
    → normal_components path ≡ some base
    → accept_path rel (record { path = path; depth = some d }) ≡ taken d (strip_base base rel)
unfolding accept_path strip_path
accept_path-strip_base [] base d rel h =
    let empty : base ≡ [] = unfold normal_components in cc (h) in
    rw empty (unfold strip_base in refl)
accept_path-strip_base (c ∷ path) base d rel h = rw h (ground arith)

-- For a path of normal components, a depth below 2^32 - 1 and files of fewer than 2^32
-- components, a path generator takes the files below its path that are at most one component
-- longer than its depth, and no other.
pub accept_path_iff :
    (path : Text) (base : FilePath) (d : ℕ) (rel : FilePath)
    → normal_components path ≡ some base
    → length rel < 2 ^ 32
    → d + 1 < 2 ^ 32
    → (accept_path rel (record { path = path; depth = some d }) ≡ true)
      ↔ ((sub : FilePath) × (rel ≡ base ++ sub) × (length sub ≤ d + 1))
accept_path_iff path base d rel h short small =
    let law = accept_path-strip_base path base d rel h in
    (
      λ took. found (strip_base base rel) refl (sym law ∙ took),
      λ (sub, parts, near).
          law
          ∙ ap (taken d) {y = some sub} (rw parts (strip_base-append base sub))
          ∙ is_within-le d sub (shorter sub parts) small
          ∙ le→leb _ _ near,
    )
  where
    shorter : (sub : FilePath) → rel ≡ base ++ sub → length sub < 2 ^ 32
    shorter sub parts = omega (arith, short, length-append base sub, ap length parts)

    found :
        (o : Option FilePath)
        → strip_base base rel ≡ o
        → taken d o ≡ true
        → (sub : FilePath) × (rel ≡ base ++ sub) × (length sub ≤ d + 1)
    found none e t = cc
    found (some sub) e t =
        let parts = strip_base-eq-some base rel sub e in
        (sub, parts, leb→le _ _ (sym (is_within-le d sub (shorter sub parts) small) ∙ t))
