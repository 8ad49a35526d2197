-- ===== src/Query/Paths/Dirname.antt =====
-- Comparing the bytes of two paths up to a separator compares their components.
use watchwoman.Base.{
  ◌≡◌, refl, sym, ◌∙◌, Bool, true, false, ◌&&◌, ◌||◌, [], ◌∷◌, ◌++◌, arith, ◌==◌, nat_eq, list_eq,
  All, is_some, append-nil,
}
use watchwoman.Base.Text.{Text, FilePath, strip_prefix}
use watchwoman.Query.Paths.{path_bytes}

-- Whether a path is a directory or lies below it.
abbrev pub is_under : FilePath → FilePath → Bool
is_under [] p = true
is_under (t ∷ ts) [] = false
is_under (t ∷ ts) (c ∷ cs) = c == t && is_under ts cs

-- No component has a separator in it.
abbrev pub NoSlash : FilePath → Type 0
NoSlash p = All (All (λ b. (b == b'/') ≡ false)) p

-- Equal, or longer by a separator at least.
abbrev reaches : Text → Text → Bool
reaches [] [] = true
reaches (b ∷ s) [] = b == b'/'
reaches [] (a ∷ t) = false
reaches (b ∷ s) (a ∷ t) = b == a && reaches s t

pub same_or_below :
    (s t : Text) → (s == t || is_some (strip_prefix (t ++ b'/' ∷ []) s)) ≡ reaches s t
unfolding strip_prefix
same_or_below [] [] = refl
same_or_below (b ∷ s) [] = ground arith
same_or_below [] (a ∷ t) = refl
same_or_below (b ∷ s) (a ∷ t) = ground (arith, same_or_below s t)

-- What stands behind the first component.
abbrev tail_bytes : FilePath → Text
tail_bytes [] = []
tail_bytes (d ∷ ds) = b'/' ∷ path_bytes (d ∷ ds)

path_bytes-cons : (c : Text) (cs : FilePath) → path_bytes (c ∷ cs) ≡ c ++ tail_bytes cs
unfolding path_bytes
path_bytes-cons c [] = sym (append-nil c)
path_bytes-cons c (d ∷ ds) = refl

reaches-append :
    (c t : Text) (cs ts : FilePath)
    → All (λ b. (b == b'/') ≡ false) c
    → All (λ b. (b == b'/') ≡ false) t
    → reaches (c ++ tail_bytes cs) (t ++ tail_bytes ts)
      ≡ (c == t && reaches (tail_bytes cs) (tail_bytes ts))
reaches-append [] [] cs ts hc ht = refl
reaches-append [] (a ∷ t) [] ts hc ht = refl
reaches-append [] (a ∷ t) (d ∷ ds) ts hc (h, ht) = ground arith
reaches-append (b ∷ c) [] cs [] (h, hc) ht = ground arith
reaches-append (b ∷ c) [] cs (d ∷ ds) (h, hc) ht = ground arith
reaches-append (b ∷ c) (a ∷ t) cs ts (h, hc) (k, ht) =
    ground (arith, reaches-append c t cs ts hc ht)

reaches-tail_bytes :
    (cs ts : FilePath)
    → NoSlash cs
    → NoSlash ts
    → reaches (tail_bytes cs) (tail_bytes ts) ≡ is_under ts cs
reaches-tail_bytes [] [] hc ht = refl
reaches-tail_bytes (c ∷ cs) [] hc ht = refl
reaches-tail_bytes [] (t ∷ ts) hc ht = refl
reaches-tail_bytes (c ∷ cs) (t ∷ ts) (hc, hcs) (ht, hts) =
    rw
      (
        path_bytes-cons c cs,
        path_bytes-cons t ts,
        reaches-append c t cs ts hc ht,
        reaches-tail_bytes cs ts hcs hts,
      )
      refl

-- The bytes of a path are those of a directory, or go on behind them with a separator, exactly if the
-- path is under the directory.
pub path_bytes-is_under :
    (c : Text) (cs : FilePath) (t : Text) (ts : FilePath)
    → NoSlash (c ∷ cs)
    → NoSlash (t ∷ ts)
    → let p = path_bytes (c ∷ cs) in
      let target = path_bytes (t ∷ ts) in
      (p == target || is_some (strip_prefix (target ++ b'/' ∷ []) p)) ≡ is_under (t ∷ ts) (c ∷ cs)
path_bytes-is_under c cs t ts (hc, hcs) (ht, hts) =
    same_or_below (path_bytes (c ∷ cs)) (path_bytes (t ∷ ts))
    ∙ rw
        (
          path_bytes-cons c cs,
          path_bytes-cons t ts,
          reaches-append c t cs ts hc ht,
          reaches-tail_bytes cs ts hcs hts,
        )
        refl
