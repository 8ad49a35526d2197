-- ===== src/Daemon/JjScope/Cache.antt =====
-- The cache of ignore files does not show, and it does not grow without bound.
use watchwoman.Base.{
  ◌≤◌, ◌≡◌, refl, subst, ◌==◌, eq_iff, Bool, false, ◌&&◌, ◌||◌, not, Option, none, some, List, [],
  ◌∷◌, ◌++◌, arith, leb, list_eq, nat_eq, if◌then◌else◌, length, Bool-cases, inl, inr,
}
use watchwoman.Base.Map
use watchwoman.Base.Map.{get-insert, length-insert}
use watchwoman.Base.Text.{FilePath}
use watchwoman.Daemon.JjScope.{
  IgnoreFiles, JjScope, has_more, judge, or_insert, matcher, is_ignored, ignored_below,
  ignored_directory,
}

module _ (files : IgnoreFiles) where
  -- Every cached rule is the one of the disk, and there are at most 8192.
  pub record IsCache (s : JjScope files) : Type 0 where
    pub agrees :
        (dir : FilePath) (m : Option files.Matcher)
        → Map.get s.rules dir ≡ some m
        → m ≡ files.load dir
    pub fits : length s.rules ≤ 8192

  -- What the ignore files say of a directory, read afresh: the last word that one of them has on it.
  unfoldable pub last_word : List FilePath → FilePath → Bool → Bool
  last_word [] abs before = before
  last_word (dir ∷ dirs) abs before = last_word dirs abs (judge files (files.load dir) abs before)

  or_insert-IsCache :
      (rules : List (FilePath × Option files.Matcher)) (dir : FilePath)
      (found : Option (Option files.Matcher))
      → Map.get rules dir ≡ found
      → IsCache (record { rules = rules })
      → (found ≡ none → length rules ≤ 8191)
      → IsCache (or_insert files rules dir found).0
        × ((or_insert files rules dir found).1 ≡ files.load dir)
  or_insert-IsCache rules dir (some m) h c room = (c, c.agrees dir m h)
  or_insert-IsCache rules dir none h c room = (
    record {
      agrees = λ d m found. elim (Bool-cases (dir == d)) [
        | inl same ↦
            let e = get-insert rules dir d (files.load dir) in
            let here = rw same at e in subst (λ z. m ≡ files.load z) ((eq_iff dir d).0 same) cc
        | inr other ↦
            let e = get-insert rules dir d (files.load dir) in
            let there = rw other at e in c.agrees d m cc
      ];
      fits = ground (arith, length-insert rules dir (files.load dir), h, room refl);
    },
    refl,
  )

  matcher-IsCache :
      (s : JjScope files) (dir : FilePath)
      → IsCache s
      → IsCache (matcher files s dir).0 × ((matcher files s dir).1 ≡ files.load dir)
  unfolding matcher Map.get
  matcher-IsCache s dir c =
      elim (Bool-cases (leb 8192 (length s.rules) && not (Map.contains_key s.rules dir))) [
        | inl full ↦ rw full (
            or_insert-IsCache [] dir none refl (record { agrees = λ d m h. cc; fits = omega arith })
              (λ e. omega arith))
        | inr room ↦ rw room (
            or_insert-IsCache s.rules dir (Map.get s.rules dir) refl c
              (λ e. ground (arith, e, room, c.fits)))
      ]

  pub is_ignored-IsCache :
      (s : JjScope files) (dirs : List FilePath) (abs : FilePath) (before : Bool)
      → IsCache s
      → IsCache (is_ignored files s dirs abs before).0
        × ((is_ignored files s dirs abs before).1 ≡ last_word dirs abs before)
  unfolding is_ignored last_word
  is_ignored-IsCache s [] abs before c = (c, refl)
  is_ignored-IsCache s (dir ∷ dirs) abs before c =
      let (c', same) = matcher-IsCache s dir c in
      let rest =
        is_ignored-IsCache (matcher files s dir).0 dirs abs
          (judge files (matcher files s dir).1 abs before) c' in
      subst
        (λ z.
          IsCache
            (is_ignored files (matcher files s dir).0 dirs abs
              (judge files (matcher files s dir).1 abs before)).0
          × ((is_ignored files (matcher files s dir).0 dirs abs
                (judge files (matcher files s dir).1 abs before)).1
              ≡ last_word dirs abs (judge files z abs before)))
        same rest

  module _ (root : FilePath) (target_is_dir : Bool) where
    -- The first directory on the way down on which the ignore files above it have `ignore` as their
    -- last word.
    unfoldable pub outermost : List FilePath → FilePath → FilePath → Option FilePath
    outermost ancestors above [] = none
    outermost ancestors above (component ∷ components) =
        let prefix = above ++ component ∷ [] in
        let further = outermost (ancestors ++ (root ++ prefix) ∷ []) prefix components in
        if not (has_more components || target_is_dir)
        then none
        else if last_word ancestors (root ++ prefix) false
        then some prefix
        else further

    ignored_below-outermost :
        (s : JjScope files) (ancestors : List FilePath) (above components : FilePath)
        → IsCache s
        → IsCache (ignored_below files root target_is_dir s ancestors above components).0
          × ((ignored_below files root target_is_dir s ancestors above components).1
              ≡ outermost ancestors above components)
    unfolding ignored_below outermost
    ignored_below-outermost s ancestors above [] c = (c, refl)
    ignored_below-outermost s ancestors above (component ∷ components) c =
        let prefix = above ++ component ∷ [] in
        let (c', same) = is_ignored-IsCache s ancestors (root ++ prefix) false c in
        let (c'', rest) =
          ignored_below-outermost (is_ignored files s ancestors (root ++ prefix) false).0
            (ancestors ++ (root ++ prefix) ∷ []) prefix components c' in
        elim (Bool-cases (not (has_more components || target_is_dir))) [
          | inl leaf ↦ rw leaf (c, refl)
          | inr dir ↦ elim (Bool-cases (last_word ancestors (root ++ prefix) false)) [
            | inl hit ↦ rw (dir, same, hit) (c', refl)
            | inr miss ↦ rw (dir, same, miss) (c'', rest)
          ]
        ]

    -- If every cached rule is what the directory's ignore file builds to, and at most 8192 are
    -- cached, the walk down a path finds the directory that a walk without a cache finds, and leaves
    -- a cache of which the same holds.
    pub ignored_directory-outermost :
        (s : JjScope files) (rel : FilePath)
        → IsCache s
        → IsCache (ignored_directory files root target_is_dir s rel).0
          × ((ignored_directory files root target_is_dir s rel).1 ≡ outermost (root ∷ []) [] rel)
    unfolding ignored_directory
    ignored_directory-outermost s rel c = ignored_below-outermost s (root ∷ []) [] rel c
