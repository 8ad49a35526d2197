-- ===== src/Commands/Watches/Project.antt =====
-- The directory that `watch-project` watches.
use watchwoman.Base.{
  ℕ, suc, ltb, ltb→lt, ◌+◌, ◌<◌, length, ◌≡◌, refl, sym, ap, ◌∙◌, true, false, Option, none, some,
  [], ◌∷◌, ◌++◌, arith, inl, inr, ◌⊎◌, length-append, append-nil, Bool-cases,
}
use watchwoman.Base.Text.{FilePath}
use watchwoman.Commands.Outcome.{Host}
use watchwoman.Commands.Watches.{climb, resolve_project_root, has_root_marker, onto, relative}

onto-append : (up cs ds : FilePath) → onto up (cs ++ ds) ≡ onto up cs ++ ds
onto-append [] cs ds = refl
onto-append (c ∷ up) cs ds = onto-append up (c ∷ cs) ds

-- Fronts of one path that are as long are the same.
front_unique : (d a e b : FilePath) → d ++ e ≡ a ++ b → length d ≡ length a → d ≡ a
front_unique [] [] e b h l = refl
front_unique [] (x ∷ a) e b h l = absurd (omega (arith, l))
front_unique (y ∷ d) [] e b h l = absurd (omega (arith, l))
front_unique (y ∷ d) (x ∷ a) e b h l = ground (arith, front_unique d a e b, h, l)

length-onto : (up cs : FilePath) → length (onto up cs) ≡ length up + length cs
length-onto [] cs = omega arith
length-onto (c ∷ up) cs = omega (arith, length-onto up (c ∷ cs))

onto-onto : (up cs ds : FilePath) → onto (onto up cs) ds ≡ onto cs (up ++ ds)
onto-onto [] cs ds = refl
onto-onto (c ∷ up) cs ds = onto-onto up (c ∷ cs) ds

module _ (host : Host) (start : FilePath) where
  -- No front of the path that is longer than `n` has a marker.
  abbrev BareBelow : ℕ → Type 0
  BareBelow n = (d e : FilePath) → d ++ e ≡ start → n < length d → has_root_marker host d ≡ false

  abbrev Climbed : Option (FilePath × FilePath) → Type 0
  Climbed none = BareBelow 0
  Climbed (some (dir, below)) =
      (dir ++ below ≡ start) × (has_root_marker host dir ≡ true) × BareBelow (length dir)

  widen :
      (dir below : FilePath) (n : ℕ)
      → dir ++ below ≡ start
      → length dir ≡ n + 1
      → has_root_marker host dir ≡ false
      → BareBelow (suc n)
      → BareBelow n
  widen dir below n here long unmarked bare d e parts longer =
      elim (Bool-cases (ltb (suc n) (length d))) [
        | inl past ↦ bare d e parts (ltb→lt _ _ past)
        | inr level ↦
            let same : d ≡ dir =
              front_unique d dir e below (parts ∙ sym here) (ground (arith, longer, level, long)) in
            rw same unmarked
      ]

  climb-Climbed :
      (up below : FilePath)
      → onto up below ≡ start
      → BareBelow (length up)
      → Climbed (climb host up below)
  unfolding climb
  climb-Climbed [] below whole bare = bare
  climb-Climbed (c ∷ up) below whole bare =
      let here : onto (c ∷ up) [] ++ below ≡ start = sym (onto-append (c ∷ up) [] below) ∙ whole in
      let long : length (onto (c ∷ up) []) ≡ length up + 1 =
        omega (arith, length-onto up (c ∷ [])) in
      elim (Bool-cases (has_root_marker host (onto (c ∷ up) []))) [
        | inl marked ↦
            rw marked
              (here, marked, λ d e parts longer. bare d e parts (omega (arith, longer, long)))
        | inr unmarked ↦ rw unmarked (
            climb-Climbed up (c ∷ below) whole
              (widen (onto (c ∷ up) []) below (length up) here long unmarked bare))
      ]

  -- Either no directory on the way up has a marker, the top aside, and the whole path is the root; or the
  -- root is the nearest that has one.
  abbrev pub IsProjectRoot : FilePath × Option FilePath → Type 0
  IsProjectRoot (dir, rel) =
      ((dir ≡ start) × (rel ≡ none) × BareBelow 0)
      ⊎ ((below : FilePath) × (dir ++ below ≡ start)
          × (rel ≡ relative below)
          × (has_root_marker host dir ≡ true)
          × BareBelow (length dir))

  abbrev outcome : Option (FilePath × FilePath) → FilePath × Option FilePath
  outcome none = (start, none)
  outcome (some (dir, below)) = (dir, relative below)

  reached : (o : Option (FilePath × FilePath)) → Climbed o → IsProjectRoot (outcome o)
  reached none bare = inl (refl, refl, bare)
  reached (some (dir, below)) (parts, marked, bare) = inr (below, parts, refl, marked, bare)

  -- The project root of a directory is the nearest directory on the way up, the top aside, that
  -- has a marker, with the rest of the path beside it if there is any; and the directory itself,
  -- with nothing beside it, if none has one.
  pub resolve_project_root-IsProjectRoot : IsProjectRoot (resolve_project_root host start)
  unfolding resolve_project_root
  resolve_project_root-IsProjectRoot = reached (climb host (onto start []) []) (
      climb-Climbed (onto start []) [] (onto-onto start [] [] ∙ append-nil start)
        (λ d e parts longer.
          absurd (omega (arith, longer, length-onto start [], length-append d e, ap length parts))))
