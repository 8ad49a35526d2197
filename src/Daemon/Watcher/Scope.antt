-- ===== src/Daemon/Watcher/Scope.antt =====
-- The scan lists what the rules on single paths let through, and nothing else.
use watchwoman.Base.{
  ℕ, ◌+◌, ◌≡◌, refl, sym, ◌∙◌, ap, Bool, true, false, ◌&&◌, ◌||◌, not, none, some, List, [], ◌∷◌,
  ◌++◌, arith, ltb, nat_eq, list_eq, if◌then◌else◌, length, any, filter, filter-append, Bool-cases,
  inl, inr,
}
use watchwoman.Base.Text.{Text, FilePath}
use watchwoman.Daemon.Watch.{WatchIgnores}
use watchwoman.Daemon.Root.{Scanned}
use watchwoman.Daemon.Watcher.{
  Nodes, no_nodes, node, is_real_dir, is_dir_rule, is_vcs_rule, walk, initial_scan, vcs_at,
  should_ignore,
}

-- Where a path stands: nowhere special, at a VCS directory, directly in one, or out of sight.
data Scope : Type 0 where
  open_dir vcs_dir vcs_entry dropped : Scope

abbrev is_dropped : Scope → Bool
is_dropped dropped = true
is_dropped _ = false

module _ (ignores : WatchIgnores) where
  abbrev enter : Scope → Bool → Scope
  enter open_dir vcs = if vcs then vcs_dir else open_dir
  enter vcs_dir vcs = vcs_entry
  enter vcs_entry vcs = dropped
  enter dropped vcs = dropped

  abbrev step : Scope → Text → Scope
  step s name = if is_dir_rule ignores name then dropped else enter s (is_vcs_rule ignores name)

  abbrev scope_from : Scope → FilePath → Scope
  scope_from s [] = s
  scope_from s (c ∷ cs) = scope_from (step s c) cs

  -- What the loop over the names finds, without indices.
  abbrev too_deep : Scope → FilePath → Bool
  too_deep open_dir [] = false
  too_deep open_dir (s ∷ names) =
      if is_vcs_rule ignores s then too_deep vcs_dir names else too_deep open_dir names
  too_deep vcs_dir names = ltb 1 (length names)
  too_deep vcs_entry names = ltb 0 (length names)
  too_deep dropped names = true

  too_deep-vcs_at :
      (i len : ℕ) (names : FilePath)
      → len ≡ i + length names
      → vcs_at ignores i len names ≡ too_deep open_dir names
  unfolding vcs_at
  too_deep-vcs_at i len [] h = refl
  too_deep-vcs_at i len (s ∷ names) h = elim (Bool-cases (is_vcs_rule ignores s)) [
    | inl vcs ↦ rw vcs (ground (arith, h))
    | inr other ↦ rw other (too_deep-vcs_at (i + 1) len names (omega (arith, h)))
  ]

  scope_from-dropped : (names : FilePath) → scope_from dropped names ≡ dropped
  scope_from-dropped [] = refl
  scope_from-dropped (s ∷ names) = ground (arith, scope_from-dropped names)

  or_true : (b : Bool) → true ≡ (b || true)
  or_true true = refl
  or_true false = refl

  scope_from-too_deep :
      (s : Scope) (names : FilePath)
      → is_dropped (scope_from s names) ≡ (any (is_dir_rule ignores) names || too_deep s names)
  scope_from-too_deep dropped names = rw (scope_from-dropped names) (or_true _)
  scope_from-too_deep open_dir [] = refl
  scope_from-too_deep vcs_dir [] = refl
  scope_from-too_deep vcs_entry [] = refl
  scope_from-too_deep open_dir (c ∷ cs) = ground (
    arith,
    scope_from-dropped cs,
    scope_from-too_deep open_dir cs,
    scope_from-too_deep vcs_dir cs,
  )
  scope_from-too_deep vcs_dir (c ∷ cs) =
      ground (arith, scope_from-dropped cs, scope_from-too_deep vcs_entry cs)
  scope_from-too_deep vcs_entry (c ∷ cs) = ground (arith, scope_from-dropped cs)

  should_ignore-scope_from :
      (rel : FilePath) → should_ignore ignores rel ≡ is_dropped (scope_from open_dir rel)
  unfolding should_ignore
  should_ignore-scope_from rel =
      ground (arith, scope_from-too_deep open_dir rel, too_deep-vcs_at 0 (length rel) rel)

  scope_from-append :
      (s : Scope) (rel : FilePath) (name : Text)
      → scope_from s (rel ++ name ∷ []) ≡ step (scope_from s rel) name
  scope_from-append s [] name = refl
  scope_from-append s (c ∷ cs) name = scope_from-append (step s c) cs name

  abbrev pub is_listed : Scanned → Bool
  is_listed entry = not (should_ignore ignores entry.0)

  -- The scan with no rules.
  abbrev everything : FilePath → Nodes → List Scanned
  everything rel_dir nodes = walk (record { dirs = []; vcs = [] }) false rel_dir nodes

  abbrev is_out : Scope → Bool
  is_out vcs_entry = true
  is_out dropped = true
  is_out _ = false

  step_out : (s : Scope) (name : Text) → is_out s ≡ true → step s name ≡ dropped
  step_out vcs_entry name h = ground arith
  step_out dropped name h = ground arith
  step_out open_dir name h = cc
  step_out vcs_dir name h = cc

  should_ignore-append :
      (rel_dir : FilePath) (name : Text) (s : Scope)
      → scope_from open_dir rel_dir ≡ s
      → should_ignore ignores (rel_dir ++ name ∷ []) ≡ is_dropped (step s name)
  should_ignore-append rel_dir name s h =
      should_ignore-scope_from _
      ∙ ap is_dropped (rw (← h) (scope_from-append open_dir rel_dir name))

  filter-descent :
      (b : Bool) (xs ys : List Scanned)
      → filter is_listed ((if b then xs else []) ++ ys)
        ≡ (if b then filter is_listed xs else []) ++ filter is_listed ys
  filter-descent true xs ys = filter-append is_listed xs ys
  filter-descent false xs ys = refl

  abbrev no_entries : List Scanned
  no_entries = []

  if_same : (b : Bool) → (if b then no_entries else no_entries) ++ no_entries ≡ []
  if_same true = refl
  if_same false = refl

  filter-everything_out :
      (rel_dir : FilePath) (nodes : Nodes)
      → is_out (scope_from open_dir rel_dir) ≡ true
      → filter is_listed (everything rel_dir nodes) ≡ []
  unfolding walk
  filter-everything_out rel_dir no_nodes h = refl
  filter-everything_out rel_dir (node name none link children siblings) h =
      filter-everything_out rel_dir siblings h
  filter-everything_out rel_dir (node name (some md) link children siblings) h =
      let rel = rel_dir ++ name ∷ [] in
      let s = scope_from open_dir rel_dir in
      let gone = should_ignore-append rel_dir name s refl ∙ ap is_dropped (step_out s name h) in
      let inside = scope_from-append open_dir rel_dir name ∙ step_out s name h in
      rw
        (
          gone,
          filter-descent (is_real_dir md && true) _ _,
          filter-everything_out rel children (rw inside refl),
          filter-everything_out rel_dir siblings h,
        )
        (if_same (is_real_dir md && true))

  drop_descent : (b : Bool) (xs : List Scanned) → xs ≡ (if b then no_entries else no_entries) ++ xs
  drop_descent true xs = refl
  drop_descent false xs = refl

  abbrev depth_scope : Bool → Scope
  depth_scope shallow = if shallow then vcs_dir else open_dir

  depth_scope_not_out : (shallow : Bool) → is_out (depth_scope shallow) ≡ false
  depth_scope_not_out true = refl
  depth_scope_not_out false = refl

  kept : (s : Scope) (vcs : Bool) → is_out s ≡ false → is_dropped (enter s vcs) ≡ false
  kept open_dir true h = refl
  kept open_dir false h = refl
  kept vcs_dir vcs h = refl
  kept vcs_entry vcs h = cc
  kept dropped vcs h = cc

  -- Below a VCS directory the scan takes one level, and the rules hide the rest.
  filter-children :
      (shallow vcs : Bool) (rel : FilePath) (children : Nodes) (real : Bool)
      → (scope_from open_dir rel ≡ depth_scope vcs
          → walk ignores vcs rel children ≡ filter is_listed (everything rel children))
      → scope_from open_dir rel ≡ enter (depth_scope shallow) vcs
      → (if real && not shallow then walk ignores vcs rel children else no_entries)
        ≡ (if real && true then filter is_listed (everything rel children) else no_entries)
  filter-children shallow vcs rel children false below h = refl
  filter-children true vcs rel children true below h =
      sym (filter-everything_out rel children (rw h refl))
  filter-children false true rel children true below h = below h
  filter-children false false rel children true below h = below h

  filter-everything :
      (shallow : Bool) (rel_dir : FilePath) (nodes : Nodes)
      → scope_from open_dir rel_dir ≡ depth_scope shallow
      → walk ignores shallow rel_dir nodes ≡ filter is_listed (everything rel_dir nodes)
  unfolding walk
  filter-everything shallow rel_dir no_nodes h = refl
  filter-everything shallow rel_dir (node name none link children siblings) h =
      elim (Bool-cases (is_dir_rule ignores name)) [
        | inl hidden ↦ rw hidden (filter-everything shallow rel_dir siblings h)
        | inr shown ↦ rw shown (filter-everything shallow rel_dir siblings h)
      ]
  filter-everything shallow rel_dir (node name (some md) link children siblings) h =
      let rel = rel_dir ++ name ∷ [] in
      let seen = should_ignore-append rel_dir name (depth_scope shallow) h in
      let inside : scope_from open_dir rel ≡ step (depth_scope shallow) name =
        rw (← h) (scope_from-append open_dir rel_dir name) in
      let after = filter-everything shallow rel_dir siblings h in
      elim (Bool-cases (is_dir_rule ignores name)) [
        | inl hidden ↦
            rw
              (
                seen,
                hidden,
                filter-descent (is_real_dir md && true) (everything rel children)
                    (everything rel_dir siblings),
                filter-everything_out rel children (rw (inside, hidden) refl),
                after,
              )
              (drop_descent (is_real_dir md && true) _)
        | inr shown ↦
            rw
              (
                seen,
                shown,
                kept (depth_scope shallow) (is_vcs_rule ignores name) (depth_scope_not_out shallow),
                filter-descent (is_real_dir md && true) (everything rel children)
                    (everything rel_dir siblings),
                filter-children shallow (is_vcs_rule ignores name) rel children (is_real_dir md)
                    (filter-everything (is_vcs_rule ignores name) rel children)
                    (rw shown at inside),
                after,
              )
              refl
      ]

  -- The scan of a disk under some ignore rules lists, in order, exactly the entries of the scan
  -- without rules that the test on single paths lets through.
  pub initial_scan-filter :
      (disk : Nodes)
      → initial_scan ignores disk
        ≡ filter is_listed (initial_scan (record { dirs = []; vcs = [] }) disk)
  initial_scan-filter disk = filter-everything false [] disk refl
