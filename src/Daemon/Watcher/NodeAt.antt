-- ===== src/Daemon/Watcher/NodeAt.antt =====
-- What a disk has at a path, on top of what was there.
use watchwoman.Base.{
  ◌≡◌, refl, subst, Bool, true, false, ◌&&◌, not, Option, none, some, [], ◌∷◌, ◌++◌, arith, inl,
  inr, Bool-cases, nat_eq, list_eq, ◌==◌, eq_iff, if◌then◌else◌,
}
use watchwoman.Base.Text.{Text, FilePath}
use watchwoman.Daemon.Entry.{Metadata, FileEntry, from_metadata}
use watchwoman.Daemon.Watch.{WatchIgnores}
use watchwoman.Query.Paths.{strip_base}
use watchwoman.Daemon.Watcher.{Nodes, no_nodes, node, link_target, is_real_dir}
use watchwoman.Daemon.Watcher.Mirror.{timeless, on_disk}

-- What a disk has at a path; links are not followed.
abbrev pub node_at : Nodes → FilePath → Option (Metadata × Option Text)
node_at no_nodes sub = none
node_at (node name stat link children siblings) [] = none
node_at (node name none link children siblings) (c ∷ sub) =
    if name == c then none else node_at siblings (c ∷ sub)
node_at (node name (some md) link children siblings) (c ∷ []) =
    if name == c then some (md, link) else node_at siblings (c ∷ [])
node_at (node name (some md) link children siblings) (c ∷ d ∷ sub) =
    if name == c
    then (if is_real_dir md then node_at children (d ∷ sub) else none)
    else node_at siblings (c ∷ d ∷ sub)

abbrev is_fresh : Text → Nodes → Bool
is_fresh name no_nodes = true
is_fresh name (node other stat link children siblings) =
    not (other == name) && is_fresh name siblings

-- No directory has a name twice.
abbrev pub AreDistinct : Nodes → Type 0
AreDistinct no_nodes = Unit
AreDistinct (node name stat link children siblings) =
    (is_fresh name siblings ≡ true) × AreDistinct children × AreDistinct siblings

-- What is found on top of what was there.
abbrev pub over : Option FileEntry → Option FileEntry → Option FileEntry
over none v = v
over (some e) v = some e

abbrev pub at : Nodes → Option FilePath → Option (Metadata × Option Text)
at nodes none = none
at nodes (some sub) = node_at nodes sub

-- What is left of a path below a directory, below one of its entries.
abbrev pub entered : Text → Option FilePath → Option FilePath
entered name none = none
entered name (some []) = none
entered name (some (c ∷ sub)) = if name == c then some sub else none

pub strip_base-entered :
    (base j : FilePath) (name : Text)
    → strip_base (base ++ name ∷ []) j ≡ entered name (strip_base base j)
unfolding strip_base
strip_base-entered [] [] name = refl
strip_base-entered [] (c ∷ j) name = refl
strip_base-entered (b ∷ base) [] name = refl
strip_base-entered (b ∷ base) (c ∷ j) name = ground (arith, strip_base-entered base j name)

abbrev pub is_whole : Option FilePath → Bool
is_whole (some []) = true
is_whole _ = false

pub strip_base-is_whole : (rel j : FilePath) → (rel == j) ≡ is_whole (strip_base rel j)
unfolding strip_base
strip_base-is_whole [] [] = refl
strip_base-is_whole [] (c ∷ j) = refl
strip_base-is_whole (b ∷ rel) [] = refl
strip_base-is_whole (b ∷ rel) (c ∷ j) = ground (arith, strip_base-is_whole rel j)

node_at_fresh :
    (nodes : Nodes) (name : Text) (sub : FilePath)
    → is_fresh name nodes ≡ true
    → node_at nodes (name ∷ sub) ≡ none
node_at_fresh no_nodes name sub h = refl
node_at_fresh (node other none link children siblings) name sub h =
    ground (arith, h, node_at_fresh siblings name sub)
node_at_fresh (node other (some md) link children siblings) name [] h =
    ground (arith, h, node_at_fresh siblings name [])
node_at_fresh (node other (some md) link children siblings) name (d ∷ sub) h =
    ground (arith, h, node_at_fresh siblings name (d ∷ sub))

abbrev pub no_rules : WatchIgnores
no_rules = record { dirs = []; vcs = [] }

node_at_root : (nodes : Nodes) → node_at nodes [] ≡ none
node_at_root no_nodes = refl
node_at_root (node name stat link children siblings) = refl

fresh_at :
    (nodes : Nodes) (name c : Text) (sub : FilePath)
    → is_fresh name nodes ≡ true
    → (name == c) ≡ true
    → node_at nodes (c ∷ sub) ≡ none
fresh_at nodes name c sub h same =
    subst (λ b. node_at nodes (b ∷ sub) ≡ none) ((eq_iff name c).0 same)
      (node_at_fresh nodes name sub h)

-- An entry, what is below it, and its siblings.
pub over_node :
    (name : Text) (md : Metadata) (link : Option Text) (children siblings : Nodes)
    (s : Option FilePath) (v : Option FileEntry)
    → is_fresh name siblings ≡ true
    → over (on_disk (at siblings s)) (
        over (on_disk (if is_real_dir md then at children (entered name s) else none)) (
          if is_whole (entered name s)
          then some (timeless (from_metadata md (link_target md link) 0))
          else v))
      ≡ over (on_disk (at (node name (some md) link children siblings) s)) v
over_node name md link children siblings none v h = elim (Bool-cases (is_real_dir md)) [
  | inl real ↦ rw real refl
  | inr other ↦ rw other refl
]
over_node name md link children siblings (some []) v h = elim (Bool-cases (is_real_dir md)) [
  | inl real ↦ rw (node_at_root siblings, real) refl
  | inr other ↦ rw (node_at_root siblings, other) refl
]
over_node name md link children siblings (some (c ∷ [])) v h = elim (Bool-cases (name == c)) [
  | inr other ↦ elim (Bool-cases (is_real_dir md)) [
    | inl real ↦ rw (other, real) refl
    | inr leaf ↦ rw (other, leaf) refl
  ]
  | inl same ↦ elim (Bool-cases (is_real_dir md)) [
    | inl real ↦ rw (same, fresh_at siblings name c [] h same, real, node_at_root children) refl
    | inr leaf ↦ rw (same, fresh_at siblings name c [] h same, leaf) refl
  ]
]
over_node name md link children siblings (some (c ∷ d ∷ sub)) v h = elim (Bool-cases (name == c)) [
  | inr other ↦ elim (Bool-cases (is_real_dir md)) [
    | inl real ↦ rw (other, real) refl
    | inr leaf ↦ rw (other, leaf) refl
  ]
  | inl same ↦ elim (Bool-cases (is_real_dir md)) [
    | inl real ↦ rw (same, fresh_at siblings name c (d ∷ sub) h same, real) refl
    | inr leaf ↦ rw (same, fresh_at siblings name c (d ∷ sub) h same, leaf) refl
  ]
]

pub over_failed :
    (name : Text) (link : Option Text) (children siblings : Nodes) (s : Option FilePath)
    → is_fresh name siblings ≡ true
    → at siblings s ≡ at (node name none link children siblings) s
over_failed name link children siblings none h = refl
over_failed name link children siblings (some []) h = node_at_root siblings
over_failed name link children siblings (some (c ∷ sub)) h = elim (Bool-cases (name == c)) [
  | inl same ↦ rw (same, fresh_at siblings name c sub h same) refl
  | inr other ↦ rw other refl
]
