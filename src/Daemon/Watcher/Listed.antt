-- ===== src/Daemon/Watcher/Listed.antt =====
-- What the index of a root in full mode shows once the scan has filled it.
use watchwoman.Base.{
  ℕ, ◌≡◌, refl, ap, ◌∙◌, Bool, true, false, ◌&&◌, Option, none, some, List, [], ◌∷◌, ◌++◌, arith,
  inl, inr, Bool-cases, Option-cases, nat_eq, list_eq, ◌==◌, eq_iff, if◌then◌else◌, filter,
}
use watchwoman.Base.Map
use watchwoman.Base.Text.{Text, FilePath}
use watchwoman.Daemon.Entry.{Metadata, FileEntry, from_metadata}
use watchwoman.Daemon.Tree
use watchwoman.Daemon.Tree.{Tree, get}
use watchwoman.Daemon.Tree.Lookup.{get-upsert}
use watchwoman.Daemon.Watch.{WatchIgnores}
use watchwoman.Daemon.Root.{Scanned, upsert_all}
use watchwoman.Query.Paths.{strip_base}
use watchwoman.Daemon.Watcher.{
  Nodes, no_nodes, node, link_target, is_real_dir, walk, initial_scan, should_ignore,
}
use watchwoman.Daemon.Watcher.Scope.{is_listed, initial_scan-filter}
use watchwoman.Daemon.Watcher.Batch.{is_hidden}
use watchwoman.Daemon.Watcher.Shown.{shown}
use watchwoman.Daemon.Watcher.Mirror.{timeless, content, on_disk}
use watchwoman.Daemon.Watcher.NodeAt.{
  node_at, AreDistinct, over, at, entered, is_whole, strip_base-entered, strip_base-is_whole,
  no_rules, over_node, over_failed,
}

abbrev seeded : FilePath → Option FileEntry → List Scanned → Option FileEntry
seeded j v [] = v
seeded j v ((rel, md, target) ∷ entries) =
    seeded j (if rel == j then some (timeless (from_metadata md target 0)) else v) entries

content-upsert :
    (tick : ℕ) (t : Tree) (rel : FilePath) (md : Metadata) (target : Option Text) (j : FilePath)
    → content (shown (get (Tree.upsert t rel md target tick false tick) j)) ≡ (
        if rel == j then some (timeless (from_metadata md target 0)) else content (shown (get t j)))
unfolding from_metadata
content-upsert tick t rel md target j = elim (Bool-cases (rel == j)) [
  | inl same ↦ rw (get-upsert t rel md target tick false tick j, same) refl
  | inr other ↦ rw (get-upsert t rel md target tick false tick j, other) refl
]

content-upsert_all :
    (tick : ℕ) (entries : List Scanned) (t : Tree) (j : FilePath)
    → content (shown (get (upsert_all tick t entries) j))
      ≡ seeded j (content (shown (get t j))) entries
unfolding upsert_all
content-upsert_all tick [] t j = refl
content-upsert_all tick ((rel, md, target) ∷ entries) t j =
    content-upsert_all tick entries (Tree.upsert t rel md target tick false tick) j
    ∙ ap (λ v. seeded j v entries) (content-upsert tick t rel md target j)

seeded-append :
    (j : FilePath) (xs ys : List Scanned) (v : Option FileEntry)
    → seeded j v (xs ++ ys) ≡ seeded j (seeded j v xs) ys
seeded-append j [] ys v = refl
seeded-append j ((rel, md, target) ∷ xs) ys v = seeded-append j xs ys _

seeded-filter :
    (ignores : WatchIgnores) (j : FilePath) (entries : List Scanned) (v : Option FileEntry)
    → should_ignore ignores j ≡ false
    → seeded j v (filter (is_listed ignores) entries) ≡ seeded j v entries
seeded-filter ignores j [] v shows = refl
seeded-filter ignores j ((rel, md, target) ∷ entries) v shows =
    elim (Bool-cases (should_ignore ignores rel)) [
      | inr listed ↦ rw listed (seeded-filter ignores j entries _ shows)
      | inl hidden ↦
          let other : (rel == j) ≡ false = ground (arith, hidden, shows, eq_iff rel j) in
          rw (hidden, other) (seeded-filter ignores j entries v shows)
    ]

seeded-if :
    (b : Bool) (j : FilePath) (v : Option FileEntry) (xs : List Scanned)
    → seeded j v (if b then xs else []) ≡ (if b then seeded j v xs else v)
seeded-if true j v xs = refl
seeded-if false j v xs = refl

over_if :
    (b : Bool) (x : Option (Metadata × Option Text)) (v : Option FileEntry)
    → (if b && true then over (on_disk x) v else v) ≡ over (on_disk (if b then x else none)) v
over_if true x v = refl
over_if false x v = refl

-- The scan without rules finds what is at each path.
seeded-walk :
    (disk : Nodes) (rel_dir j : FilePath) (v : Option FileEntry)
    → AreDistinct disk
    → seeded j v (walk no_rules false rel_dir disk)
      ≡ over (on_disk (at disk (strip_base rel_dir j))) v
unfolding walk
seeded-walk no_nodes rel_dir j v distinct = elim (Option-cases (strip_base rel_dir j)) [
  | inl outside ↦ rw outside refl
  | inr (sub, inside) ↦ rw inside refl
]
seeded-walk (node name none link children siblings) rel_dir j v (fresh, below, rest) =
    seeded-walk siblings rel_dir j v rest
    ∙ ap (λ o. over (on_disk o) v)
        (over_failed name link children siblings (strip_base rel_dir j) fresh)
seeded-walk (node name (some md) link children siblings) rel_dir j v (fresh, below, rest) =
    let rel : FilePath = rel_dir ++ name ∷ [] in
    let s : Option FilePath = strip_base rel_dir j in
    let entry : Option FileEntry = some (timeless (from_metadata md (link_target md link) 0)) in
    let w : Option FileEntry = if rel == j then entry else v in
    let under : List Scanned = walk no_rules false rel children in
    let real = is_real_dir md in
    let inside : strip_base rel j ≡ entered name s = strip_base-entered rel_dir j name in
    let whole : (rel == j) ≡ is_whole (entered name s) =
      strip_base-is_whole rel j ∙ ap is_whole inside in
    let descent : seeded j w (if real && true then under else [])
        ≡ over (on_disk (if real then at children (strip_base rel j) else none)) w =
      seeded-if (real && true) j w under
      ∙ ap (λ x. if real && true then x else w) (seeded-walk children rel j w below)
      ∙ over_if real (at children (strip_base rel j)) w in
    seeded-append j (if real && true then under else []) (walk no_rules false rel_dir siblings) w
    ∙ seeded-walk siblings rel_dir j _ rest
    ∙ ap (over (on_disk (at siblings s))) (
        descent
        ∙ ap (λ t. over (on_disk (if real then at children t else none)) w) inside
        ∙ ap
            (λ b.
              over (on_disk (if real then at children (entered name s) else none))
                (if b then entry else v))
            whole)
    ∙ over_node name md link children siblings s v fresh

over-none : (o : Option FileEntry) → over o none ≡ o
over-none none = refl
over-none (some e) = refl

-- An index filled by the scan shows at a path that the rules let through what the disk has.
pub content-initial_scan :
    (ignores : WatchIgnores) (disk : Nodes) (tick : ℕ) (j : FilePath)
    → AreDistinct disk
    → is_hidden ignores j ≡ false
    → content (shown (get (upsert_all tick Tree.new (initial_scan ignores disk)) j))
      ≡ on_disk (node_at disk j)
unfolding strip_base get Map.get
content-initial_scan ignores disk tick j distinct seen =
    let shows : should_ignore ignores j ≡ false = ground (arith, seen) in
    content-upsert_all tick (initial_scan ignores disk) Tree.new j
    ∙ ap (seeded j none) (initial_scan-filter ignores disk)
    ∙ seeded-filter ignores j (initial_scan no_rules disk) none shows
    ∙ seeded-walk disk [] j none distinct
    ∙ over-none (on_disk (node_at disk j))
