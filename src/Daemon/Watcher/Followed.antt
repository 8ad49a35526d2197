-- ===== src/Daemon/Watcher/Followed.antt =====
-- A root in full mode from its scan on, through batches of reports and sweeps.
use watchwoman.Base.{
  ℕ, ◌+◌, ◌^◌, ◌<◌, ◌≡◌, refl, ◌∙◌, Bool, true, false, ◌||◌, ltb, Option, none, some, List, ◌++◌,
  nat_eq, list_eq, if◌then◌else◌,
}
use watchwoman.Base.Text.{FilePath}
use watchwoman.Daemon.Entry.{FileEntry}
use watchwoman.Daemon.Tree
use watchwoman.Daemon.Tree.{get, is_kept, prune_tombstones_before}
use watchwoman.Daemon.Clock.{bump}
use watchwoman.Daemon.Tree.Counters.{IsCounted, IsCounted-new, prune-IsCounted}
use watchwoman.Daemon.Tree.Lookup.{get-prune}
use watchwoman.Daemon.Root.{
  Root, Scanned, upsert_all, seed, promote_to_full, prune_tombstones, watermark_of,
}
use watchwoman.Daemon.Root.Invariant.{upsert_all-IsCounted}
use watchwoman.Daemon.JjScope.{IgnoreFiles, JjScope}
use watchwoman.Query.Paths.{strip_base}
use watchwoman.Daemon.Watcher.{Nodes, initial_scan}
use watchwoman.Daemon.Watcher.Events.{Reported, settle}
use watchwoman.Daemon.Watcher.Batch.{is_hidden, settle-full}
use watchwoman.Daemon.Watcher.Shown.{shown}
use watchwoman.Daemon.Watcher.Settled.{strip_base-append}
use watchwoman.Daemon.Watcher.Mirror.{Disk, content, on_disk, IsMirror, IsReported, settle-IsMirror}
use watchwoman.Daemon.Watcher.Listed.{content-initial_scan}
use watchwoman.Daemon.Watcher.NodeAt.{node_at, AreDistinct}

-- A tree of names that stands at a directory.
abbrev pub mounted : FilePath → Nodes → Disk
mounted root_dir disk abs = elim (strip_base root_dir abs) [
  | none ↦ none
  | some rel ↦ node_at disk rel
]

-- The disk and the root that stand side by side after a scan of all of it, after a batch that tells of
-- what changed, after a sweep, and after what leaves the index, the rules and the mode as they are.
pub data Followed (files : IgnoreFiles) (root_dir : FilePath) : Disk → Root → Type 0 where
  scanned :
      (r : Root) (disk : Nodes)
      → r.jj_events ≡ false
      → AreDistinct disk
      → Followed files root_dir (mounted root_dir disk) (seed r (initial_scan r.ignores disk)).0
  promoted :
      (r : Root) (disk : Nodes)
      → r.jj_events ≡ true
      → AreDistinct disk
      → Followed files root_dir
          (mounted root_dir disk)
          (promote_to_full r (initial_scan r.ignores disk))
  settled :
      {before : Disk} {r : Root}
      → Followed files root_dir before r
      → (after : Disk) (arena_bytes : ℕ) (scope : JjScope files) (events : List Reported)
      → r.clock.ticks + 1 < 2 ^ 64
      → IsReported before after root_dir r.ignores events
      → Followed files root_dir after (settle files after root_dir arena_bytes r scope events).root
  swept :
      {stat : Disk} {r : Root}
      → Followed files root_dir stat r
      → Followed files root_dir stat (prune_tombstones r).0
  used :
      {stat : Disk} {r : Root}
      → Followed files root_dir stat r
      → (r' : Root) → r'.tree ≡ r.tree
      → r'.ignores ≡ r.ignores
      → r'.jj_events ≡ r.jj_events
      → Followed files root_dir stat r'

pub record IsFollowing (stat : Disk) (root_dir : FilePath) (r : Root) : Type 0 where
  pub mirror : IsMirror stat root_dir r
  pub full : r.jj_events ≡ false
  pub counted : IsCounted r.tree

shown_if :
    (live b : Bool) (e : FileEntry)
    → e.exists ≡ live
    → shown (if live || b then some e else none) ≡ shown (some e)
shown_if true b e h = refl
shown_if false true e h = refl
shown_if false false e h = rw h refl

shown_kept :
    (o : Option FileEntry) (watermark : ℕ)
    → shown (elim o [ none ↦ none | some e ↦ if is_kept watermark e then some e else none ])
      ≡ shown o
shown_kept none watermark = refl
shown_kept (some e) watermark = shown_if e.exists (ltb watermark e.oclock) e refl

content-mounted :
    (root_dir j : FilePath) (disk : Nodes)
    → on_disk (node_at disk j) ≡ on_disk (mounted root_dir disk (root_dir ++ j))
content-mounted root_dir j disk = rw (mounted, strip_base-append root_dir j) refl

promote_to_full_lem :
    (r : Root) (entries : List Scanned)
    → r.jj_events ≡ true
    → ((promote_to_full r entries).tree ≡ upsert_all (bump r.clock).1 Tree.new entries)
      × ((promote_to_full r entries).ignores ≡ r.ignores)
      × ((promote_to_full r entries).jj_events ≡ false)
unfolding promote_to_full
promote_to_full_lem r entries jj = (rw jj refl, rw jj refl, rw jj refl)

prune_tombstones_lem :
    (r : Root)
    → r.jj_events ≡ false
    → ((prune_tombstones r).0.tree
        ≡ (prune_tombstones_before r.tree (watermark_of r.clock.ticks r.cursors)).0)
      × ((prune_tombstones r).0.ignores ≡ r.ignores)
      × ((prune_tombstones r).0.jj_events ≡ false)
unfolding prune_tombstones
prune_tombstones_lem r full = (rw full refl, rw full refl, rw full refl)

module _ (files : IgnoreFiles) (root_dir : FilePath) where
  pub Followed-IsFollowing :
      {stat : Disk} {r : Root} → Followed files root_dir stat r → IsFollowing stat root_dir r
  unfolding seed
  Followed-IsFollowing (scanned r disk full distinct) = record {
    mirror = λ j seen.
        content-initial_scan r.ignores disk _ j distinct seen ∙ content-mounted root_dir j disk;
    full = full;
    counted = upsert_all-IsCounted _ Tree.new (initial_scan r.ignores disk) IsCounted-new;
  }
  Followed-IsFollowing (promoted r disk jj distinct) =
      let (tree, rules, full) = promote_to_full_lem r (initial_scan r.ignores disk) jj in
      record {
        mirror = λ j seen. rw tree (
            content-initial_scan r.ignores disk _ j distinct (rw rules at seen)
            ∙ content-mounted root_dir j disk);
        full = full;
        counted =
            rw tree (upsert_all-IsCounted _ Tree.new (initial_scan r.ignores disk) IsCounted-new);
      }
  Followed-IsFollowing
        (settled {before} {r} followed after arena_bytes scope events room reported) =
      let was = Followed-IsFollowing followed in
      let (rules, full, counted) =
        settle-full files after root_dir r was.full arena_bytes scope events was.counted in
      record {
        mirror = λ j seen.
            settle-IsMirror files root_dir before after r arena_bytes scope events was.full room
              was.mirror reported j (rw rules at seen);
        full = full;
        counted = counted;
      }
  Followed-IsFollowing (swept {stat} {r} followed) =
      let was = Followed-IsFollowing followed in
      let (tree, rules, full) = prune_tombstones_lem r was.full in
      let watermark : ℕ = watermark_of r.clock.ticks r.cursors in
      record {
        mirror = λ j seen.
            rw (tree, get-prune r.tree watermark j was.counted, shown_kept (get r.tree j) watermark)
              (was.mirror j (rw rules at seen));
        full = full;
        counted = rw tree (prune-IsCounted r.tree watermark was.counted);
      }
  Followed-IsFollowing (used {stat} {r} followed r' tree rules mode) =
      let was = Followed-IsFollowing followed in
      record {
        mirror = λ j seen. rw tree (was.mirror j (rw rules at seen));
        full = mode ∙ was.full;
        counted = rw tree was.counted;
      }

  -- From the scan of a disk whose directories have no name twice, through batches that tell of all
  -- that changed, below the last u64, through sweeps and what leaves the index alone, the index of
  -- a root in full mode shows at every path that the ignore rules let through what the disk has,
  -- and nothing else.
  pub content-Followed :
      {stat : Disk} {r : Root}
      → Followed files root_dir stat r
      → (j : FilePath) → is_hidden r.ignores j ≡ false
      → content (shown (get r.tree j)) ≡ on_disk (stat (root_dir ++ j))
  content-Followed followed = (Followed-IsFollowing followed).mirror
