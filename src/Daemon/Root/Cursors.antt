-- ===== src/Daemon/Root/Cursors.antt =====
-- Named cursors, and which tombstones a prune leaves to them.
use watchwoman.Base.{
  ℕ, ◌≤◌, ◌<◌, ◌≡◌, refl, true, false, none, some, List, [], ◌∷◌, arith, inl, inr, Bool-cases,
  Option-cases, nat_eq, list_eq, lt→ltb, le→ltb,
}
use watchwoman.Base.Map
use watchwoman.Base.Text.{Text, FilePath}
use watchwoman.Daemon.Entry.{FileEntry}
use watchwoman.Daemon.Tree.{get}
use watchwoman.Daemon.Tree.Counters.{IsCounted}
use watchwoman.Daemon.Tree.Lookup.{get-prune}
use watchwoman.Daemon.Root.{Root, watermark_of, prune_tombstones, cursor_tick, min_tick}
use watchwoman.Daemon.Root.Visible.{changed_since}

pub watermark_of_le : (w : ℕ) (cursors : List (Text × ℕ)) → watermark_of w cursors ≤ w
unfolding watermark_of
watermark_of_le w [] = omega arith
watermark_of_le w ((name, t) ∷ cursors) = ground (arith, watermark_of_le (min_tick w t) cursors)

watermark_of_le_cursor :
    (w : ℕ) (cursors : List (Text × ℕ)) (name : Text) (t : ℕ)
    → Map.get cursors name ≡ some t
    → watermark_of w cursors ≤ t
unfolding watermark_of Map.get
watermark_of_le_cursor w [] name t h = cc
watermark_of_le_cursor w ((other, s) ∷ cursors) name t h = ground (
  arith,
  watermark_of_le (min_tick w s) cursors,
  watermark_of_le_cursor (min_tick w s) cursors name t,
)

-- A prune takes nothing that has changed since a clock at or past the watermark.
changed_since-prune_tombstones_past :
    (r : Root) (since : ℕ) (j : FilePath)
    → IsCounted r.tree
    → watermark_of r.clock.ticks r.cursors ≤ since
    → changed_since since (get (prune_tombstones r).0.tree j) ≡ changed_since since (get r.tree j)
unfolding prune_tombstones
changed_since-prune_tombstones_past r since j ok past = elim (Bool-cases r.jj_events) [
  | inl jj ↦ rw jj refl
  | inr full ↦
      rw (full, get-prune r.tree (watermark_of r.clock.ticks r.cursors) j ok)
        (elim (Option-cases (get r.tree j)) [
          | inl absent ↦ rw absent refl
          | inr (e, present) ↦ rw present (ground (arith, past))
        ])
]

-- A prune of a root with an exact index leaves to every known named cursor the same paths as
-- changed since its tick.
pub changed_since-prune_tombstones :
    (r : Root) (name : Text) (j : FilePath)
    → IsCounted r.tree
    → Map.contains_key r.cursors name ≡ true
    → let since = cursor_tick r name in
      changed_since since (get (prune_tombstones r).0.tree j) ≡ changed_since since (get r.tree j)
unfolding cursor_tick
changed_since-prune_tombstones r name j ok known = elim (Option-cases (Map.get r.cursors name)) [
  | inl absent ↦ cc
  | inr (t, found) ↦ rw found (
      changed_since-prune_tombstones_past r t j ok
        (watermark_of_le_cursor r.clock.ticks r.cursors name t found))
]

-- On a root with an exact full index, a tombstone at or below the watermark that counts as
-- changed since an earlier plain clock is gone after a prune, while the oldest available tick is
-- as before.
pub prune_tombstones_forgets :
    (r : Root) (since : ℕ) (j : FilePath) (e : FileEntry)
    → IsCounted r.tree
    → r.jj_events ≡ false
    → get r.tree j ≡ some e
    → e.exists ≡ false
    → since < e.oclock
    → e.oclock ≤ watermark_of r.clock.ticks r.cursors
    → let r' = (prune_tombstones r).0 in
      (changed_since since (get r.tree j) ≡ true)
      × (get r'.tree j ≡ none)
      × (r'.oldest_available_tick ≡ r.oldest_available_tick)
unfolding prune_tombstones
prune_tombstones_forgets r since j e ok full found gone before old =
    let watermark = watermark_of r.clock.ticks r.cursors in
    (
      rw (found, lt→ltb since e.oclock before) refl,
      rw (full, get-prune r.tree watermark j ok, found, gone, le→ltb watermark e.oclock old) refl,
      rw full refl,
    )
