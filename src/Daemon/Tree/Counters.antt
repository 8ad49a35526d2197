-- ===== src/Daemon/Tree/Counters.antt =====
-- The counters of the index count its entries, whatever is done to it.
use watchwoman.Base.{
  ℕ, ◌+◌, ◌≤◌, ◌≡◌, refl, ◌∙◌, Bool, true, not, Option, none, some, List, arith, sym, inl, inr,
  Option-cases, Bool-cases, nat_eq, list_eq, ◌==◌, ◌&&◌,
}
use watchwoman.Base.Map
use watchwoman.Base.Map.{
  length-retain, count-remove, Unique, count, counted, one, count-insert, count_split,
  insert-Unique, retain-Unique, count-retain,
}
use watchwoman.Base.Text.{Text, FilePath}
use watchwoman.Daemon.Entry.{Metadata, FileEntry, from_metadata, missing}
use watchwoman.Daemon.Tree.{
  Tree, new, len, upsert, count_insert, mark_gone, record_gone, record_signal, signal_over,
  prune_tombstones_before, gone_entry, signal_entry, is_kept,
}

abbrev pub is_live : FileEntry → Bool
is_live e = e.exists

abbrev pub is_gone : FileEntry → Bool
is_gone e = not e.exists

-- Every path once, and both counters exact.
pub record IsCounted (t : Tree) : Type 0 where
  pub unique : Unique t.entries
  pub live : t.live ≡ count is_live t.entries
  pub tombstones : t.tombstones ≡ count is_gone t.entries

pub IsCounted-new : IsCounted new
unfolding count
IsCounted-new = record { unique = tt; live = refl; tombstones = refl }

module _ {t : Tree} (rel : FilePath) (ok : IsCounted t) where
  -- An insertion that moves the counters by what the old and the new entry count for.
  insert-IsCounted :
      (entry : FileEntry) {live tombstones : ℕ}
      → live + counted is_live (Map.get t.entries rel) ≡ t.live + one (is_live entry)
      → tombstones + counted is_gone (Map.get t.entries rel) ≡ t.tombstones + one (is_gone entry)
      → IsCounted (record {
        entries = Map.insert t.entries rel entry;
        live = live;
        tombstones = tombstones;
      })
  insert-IsCounted entry h g = record {
    unique = insert-Unique t.entries rel entry ok.unique;
    live = omega (arith, h, ok.live, count-insert is_live t.entries rel entry);
    tombstones = omega (arith, g, ok.tombstones, count-insert is_gone t.entries rel entry);
  }

  -- The same, by the entry that stood there.
  inserted-IsCounted :
      (entry : FileEntry) (old : Option FileEntry) {live tombstones : ℕ}
      → Map.get t.entries rel ≡ old
      → live + counted is_live old ≡ t.live + one (is_live entry)
      → tombstones + counted is_gone old ≡ t.tombstones + one (is_gone entry)
      → IsCounted (record {
        entries = Map.insert t.entries rel entry;
        live = live;
        tombstones = tombstones;
      })
  inserted-IsCounted entry old same h g = insert-IsCounted entry (rw same h) (rw same g)

  -- A counter is at least what the entry at a path counts for.
  counted_le :
      (old : Option FileEntry)
      → Map.get t.entries rel ≡ old
      → (counted is_live old ≤ t.live) × (counted is_gone old ≤ t.tombstones)
  counted_le old same = rw (sym same) (
    omega (arith, ok.live, count-remove is_live t.entries rel),
    omega (arith, ok.tombstones, count-remove is_gone t.entries rel),
  )

  count_insert-IsCounted :
      (entry : FileEntry) (old : Option FileEntry)
      → entry.exists ≡ true
      → Map.get t.entries rel ≡ old
      → IsCounted (count_insert t rel entry old)
  count_insert-IsCounted entry none live same =
      inserted-IsCounted entry none same (rw live (omega arith)) (rw live (omega arith))
  count_insert-IsCounted entry (some old) live same =
      let bound = counted_le (some old) same in
      elim (Bool-cases old.exists) [
        | inl was ↦
            rw was
              (inserted-IsCounted entry (some old) same (rw (live, was) refl) (rw (live, was) refl))
        | inr was ↦ rw was (
            inserted-IsCounted entry (some old) same (rw (live, was) (omega arith))
              (rw (live, was) (ground (arith, was, bound))))
      ]

  pub upsert-IsCounted :
      (md : Metadata) (target : Option Text) (tick : ℕ) (is_new : Bool) (cclock : ℕ)
      → IsCounted (upsert t rel md target tick is_new cclock)
  unfolding upsert from_metadata
  upsert-IsCounted md target tick is_new cclock = count_insert-IsCounted _ _ refl refl

  signal_over-IsCounted :
      (tick : ℕ) (old : Option FileEntry)
      → Map.get t.entries rel ≡ old
      → IsCounted (signal_over t rel tick old)
  unfolding signal_entry
  signal_over-IsCounted tick none same =
      count_insert-IsCounted (signal_entry tick tick) none refl same
  signal_over-IsCounted tick (some old) same =
      count_insert-IsCounted (signal_entry old.cclock tick) (some old) refl same

  pub record_signal-IsCounted : (tick : ℕ) → IsCounted (record_signal t rel tick)
  unfolding record_signal
  record_signal-IsCounted tick = signal_over-IsCounted tick _ refl

  pub mark_gone-IsCounted : (tick : ℕ) → IsCounted (mark_gone t rel tick)
  unfolding mark_gone gone_entry
  mark_gone-IsCounted tick = elim (Option-cases (Map.get t.entries rel)) [
    | inl absent ↦ rw (absent, mark_gone) ok
    | inr (e, present) ↦
        let bound = counted_le (some e) present in
        elim (Bool-cases e.exists) [
          | inl was ↦
              rw (present, mark_gone, was)
                (inserted-IsCounted (gone_entry e tick) (some e) present
                  (rw was (ground (arith, was, bound))) (rw was (omega arith)))
          | inr was ↦
              rw (present, mark_gone, was)
                (inserted-IsCounted (gone_entry e tick) (some e) present (rw was refl)
                  (rw was refl))
        ]
  ]

  pub record_gone-IsCounted : (tick : ℕ) → IsCounted (record_gone t rel tick)
  unfolding record_gone missing
  record_gone-IsCounted tick = elim (Option-cases (Map.get t.entries rel)) [
    | inl absent ↦
        rw (absent, record_gone)
          (inserted-IsCounted (missing tick) none absent (omega arith) (omega arith))
    | inr (e, present) ↦ rw (present, record_gone) (mark_gone-IsCounted tick)
  ]

kept_live : (watermark : ℕ) (e : FileEntry) → (is_kept watermark e && is_live e) ≡ is_live e
kept_live watermark e = ground arith

-- A prune keeps every live entry.
retain-live :
    (watermark : ℕ) (m : List (FilePath × FileEntry))
    → count is_live (Map.retain (is_kept watermark) m) ≡ count is_live m
retain-live watermark m =
    count-retain (is_kept watermark) is_live m ∙ (λ i. count (λ e. kept_live watermark e i) m)

-- A prune drops tombstones and counts what it drops.
pub prune-IsCounted :
    (t : Tree) (watermark : ℕ) → IsCounted t → IsCounted (prune_tombstones_before t watermark).0
unfolding prune_tombstones_before
prune-IsCounted t watermark ok = elim (Bool-cases (t.tombstones == 0)) [
  | inl zero ↦ rw zero ok
  | inr carried ↦ rw carried (record {
    unique = retain-Unique (is_kept watermark) t.entries ok.unique;
    live = rw (retain-live watermark t.entries) ok.live;
    tombstones = omega (
      arith,
      ok.tombstones,
      retain-live watermark t.entries,
      length-retain (is_kept watermark) t.entries,
      count_split is_live t.entries,
      count_split is_live (Map.retain (is_kept watermark) t.entries),
    );
  })
]

-- The indexes that the operations reach from the empty one.
pub data Reachable : Tree → Type 0 where
  start : Reachable new
  upserted :
      {t : Tree} (rel : FilePath) (md : Metadata) (target : Option Text) (tick : ℕ) (is_new : Bool)
      (cclock : ℕ)
      → Reachable t
      → Reachable (upsert t rel md target tick is_new cclock)
  marked_gone :
      {t : Tree} (rel : FilePath) (tick : ℕ) → Reachable t → Reachable (mark_gone t rel tick)
  recorded_gone :
      {t : Tree} (rel : FilePath) (tick : ℕ) → Reachable t → Reachable (record_gone t rel tick)
  recorded_signal :
      {t : Tree} (rel : FilePath) (tick : ℕ) → Reachable t → Reachable (record_signal t rel tick)
  pruned :
      {t : Tree} (watermark : ℕ) → Reachable t → Reachable (prune_tombstones_before t watermark).0

-- Every index that upserts, deletions, signals and prunes reach from the empty one has every
-- path once, and its two counters are the numbers of its live entries and of its tombstones.
pub Reachable-IsCounted : {t : Tree} → Reachable t → IsCounted t
Reachable-IsCounted start = IsCounted-new
Reachable-IsCounted (upserted rel md target tick is_new cclock r) =
    upsert-IsCounted rel (Reachable-IsCounted r) md target tick is_new cclock
Reachable-IsCounted (marked_gone rel tick r) = mark_gone-IsCounted rel (Reachable-IsCounted r) tick
Reachable-IsCounted (recorded_gone rel tick r) =
    record_gone-IsCounted rel (Reachable-IsCounted r) tick
Reachable-IsCounted (recorded_signal rel tick r) =
    record_signal-IsCounted rel (Reachable-IsCounted r) tick
Reachable-IsCounted (pruned watermark r) = prune-IsCounted _ watermark (Reachable-IsCounted r)

-- The counters of a well-formed index add up to its length.
pub live_add_tombstones : {t : Tree} → IsCounted t → t.live + t.tombstones ≡ len t
live_add_tombstones {t} ok = omega (arith, ok.live, ok.tombstones, count_split is_live t.entries)
