-- ===== src/Daemon/Tree/Lookup.antt =====
-- What a lookup finds after each operation on the index.
use watchwoman.Base.{
  ℕ, Bool, ◌≡◌, refl, subst, eq_iff, Option, none, some, arith, inl, inr, Option-cases, Bool-cases,
  nat_eq, list_eq, ◌==◌, if◌then◌else◌, nat_beq_iff,
}
use watchwoman.Base.Map
use watchwoman.Base.Map.{count-remove, get-insert, get-retain}
use watchwoman.Base.Text.{Text, FilePath}
use watchwoman.Daemon.Entry.{Metadata, FileEntry, missing, from_metadata}
use watchwoman.Daemon.Tree.{
  Tree, get, upsert, count_insert, record_signal, signal_entry, mark_gone, record_gone,
  prune_tombstones_before, gone_entry, is_kept,
}
use watchwoman.Daemon.Tree.Counters.{IsCounted, is_gone}

-- After a prune a lookup in a well-formed index finds what it found before, less the tombstones
-- whose tick is at or below the watermark.
pub get-prune :
    (t : Tree) (watermark : ℕ) (rel : FilePath)
    → IsCounted t
    → get (prune_tombstones_before t watermark).0 rel
      ≡ elim (get t rel) [ none ↦ none | some e ↦ if is_kept watermark e then some e else none ]
unfolding get prune_tombstones_before
get-prune t watermark rel ok = elim (Bool-cases (t.tombstones == 0)) [
  | inl zero ↦ rw zero (
      ground (
        arith,
        zero,
        nat_beq_iff t.tombstones 0,
        ok.tombstones,
        count-remove is_gone t.entries rel,
      ))
  | inr carried ↦ rw carried (get-retain (is_kept watermark) t.entries rel ok.unique)
]

-- What a deletion at a tick leaves of an entry.
abbrev pub gone_from : Option FileEntry → ℕ → FileEntry
gone_from none tick = missing tick
gone_from (some e) tick = gone_entry e tick

-- A recorded deletion is found at its path as a tombstone of its tick, and every other path is
-- as it was.
pub get-record_gone :
    (t : Tree) (rel : FilePath) (tick : ℕ) (j : FilePath)
    → get (record_gone t rel tick) j
      ≡ (if rel == j then some (gone_from (get t rel) tick) else get t j)
unfolding get record_gone mark_gone gone_entry
get-record_gone t rel tick j = elim (Option-cases (Map.get t.entries rel)) [
  | inl absent ↦ rw (absent, record_gone) (get-insert t.entries rel j (missing tick))
  | inr (e, present) ↦ elim (Bool-cases e.exists) [
    | inl was ↦
        rw (present, record_gone, mark_gone, was) (get-insert t.entries rel j (gone_entry e tick))
    | inr was ↦
        rw (present, record_gone, mark_gone, was) (get-insert t.entries rel j (gone_entry e tick))
  ]
]

pub get-mark_gone :
    (t : Tree) (rel : FilePath) (tick : ℕ) (j : FilePath)
    → get (mark_gone t rel tick) j ≡ (
        if rel == j
        then elim (get t rel) [ none ↦ none | some e ↦ some (gone_entry e tick) ]
        else get t j)
unfolding get mark_gone gone_entry
get-mark_gone t rel tick j = elim (Option-cases (Map.get t.entries rel)) [
  | inl absent ↦ elim (Bool-cases (rel == j)) [
    | inl same ↦
        rw (absent, mark_gone, same)
          (subst (λ k. Map.get t.entries k ≡ none) ((eq_iff rel j).0 same) absent)
    | inr other ↦ rw (absent, mark_gone, other) refl
  ]
  | inr (e, present) ↦ elim (Bool-cases e.exists) [
    | inl was ↦ rw (present, mark_gone, was) (get-insert t.entries rel j (gone_entry e tick))
    | inr was ↦ rw (present, mark_gone, was) (get-insert t.entries rel j (gone_entry e tick))
  ]
]

get-count_insert :
    (t : Tree) (rel : FilePath) (entry : FileEntry) (j : FilePath) (old : Option FileEntry)
    → get (count_insert t rel entry old) j ≡ (if rel == j then some entry else get t j)
unfolding get
get-count_insert t rel entry j none = get-insert t.entries rel j entry
get-count_insert t rel entry j (some old) = elim (Bool-cases old.exists) [
  | inl was ↦ rw was (get-insert t.entries rel j entry)
  | inr was ↦ rw was (get-insert t.entries rel j entry)
]

pub get-upsert :
    (t : Tree) (rel : FilePath) (md : Metadata) (target : Option Text) (tick : ℕ) (is_new : Bool)
    (cclock : ℕ) (j : FilePath)
    → get (upsert t rel md target tick is_new cclock) j ≡ (
        if rel == j
        then some (record (from_metadata md target tick) { is_new = is_new; cclock = cclock })
        else get t j)
unfolding get upsert
get-upsert t rel md target tick is_new cclock j =
    let entry : FileEntry = record (from_metadata md target tick) {
      is_new = is_new;
      cclock = cclock;
    } in
    get-count_insert t rel entry j _

pub get-record_signal :
    (t : Tree) (rel : FilePath) (tick : ℕ) (j : FilePath)
    → get (record_signal t rel tick) j ≡ (
        if rel == j
        then some (elim (get t rel) [
          | none ↦ signal_entry tick tick
          | some e ↦ signal_entry e.cclock tick
        ])
        else get t j)
unfolding get record_signal
get-record_signal t rel tick j = elim (Option-cases (Map.get t.entries rel)) [
  | inl absent ↦ rw (absent, record_signal) (get-count_insert t rel (signal_entry tick tick) j none)
  | inr (e, present) ↦
      rw (present, record_signal) (get-count_insert t rel (signal_entry e.cclock tick) j (some e))
]
