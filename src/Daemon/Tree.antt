-- ===== src/Daemon/Tree.antt =====
-- crates/watchwoman/src/daemon/tree.rs: the file index of one root. The hash map is an association
-- list; what the arena holds shows only in the figure that it reports to `apply_changes`.
pub mod Counters
pub mod Lookup
use watchwoman.Base.{
  ℕ, ◌+◌, ◌-◌, ◌*◌, ◌/◌, ◌%◌, ◌^◌, Bool, true, false, ◌||◌, not, Option, none, some, List, [], ltb,
  ◌==◌, nat_eq, list_eq, if◌then◌else◌, length, is_some,
}
use watchwoman.Base.Map
use watchwoman.Base.Text.{Text, FilePath}
use watchwoman.Daemon.Entry.{Metadata, FileEntry, missing, from_metadata, file}

pub record Tree : Type 0 where
  pub entries : List (FilePath × FileEntry)
  pub live : ℕ
  pub tombstones : ℕ

abbrev pub new : Tree
new = record { entries = []; live = 0; tombstones = 0 }

unfoldable pub get : Tree → FilePath → Option FileEntry
get t rel = Map.get t.entries rel

abbrev pub len : Tree → ℕ
len t = length t.entries

abbrev count_insert : Tree → FilePath → FileEntry → Option FileEntry → Tree
count_insert t rel entry none = record t {
  entries = Map.insert t.entries rel entry;
  live = t.live + 1;
}
count_insert t rel entry (some old) =
    let entries = Map.insert t.entries rel entry in
    if old.exists
    then record t { entries = entries }
    else record { entries = entries; live = t.live + 1; tombstones = t.tombstones - 1 }

unfoldable pub upsert : Tree → FilePath → Metadata → Option Text → ℕ → Bool → ℕ → Tree
upsert t rel md target clock_tick is_new cclock =
    count_insert t rel
      (record (from_metadata md target clock_tick) { is_new = is_new; cclock = cclock })
      (Map.get t.entries rel)

unfoldable pub gone_entry : FileEntry → ℕ → FileEntry
gone_entry e tick = record e { exists = false; oclock = tick; is_new = false }

unfoldable pub mark_gone : Tree → FilePath → ℕ → Tree
mark_gone t rel tick = elim (Map.get t.entries rel) [
  | none ↦ t
  | some e ↦
      let entries = Map.insert t.entries rel (gone_entry e tick) in
      if e.exists
      then record { entries = entries; live = t.live - 1; tombstones = t.tombstones + 1 }
      else record t { entries = entries }
]

unfoldable pub record_gone : Tree → FilePath → ℕ → Tree
record_gone t rel tick =
    if is_some (Map.get t.entries rel) then mark_gone t rel tick else record t {
      entries = Map.insert t.entries rel (missing tick);
      tombstones = t.tombstones + 1;
    }

unfoldable pub signal_entry : ℕ → ℕ → FileEntry
signal_entry cclock tick = record (missing tick) {
  exists = true;
  kind = file;
  cclock = cclock;
  is_new = cclock == tick;
}

abbrev signal_over : Tree → FilePath → ℕ → Option FileEntry → Tree
signal_over t rel tick none = record t {
  entries = Map.insert t.entries rel (signal_entry tick tick);
  live = t.live + 1;
}
signal_over t rel tick (some e) =
    let entries = Map.insert t.entries rel (signal_entry e.cclock tick) in
    if e.exists
    then record t { entries = entries }
    else record { entries = entries; live = t.live + 1; tombstones = t.tombstones - 1 }

unfoldable pub record_signal : Tree → FilePath → ℕ → Tree
record_signal t rel tick = signal_over t rel tick (Map.get t.entries rel)

-- What a prune keeps.
abbrev pub is_kept : ℕ → FileEntry → Bool
is_kept watermark e = e.exists || ltb watermark e.oclock

unfoldable pub prune_tombstones_before : Tree → ℕ → Tree × ℕ
prune_tombstones_before t watermark =
    if t.tombstones == 0
    then (t, 0)
    else let entries = Map.retain (is_kept watermark) t.entries in
      let removed = length t.entries - length entries in
      (record t { entries = entries; tombstones = t.tombstones - removed }, removed)
