-- ===== src/Daemon/Watcher/Shown.antt =====
-- What the index of a root in full mode shows after a batch of changes.
use watchwoman.Base.{
  ℕ, ◌≡◌, refl, ap, ◌∙◌, false, Option, none, some, List, [], ◌∷◌, ◌++◌, inl, inr, Bool-cases,
  nat_eq, list_eq, ◌==◌, if◌then◌else◌,
}
use watchwoman.Base.Text.{FilePath}
use watchwoman.Daemon.Entry.{FileEntry, missing, from_metadata}
use watchwoman.Daemon.Tree.{Tree, get, gone_entry, signal_entry}
use watchwoman.Daemon.Tree.Lookup.{get-upsert, get-mark_gone, get-record_signal}
use watchwoman.Daemon.Root.{
  PathChange, upsert, remove, signal, changed_path, apply_change, apply_all,
}

-- An entry without what it remembers of earlier ones.
abbrev pub as_stat : FileEntry → FileEntry
as_stat e = record e { is_new = false; cclock = 0 }

-- What an index shows at a path: its entry, if it is live.
abbrev pub shown : Option FileEntry → Option FileEntry
shown none = none
shown (some e) = if e.exists then some (as_stat e) else none

-- What a change leaves to see at its path.
abbrev pub change_shown : ℕ → PathChange → Option FileEntry
change_shown tick (upsert rel md target) = some (as_stat (from_metadata md target tick))
change_shown tick (remove rel) = none
change_shown tick (signal rel) = some (as_stat (signal_entry tick tick))

shown_gone :
    (o : Option FileEntry) (tick : ℕ)
    → shown (elim o [ none ↦ none | some e ↦ some (gone_entry e tick) ]) ≡ none
unfolding gone_entry
shown_gone none tick = refl
shown_gone (some e) tick = refl

shown_signal :
    (o : Option FileEntry) (tick : ℕ)
    → shown (some (elim o [ none ↦ signal_entry tick tick | some e ↦ signal_entry e.cclock tick ]))
      ≡ some (as_stat (signal_entry tick tick))
unfolding signal_entry missing
shown_signal none tick = refl
shown_signal (some e) tick = refl

shown-apply_change :
    (tick : ℕ) (t : Tree) (c : PathChange) (j : FilePath)
    → shown (get (apply_change false tick t c) j)
      ≡ (if changed_path c == j then change_shown tick c else shown (get t j))
unfolding apply_change from_metadata
shown-apply_change tick t (upsert rel md target) j = elim (Bool-cases (rel == j)) [
  | inl same ↦ rw (get-upsert t rel md target tick _ _ j, same) refl
  | inr other ↦ rw (get-upsert t rel md target tick _ _ j, other) refl
]
shown-apply_change tick t (remove rel) j = elim (Bool-cases (rel == j)) [
  | inl same ↦ rw (get-mark_gone t rel tick j, same) (shown_gone (get t rel) tick)
  | inr other ↦ rw (get-mark_gone t rel tick j, other) refl
]
shown-apply_change tick t (signal rel) j = elim (Bool-cases (rel == j)) [
  | inl same ↦ rw (get-record_signal t rel tick j, same) (shown_signal (get t rel) tick)
  | inr other ↦ rw (get-record_signal t rel tick j, other) refl
]

-- What a batch leaves to see at a path where something was.
abbrev pub batch_shown : ℕ → FilePath → Option FileEntry → List PathChange → Option FileEntry
batch_shown tick j v [] = v
batch_shown tick j v (c ∷ changes) =
    batch_shown tick j (if changed_path c == j then change_shown tick c else v) changes

pub shown-apply_all :
    (tick : ℕ) (t : Tree) (changes : List PathChange) (j : FilePath)
    → shown (get (apply_all false tick t changes) j) ≡ batch_shown tick j (shown (get t j)) changes
unfolding apply_all
shown-apply_all tick t [] j = refl
shown-apply_all tick t (c ∷ changes) j =
    shown-apply_all tick (apply_change false tick t c) changes j
    ∙ ap (λ v. batch_shown tick j v changes) (shown-apply_change tick t c j)

pub batch_shown-append :
    (tick : ℕ) (j : FilePath) (xs ys : List PathChange) (v : Option FileEntry)
    → batch_shown tick j v (xs ++ ys) ≡ batch_shown tick j (batch_shown tick j v xs) ys
batch_shown-append tick j [] ys v = refl
batch_shown-append tick j (c ∷ xs) ys v = batch_shown-append tick j xs ys _
