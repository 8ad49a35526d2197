-- ===== src/Daemon/Root/Frame.antt =====
-- What one batch of path changes does to the index: the loop of `apply_changes`.
use watchwoman.Base.{
  ℕ, ◌≡◌, refl, Bool, true, false, ◌&&◌, ◌||◌, Option, none, some, List, [], ◌∷◌, arith, inl, inr,
  Bool-cases, nat_eq, list_eq, ◌==◌, eq_iff, eq_refl, if◌then◌else◌, is_some, any, contains, subst,
}
use watchwoman.Base.Text.{FilePath}
use watchwoman.Daemon.Entry.{FileEntry, missing, from_metadata}
use watchwoman.Daemon.Tree.{Tree, get, signal_entry, gone_entry}
use watchwoman.Daemon.Tree.Counters.{
  IsCounted, upsert-IsCounted, mark_gone-IsCounted, record_gone-IsCounted, record_signal-IsCounted,
}
use watchwoman.Daemon.Tree.Lookup.{
  get-upsert, get-mark_gone, get-record_gone, get-record_signal, gone_from,
}
use watchwoman.Daemon.Root.{
  PathChange, upsert, remove, signal, changed_path, apply_change, apply_all, changed_paths,
}

module _ (jj_events : Bool) (tick : ℕ) where
  pub apply_change-IsCounted :
      (t : Tree) (c : PathChange) → IsCounted t → IsCounted (apply_change jj_events tick t c)
  unfolding apply_change
  apply_change-IsCounted t (upsert rel md target) ok = upsert-IsCounted rel ok md target tick _ _
  apply_change-IsCounted t (remove rel) ok = elim (Bool-cases jj_events) [
    | inl jj ↦ rw (jj, apply_change) (record_gone-IsCounted rel ok tick)
    | inr full ↦ rw (full, apply_change) (mark_gone-IsCounted rel ok tick)
  ]
  apply_change-IsCounted t (signal rel) ok = record_signal-IsCounted rel ok tick

  pub apply_all-IsCounted :
      (t : Tree) (changes : List PathChange)
      → IsCounted t
      → IsCounted (apply_all jj_events tick t changes)
  unfolding apply_all
  apply_all-IsCounted t [] ok = ok
  apply_all-IsCounted t (c ∷ changes) ok =
      apply_all-IsCounted (apply_change jj_events tick t c) changes (apply_change-IsCounted t c ok)

-- Whether a change leaves an entry at a path that had none: a removal only in the event index.
abbrev pub records : Bool → PathChange → Bool
records jj_events (upsert rel md target) = true
records jj_events (remove rel) = jj_events
records jj_events (signal rel) = true

-- The tick at which a path was last changed, if the index has it.
abbrev pub tick_of : Option FileEntry → Option ℕ
tick_of none = none
tick_of (some e) = some e.oclock

abbrev stamped : Bool → ℕ → Option ℕ
stamped found tick = if found then some tick else none

or_true : (b : Bool) → (b || true) ≡ true
or_true b = ground arith

or_false : (b : Bool) → (b || false) ≡ b
or_false b = ground arith

gone-tick_of :
    (o : Option FileEntry) (tick : ℕ)
    → tick_of (elim o [ none ↦ none | some e ↦ some (gone_entry e tick) ])
      ≡ stamped (is_some o) tick
unfolding gone_entry
gone-tick_of none tick = refl
gone-tick_of (some e) tick = refl

gone_from-tick_of :
    (o : Option FileEntry) (tick : ℕ) → tick_of (some (gone_from o tick)) ≡ some tick
unfolding gone_entry missing
gone_from-tick_of none tick = refl
gone_from-tick_of (some e) tick = refl

signal-tick_of :
    (o : Option FileEntry) (tick : ℕ)
    → tick_of
        (some (elim o [ none ↦ signal_entry tick tick | some e ↦ signal_entry e.cclock tick ]))
      ≡ some tick
unfolding signal_entry missing
signal-tick_of none tick = refl
signal-tick_of (some e) tick = refl

module _ (jj_events : Bool) (tick : ℕ) where
  -- The path of a change gets the new tick, if it has an entry now; another is as it was.
  pub get-apply_change :
      (t : Tree) (c : PathChange) (j : FilePath)
      → tick_of (get (apply_change jj_events tick t c) j) ≡ (
          if changed_path c == j
          then stamped (is_some (get t j) || records jj_events c) tick
          else tick_of (get t j))
  unfolding apply_change from_metadata
  get-apply_change t c j = elim (Bool-cases (changed_path c == j)) [
    | inr other ↦ rw other (go_other c other)
    | inl same ↦ rw same (
        subst
          (λ k.
            tick_of (get (apply_change jj_events tick t c) k)
            ≡ stamped (is_some (get t k) || records jj_events c) tick)
          ((eq_iff (changed_path c) j).0 same) (go_same c))
  ]
    where
      go_other :
          (c : PathChange)
          → (changed_path c == j) ≡ false
          → tick_of (get (apply_change jj_events tick t c) j) ≡ tick_of (get t j)
      go_other (upsert rel md target) other = rw (get-upsert t rel md target tick _ _ j, other) refl
      go_other (remove rel) other = elim (Bool-cases jj_events) [
        | inl jj ↦ rw (jj, apply_change) (rw (get-record_gone t rel tick j, other) refl)
        | inr full ↦ rw (full, apply_change) (rw (get-mark_gone t rel tick j, other) refl)
      ]
      go_other (signal rel) other = rw (get-record_signal t rel tick j, other) refl

      go_same :
          (c : PathChange)
          → tick_of (get (apply_change jj_events tick t c) (changed_path c))
            ≡ stamped (is_some (get t (changed_path c)) || records jj_events c) tick
      go_same (upsert rel md target) =
          rw (get-upsert t rel md target tick _ _ rel, eq_refl rel)
            (rw (or_true (is_some (get t rel))) refl)
      go_same (remove rel) = elim (Bool-cases jj_events) [
        | inl jj ↦
            rw (jj, apply_change)
              (rw (get-record_gone t rel tick rel, eq_refl rel)
                (rw (or_true (is_some (get t rel))) (gone_from-tick_of (get t rel) tick)))
        | inr full ↦
            rw (full, apply_change)
              (rw (get-mark_gone t rel tick rel, eq_refl rel)
                (rw (or_false (is_some (get t rel))) (gone-tick_of (get t rel) tick)))
      ]
      go_same (signal rel) =
          rw (get-record_signal t rel tick rel, eq_refl rel)
            (rw (or_true (is_some (get t rel))) (signal-tick_of (get t rel) tick))

  is_some-tick_of : (o : Option FileEntry) → is_some o ≡ is_some (tick_of o)
  is_some-tick_of none = refl
  is_some-tick_of (some e) = refl

  any-contains :
      (changes : List PathChange) (j : FilePath)
      → any (λ c. changed_path c == j && records jj_events c) changes ≡ true
      → contains (changed_paths changes) j ≡ true
  unfolding changed_paths
  any-contains [] j h = cc
  any-contains (c ∷ changes) j h = ground (arith, any-contains changes j)

  -- The same for a batch.
  pub get-apply_all :
      (t : Tree) (changes : List PathChange) (j : FilePath)
      → tick_of (get (apply_all jj_events tick t changes) j) ≡ (
          if contains (changed_paths changes) j
          then stamped
              (is_some (get t j) || any (λ c. changed_path c == j && records jj_events c) changes)
              tick
          else tick_of (get t j))
  unfolding apply_all changed_paths
  get-apply_all t [] j = refl
  get-apply_all t (c ∷ changes) j =
      let next : Tree = apply_change jj_events tick t c in
      ground (
        arith,
        get-apply_all next changes j,
        get-apply_change t c j,
        is_some-tick_of (get next j),
        is_some-tick_of (get t j),
        any-contains changes j,
      )
