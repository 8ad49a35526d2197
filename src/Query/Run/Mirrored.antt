-- ===== src/Query/Run/Mirrored.antt =====
-- What a query for all that exists lists, against the disk that the root follows.
pub mod Examples
use watchwoman.Base.{
  Bool, ◌≡◌, if◌then◌else◌, refl, sym, ap, ◌∙◌, true, false, Option, none, some, List, [], ◌∷◌,
  ◌++◌, ◌==◌, eq_iff, arith, inl, inr, ◌⊎◌, Bool-cases, All, nat_eq, list_eq,
}
use watchwoman.Base.Map
use watchwoman.Base.Map.{Unique-All-get}
use watchwoman.Base.Text.{FilePath}
use watchwoman.Protocol.Value.{Value, Items, item}
use watchwoman.Daemon.Entry.{FileEntry}
use watchwoman.Daemon.Tree.{get}
use watchwoman.Daemon.Root.{Root}
use watchwoman.Daemon.JjScope.{IgnoreFiles}
use watchwoman.Daemon.Watcher.Shown.{as_stat, shown}
use watchwoman.Daemon.Watcher.Batch.{is_hidden}
use watchwoman.Daemon.Watcher.Mirror.{Disk, content, on_disk}
use watchwoman.Daemon.Watcher.Followed.{Followed, IsFollowing, Followed-IsFollowing}
use watchwoman.Query.Expr.{exists, eval}
use watchwoman.Query.Field.{Field, render_row}
use watchwoman.Query.Generator.{accept}
use watchwoman.Query.Run.{
  Environment, Spec, run, is_cookie, is_fresh, files_of, row_of, resolve_scm_set,
  resolve_named_cursor,
}

-- A row of a result.
pub data Lists (v : Value) : Items → Type 0 where
  here : (vs : Items) → Lists v (item v vs)
  later : (w : Value) (vs : Items) → Lists v vs → Lists v (item w vs)

module _ (v : Value) where
  abbrev with_row : Option Value → Items → Items
  with_row o vs = elim o [ none ↦ vs | some w ↦ item w vs ]

  Lists-first :
      (o : Option Value) (vs : Items) → Lists v (with_row o vs) → (o ≡ some v) ⊎ Lists v vs
  Lists-first none vs listed = inr listed
  Lists-first (some w) vs (here _) = inl refl
  Lists-first (some w) vs (later _ _ listed) = inr listed

  later_row : (o : Option Value) (vs : Items) → Lists v vs → Lists v (with_row o vs)
  later_row none vs listed = listed
  later_row (some w) vs listed = later w vs listed

-- Where no clock bounds a query, its rows are those of the entries that have one.
module _ (env : Environment) (r : Root) (spec : Spec env)
    (scm_allowed : Option (List FilePath)) where
  abbrev RowOf : FilePath → FileEntry → Value → Type 0
  RowOf j e v = row_of env r spec scm_allowed j e ≡ some v

  Lists-RowOf :
      (P : FilePath × FileEntry → Type 0) (v : Value) (entries : List (FilePath × FileEntry))
      → All P entries
      → Lists v (files_of env r spec scm_allowed none entries)
      → (j : FilePath) × (e : FileEntry) × P (j, e) × RowOf j e v
  unfolding files_of
  Lists-RowOf P v [] _ listed = elim listed [ ]
  Lists-RowOf P v ((j, e) ∷ entries) (h, hs) listed =
      elim (Lists-first v (row_of env r spec scm_allowed j e) _ listed) [
        | inl is_row ↦ (j, e, h, is_row)
        | inr listed ↦ Lists-RowOf P v entries hs listed
      ]

  RowOf-Lists :
      (j : FilePath) (e : FileEntry) (v : Value) (entries : List (FilePath × FileEntry))
      → Map.get entries j ≡ some e
      → RowOf j e v
      → Lists v (files_of env r spec scm_allowed none entries)
  unfolding files_of Map.get
  RowOf-Lists j e v [] found is_row = cc
  RowOf-Lists j e v ((i, w) ∷ entries) found is_row =
      let rest : Items = files_of env r spec scm_allowed none entries in
      elim (Bool-cases (i == j)) [
        | inl same ↦
            let first : row_of env r spec scm_allowed i w ≡ some v =
              (let at : i ≡ j = (eq_iff i j).0 same in
                let held : w ≡ e = ground (arith, found, same) in rw (at, held) is_row) in
            rw first (here rest)
        | inr other ↦
            later_row v (row_of env r spec scm_allowed i w) rest
              (RowOf-Lists j e v entries (ground (arith, other, found)) is_row)
      ]

module _ (env : Environment) where
  -- The query that asks, with no clock to count from, for some fields of all that exists.
  abbrev pub everything : List Field → Spec env
  everything fields = record {
    expression = exists;
    fields = fields;
    generators = record { suffix = none; glob = none; paths = none; since = none };
    since = none;
    relative_root = none;
    empty_on_fresh_instance = false;
    always_include_directories = true;
    dedup_results = false;
    omit_changed_files = false;
    case_sensitive = true;
  }

  module _ (r : Root) (fields : List Field) where
    abbrev pub row : FilePath → FileEntry → Value
    row j e = render_row env.files r.path j e r.clock fields

    everything-row_of :
        (j : FilePath) (e : FileEntry)
        → is_cookie j ≡ false
        → e.exists ≡ true
        → row_of env r (everything fields) none j e ≡ some (row j e)
    unfolding row_of accept eval
    everything-row_of j e plain live = simp (plain, live) refl

    row_of-everything :
        (j : FilePath) (e : FileEntry) (v : Value)
        → row_of env r (everything fields) none j e ≡ some v
        → (e.exists ≡ true) × (v ≡ row j e)
    unfolding row_of accept eval
    row_of-everything j e v h = ground (arith, h)

-- What an index shows of a live entry, and what it shows nothing of.
shown_live : (e : FileEntry) → e.exists ≡ true → content (shown (some e)) ≡ content (some e)
shown_live e live = ap content (if_true e.exists live)
  where
    if_true : (b : Bool) → b ≡ true → (if b then some (as_stat e) else none) ≡ some (as_stat e)
    if_true true h = refl
    if_true false h = cc

live_shown :
    (o : Option FileEntry) (s : FileEntry)
    → content (shown o) ≡ some s
    → (e : FileEntry) × (o ≡ some e) × (e.exists ≡ true)
live_shown none s h = cc
live_shown (some e) s h = (e, refl, is_live e.exists h)
  where
    is_live : (b : Bool) → content (if b then some (as_stat e) else none) ≡ some s → b ≡ true
    is_live true h = refl
    is_live false h = cc

module _ (env : Environment) (files : IgnoreFiles) (root_dir : FilePath) {stat : Disk} {r : Root}
    (followed : Followed files root_dir stat r) (fields : List Field) where
  following : IsFollowing stat root_dir r
  following = Followed-IsFollowing files root_dir followed

  found-content :
      (j : FilePath) (e : FileEntry)
      → get r.tree j ≡ some e
      → e.exists ≡ true
      → is_hidden r.ignores j ≡ false
      → content (some e) ≡ on_disk (stat (root_dir ++ j))
  found-content j e found live seen =
      sym (shown_live e live) ∙ ap (λ o. content (shown o)) (sym found) ∙ following.mirror j seen

  -- A root that follows a disk, asked for all that exists, lists a row for every path that the
  -- disk has, that the ignore rules let through and that is no cookie, and the row is made from an
  -- entry that says of the path what the disk says.
  pub run-everything_complete :
      (j : FilePath) (s : FileEntry)
      → is_hidden r.ignores j ≡ false
      → is_cookie j ≡ false
      → on_disk (stat (root_dir ++ j)) ≡ some s
      → (e : FileEntry) × (content (some e) ≡ some s)
        × Lists (row env r fields j e) (run env r (everything env fields)).1.files
  unfolding run is_fresh resolve_named_cursor resolve_scm_set
  run-everything_complete j s seen plain on =
      let (e, found, live) = live_shown (get r.tree j) s (following.mirror j seen ∙ on) in
      (
        e,
        found-content j e found live seen ∙ on,
        RowOf-Lists env r (everything env fields) none j e (row env r fields j e) r.tree.entries
            (unfold get in found) (everything-row_of env r fields j e plain live),
      )

  -- Every row that a root that follows a disk lists, asked for all that exists, is made from an
  -- entry that says of its path what the disk says, if the ignore rules let the path through.
  pub run-everything_sound :
      (v : Value)
      → Lists v (run env r (everything env fields)).1.files
      → (j : FilePath) × (e : FileEntry) × (v ≡ row env r fields j e)
        × ((is_hidden r.ignores j ≡ true) ⊎ (content (some e) ≡ on_disk (stat (root_dir ++ j))))
  unfolding run is_fresh resolve_named_cursor resolve_scm_set get
  run-everything_sound v listed =
      let (j, e, found, is_row) =
        Lists-RowOf env r (everything env fields) none (λ p. get r.tree p.0 ≡ some p.1) v
          r.tree.entries (Unique-All-get r.tree.entries following.counted.unique) listed in
      let (live, same) = row_of-everything env r fields j e v is_row in
      (
        j,
        e,
        same,
        elim (Bool-cases (is_hidden r.ignores j)) [
          | inl hidden ↦ inl hidden
          | inr seen ↦ inr (found-content j e found live seen)
        ],
      )
