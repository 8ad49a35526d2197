-- ===== src/Daemon/Persisted/Restart.antt =====
-- What a restart finds of the triggers that a root had.
use watchwoman.Base.{
  ℕ, ◌≡◌, refl, sym, ap, ◌∙◌, subst, true, false, Option, none, some, List, [], ◌∷◌, ◌++◌,
  append_assoc, append-nil, arith, ◌==◌, eq_iff, eq_refl, nat_eq, list_eq, map, All,
}
use watchwoman.Base.Map
use watchwoman.Base.Map.{Unique, get-insert, insert_fresh}
use watchwoman.Base.Text.{Text}
use watchwoman.Protocol.Value.{IsWellFormed}
use watchwoman.Protocol.Json.{SerdeJson, json_number}
use watchwoman.Protocol.Json.View.{view, convert-to_serde}
use watchwoman.Protocol.Json.RoundTrip.{HasNumbers, json_number-AreBack}
use watchwoman.Daemon.Watch.{Trigger, TriggerStdin, name_per_line, json_name}
use watchwoman.Daemon.Root.{Root}
use watchwoman.Daemon.State.{load_triggers}
use watchwoman.Daemon.Persisted.{
  path_slug, stdin_from, stdin_texts, trigger_persist_dir, values, from_trigger, into_trigger,
  Format, Disk, read_triggers, persist_triggers, load_persisted_triggers,
}

-- A trigger whose expression went through JSON.
abbrev pub viewed : Trigger → Trigger
viewed t = record t { expression = view t.expression }

abbrev pub viewed_all : List (Text × Trigger) → List (Text × Trigger)
viewed_all [] = []
viewed_all ((name, t) ∷ triggers) = (name, viewed t) ∷ viewed_all triggers

-- Triggers under their names, with expressions that are values.
abbrev pub IsKeyed : ℕ → Text × Trigger → Type 0
IsKeyed lim (name, t) = (name ≡ t.name) × IsWellFormed lim t.expression

stdin_back : (s : Option TriggerStdin) → stdin_from (stdin_texts s) ≡ s
stdin_back none = refl
stdin_back (some name_per_line) = refl
stdin_back (some json_name) = refl

module _ (serde : SerdeJson) where
  into_trigger-from_trigger :
      (lim : ℕ) (t : Trigger)
      → HasNumbers serde
      → IsWellFormed lim t.expression
      → into_trigger serde (from_trigger serde t) ≡ viewed t
  unfolding into_trigger from_trigger
  into_trigger-from_trigger lim t laws wf =
      let back =
        convert-to_serde serde (json_number serde) lim t.expression (json_number-AreBack serde laws)
          wf in
      rw (back, stdin_back t.stdin) refl

  restored :
      (lim : ℕ) (triggers : List (Text × Trigger))
      → HasNumbers serde
      → All (IsKeyed lim) triggers
      → map (into_trigger serde) (map (from_trigger serde) (values triggers))
        ≡ values (viewed_all triggers)
  restored lim [] laws keyed = refl
  restored lim ((name, t) ∷ triggers) laws ((same, wf), keyed) =
      rw (into_trigger-from_trigger lim t laws wf, restored lim triggers laws keyed) refl

-- A key that is behind is not in front, if none occurs twice.
get_tail :
    (m : List (Text × Trigger)) (k : Text) (t : Trigger) (rest : List (Text × Trigger)) (j : Text)
    → Map.get (m ++ (k, t) ∷ rest) j ≡ none
    → (j == k) ≡ false
unfolding Map.get
get_tail [] k t rest j h = ground (arith, h, eq_iff k j, eq_iff j k)
get_tail ((i, w) ∷ m) k t rest j h = ground (arith, h, get_tail m k t rest j)

Unique-append-get :
    (m : List (Text × Trigger)) (k : Text) (t : Trigger) (rest : List (Text × Trigger))
    → Unique (m ++ (k, t) ∷ rest)
    → Map.get m k ≡ none
unfolding Map.get
Unique-append-get [] k t rest u = refl
Unique-append-get ((j, w) ∷ m) k t rest (new, u) =
    ground (arith, get_tail m k t rest j new, Unique-append-get m k t rest u, eq_iff j k)

-- Triggers that are loaded into a root that has others stand behind them.
load_triggers-append :
    (r : Root) (m triggers : List (Text × Trigger))
    → r.triggers ≡ m
    → Unique (m ++ triggers)
    → All (λ (p : Text × Trigger). p.0 ≡ p.1.name) triggers
    → (load_triggers r (values triggers)).triggers ≡ m ++ triggers
unfolding load_triggers
load_triggers-append r m [] same u keyed = same ∙ sym (append-nil m)
load_triggers-append r m ((k, t) ∷ triggers) same u (key, keyed) =
    let fresh : Map.get m t.name ≡ none =
      subst (λ n. Map.get m n ≡ none) key (Unique-append-get m k t triggers u) in
    let here : Map.insert r.triggers t.name t ≡ m ++ (k, t) ∷ [] =
      rw (same, key) (insert_fresh m t.name t fresh) in
    load_triggers-append (record r { triggers = Map.insert r.triggers t.name t }) (m ++ (k, t) ∷ [])
      triggers here (subst Unique (sym (append_assoc m ((k, t) ∷ []) triggers)) u) keyed
    ∙ append_assoc m ((k, t) ∷ []) triggers

get-viewed_all :
    (triggers : List (Text × Trigger)) (k : Text)
    → Map.get triggers k ≡ none
    → Map.get (viewed_all triggers) k ≡ none
unfolding Map.get
get-viewed_all [] k h = refl
get-viewed_all ((j, t) ∷ triggers) k h = ground (arith, h, get-viewed_all triggers k)

viewed_all-Unique :
    (triggers : List (Text × Trigger)) → Unique triggers → Unique (viewed_all triggers)
viewed_all-Unique [] u = tt
viewed_all-Unique ((k, t) ∷ triggers) (new, u) =
    (get-viewed_all triggers k new, viewed_all-Unique triggers u)

keyed_names :
    (lim : ℕ) (triggers : List (Text × Trigger))
    → All (IsKeyed lim) triggers
    → All (λ (p : Text × Trigger). p.0 ≡ p.1.name) (viewed_all triggers)
keyed_names lim [] keyed = tt
keyed_names lim ((k, t) ∷ triggers) ((same, wf), keyed) = (same, keyed_names lim triggers keyed)

get_written :
    (disk : List (Text × List ℕ)) (file : Text) (bytes : List ℕ)
    → Map.get (Map.insert disk file bytes) file ≡ some bytes
get_written disk file bytes = get-insert disk file file bytes ∙ rw (eq_refl file) refl

module _ (serde : SerdeJson) (format : Format serde) (state : Text) where
  load-persist :
      (disk : Disk serde) (r : Root) (path : Text) (bytes : List ℕ)
      → path_slug path ≡ path_slug r.path
      → format.to_vec_pretty (map (from_trigger serde) (values r.triggers)) ≡ some bytes
      → format.from_slice bytes ≡ some (map (from_trigger serde) (values r.triggers))
      → load_persisted_triggers serde format
          (some state)
          (persist_triggers serde format (some state) true true disk r)
          path
        ≡ map (into_trigger serde) (map (from_trigger serde) (values r.triggers))
  unfolding persist_triggers load_persisted_triggers trigger_persist_dir
  load-persist disk r path bytes slug prints parses =
      rw (slug, prints)
        (ap (read_triggers serde format (some state)) (get_written disk _ bytes) ∙ rw parses refl)

  -- On a disk that takes its file, what a root has persisted of its triggers, if serde_json parses
  -- what it writes of them, is loaded into a root without triggers at any path of the same slug:
  -- the triggers of the first, with the views of their expressions.
  pub load_triggers-persist :
      (lim : ℕ) (disk : Disk serde) (r fresh : Root) (path : Text) (bytes : List ℕ)
      → HasNumbers serde
      → All (IsKeyed lim) r.triggers
      → Unique r.triggers
      → fresh.triggers ≡ []
      → path_slug path ≡ path_slug r.path
      → format.to_vec_pretty (map (from_trigger serde) (values r.triggers)) ≡ some bytes
      → format.from_slice bytes ≡ some (map (from_trigger serde) (values r.triggers))
      → let disk' = persist_triggers serde format (some state) true true disk r in
        (load_triggers fresh
          (load_persisted_triggers serde format (some state) disk' path)).triggers
        ≡ viewed_all r.triggers
  load_triggers-persist lim disk r fresh path bytes laws keyed unique empty slug prints parses =
      rw
        (
          load-persist disk r path bytes slug prints parses,
          restored serde lim r.triggers laws keyed,
        )
        (load_triggers-append fresh [] (viewed_all r.triggers) empty
          (viewed_all-Unique r.triggers unique) (keyed_names lim r.triggers keyed))
