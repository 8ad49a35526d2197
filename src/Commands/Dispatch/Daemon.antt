-- ===== src/Commands/Dispatch/Daemon.antt =====
-- The commands on the daemon as a whole keep its roots sound.
use watchwoman.Base.{
  ℕ, ◌+◌, ◌%◌, ◌^◌, ◌<◌, leb, ◌≡◌, refl, sym, ◌∙◌, ap, subst, Bool, true, false, not, any, Option,
  none, some, List, [], ◌∷◌, arith, inl, inr, Bool-cases, Option-cases, nat_eq, list_eq,
  if◌then◌else◌,
}
use watchwoman.Base.Map
use watchwoman.Base.Map.{Unique, get-remove, remove-Unique}
use watchwoman.Base.Text.{Text}
use watchwoman.Daemon.Clock
use watchwoman.Daemon.Clock.{Clock}
use watchwoman.Daemon.Clock.Laws.{bump_lem}
use watchwoman.Daemon.Watch.{Trigger}
use watchwoman.Daemon.Root
use watchwoman.Daemon.Root.{
  Root, Scanned, seed, install_trigger, promote_to_full, prune_tombstones, touch, mark_present,
  mark_missing,
}
use watchwoman.Daemon.Root.Invariant.{
  IsRoot, promoted, seeded, pruned, touched, present, missed, trigger_installed,
}
use watchwoman.Daemon.Root.Steps.{RootStep-IsRoot, Reached, fresh, stepped, Reached-IsRoot}
use watchwoman.Daemon.State.{
  DaemonState, Surroundings, load_triggers, build_root, register_root, unregister_root, drain_all,
  sweep, is_other_trigger, is_stale, dead_tick_threshold,
}
use watchwoman.Daemon.State.Gc.{swept, get-sweep, sweep-Unique}
use watchwoman.Commands.Debug.{prune_all}
use watchwoman.Commands.Dispatch.Kept.{Kept, SoundOption, put_back-Kept}

-- A root that is registered is one that the operations reach.
load_triggers-Reached :
    (r : Root) (ts : List Trigger)
    → Reached r
    → Reached (load_triggers r ts) × ((load_triggers r ts).clock ≡ r.clock)
unfolding load_triggers install_trigger
load_triggers-Reached r [] reached = (reached, refl)
load_triggers-Reached r (t ∷ ts) reached =
    load_triggers-Reached (record r { triggers = Map.insert r.triggers t.name t }) ts
      (stepped reached (trigger_installed r t))

seed_ticks :
    (r : Root) (entries : List Scanned)
    → r.clock.ticks + 1 < 2 ^ 64
    → (seed r entries).0.clock.ticks ≡ r.clock.ticks + 1
unfolding seed
seed_ticks r entries room = let (tick, clock) = bump_lem r.clock room in rw clock refl

-- A new root after its first scan, and its clock.
seeded_new :
    (path : Text) (n : ℕ) (env : Surroundings) (entries : List Scanned)
    → let r = Root.new path n env.ignores env.jj_events env.now env.process_id in
      Reached (seed r entries).0 × ((seed r entries).0.clock.ticks ≡ 2)
unfolding Root.new Clock.new
seeded_new path n env entries =
    let r = Root.new path n env.ignores env.jj_events env.now env.process_id in
    (
      stepped (fresh path n env.ignores env.jj_events env.now env.process_id)
          (seeded r entries (omega arith)),
      seed_ticks r entries (omega arith),
    )

build_root-Reached : (path : Text) (n : ℕ) (env : Surroundings) → Reached (build_root path n env)
unfolding build_root
build_root-Reached path n env =
    let entries = if env.jj_events then [] else env.scanned in
    let r = (seed (Root.new path n env.ignores env.jj_events env.now env.process_id) entries).0 in
    let (reached, ticks) = seeded_new path n env entries in
    let (loaded, clock) = load_triggers-Reached r env.persisted reached in
    elim (Bool-cases (any is_other_trigger (load_triggers r env.persisted).triggers)) [
      | inl others ↦ rw others (
          stepped loaded (
            promoted (load_triggers r env.persisted) env.rescanned
              (omega (arith, ticks, ap (λ (c : Clock). c.ticks) clock))))
      | inr none_else ↦ rw none_else loaded
    ]

Kept-if :
    (b : Bool) (x y : DaemonState × Option Root) → Kept x.0 → Kept y.0 → Kept (if b then x else y).0
Kept-if true x y kx ky = kx
Kept-if false x y kx ky = ky

-- A root that is not there yet, by what its directory is.
abbrev new_root : DaemonState → Text → Surroundings → Option Bool → DaemonState × Option Root
new_root s path env none = (s, none)
new_root s path env (some is_dir) =
    if not is_dir
    then (s, none)
    else let number = (s.root_counter + 1) % 2 ^ 64 in
      let r = build_root path number env in
      let counted = record s { root_counter = number } in
      if env.watched
      then (record counted { roots = Map.insert s.roots path r }, some r)
      else (counted, none)

new_root-Kept :
    (s : DaemonState) (path : Text) (env : Surroundings) (dir : Option Bool)
    → Kept s
    → Kept (new_root s path env dir).0
new_root-Kept s path env none kept = kept
new_root-Kept s path env (some false) kept = kept
new_root-Kept s path env (some true) kept =
    let number = (s.root_counter + 1) % 2 ^ 64 in
    let with_it =
      put_back-Kept s path (build_root path number env) kept
        (Reached-IsRoot (build_root-Reached path number env)) in
    Kept-if env.watched _ _ (record { unique = with_it.unique; sound = with_it.sound })
      (record { unique = kept.unique; sound = kept.sound })

pub register_root-Kept :
    (s : DaemonState) (path : Text) (env : Surroundings)
    → Kept s
    → Kept (register_root s path env).0
unfolding register_root
register_root-Kept s path env kept = elim (Option-cases (Map.get s.roots path)) [
  | inr (r, found) ↦
      rw (found, register_root)
        (put_back-Kept s path (touch r env.now) kept
          (RootStep-IsRoot (touched r env.now) (kept.sound path r found)))
  | inl absent ↦ rw (absent, register_root) (new_root-Kept s path env env.dir kept)
]

pub unregister_root-Kept :
    (s : DaemonState) (path : Text) → Kept s → Kept (unregister_root s path).0
unfolding unregister_root
unregister_root-Kept s path kept = record {
  unique = remove-Unique s.roots path kept.unique;
  sound = λ other r found.
      kept.sound other r (ground (arith, found, get-remove s.roots path other kept.unique));
}

pub drain_all-Kept : (s : DaemonState) (paths : List Text) → Kept s → Kept (drain_all s paths).0
unfolding drain_all
drain_all-Kept s [] kept = kept
drain_all-Kept s (p ∷ paths) kept =
    drain_all-Kept (unregister_root s p).0 paths (unregister_root-Kept s p kept)

abbrev pruned_at : Option Root → Option Root
pruned_at none = none
pruned_at (some r) = some (prune_tombstones r).0

get-prune_all :
    (m : List (Text × Root)) (k : Text) → Map.get (prune_all m).0 k ≡ pruned_at (Map.get m k)
unfolding prune_all Map.get
get-prune_all [] k = refl
get-prune_all ((j, r) ∷ m) k = ground (arith, get-prune_all m k)

prune_all-Unique : (m : List (Text × Root)) → Unique m → Unique (prune_all m).0
unfolding prune_all
prune_all-Unique [] u = tt
prune_all-Unique ((j, r) ∷ m) (h, u) = (get-prune_all m j ∙ ap pruned_at h, prune_all-Unique m u)

pruned_sound :
    (o : Option Root) (r : Root)
    → ((r' : Root) → o ≡ some r' → IsRoot r')
    → pruned_at o ≡ some r
    → IsRoot r
pruned_sound none r sound h = cc
pruned_sound (some r') r sound h = subst SoundOption h (RootStep-IsRoot (pruned r') (sound r' refl))

swept_sound :
    (stale_secs now : ℕ) (exists : Bool) (o : Option Root) (r : Root)
    → ((r' : Root) → o ≡ some r' → IsRoot r')
    → elim o [ none ↦ none | some r' ↦ swept stale_secs now exists r' ] ≡ some r
    → IsRoot r
unfolding swept
swept_sound stale_secs now exists none r sound h = cc
swept_sound stale_secs now true (some r') r sound h =
    elim (Bool-cases (is_stale stale_secs now (mark_present r'))) [
      | inl idle ↦ let gone : none ≡ some r = rw idle at h in cc
      | inr used ↦ subst SoundOption (rw used at h) (
          RootStep-IsRoot (pruned (mark_present r')) (RootStep-IsRoot (present r') (sound r' refl)))
    ]
swept_sound stale_secs now false (some r') r sound h =
    elim (Bool-cases (leb dead_tick_threshold (mark_missing r').1)) [
      | inl twice ↦ let gone : none ≡ some r = rw twice at h in cc
      | inr once ↦ subst SoundOption (rw once at h) (RootStep-IsRoot (missed r') (sound r' refl))
    ]

pub sweep-Kept :
    (stale_secs now : ℕ) (is_dir : Text → Bool) (s : DaemonState)
    → Kept s
    → Kept (sweep stale_secs now is_dir s)
sweep-Kept stale_secs now is_dir s kept = record {
  unique = sweep-Unique stale_secs now is_dir s kept.unique;
  sound = λ path r found.
      swept_sound stale_secs now (is_dir path) (Map.get s.roots path) r (kept.sound path)
        (sym (get-sweep stale_secs now is_dir s path kept.unique) ∙ found);
}

pub ageout-Kept : (s : DaemonState) → Kept s → Kept (record s { roots = (prune_all s.roots).0 })
ageout-Kept s kept = record {
  unique = prune_all-Unique s.roots kept.unique;
  sound = λ path r found.
      pruned_sound (Map.get s.roots path) r (kept.sound path)
        (sym (get-prune_all s.roots path) ∙ found);
}
