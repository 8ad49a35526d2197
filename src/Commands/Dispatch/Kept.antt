-- ===== src/Commands/Dispatch/Kept.antt =====
-- What every command keeps: distinct and sound roots, and an object for an answer.
use watchwoman.Base.{
  ℕ, ◌+◌, ◌^◌, ◌<◌, ◌≡◌, refl, sym, ◌∙◌, subst, Bool, true, false, Option, none, some, inl, inr,
  Option-cases, nat_eq, list_eq, ◌==◌, if◌then◌else◌, is_some,
}
use watchwoman.Base.Map
use watchwoman.Base.Map.{Unique, get-insert, get-remove, insert-Unique, remove-Unique}
use watchwoman.Base.Text.{Text}
use watchwoman.Protocol.Value.{Items, as_object}
use watchwoman.Daemon.Root.{Root, touch}
use watchwoman.Daemon.Root.Invariant.{IsRoot, touched}
use watchwoman.Daemon.Root.Steps.{RootStep-IsRoot}
use watchwoman.Daemon.State
use watchwoman.Daemon.State.{DaemonState}
use watchwoman.Query.Expr.Parse.{first, str_of}
use watchwoman.Commands.Outcome.{
  Host, CommandResult, done, failed, put_back, at_root, with_root, canonical,
}

pub record Kept (s : DaemonState) : Type 0 where
  pub unique : Unique s.roots
  pub sound : (path : Text) (r : Root) → Map.get s.roots path ≡ some r → IsRoot r

-- No clock is at the last u64 but one.
abbrev pub HasRoom : DaemonState → Type 0
HasRoom s = (path : Text) (r : Root) → Map.get s.roots path ≡ some r → r.clock.ticks + 1 < 2 ^ 64

abbrev pub IsAnswer : CommandResult → Type 0
IsAnswer (done v) = is_some (as_object v) ≡ true
IsAnswer (failed e) = Unit

abbrev pub Good : DaemonState × CommandResult → Type 0
Good (s, result) = Kept s × IsAnswer result

abbrev pub SoundOption : Option Root → Type 0
SoundOption none = Unit
SoundOption (some r) = IsRoot r

sound_if :
    (b : Bool) (r : Root) (o : Option Root)
    → IsRoot r
    → SoundOption o
    → SoundOption (if b then some r else o)
sound_if true r o ok old = ok
sound_if false r o ok old = old

sound_at : (s : DaemonState) (path : Text) → Kept s → SoundOption (Map.get s.roots path)
sound_at s path kept = elim (Option-cases (Map.get s.roots path)) [
  | inl absent ↦ rw absent tt
  | inr (r, found) ↦ rw found (kept.sound path r found)
]

pub put_back-Kept :
    (s : DaemonState) (path : Text) (r : Root) → Kept s → IsRoot r → Kept (put_back s path r)
put_back-Kept s path r kept ok = record {
  unique = insert-Unique s.roots path r kept.unique;
  sound = λ other r' found.
      subst SoundOption (sym (get-insert s.roots path other r) ∙ found)
        (sound_if (path == other) r (Map.get s.roots other) ok (sound_at s other kept));
}

pub root_absent :
    (s : DaemonState) (path : Text) (now : ℕ)
    → Map.get s.roots path ≡ none
    → State.root s path now ≡ (s, none)
unfolding State.root
root_absent s path now h = rw (h, State.root) refl

pub root_found :
    (s : DaemonState) (path : Text) (now : ℕ) (r : Root)
    → Map.get s.roots path ≡ some r
    → State.root s path now ≡ (put_back s path (touch r now), some (touch r now))
unfolding State.root
root_found s path now r h = rw (h, State.root) refl

-- A command on a root that keeps what there is, under the lookup of its root.
abbrev pub KeepsAt : (DaemonState → Text → Root → DaemonState × CommandResult) → Type 0
KeepsAt command =
    (s : DaemonState) (path : Text) (r : Root)
    → Kept s
    → IsRoot r
    → r.clock.ticks + 1 < 2 ^ 64
    → Good (command s path r)

module _ (host : Host) (s : DaemonState) (kept : Kept s) (room : HasRoom s) where
  pub with_root-Good :
      (args : Items) (message : Text)
      (command : DaemonState → Text → Root → DaemonState × CommandResult)
      → KeepsAt command
      → Good (with_root host s args message command)
  unfolding with_root
  with_root-Good args message command keeps = elim (Option-cases (str_of (first args))) [
    | inl missing ↦ rw (missing, with_root) (kept, tt)
    | inr (p, given) ↦
        rw (given, with_root)
          (elim (Option-cases (Map.get s.roots (canonical host p))) [
            | inl absent ↦ rw (root_absent s (canonical host p) host.now absent, at_root) (kept, tt)
            | inr (r, found) ↦
                rw (root_found s (canonical host p) host.now r found, at_root)
                  (keeps _ _ _
                    (put_back-Kept s (canonical host p) (touch r host.now) kept
                      (RootStep-IsRoot (touched r host.now) (kept.sound _ r found)))
                    (RootStep-IsRoot (touched r host.now) (kept.sound _ r found))
                    (unfold touch in room _ r found))
          ])
  ]
