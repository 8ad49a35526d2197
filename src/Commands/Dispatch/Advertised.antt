-- ===== src/Commands/Dispatch/Advertised.antt =====
-- Every command that the daemon advertises is one that it dispatches.
use watchwoman.Base.{
  ◌≡◌, refl, Bool, true, List, [], ◌∷◌, ◌++◌, all, is_some, list_eq, nat_eq, ◌==◌, contains, Option,
  some, none, subst, eq_iff, Bool-cases, inl, inr, arith,
}
use watchwoman.Base.Map
use watchwoman.Base.Text.{Text, ascii, strip_prefix}
use watchwoman.Commands.Outcome.{Host}
use watchwoman.Commands.Capabilities.{capabilities}
use watchwoman.Commands.Dispatch.{Reports, commands}

all-contains :
    (p : Text → Bool) (xs : List Text) (x : Text)
    → all p xs ≡ true
    → contains xs x ≡ true
    → p x ≡ true
all-contains p [] x h there = cc
all-contains p (y ∷ xs) x h there = elim (Bool-cases (y == x)) [
  | inl here ↦ subst (λ z. p z ≡ true) ((eq_iff y x).0 here) (ground arith)
  | inr other ↦ all-contains p xs x (ground arith) (rw other at there)
]

module _ (host : Host) (reports : Reports) where
  abbrev is_dispatched : Option Text → Bool
  is_dispatched none = true
  is_dispatched (some name) = is_some (Map.get (commands host reports) name)

  advertised : all (λ c. is_dispatched (strip_prefix (ascii "cmd-") c)) capabilities ≡ true
  unfolding commands Map.get strip_prefix
  advertised = refl

  -- On any host, a name that is listed among the capabilities behind `cmd-` is in the table of
  -- commands.
  pub capabilities-commands :
      (name : Text)
      → contains capabilities (ascii "cmd-" ++ name) ≡ true
      → is_some (Map.get (commands host reports) name) ≡ true
  unfolding strip_prefix
  capabilities-commands name listed =
      all-contains (λ c. is_dispatched (strip_prefix (ascii "cmd-") c)) capabilities
        (ascii "cmd-" ++ name) advertised listed
