-- ===== src/Protocol/Outcome.antt =====
-- crates/watchwoman-protocol/src/lib.rs: errors and encodings. A run of the codec returns, fails with
-- a `ProtocolError`, panics, or exhausts the thread's stack.
use watchwoman.Base.{ℕ, ◌≡◌, refl, subst, Bool, true, false, if◌then◌else◌}
use watchwoman.Base.Int.{ℤ}

-- The texts that `ProtocolError::Bser` carries, one constructor for each call of `format!`.
pub data BserError : Type 0 where
  encode_with_json : BserError
  length_mismatch : ℤ → ℕ → BserError
  expected_int_tag : ℕ → BserError
  object_key_not_string : BserError
  template_key_not_string : BserError
  template_keys_not_array : BserError
  unexpected_skip : BserError
  unknown_tag : ℕ → BserError

-- `unexpected_eof` is the `Io` error of `read_exact` on a reader that ends early.
pub data ProtocolError : Type 0 where
  unexpected_eof : ProtocolError
  bser : BserError → ProtocolError
  truncated : ProtocolError
  unknown_encoding : ℕ → ProtocolError
  bad_json : ProtocolError

pub data Encoding : Type 0 where
  json bser_v1 bser_v2 : Encoding

pub data Outcome {ℓ} (A : Type ℓ) : Type ℓ where
  ok : A → Outcome A
  err : ProtocolError → Outcome A
  panic : Outcome A
  stack_overflow : Outcome A

-- The `?` operator.
infixl 5 ◌>>=◌ ◌>>◌
abbrev pub ◌>>=◌ {ℓ κ} : {A : Type ℓ} {B : Type κ} → Outcome A → (A → Outcome B) → Outcome B
ok a >>= f = f a
err e >>= f = err e
panic >>= f = panic
stack_overflow >>= f = stack_overflow

abbrev pub ◌>>◌ {ℓ} : {B : Type ℓ} → Outcome (Unit {0}) → Outcome B → Outcome B
m >> k = m >>= λ _. k

-- What holds of a run: `P` of the value it returns, and `O` if the stack is exhausted.
pub data Ensures {ℓ} {A : Type ℓ} (O : Type 0) (P : A → Type 0) : Outcome A → Type ℓ where
  returned : {a : A} → P a → Ensures O P (ok a)
  failed : {e : ProtocolError} → Ensures O P (err e)
  panicked : Ensures O P panic
  overflowed : O → Ensures O P stack_overflow

module _ {ℓ} {A : Type ℓ} {O : Type 0} {P : A → Type 0} where
  pub Ensures-ok : {r : Outcome A} {a : A} → Ensures O P r → r ≡ ok a → P a
  Ensures-ok (returned h) e = subst P (cc) h
  Ensures-ok failed e = cc
  Ensures-ok panicked e = cc
  Ensures-ok (overflowed o) e = cc

  pub Ensures-stack_overflow : {r : Outcome A} → Ensures O P r → r ≡ stack_overflow → O
  Ensures-stack_overflow (returned h) e = cc
  Ensures-stack_overflow failed e = cc
  Ensures-stack_overflow panicked e = cc
  Ensures-stack_overflow (overflowed o) e = o

  pub Ensures-bind {κ} :
      {B : Type κ} {Q : B → Type 0} {r : Outcome A} {f : A → Outcome B}
      → Ensures O P r
      → ((a : A) → P a → Ensures O Q (f a))
      → Ensures O Q (r >>= f)
  Ensures-bind (returned {a} h) k = k a h
  Ensures-bind failed k = failed
  Ensures-bind panicked k = panicked
  Ensures-bind (overflowed o) k = overflowed o

  pub Ensures-weaken :
      {O' : Type 0} {P' : A → Type 0} {r : Outcome A}
      → (O → O')
      → ((a : A) → P a → P' a)
      → Ensures O P r
      → Ensures O' P' r
  Ensures-weaken f g (returned {a} h) = returned (g a h)
  Ensures-weaken f g failed = failed
  Ensures-weaken f g panicked = panicked
  Ensures-weaken f g (overflowed o) = overflowed (f o)

  pub Ensures-if :
      (b : Bool) {x y : Outcome A}
      → (b ≡ true → Ensures O P x)
      → (b ≡ false → Ensures O P y)
      → Ensures O P (if b then x else y)
  Ensures-if true hx hy = hx refl
  Ensures-if false hx hy = hy refl

pub bind_assoc {ℓ κ ν} :
    {A : Type ℓ} {B : Type κ} {C : Type ν} (m : Outcome A) (f : A → Outcome B) (g : B → Outcome C)
    → (m >>= f >>= g) ≡ (m >>= λ a. f a >>= g)
bind_assoc (ok a) f g = refl
bind_assoc (err e) f g = refl
bind_assoc panic f g = refl
bind_assoc stack_overflow f g = refl
