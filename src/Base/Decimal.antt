-- ===== src/Base/Decimal.antt =====
-- Numbers printed in decimal parse back, and hold no separator.
use watchwoman.Base.{
  ℕ, zero, suc, ◌+◌, ◌-◌, ◌*◌, ◌/◌, ◌%◌, ◌^◌, ◌≤◌, ◌<◌, ◌≡◌, ◌≢◌, refl, ap, ◌∙◌, some, append-nil,
  subst, [], ◌∷◌, ◌++◌, arith, All, All-append, append_assoc, ltb, Bool-cases, inl, inr, ltb→lt,
  lt→ltb, le→leb, nat_eq, nat_beq_iff,
}
use native.Mathlib.Nat.{pow-suc}
use watchwoman.Base.Text.{Text, split, parse_digits, parse_uint, decimal_digits, decimal}

abbrev pub IsDigit : ℕ → Type 0
IsDigit c = (b'0' ≤ c) × (c ≤ b'9')

parse_digits-digit :
    (modulus acc d : ℕ) (s : Text)
    → d < 10
    → acc * 10 + d < modulus
    → parse_digits modulus acc ((b'0' + d) ∷ s) ≡ parse_digits modulus (acc * 10 + d) s
unfolding parse_digits
parse_digits-digit modulus acc d s h fits =
    let digit : b'0' + d - b'0' ≡ d = omega arith in
    rw (
      digit,
      le→leb b'0' (b'0' + d) (omega arith),
      le→leb (b'0' + d) b'9' (omega arith),
      lt→ltb (acc * 10 + d) modulus fits,
    )

parse_digits-first :
    (modulus n : ℕ) (s : Text)
    → n < 10
    → n < modulus
    → parse_digits modulus 0 ((b'0' + n) ∷ s) ≡ parse_digits modulus n s
parse_digits-first modulus n s h fits =
    parse_digits-digit modulus 0 n s h (omega arith)
    ∙ ap (λ (k : ℕ). parse_digits modulus k s) (omega arith)

parse_digits-decimal_digits :
    (modulus fuel n : ℕ) (s : Text)
    → n < 10 ^ suc fuel
    → n < modulus
    → parse_digits modulus 0 (decimal_digits fuel n ++ s) ≡ parse_digits modulus n s
unfolding decimal_digits
parse_digits-decimal_digits modulus zero n s h fits =
    parse_digits-first modulus n s (omega arith) fits
parse_digits-decimal_digits modulus (suc fuel) n s h fits = elim (Bool-cases (ltb n 10)) [
  | inl small ↦ rw small (parse_digits-first modulus n s (ltb→lt n 10 small) fits)
  | inr large ↦
      let whole : n / 10 * 10 + n % 10 ≡ n = omega arith in
      rw (
        large,
        append_assoc,
        parse_digits-decimal_digits modulus fuel (n / 10) ((b'0' + n % 10) ∷ s)
            (omega (arith, pow-suc 10 (suc fuel))) (omega arith),
        parse_digits-digit modulus (n / 10) (n % 10) s (omega arith) (omega arith),
        whole,
      )
]

pub decimal_digits-IsDigit : (fuel n : ℕ) → n < 10 ^ suc fuel → All IsDigit (decimal_digits fuel n)
unfolding decimal_digits
decimal_digits-IsDigit zero n h = omega arith
decimal_digits-IsDigit (suc fuel) n h = elim (Bool-cases (ltb n 10)) [
  | inl small ↦ rw small (let low = ltb→lt n 10 small in omega arith)
  | inr large ↦ rw large (
      All-append IsDigit (decimal_digits fuel (n / 10)) _
        (decimal_digits-IsDigit fuel (n / 10) (omega (arith, pow-suc 10 (suc fuel)))) (omega arith))
]

-- The first digit is no `+`.
parse_uint-digits :
    (modulus : ℕ) (s : Text)
    → All IsDigit s
    → s ≢ []
    → parse_uint modulus s ≡ parse_digits modulus 0 s
unfolding parse_uint
parse_uint-digits modulus [] h ne = absurd (ne refl)
parse_uint-digits modulus (c ∷ s) (h, hs) ne = ground (arith, nat_beq_iff c b'+')

append-ne-nil : (xs : Text) (d : ℕ) → xs ++ d ∷ [] ≢ []
append-ne-nil [] d e = cc
append-ne-nil (x ∷ xs) d e = cc

decimal_digits-ne-nil : (fuel n : ℕ) → decimal_digits fuel n ≢ []
unfolding decimal_digits
decimal_digits-ne-nil zero n = λ e. cc
decimal_digits-ne-nil (suc fuel) n = elim (Bool-cases (ltb n 10)) [
  | inl small ↦ rw small (λ e. cc)
  | inr large ↦ rw large (append-ne-nil (decimal_digits fuel (n / 10)) _)
]

-- A u64, or a number of a smaller type, reads back from its decimal form.
pub parse_uint-decimal :
    (modulus n : ℕ) → n < 2 ^ 64 → n < modulus → parse_uint modulus (decimal n) ≡ some n
unfolding parse_digits
parse_uint-decimal modulus n h fits =
    let few : n < 10 ^ 20 = omega arith in
    parse_uint-digits modulus (decimal n) (decimal_digits-IsDigit 19 n few)
      (decimal_digits-ne-nil 19 n)
    ∙ subst (λ s. parse_digits modulus 0 s ≡ some n) (append-nil (decimal n))
        (parse_digits-decimal_digits modulus 19 n [] few fits)

-- A piece of digits ends at the separator.
pub split-digits :
    (s rest : Text) → All IsDigit s → split b':' (s ++ b':' ∷ rest) ≡ s ∷ split b':' rest
unfolding split
split-digits [] rest h = refl
split-digits (c ∷ s) rest (h, hs) = ground (arith, split-digits s rest hs, nat_beq_iff c b':')

pub split-digits_end : (s : Text) → All IsDigit s → split b':' s ≡ s ∷ []
unfolding split
split-digits_end [] h = refl
split-digits_end (c ∷ s) (h, hs) = ground (arith, split-digits_end s hs, nat_beq_iff c b':')
