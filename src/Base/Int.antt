-- ===== src/Base/Int.antt =====
-- Signed machine integers: i64 values as ℤ over the native numbers, and two's complement.
use watchwoman.Base.{ℕ, ◌+◌, ◌-◌, ◌%◌, ◌<◌, Bool, true, false, ltb, leb, if◌then◌else◌}

-- `negsuc n` is -(n + 1).
pub data ℤ : Type 0 where
  pos : ℕ → ℤ
  negsuc : ℕ → ℤ

-- `z.max(0)` as a count: `for _ in 0..z` makes this many rounds.
abbrev pub pos_part : ℤ → ℕ
pos_part (pos n) = n
pos_part (negsuc n) = 0

-- -half ≤ z < half, as a test and as a statement.
abbrev pub in_range : ℕ → ℤ → Bool
in_range half (pos n) = ltb n half
in_range half (negsuc n) = ltb n half

abbrev pub InRange : ℕ → ℤ → Type 0
InRange half (pos n) = n < half
InRange half (negsuc n) = n < half

-- `z as uN` for the modulus 2 ^ N: the low bits of the two's complement.
abbrev pub to_unsigned : ℕ → ℤ → ℕ
to_unsigned modulus (pos n) = n % modulus
to_unsigned modulus (negsuc n) = modulus - 1 - n % modulus

-- `b as iN` for half = 2 ^ (N - 1): the value of a bit pattern.
abbrev pub to_signed : ℕ → ℕ → ℤ
to_signed half b = if ltb b half then pos b else negsuc (half + half - 1 - b)

-- `a <= b`.
abbrev pub is_le : ℤ → ℤ → Bool
is_le (pos m) (pos n) = leb m n
is_le (pos m) (negsuc n) = false
is_le (negsuc m) (pos n) = true
is_le (negsuc m) (negsuc n) = leb n m
