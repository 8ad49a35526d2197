-- ===== src/Protocol/Bser/IntRoundTrip.antt =====
-- Tagged integers read back.
use watchwoman.Base.{
  ℕ, zero, suc, ◌+◌, ◌/◌, ◌%◌, ◌^◌, ◌≤◌, ◌<◌, ◌≡◌, refl, ap, true, List, ◌∷◌, ◌++◌, arith, lt→ltb,
  le→ltb, ltb→lt, subst, ◌-◌, inl, inr, Bool-cases, length, length-append, take, take-append_front,
}
use native.Mathlib.Nat.{pow-suc, mod-eq_of_lt, mod-lt}
use watchwoman.Base.Int.{ℤ, pos, negsuc, in_range, InRange, to_unsigned, to_signed}
use watchwoman.Protocol.Outcome.{ok}
use watchwoman.Protocol.Bser.Ints.{to_le_bytes, from_le_bytes, write_int, need, read_word, read_int}

pub length-to_le_bytes : (w n : ℕ) → length (to_le_bytes w n) ≡ w
unfolding to_le_bytes
length-to_le_bytes zero n = refl
length-to_le_bytes (suc w) n = ap suc (length-to_le_bytes w (n / 256))

-- A word reads back from its bytes.
pub from_le_bytes-to_le_bytes : (w n : ℕ) → n < 256 ^ w → from_le_bytes (to_le_bytes w n) ≡ n
unfolding from_le_bytes to_le_bytes
from_le_bytes-to_le_bytes zero n h = omega arith
from_le_bytes-to_le_bytes (suc w) n h =
    omega (arith, from_le_bytes-to_le_bytes w (n / 256), pow-suc 256 w)

-- Two's complement loses nothing in range.
pub to_signed-to_unsigned :
    (half : ℕ) (z : ℤ) → InRange half z → to_signed half (to_unsigned (half + half) z) ≡ z
to_signed-to_unsigned half (pos n) h =
    let whole : n % (half + half) ≡ n = mod-eq_of_lt (omega arith) in rw (whole, lt→ltb n half h)
to_signed-to_unsigned half (negsuc n) h =
    let whole : n % (half + half) ≡ n = mod-eq_of_lt (omega arith) in
    rw (whole, le→ltb (half + half - 1 - n) half (omega arith)) (ap negsuc (omega arith))

pub InRange-to_unsigned :
    (half : ℕ) (z : ℤ) → InRange half z → to_unsigned (half + half) z < half + half
InRange-to_unsigned half (pos n) h = omega (arith, mod-lt n {m = half + half})
InRange-to_unsigned half (negsuc n) h = omega arith

pub InRange→in_range : (half : ℕ) (z : ℤ) → in_range half z ≡ true → InRange half z
InRange→in_range half (pos n) h = ltb→lt n half h
InRange→in_range half (negsuc n) h = ltb→lt n half h

-- The bytes of a word behind any tag, with anything after them.
read_word-to_le_bytes :
    (w half tag : ℕ) (z : ℤ) (rest : List ℕ)
    → InRange half z
    → half + half ≡ 256 ^ w
    → read_word w half (tag ∷ (to_le_bytes w (to_unsigned (half + half) z) ++ rest))
      ≡ ok (z, suc (length (to_le_bytes w (to_unsigned (half + half) z))))
unfolding read_word need
read_word-to_le_bytes w half tag z rest h e =
    let word = to_le_bytes w (to_unsigned (half + half) z) in
    let len : length word ≡ w = length-to_le_bytes w _ in
    let size : length (word ++ rest) ≡ w + length rest =
      omega (arith, length-append word rest, len) in
    let front : take w (word ++ rest) ≡ word =
      subst (λ n. take n (word ++ rest) ≡ word) len (take-append_front word rest) in
    rw (
      le→ltb (suc (length (word ++ rest))) (suc w) (omega arith),
      front,
      from_le_bytes-to_le_bytes w (to_unsigned (half + half) z)
          (subst (λ m. to_unsigned (half + half) z < m) e (InRange-to_unsigned half z h)),
      to_signed-to_unsigned half z h,
      len,
    )

-- Whatever follows, a written i64 reads back and takes as many bytes as were written.
pub read_int-write_int :
    (z : ℤ) (rest : List ℕ)
    → InRange (2 ^ 63) z
    → read_int (write_int z ++ rest) ≡ ok (z, length (write_int z))
unfolding read_int write_int
read_int-write_int z rest h = elim (Bool-cases (in_range (2 ^ 7) z)) [
  | inl a ↦ rw a (read_word-to_le_bytes 1 (2 ^ 7) 3 z rest (InRange→in_range _ z a) refl)
  | inr a ↦ elim (Bool-cases (in_range (2 ^ 15) z)) [
    | inl b ↦ rw (a, b) (read_word-to_le_bytes 2 (2 ^ 15) 4 z rest (InRange→in_range _ z b) refl)
    | inr b ↦ elim (Bool-cases (in_range (2 ^ 31) z)) [
      | inl c ↦
          rw (a, b, c) (read_word-to_le_bytes 4 (2 ^ 31) 5 z rest (InRange→in_range _ z c) refl)
      | inr c ↦ rw (a, b, c) (read_word-to_le_bytes 8 (2 ^ 63) 6 z rest h refl)
    ]
  ]
]

-- 2, 3, 5 or 9 bytes.
pub length-write_int : (z : ℤ) → (2 ≤ length (write_int z)) × (length (write_int z) ≤ 9)
unfolding write_int to_le_bytes
length-write_int z = ground arith
