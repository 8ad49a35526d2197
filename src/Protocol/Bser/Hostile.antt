-- ===== src/Protocol/Bser/Hostile.antt =====
-- Input that no encoder writes: negative lengths and nesting without end.
use watchwoman.Base.{
  ℕ, zero, suc, ◌+◌, ◌-◌, ◌*◌, ◌%◌, ◌^◌, ◌≤◌, ◌<◌, ◌≡◌, refl, List, [], ◌∷◌, ◌++◌, arith, length,
  length-append, ltb, if◌then◌else◌, inl, inr, Bool-cases, le→ltb, lt→ltb, ltb→lt,
}
use native.Mathlib.Nat.{mod-eq_of_lt}
use watchwoman.Base.Int.{pos, negsuc}
use watchwoman.Protocol.Outcome.{ok, err, panic, stack_overflow, truncated}
use watchwoman.Protocol.Bser.Ints.{write_int, need, read_int, read_word, from_le_bytes}
use watchwoman.Protocol.Bser.IntRoundTrip.{read_int-write_int, length-write_int}
use watchwoman.Protocol.Bser.Read.{
  slice, read_string, read_items, read_array, read_tagged, read_value,
}
use watchwoman.Protocol.Bser.At.{At-cons, slice_from-At}
use watchwoman.Protocol.Bser.Loops.{with_capacity_ok}

-- A string whose length field is -(n + 1), with fewer than 2^62 bytes behind it, makes the
-- reader panic if n is below the string's start, and is reported as truncated otherwise.
pub read_value_negative_length :
    (lim depth n : ℕ) (rest : List ℕ)
    → n < 2 ^ 63
    → length rest < 2 ^ 62
    → let prefix = write_int (negsuc n) in
      read_value lim (suc depth) (0x02 ∷ (prefix ++ rest))
      ≡ (if ltb n (1 + length prefix) then panic else err truncated)
unfolding read_value read_tagged read_string need slice
read_value_negative_length lim depth n rest h few =
    let prefix : List ℕ = write_int (negsuc n) in
    let start : ℕ = 1 + length prefix in
    let buf : List ℕ = 0x02 ∷ (prefix ++ rest) in
    let bounds = length-write_int (negsuc n) in
    let small : length prefix ≤ 9 = bounds.1 in
    let size : length buf ≡ 1 + length prefix + length rest =
      omega (arith, length-append prefix rest) in
    let whole : n % 2 ^ 64 ≡ n = mod-eq_of_lt (omega arith) in
    rw
      (
        slice_from-At buf 1 _ (At-cons 0x02 (prefix ++ rest)),
        read_int-write_int (negsuc n) rest h,
        whole,
      )
      (elim (Bool-cases (ltb n (1 + length prefix))) [
        | inl wraps ↦
            let below : n < start = ltb→lt n start wraps in
            let end : (start + (2 ^ 64 - 1 - n)) % 2 ^ 64 ≡ start - 1 - n = omega arith in
            rw (
              end,
              le→ltb (length buf) (start - 1 - n) (omega arith),
              lt→ltb (start - 1 - n) start (omega arith),
              wraps,
            )
        | inr far ↦
            let above : start ≤ n = ground arith in
            let end : (start + (2 ^ 64 - 1 - n)) % 2 ^ 64 ≡ start + (2 ^ 64 - 1 - n) =
              omega arith in
            rw (end, lt→ltb (length buf) (start + (2 ^ 64 - 1 - n)) (omega arith), far)
      ])

-- `n` arrays of one element, each inside the one before, with nothing inside the last.
unfoldable pub nested_arrays : ℕ → List ℕ
nested_arrays zero = []
nested_arrays (suc n) = 0x00 ∷ 0x03 ∷ 0x01 ∷ nested_arrays n

one_header : (x : List ℕ) → read_int (0x03 ∷ 0x01 ∷ x) ≡ ok (pos 1, 2)
unfolding read_int read_word need from_le_bytes
one_header x = rw (le→ltb (suc (suc (length x))) 2 (omega arith))

-- For a stack of any depth that many nested array headers, three bytes each, exhaust it, if a
-- vector of one element is granted.
pub read_value-nested_arrays :
    (lim depth : ℕ) (rest : List ℕ)
    → 1 ≤ lim
    → (read_value lim depth (nested_arrays depth ++ rest) ≡ stack_overflow)
      × (length (nested_arrays depth) ≡ 3 * depth)
unfolding read_value read_tagged read_array read_items nested_arrays
read_value-nested_arrays lim zero rest h = (refl, refl)
read_value-nested_arrays lim (suc depth) rest h =
    let inner : List ℕ = nested_arrays depth ++ rest in
    let buf : List ℕ = 0x00 ∷ 0x03 ∷ 0x01 ∷ inner in
    let (deep, size) = read_value-nested_arrays lim depth rest h in
    let header : read_int (0x03 ∷ 0x01 ∷ inner) ≡ ok (pos 1, 2) = one_header inner in
    (
      rw (
        slice_from-At buf 1 _ (At-cons 0x00 (0x03 ∷ 0x01 ∷ inner)),
        header,
        with_capacity_ok lim 1 h,
        slice_from-At buf 3 inner (omega arith, refl),
        deep,
      ),
      omega (arith, size),
    )
