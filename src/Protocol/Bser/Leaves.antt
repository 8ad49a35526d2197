-- ===== src/Protocol/Bser/Leaves.antt =====
-- The reader on what is written for numbers and texts, and on the first byte of any value.
use watchwoman.Base.{
  ℕ, zero, suc, ◌^◌, ◌≤◌, ◌<◌, ◌≡◌, refl, ap, ◌∙◌, true, false, List, [], ◌∷◌, ◌++◌, arith, inl,
  inr, Bool-cases, length, length-append, take, drop, get_elem?, take-append_front, append_assoc,
  le→ltb, if◌then◌else◌, subst, ltb,
}
use watchwoman.Base.Int.{ℤ, in_range, InRange}
use watchwoman.Protocol.Outcome.{Outcome, ok}
use watchwoman.Protocol.Utf8.{is_utf8}
use watchwoman.Protocol.Value.{
  Value, null, bool, int, real, string, bytes, array, object, template, IsText,
}
use watchwoman.Protocol.Bser.Ints.{to_le_bytes, write_int, need}
use watchwoman.Protocol.Bser.Write.{write_bytes, write_value}
use watchwoman.Protocol.Bser.IntRoundTrip.{
  length-to_le_bytes, from_le_bytes-to_le_bytes, read_int-write_int,
}
use watchwoman.Protocol.Bser.Read.{
  Reader, is_skip, read_int_value, read_real, read_tagged, read_value,
}
use watchwoman.Protocol.Bser.At.{At, read_string_lem}

-- The counts of two ways to add up the same bytes.
pub ok_at {ℓ} :
    {A : Type ℓ} (a : A) {m n : ℕ} → m ≡ n → ◌≡◌ {A = Outcome (A × ℕ)} (ok (a, m)) (ok (a, n))
ok_at {A} a e = ap (λ (n : ℕ). let r : Outcome (A × ℕ) = ok (a, n) in r) e

module _ (lim : ℕ) (read : Reader) where
  read_tagged-write_int :
      (z : ℤ) (rest : List ℕ)
      → read_tagged lim read (write_int z ++ rest) ≡ read_int_value (write_int z ++ rest)
  unfolding read_tagged write_int
  read_tagged-write_int z rest = elim (Bool-cases (in_range (2 ^ 7) z)) [
    | inl a ↦ rw a
    | inr a ↦ elim (Bool-cases (in_range (2 ^ 15) z)) [
      | inl b ↦ rw (a, b)
      | inr b ↦ elim (Bool-cases (in_range (2 ^ 31) z)) [
        | inl c ↦ rw (a, b, c)
        | inr c ↦ rw (a, b, c)
      ]
    ]
  ]

  pub read_tagged_int :
      (z : ℤ) (rest : List ℕ)
      → InRange (2 ^ 63) z
      → read_tagged lim read (write_int z ++ rest) ≡ ok (int z, length (write_int z))
  unfolding read_int_value
  read_tagged_int z rest h = rw (read_tagged-write_int z rest, read_int-write_int z rest h)

  pub read_tagged_bytes :
      (s rest : List ℕ)
      → length s < 2 ^ 63
      → read_tagged lim read (write_bytes s ++ rest)
        ≡ ok (if is_utf8 s then string s else bytes s, length (write_bytes s))
  unfolding read_tagged write_bytes
  read_tagged_bytes s rest h =
      let prefix : List ℕ = write_int (ℤ.pos (length s)) in
      rw (append_assoc, read_string_lem 0x02 s rest h)
        (ok_at _ (omega (arith, length-append prefix s)))

  pub read_tagged_real :
      (b : ℕ) (rest : List ℕ)
      → b < 2 ^ 64
      → read_tagged lim read (write_value (real b) ++ rest)
        ≡ ok (real b, length (write_value (real b)))
  unfolding read_tagged read_real need write_value
  read_tagged_real b rest h =
      let word = to_le_bytes 8 b in
      let len : length word ≡ 8 = length-to_le_bytes 8 b in
      let front : take 8 (word ++ rest) ≡ word =
        subst (λ n. take n (word ++ rest) ≡ word) len (take-append_front word rest) in
      let room : ltb (suc (length (word ++ rest))) 9 ≡ false =
        le→ltb _ 9 (omega (arith, length-append word rest)) in
      rw (room, front, from_le_bytes-to_le_bytes 8 b h, len)

-- A text is read as a string at any depth.
pub read_value_text :
    (lim depth : ℕ) (s rest : List ℕ)
    → IsText s
    → 1 ≤ depth
    → read_value lim depth (write_bytes s ++ rest) ≡ ok (string s, length (write_bytes s))
unfolding read_value
read_value_text lim zero s rest h d = absurd (omega arith)
read_value_text lim (suc depth) s rest (valid, short) d =
    read_tagged_bytes lim (read_value lim depth) s rest short ∙ rw valid

write_int-not_skip : (z : ℤ) (rest : List ℕ) → is_skip (get_elem? (write_int z ++ rest) 0) ≡ false
unfolding write_int
write_int-not_skip z rest = elim (Bool-cases (in_range (2 ^ 7) z)) [
  | inl a ↦ rw a
  | inr a ↦ elim (Bool-cases (in_range (2 ^ 15) z)) [
    | inl b ↦ rw (a, b)
    | inr b ↦ elim (Bool-cases (in_range (2 ^ 31) z)) [
      | inl c ↦ rw (a, b, c)
      | inr c ↦ rw (a, b, c)
    ]
  ]
]

-- No value is written with the tag that stands for an absent field.
pub write_value-not_skip :
    (v : Value) (rest : List ℕ) → is_skip (get_elem? (write_value v ++ rest) 0) ≡ false
unfolding write_value write_bytes
write_value-not_skip null rest = refl
write_value-not_skip (bool true) rest = refl
write_value-not_skip (bool false) rest = refl
write_value-not_skip (int z) rest = write_int-not_skip z rest
write_value-not_skip (real b) rest = refl
write_value-not_skip (string s) rest = refl
write_value-not_skip (bytes b) rest = refl
write_value-not_skip (array vs) rest = refl
write_value-not_skip (object fs) rest = refl
write_value-not_skip (template ks rs) rest = refl

get_elem?-drop : (n : ℕ) (xs : List ℕ) → get_elem? xs n ≡ get_elem? (drop n xs) 0
get_elem?-drop zero [] = refl
get_elem?-drop zero (x ∷ xs) = refl
get_elem?-drop (suc n) [] = refl
get_elem?-drop (suc n) (x ∷ xs) = get_elem?-drop n xs

pub get_elem?-At :
    (buf : List ℕ) (n : ℕ) (x : List ℕ) → At buf n x → get_elem? buf n ≡ get_elem? x 0
get_elem?-At buf n x (h, e) = get_elem?-drop n buf ∙ ap (λ (y : List ℕ). get_elem? y 0) e
