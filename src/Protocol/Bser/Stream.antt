-- ===== src/Protocol/Bser/Stream.antt =====
-- Framed values read back from a byte stream, one after the other.
use watchwoman.Base.{
  ℕ, ◌+◌, ◌%◌, ◌^◌, ◌≤◌, ◌<◌, ◌≡◌, refl, subst, some, List, [], ◌∷◌, ◌++◌, arith, length,
  length-append, append_assoc, append-nil, le→ltb, take-append_front, drop-append_front, inl, inr,
  Bool-cases,
}
use native.Mathlib.Nat.{mod-eq_of_lt}
use watchwoman.Base.Int.{ℤ, in_range, InRange, to_unsigned}
use watchwoman.Protocol.Outcome.{ok, Encoding, json, bser_v1, bser_v2}
use watchwoman.Protocol.Value.{Value, IsWellFormed}
use watchwoman.Protocol.Bser.Ints.{to_le_bytes, write_int}
use watchwoman.Protocol.Bser.Write.{write_value}
use watchwoman.Protocol.Bser.IntRoundTrip.{
  length-to_le_bytes, from_le_bytes-to_le_bytes, to_signed-to_unsigned, InRange-to_unsigned,
  InRange→in_range,
}
use watchwoman.Protocol.Bser.Read.{read_value}
use watchwoman.Protocol.Bser.Pdu.{
  magic_v1, magic_v2, frame, encode_pdu, read_exact, read_word_from, int_from_tag, read_int_from,
  version_of, read_pdu, write_pdu,
}
use watchwoman.Protocol.Bser.Loops.{nesting}
use watchwoman.Protocol.Bser.RoundTrip.{read_value-write_value}

pub read_exact-append :
    (n : ℕ) (xs ys : List ℕ) → length xs ≡ n → read_exact n (xs ++ ys) ≡ ok (xs, ys)
unfolding read_exact
read_exact-append n xs ys e = rw (
  ← e,
  le→ltb (length (xs ++ ys)) (length xs) (omega (arith, length-append xs ys)),
  take-append_front xs ys,
  drop-append_front xs ys,
)

read_word_from-to_le_bytes :
    (w half : ℕ) (z : ℤ) (rest : List ℕ)
    → InRange half z
    → half + half ≡ 256 ^ w
    → read_word_from w half (to_le_bytes w (to_unsigned (half + half) z) ++ rest) ≡ ok (z, rest)
unfolding read_word_from
read_word_from-to_le_bytes w half z rest h e = rw (
  read_exact-append w _ rest (length-to_le_bytes w (to_unsigned (half + half) z)),
  from_le_bytes-to_le_bytes w (to_unsigned (half + half) z)
      (subst (λ m. to_unsigned (half + half) z < m) e (InRange-to_unsigned half z h)),
  to_signed-to_unsigned half z h,
)

pub read_int_from-write_int :
    (z : ℤ) (rest : List ℕ)
    → InRange (2 ^ 63) z
    → read_int_from (write_int z ++ rest) ≡ ok (z, rest)
unfolding read_int_from write_int int_from_tag
read_int_from-write_int z rest h = elim (Bool-cases (in_range (2 ^ 7) z)) [
  | inl a ↦
      rw (a, read_exact-append 1 (3 ∷ []) _ refl)
        (read_word_from-to_le_bytes 1 (2 ^ 7) z rest (InRange→in_range _ z a) refl)
  | inr a ↦ elim (Bool-cases (in_range (2 ^ 15) z)) [
    | inl b ↦
        rw (a, b, read_exact-append 1 (4 ∷ []) _ refl)
          (read_word_from-to_le_bytes 2 (2 ^ 15) z rest (InRange→in_range _ z b) refl)
    | inr b ↦ elim (Bool-cases (in_range (2 ^ 31) z)) [
      | inl c ↦
          rw (a, b, c, read_exact-append 1 (5 ∷ []) _ refl)
            (read_word_from-to_le_bytes 4 (2 ^ 31) z rest (InRange→in_range _ z c) refl)
      | inr c ↦
          rw (a, b, c, read_exact-append 1 (6 ∷ []) _ refl)
            (read_word_from-to_le_bytes 8 (2 ^ 63) z rest h refl)
    ]
  ]
]

-- Behind a magic and its capability bits.
read_framed :
    (lim depth : ℕ) (v : Value) (version : Encoding) (magic caps rest : List ℕ)
    → let payload = write_value v in
      let body = write_int (ℤ.pos (length payload)) ++ (payload ++ rest) in
      length magic ≡ 2
      → version_of magic (caps ++ body) ≡ ok (version, body)
      → nesting v ≤ depth
      → IsWellFormed lim v
      → length payload < 2 ^ 63
      → length payload ≤ lim
      → read_pdu lim depth (magic ++ (caps ++ body)) ≡ ok (some (v, version), rest)
unfolding read_pdu
read_framed lim depth v version magic caps rest two known deep wf small fits =
    let payload : List ℕ = write_value v in
    let body : List ℕ = write_int (ℤ.pos (length payload)) ++ (payload ++ rest) in
    let whole : length payload % 2 ^ 64 ≡ length payload = mod-eq_of_lt (omega arith) in
    let exact : read_value lim depth payload ≡ ok (v, length payload) =
      subst (λ b. read_value lim depth b ≡ ok (v, length payload)) (append-nil payload)
        (read_value-write_value lim depth v [] deep wf) in
    rw (
      le→ltb (length (magic ++ (caps ++ body))) 2
          (omega (arith, length-append magic (caps ++ body))),
      read_exact-append 2 magic (caps ++ body) two,
      known,
      read_int_from-write_int (ℤ.pos (length payload)) (payload ++ rest) small,
      whole,
      le→ltb lim (length payload) fits,
      read_exact-append (length payload) payload rest refl,
      exact,
    )

-- What `write_pdu` appends to an empty stream in either BSER version, whatever follows, is read
-- by `read_pdu` as exactly one PDU: the value and the version come back and the stream is left
-- behind it, for a well-formed value whose nesting the stack holds and whose payload is below
-- 2^63 bytes and is granted by the allocator.
pub read_pdu-write_pdu :
    (lim depth : ℕ) (v : Value) (version : Encoding) (stream rest : List ℕ)
    → nesting v ≤ depth
    → IsWellFormed lim v
    → length (write_value v) < 2 ^ 63
    → length (write_value v) ≤ lim
    → write_pdu [] v version ≡ ok stream
    → read_pdu lim depth (stream ++ rest) ≡ ok (some (v, version), rest)
unfolding write_pdu encode_pdu
read_pdu-write_pdu lim depth v json stream rest deep wf small fits e = cc
read_pdu-write_pdu lim depth v bser_v1 stream rest deep wf small fits e =
    let same : frame magic_v1 (write_value v) ≡ stream = cc in
    subst (λ b. read_pdu lim depth (b ++ rest) ≡ ok (some (v, bser_v1), rest)) same
      (simp append_assoc (
        read_framed lim depth v bser_v1 magic_v1 [] rest refl (unfold version_of in refl) deep wf
          small fits))
read_pdu-write_pdu lim depth v bser_v2 stream rest deep wf small fits e =
    let same : frame (magic_v2 ++ to_le_bytes 4 0) (write_value v) ≡ stream = cc in
    subst (λ b. read_pdu lim depth (b ++ rest) ≡ ok (some (v, bser_v2), rest)) same
      (simp append_assoc (
        read_framed lim depth v bser_v2 magic_v2 (to_le_bytes 4 0) rest refl
          (unfold version_of to_le_bytes in rw (read_exact-append 4 (0 ∷ 0 ∷ 0 ∷ 0 ∷ []) _ refl))
          deep wf small fits))
