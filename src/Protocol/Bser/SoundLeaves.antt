-- ===== src/Protocol/Bser/SoundLeaves.antt =====
-- What the reader's leaves ensure on any bytes: bounds on what they consume, ranges, UTF-8.
use watchwoman.Base.{
  ℕ, suc, ◌+◌, ◌-◌, ◌*◌, ◌^◌, ◌≤◌, ◌<◌, ◌≡◌, refl, ap, List, [], ◌∷◌, arith, inl, inr, Bool-cases,
  length, length-take, length-drop, All, All-take, All-drop, take, drop, ltb, ◌==◌, nat_eq,
  if◌then◌else◌,
}
use native.Mathlib.Nat.{pow-suc}
use watchwoman.Base.Int.{ℤ, pos, negsuc, InRange, to_signed, pos_part}
use watchwoman.Protocol.Outcome.{Ensures, returned, failed, panicked, Ensures-bind, Ensures-if}
use watchwoman.Protocol.Utf8.{is_utf8}
use watchwoman.Protocol.Value.{string, bytes}
use watchwoman.Protocol.Bser.Ints.{from_le_bytes, need, read_word, read_int}
use watchwoman.Protocol.Bser.Read.{
  slice_from, slice, add_usize, as_usize, read_string, with_capacity,
}

abbrev pub IsByte : ℕ → Type 0
IsByte b = b < 256

-- An input of the decoder: bytes, few enough for a lossy copy to be an object too.
abbrev pub IsInput : List ℕ → Type 0
IsInput buf = All IsByte buf × (3 * length buf < 2 ^ 63)

from_le_bytes-lt : (bs : List ℕ) → All IsByte bs → from_le_bytes bs < 256 ^ length bs
unfolding from_le_bytes
from_le_bytes-lt [] h = omega arith
from_le_bytes-lt (b ∷ bs) (h, hs) = omega (arith, from_le_bytes-lt bs hs, pow-suc 256 (length bs))

-- `w` bytes are a word below 256 ^ w, if they are there.
pub word-lt :
    (w : ℕ) (buf : List ℕ)
    → All IsByte buf
    → suc w ≤ length buf
    → from_le_bytes (take w (drop 1 buf)) < 256 ^ w
word-lt w buf h room =
    let all_there : length (take w (drop 1 buf)) ≡ w =
      omega (arith, length-take w (drop 1 buf), length-drop 1 buf) in
    rw all_there at (
      from_le_bytes-lt (take w (drop 1 buf))
        (All-take IsByte w (drop 1 buf) (All-drop IsByte 1 buf h)))

to_signed-InRange : (half b : ℕ) → b < half + half → InRange half (to_signed half b)
to_signed-InRange half b h = elim (Bool-cases (ltb b half)) [
  | inl low ↦ rw low (ground arith)
  | inr high ↦ rw high (ground arith)
]

InRange-le : (z : ℤ) (half half' : ℕ) → half ≤ half' → InRange half z → InRange half' z
InRange-le (pos n) half half' h k = omega arith
InRange-le (negsuc n) half half' h k = omega arith

-- An i64 read off the front of `buf`, and the bytes that it took.
abbrev pub IsIntAt : List ℕ → ℤ × ℕ → Type 0
IsIntAt buf (z, n) = (2 ≤ n) × (n ≤ length buf) × InRange (2 ^ 63) z

module _ {O : Type 0} where
  pub need_sound : (buf : List ℕ) (n : ℕ) → Ensures O (λ _. n ≤ length buf) (need buf n)
  unfolding need
  need_sound buf n = elim (Bool-cases (ltb (length buf) n)) [
    | inl short ↦ rw short failed
    | inr enough ↦ rw enough (returned (ground arith))
  ]

  pub slice_from_sound :
      (buf : List ℕ) (n : ℕ)
      → Ensures O (λ view. (n ≤ length buf) × (view ≡ drop n buf)) (slice_from buf n)
  unfolding slice_from
  slice_from_sound buf n = elim (Bool-cases (ltb (length buf) n)) [
    | inl short ↦ rw short panicked
    | inr enough ↦ rw enough (returned (ground arith, refl))
  ]

  pub slice_sound :
      (buf : List ℕ) (a b : ℕ)
      → Ensures O
          (λ view. (a ≤ b) × (b ≤ length buf) × (view ≡ take (b - a) (drop a buf)))
          (slice buf a b)
  unfolding slice
  slice_sound buf a b = elim (Bool-cases (ltb b a)) [
    | inl crossed ↦ rw crossed panicked
    | inr order ↦ elim (Bool-cases (ltb (length buf) b)) [
      | inl short ↦ rw (order, short) panicked
      | inr enough ↦ rw (order, enough) (returned (ground arith, ground arith, refl))
    ]
  ]

  pub with_capacity_sound :
      (lim : ℕ) (z : ℤ) → Ensures O (λ _. pos_part z ≤ lim) (with_capacity lim z)
  unfolding with_capacity
  with_capacity_sound lim z = elim (Bool-cases (ltb lim (pos_part z))) [
    | inl over ↦ rw over panicked
    | inr fits ↦ rw fits (returned (ground arith))
  ]

  read_word_sound :
      (w half : ℕ) (buf : List ℕ)
      → All IsByte buf
      → half + half ≡ 256 ^ w
      → half ≤ 2 ^ 63
      → 1 ≤ w
      → Ensures O (IsIntAt buf) (read_word w half buf)
  unfolding read_word
  read_word_sound w half buf h e small some_byte = Ensures-bind (need_sound buf (suc w)) λ _ room.
      let word = from_le_bytes (take w (drop 1 buf)) in
      let low : word < half + half = omega (arith, word-lt w buf h room) in
      returned
        (omega arith, room, InRange-le _ half (2 ^ 63) small (to_signed-InRange half word low))

  pub read_int_sound : (buf : List ℕ) → All IsByte buf → Ensures O (IsIntAt buf) (read_int buf)
  unfolding read_int
  read_int_sound [] h = failed
  read_int_sound (tag ∷ rest) h =
      Ensures-if (tag == 3) (λ _. read_word_sound 1 (2 ^ 7) _ h refl (omega arith) (omega arith))
        λ _.
          Ensures-if (tag == 4)
            (λ _. read_word_sound 2 (2 ^ 15) _ h refl (omega arith) (omega arith))
            λ _.
              Ensures-if (tag == 5)
                (λ _. read_word_sound 4 (2 ^ 31) _ h refl (omega arith) (omega arith))
                λ _.
                  Ensures-if (tag == 6)
                    (λ _. read_word_sound 8 (2 ^ 63) _ h refl (omega arith) (omega arith))
                    λ _. failed

  -- The string arm: in bounds, and a string exactly where the bytes are UTF-8.
  pub read_string_sound :
      (buf : List ℕ)
      → IsInput buf
      → Ensures O
          (λ (v, n).
            (1 ≤ n)
            × (n ≤ length buf)
            × ((s : List ℕ) × (v ≡ (if is_utf8 s then string s else bytes s))
                × (length s ≤ length buf)))
          (read_string buf)
  unfolding read_string
  read_string_sound buf (h, few) = Ensures-bind (slice_from_sound buf 1) λ view (room, e).
      Ensures-bind (read_int_sound view (rw e (All-drop IsByte 1 buf h))) λ (len, n) (two, _, _).
        let start = 1 + n in
        let end = add_usize start (as_usize len) in
        Ensures-bind (need_sound buf end) λ _ fits.
          Ensures-bind (slice_sound buf start end) λ s (order, _, es). returned (
            omega arith,
            fits,
            (
              s,
              refl,
              omega (
                arith,
                ap length es,
                length-take (end - start) (drop start buf),
                length-drop start buf,
              ),
            ),
          )
