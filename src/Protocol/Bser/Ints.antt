-- ===== src/Protocol/Bser/Ints.antt =====
-- Tags, and the tagged integers of bser.rs: `write_int`, `need` and `read_int`.
use watchwoman.Base.{
  ℕ, zero, suc, ◌+◌, ◌*◌, ◌/◌, ◌%◌, ◌^◌, List, [], ◌∷◌, ltb, ◌==◌, if◌then◌else◌, length, take,
  drop, nat_eq,
}
use watchwoman.Base.Int.{ℤ, in_range, to_unsigned, to_signed}
use watchwoman.Protocol.Outcome.{Outcome, ok, err, truncated, bser, expected_int_tag, ◌>>◌}

abbrev pub tag_array : ℕ
tag_array = 0x00

abbrev pub tag_object : ℕ
tag_object = 0x01

abbrev pub tag_string : ℕ
tag_string = 0x02

abbrev pub tag_int8 : ℕ
tag_int8 = 0x03

abbrev pub tag_int16 : ℕ
tag_int16 = 0x04

abbrev pub tag_int32 : ℕ
tag_int32 = 0x05

abbrev pub tag_int64 : ℕ
tag_int64 = 0x06

abbrev pub tag_real : ℕ
tag_real = 0x07

abbrev pub tag_true : ℕ
tag_true = 0x08

abbrev pub tag_false : ℕ
tag_false = 0x09

abbrev pub tag_null : ℕ
tag_null = 0x0a

abbrev pub tag_template : ℕ
tag_template = 0x0b

abbrev pub tag_skip : ℕ
tag_skip = 0x0c

abbrev pub tag_utf8 : ℕ
tag_utf8 = 0x0d

-- `n.to_le_bytes()` of a word of `w` bytes, and `from_le_bytes`.
unfoldable pub to_le_bytes : ℕ → ℕ → List ℕ
to_le_bytes zero n = []
to_le_bytes (suc w) n = (n % 256) ∷ to_le_bytes w (n / 256)

unfoldable pub from_le_bytes : List ℕ → ℕ
from_le_bytes [] = 0
from_le_bytes (b ∷ bs) = b + 256 * from_le_bytes bs

-- What `write_int` appends.
unfoldable pub write_int : ℤ → List ℕ
write_int n =
    if in_range (2 ^ 7) n
    then tag_int8 ∷ to_le_bytes 1 (to_unsigned (2 ^ 8) n)
    else if in_range (2 ^ 15) n
    then tag_int16 ∷ to_le_bytes 2 (to_unsigned (2 ^ 16) n)
    else if in_range (2 ^ 31) n
    then tag_int32 ∷ to_le_bytes 4 (to_unsigned (2 ^ 32) n)
    else tag_int64 ∷ to_le_bytes 8 (to_unsigned (2 ^ 64) n)

unfoldable pub need : List ℕ → ℕ → Outcome (Unit {0})
need buf size = if ltb (length buf) size then err truncated else ok tt

-- One arm of `read_int`: a word of `w` bytes behind the tag, half = 2 ^ (8 * w - 1).
unfoldable pub read_word : ℕ → ℕ → List ℕ → Outcome (ℤ × ℕ)
read_word w half buf = do
  need buf (suc w)
  ok (to_signed half (from_le_bytes (take w (drop 1 buf))), suc w)

unfoldable pub read_int : List ℕ → Outcome (ℤ × ℕ)
read_int [] = err truncated
read_int (tag ∷ rest) =
    if tag == tag_int8
    then read_word 1 (2 ^ 7) (tag ∷ rest)
    else if tag == tag_int16
    then read_word 2 (2 ^ 15) (tag ∷ rest)
    else if tag == tag_int32
    then read_word 4 (2 ^ 31) (tag ∷ rest)
    else if tag == tag_int64
    then read_word 8 (2 ^ 63) (tag ∷ rest)
    else err (bser (expected_int_tag tag))
