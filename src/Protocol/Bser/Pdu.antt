-- ===== src/Protocol/Bser/Pdu.antt =====
-- Framing in bser.rs: `encode_pdu`, `decode_pdu`, and `read_pdu` and `write_pdu` over a byte stream.
use watchwoman.Base.{
  ℕ, ◌+◌, Option, none, some, List, [], ◌∷◌, ◌++◌, ltb, ◌==◌, if◌then◌else◌, length, take, drop,
  nat_eq, list_eq,
}
use watchwoman.Base.Int.{ℤ, pos, to_signed}
use watchwoman.Protocol.Outcome.{
  Outcome, ok, err, panic, Encoding, json, bser_v1, bser_v2, truncated, unexpected_eof, bser,
  encode_with_json, length_mismatch, expected_int_tag, unknown_encoding, ◌>>=◌, ◌>>◌,
}
use watchwoman.Protocol.Value.{Value}
use watchwoman.Protocol.Bser.Ints.{
  tag_int8, tag_int16, tag_int32, tag_int64, to_le_bytes, from_le_bytes, write_int, need, read_int,
}
use watchwoman.Protocol.Bser.Write.{write_value}
use watchwoman.Protocol.Bser.Read.{slice_from, slice, as_usize, add_usize, read_value}

abbrev pub magic_v1 : List ℕ
magic_v1 = 0x00 ∷ 0x01 ∷ []

abbrev pub magic_v2 : List ℕ
magic_v2 = 0x00 ∷ 0x02 ∷ []

abbrev pub frame : List ℕ → List ℕ → List ℕ
frame magic payload = magic ++ (write_int (pos (length payload)) ++ payload)

unfoldable pub encode_pdu : Value → Encoding → Outcome (List ℕ)
encode_pdu value bser_v1 = ok (frame magic_v1 (write_value value))
encode_pdu value bser_v2 = ok (frame (magic_v2 ++ to_le_bytes 4 0) (write_value value))
encode_pdu value json = err (bser encode_with_json)

-- The length of the magic and, in the second version, of the capability bits.
unfoldable pub header_len : List ℕ → Outcome ℕ
header_len (a ∷ b ∷ rest) =
    if a ∷ b ∷ [] == magic_v1
    then ok 2
    else if a ∷ b ∷ [] == magic_v2
    then (need (a ∷ b ∷ rest) 6 >> ok 6)
    else err (unknown_encoding a)
header_len _ = err truncated

unfoldable pub decode_pdu : ℕ → ℕ → List ℕ → Outcome (Value × ℕ)
decode_pdu alloc_limit depth buf = do
  header ← header_len buf
  behind_header ← slice_from buf header
  (payload_len, len_size) ← read_int behind_header
  let payload_start = header + len_size
  let payload_end = add_usize payload_start (as_usize payload_len)
  need buf payload_end
  payload ← slice buf payload_start payload_end
  (value, consumed) ← read_value alloc_limit depth payload
  if consumed == as_usize payload_len
      then ok (value, payload_end)
      else err (bser (length_mismatch payload_len consumed))

-- `read_exact` of `n` bytes, with what the reader holds behind them.
unfoldable pub read_exact : ℕ → List ℕ → Outcome (List ℕ × List ℕ)
read_exact n stream =
    if ltb (length stream) n then err unexpected_eof else ok (take n stream, drop n stream)

unfoldable pub read_word_from : ℕ → ℕ → List ℕ → Outcome (ℤ × List ℕ)
read_word_from w half stream = do
  (raw, rest) ← read_exact w stream
  ok (to_signed half (from_le_bytes raw), rest)

unfoldable pub int_from_tag : List ℕ → List ℕ → Outcome (ℤ × List ℕ)
int_from_tag [] rest = err unexpected_eof
int_from_tag (tag ∷ _) rest =
    if tag == tag_int8
    then read_word_from 1 0x80 rest
    else if tag == tag_int16
    then read_word_from 2 0x8000 rest
    else if tag == tag_int32
    then read_word_from 4 0x8000_0000 rest
    else if tag == tag_int64
    then read_word_from 8 0x8000_0000_0000_0000 rest
    else err (bser (expected_int_tag tag))

unfoldable pub read_int_from : List ℕ → Outcome (ℤ × List ℕ)
read_int_from stream = do (tag, rest) ← read_exact 1 stream; int_from_tag tag rest

unfoldable pub version_of : List ℕ → List ℕ → Outcome (Encoding × List ℕ)
version_of magic rest =
    if magic == magic_v1
    then ok (bser_v1, rest)
    else if magic == magic_v2
    then (read_exact 4 rest >>= λ (caps, rest'). ok (bser_v2, rest'))
    else err (unknown_encoding (first magic))
  where
    first : List ℕ → ℕ
    first [] = 0
    first (b ∷ bs) = b

-- `Ok(None)` where `read_exact` of the magic meets the end; else the value, the encoding and what
-- is left of the stream. `vec![0u8; length]` panics or aborts above what the allocator grants.
unfoldable pub read_pdu : ℕ → ℕ → List ℕ → Outcome (Option (Value × Encoding) × List ℕ)
read_pdu alloc_limit depth stream = if ltb (length stream) 2 then ok (none, []) else do
  (magic, rest) ← read_exact 2 stream
  (version, rest) ← version_of magic rest
  (length', rest) ← read_int_from rest
  if ltb alloc_limit (as_usize length') then panic else do
    (payload, rest) ← read_exact (as_usize length') rest
    (value, consumed) ← read_value alloc_limit depth payload
    ok (some (value, version), rest)

-- What is written to the stream.
unfoldable pub write_pdu : List ℕ → Value → Encoding → Outcome (List ℕ)
write_pdu stream value version = do bytes ← encode_pdu value version; ok (stream ++ bytes)
