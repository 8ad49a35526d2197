-- ===== src/Protocol/Bser/PduRoundTrip.antt =====
-- Framed values read back: `decode_pdu` over a buffer, `read_pdu` over a stream.
use watchwoman.Base.{
  ℕ, ◌+◌, ◌%◌, ◌^◌, ◌≤◌, ◌<◌, ◌≡◌, refl, ◌∙◌, subst, List, [], ◌++◌, arith, length, length-append,
  append_assoc, le→ltb, eq_refl, drop-append_front, append-nil, nat_eq,
}
use native.Mathlib.Nat.{mod-eq_of_lt}
use watchwoman.Base.Int.{ℤ}
use watchwoman.Protocol.Outcome.{ok, Encoding, bser_v1, bser_v2}
use watchwoman.Protocol.Value.{Value, IsWellFormed}
use watchwoman.Protocol.Bser.Ints.{to_le_bytes, write_int, need}
use watchwoman.Protocol.Bser.Write.{write_value}
use watchwoman.Protocol.Bser.IntRoundTrip.{read_int-write_int, length-write_int}
use watchwoman.Protocol.Bser.Read.{read_value}
use watchwoman.Protocol.Bser.Pdu.{header_len, encode_pdu, decode_pdu, magic_v1, magic_v2, frame}
use watchwoman.Protocol.Bser.At.{At, At-append, slice_from-At, slice-At, length-At}
use watchwoman.Protocol.Bser.Leaves.{ok_at}
use watchwoman.Protocol.Bser.Loops.{nesting}
use watchwoman.Protocol.Bser.RoundTrip.{read_value-write_value}

-- Behind a header of which `header_len` knows the length.
decode_framed :
    (lim depth : ℕ) (v : Value) (header rest : List ℕ)
    → let payload = write_value v in
      let buf = header ++ (write_int (ℤ.pos (length payload)) ++ (payload ++ rest)) in
      header_len buf ≡ ok (length header)
      → length header ≤ 6
      → nesting v ≤ depth
      → IsWellFormed lim v
      → length payload < 2 ^ 63
      → decode_pdu lim depth buf
        ≡ ok (v, length header + length (write_int (ℤ.pos (length payload))) + length payload)
unfolding decode_pdu need
decode_framed lim depth v header rest known short deep wf small =
    let payload : List ℕ = write_value v in
    let count : List ℕ = write_int (ℤ.pos (length payload)) in
    let buf : List ℕ = header ++ (count ++ (payload ++ rest)) in
    let at_count : At buf (length header) (count ++ (payload ++ rest)) = (
      omega (arith, length-append header (count ++ (payload ++ rest))),
      drop-append_front header _,
    ) in
    let at_payload : At buf (length header + length count) (payload ++ rest) =
      At-append buf (length header) count (payload ++ rest) at_count in
    let size = length-At buf _ payload rest at_payload in
    let few : length count ≤ 9 = (length-write_int (ℤ.pos (length payload))).1 in
    let whole : length payload % 2 ^ 64 ≡ length payload = mod-eq_of_lt (omega arith) in
    let end : (length header + length count + length payload) % 2 ^ 64
        ≡ length header + length count + length payload =
      mod-eq_of_lt (omega arith) in
    let exact : read_value lim depth payload ≡ ok (v, length payload) =
      subst (λ b. read_value lim depth b ≡ ok (v, length payload)) (append-nil payload)
        (read_value-write_value lim depth v [] deep wf) in
    rw (
      known,
      slice_from-At buf (length header) _ at_count,
      read_int-write_int (ℤ.pos (length payload)) (payload ++ rest) small,
      whole,
      end,
      le→ltb (length buf) (length header + length count + length payload) (omega arith),
      slice-At buf (length header + length count) _ payload rest at_payload refl,
      exact,
      eq_refl (length payload),
    )

header_v2 : List ℕ
header_v2 = magic_v2 ++ to_le_bytes 4 0

header_len_v2 : (x : List ℕ) → header_len (header_v2 ++ x) ≡ ok (length header_v2)
unfolding header_len need header_v2 to_le_bytes
header_len_v2 x = ground arith

decode_frame :
    (lim depth : ℕ) (v : Value) (header rest : List ℕ)
    → let payload = write_value v in
      header_len (header ++ (write_int (ℤ.pos (length payload)) ++ (payload ++ rest)))
        ≡ ok (length header)
      → length header ≤ 6
      → nesting v ≤ depth
      → IsWellFormed lim v
      → length payload < 2 ^ 63
      → decode_pdu lim depth (frame header payload ++ rest) ≡ ok (v, length (frame header payload))
decode_frame lim depth v header rest known short deep wf small =
    let payload : List ℕ = write_value v in
    let count : List ℕ = write_int (ℤ.pos (length payload)) in
    rw (append_assoc header (count ++ payload) rest, append_assoc count payload rest)
      (decode_framed lim depth v header rest known short deep wf small
        ∙ ok_at v
            (omega (arith, length-append header (count ++ payload), length-append count payload)))

-- An encoded PDU of either version, whatever bytes follow it, is decoded to its value, and the
-- bytes consumed are those that were encoded, for a well-formed value whose nesting the stack
-- holds and whose payload is below 2^63 bytes.
pub decode_pdu-encode_pdu :
    (lim depth : ℕ) (v : Value) (version : Encoding) (encoded rest : List ℕ)
    → nesting v ≤ depth
    → IsWellFormed lim v
    → length (write_value v) < 2 ^ 63
    → encode_pdu v version ≡ ok encoded
    → decode_pdu lim depth (encoded ++ rest) ≡ ok (v, length encoded)
unfolding encode_pdu header_v2
decode_pdu-encode_pdu lim depth v Encoding.json encoded rest deep wf small e = cc
decode_pdu-encode_pdu lim depth v bser_v1 encoded rest deep wf small e =
    let same : frame magic_v1 (write_value v) ≡ encoded = cc in
    subst (λ b. decode_pdu lim depth (b ++ rest) ≡ ok (v, length b)) same
      (decode_frame lim depth v magic_v1 rest (unfold header_len in refl) (omega arith) deep wf
        small)
decode_pdu-encode_pdu lim depth v bser_v2 encoded rest deep wf small e =
    let same : frame header_v2 (write_value v) ≡ encoded = cc in
    subst (λ b. decode_pdu lim depth (b ++ rest) ≡ ok (v, length b)) same
      (decode_frame lim depth v header_v2 rest (header_len_v2 _) (unfold to_le_bytes in omega arith)
        deep wf small)
