-- ===== src/Protocol/Bser/Examples.antt =====
-- Runs of the codec, and its theorems at concrete values.
use watchwoman.Base.{
  ℕ, ◌≡◌, ◌≤◌, ◌<◌, ◌≢◌, refl, true, some, List, [], ◌∷◌, ◌++◌, length, arith, nat_eq, list_eq,
}
use watchwoman.Base.Int.{pos, negsuc}
use watchwoman.Base.Text.{ascii}
use watchwoman.Protocol.Outcome.{ok, panic, stack_overflow, bser_v2}
use watchwoman.Protocol.Utf8.{is_utf8}
use watchwoman.Protocol.Value.{
  Value, null, bool, int, string, array, object, template, no_items, item, no_fields, field,
  no_rows, row, get_field, IsWellFormed,
}
use watchwoman.Protocol.Bser.Ints.{write_int, to_le_bytes, from_le_bytes, read_int, read_word, need}
use watchwoman.Protocol.Bser.Write.{write_value, write_bytes, write_keys}
use watchwoman.Protocol.Bser.Read.{
  read_value, read_tagged, read_array, read_items, read_int_value, read_string, slice, slice_from,
  with_capacity,
}
use watchwoman.Protocol.Bser.Pdu.{frame, magic_v2, encode_pdu, write_pdu, read_pdu}
use watchwoman.Protocol.Bser.Loops.{nesting}
use watchwoman.Protocol.Bser.RoundTrip.{read_value-write_value}
use watchwoman.Protocol.Bser.Stream.{read_pdu-write_pdu}
use watchwoman.Protocol.Bser.Decode.{read_value_sound, read_value-ne-stack_overflow}
use watchwoman.Protocol.Bser.Hostile.{read_value_negative_length}

-- `["v", {"n": -200, "t": a template of two rows, one with a null}]`.
abbrev sample : Value
sample = array (
    item (string (ascii "v")) (
      item
        (object (
          field (ascii "n") (int (negsuc 199)) (
            field (ascii "t")
              (template (ascii "a" ∷ ascii "b" ∷ []) (
                row (item (int (pos 1)) (item null no_items))
                  (row (item (bool true) (item (string (ascii "x")) no_items)) no_rows)))
              no_fields)))
        no_items))

wide : IsWellFormed 100 sample
unfolding IsWellFormed is_utf8 get_field
wide = ground arith

sample-IsWellFormed : IsWellFormed 8 sample
unfolding IsWellFormed is_utf8 get_field
sample-IsWellFormed = ground arith

nesting-sample : nesting sample ≤ 6
unfolding nesting
nesting-sample = omega arith

-- Its encoding as a payload, and as a PDU.
abbrev payload : List ℕ
payload = write_value sample

length-payload : (length payload < 100)
unfolding write_value write_bytes write_keys write_int to_le_bytes
length-payload = omega arith

abbrev pdu : List ℕ
pdu = frame (magic_v2 ++ to_le_bytes 4 0) payload

read_value-write_value_example :
    read_value 8 6 (payload ++ 7 ∷ 9 ∷ []) ≡ ok (sample, length payload)
read_value-write_value_example =
    read_value-write_value 8 6 sample (7 ∷ 9 ∷ []) nesting-sample sample-IsWellFormed

read_pdu-write_pdu_example : read_pdu 100 6 (pdu ++ 7 ∷ []) ≡ ok (some (sample, bser_v2), 7 ∷ [])
read_pdu-write_pdu_example =
    read_pdu-write_pdu 100 6 sample bser_v2 pdu (7 ∷ []) nesting-sample wide
      (omega (arith, length-payload)) (omega (arith, length-payload))
      (unfold write_pdu encode_pdu in refl)

-- An array of a 16-bit integer and a string, and bytes that no writer wrote.
abbrev foreign : List ℕ
foreign = 0x00 ∷ 0x03 ∷ 0x02 ∷ 0x04 ∷ 0x05 ∷ 0x00 ∷ 0x0d ∷ 0x03 ∷ 0x01 ∷ 0x61 ∷ 0xff ∷ []

abbrev foreign_value : Value
foreign_value = array (item (int (pos 5)) (item (string (ascii "a")) no_items))

read_foreign : read_value 8 12 foreign ≡ ok (foreign_value, 10)
unfolding read_value read_tagged read_array read_items read_int_value read_string read_int read_word
    need slice slice_from with_capacity from_le_bytes is_utf8
read_foreign = refl

read_value_sound_example : (1 ≤ 10) × (10 ≤ length foreign) × IsWellFormed 8 foreign_value
read_value_sound_example =
    read_value_sound 8 12 foreign foreign_value 10 (ground arith) read_foreign

read_value-ne-stack_overflow_example : read_value 8 12 foreign ≢ stack_overflow
read_value-ne-stack_overflow_example =
    read_value-ne-stack_overflow 8 12 foreign (ground arith) (omega arith)

read_value_negative_length_example :
    read_value 8 1 (0x02 ∷ (write_int (negsuc 0) ++ 0x61 ∷ [])) ≡ panic
unfolding write_int to_le_bytes
read_value_negative_length_example =
    read_value_negative_length 8 0 0 (0x61 ∷ []) (omega arith) (omega arith)
