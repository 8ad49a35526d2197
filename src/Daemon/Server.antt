-- ===== src/Daemon/Server.antt =====
-- crates/watchwoman/src/daemon/server.rs: a client's connection, from the bytes it sends to the PDUs
-- that it is answered with.
pub mod Frames
pub mod Conversation
pub mod Fuel
pub mod Examples
use watchwoman.Base.{
  ℕ, zero, suc, ◌+◌, ◌%◌, ◌^◌, Bool, true, false, not, Option, none, some, List, [], ◌∷◌, ◌++◌, ltb,
  ◌==◌, nat_eq, if◌then◌else◌, length,
}
use watchwoman.Base.Int.{ℤ}
use watchwoman.Base.Text.{Text, ascii}
use watchwoman.Protocol.Outcome.{
  Outcome, ok, err, panic, stack_overflow, ProtocolError, Encoding, json, bser_v1, bser_v2,
}
use watchwoman.Protocol.Value.{Value, null, int, real, string, object, no_fields, field}
use watchwoman.Protocol.Bser.Ints.{tag_int8, tag_int16, tag_int32, tag_int64, to_le_bytes}
use watchwoman.Protocol.Bser.Read.{as_usize}
use watchwoman.Protocol.Bser.Pdu.{magic_v1, decode_pdu, encode_pdu, read_exact, read_word_from}
use watchwoman.Protocol.Json
use watchwoman.Protocol.Json.{
  SerdeJson, Json, json_to_value, read_until, pop_newline, is_empty_line,
}
use watchwoman.Daemon.State.{DaemonState}
use watchwoman.Commands.Outcome.{Host}
use watchwoman.Commands.Dispatch.{Reports, dispatch}

-- The errors of anyhow, one constructor for each place that makes one.
pub data Fault : Type 0 where
  eof_after_magic : Fault
  eof_at_tag : Fault
  expected_magic : ℕ → Fault
  unknown_version : ℕ → Fault
  switched_version : Fault
  expected_tag : ℕ → Fault
  empty_pdu : Fault
  bad_line : Fault
  codec : ProtocolError → Fault

pub data Reading (A : Type 0) : Type 0 where
  got : A → Reading A
  failed : Fault → Reading A
  panicked : Reading A
  overflowed : Reading A

-- The `?` operator, and its use on an error of the codec.
infixl 5 ◌>>=◌
abbrev pub ◌>>=◌ : {A B : Type 0} → Reading A → (A → Reading B) → Reading B
got a >>= f = f a
failed e >>= f = failed e
panicked >>= f = panicked
overflowed >>= f = overflowed

abbrev pub lift : {A : Type 0} → Outcome A → Reading A
lift (ok a) = got a
lift (err e) = failed (codec e)
lift panic = panicked
lift stack_overflow = overflowed

unfoldable pub read_bser_int : List ℕ → Reading (ℤ × List ℕ)
read_bser_int [] = failed eof_at_tag
read_bser_int (tag ∷ rest) =
    if tag == tag_int8
    then lift (read_word_from 1 0x80 rest)
    else if tag == tag_int16
    then lift (read_word_from 2 0x8000 rest)
    else if tag == tag_int32
    then lift (read_word_from 4 0x8000_0000 rest)
    else if tag == tag_int64
    then lift (read_word_from 8 0x8000_0000_0000_0000 rest)
    else failed (expected_tag tag)

-- The header that a payload of `n` bytes is put behind, to be decoded.
unfoldable pub length_header : ℕ → List ℕ
length_header n =
    if ltb n (2 ^ 7)
    then tag_int8 ∷ to_le_bytes 1 (n % 2 ^ 8)
    else if ltb n (2 ^ 15)
    then tag_int16 ∷ to_le_bytes 2 (n % 2 ^ 16)
    else if ltb n (2 ^ 31)
    then tag_int32 ∷ to_le_bytes 4 (n % 2 ^ 32)
    else tag_int64 ∷ to_le_bytes 8 (n % 2 ^ 64)

unfoldable pub bser_decode_value : ℕ → ℕ → List ℕ → Outcome (Value × ℕ)
bser_decode_value alloc_limit depth payload =
    decode_pdu alloc_limit depth (magic_v1 ++ (length_header (length payload) ++ payload))

-- The length, the payload and its value. `vec![0u8; length]` panics or aborts above what the allocator
-- grants.
unfoldable pub read_body : ℕ → ℕ → List ℕ → Reading (Value × List ℕ)
read_body alloc_limit depth stream = do
  (length', rest) ← read_bser_int stream
  if ltb alloc_limit (as_usize length') then panicked else do
    (payload, rest) ← lift (read_exact (as_usize length') rest)
    (value, consumed) ← lift (bser_decode_value alloc_limit depth payload)
    got (value, rest)

-- The byte behind the magic, and the capability bits of the second version.
unfoldable pub read_version : List ℕ → Reading (Encoding × List ℕ)
read_version [] = failed eof_after_magic
read_version (version ∷ rest) =
    if version == 0x01
    then got (bser_v1, rest)
    else if version == 0x02
    then (lift (read_exact 4 rest) >>= λ (caps, rest'). got (bser_v2, rest'))
    else failed (unknown_version version)

abbrev pub is_same : Encoding → Encoding → Bool
is_same json json = true
is_same bser_v1 bser_v1 = true
is_same bser_v2 bser_v2 = true
is_same _ _ = false

abbrev pub error_response : Text → Value
error_response msg = object (field (ascii "error") (string msg) no_fields)

-- `serde` is serde_json, and `alloc_limit` and `depth` are as in the codec.
module _ (serde : SerdeJson) (alloc_limit depth : ℕ) where
  abbrev pub parse_line : List ℕ → Reading Value
  parse_line line = elim (serde.from_slice line) [
    | none ↦ failed bad_line
    | some v ↦ got (json_to_value serde v)
  ]

  -- The first byte is behind the reader, so the rest of the line is put after it.
  abbrev pub first_json : ℕ → List ℕ → Reading (Option (Value × Encoding) × List ℕ)
  first_json first stream =
      let (line, rest) = read_until b'\n' stream in
      let buf = pop_newline (first ∷ line) in
      if is_empty_line buf
      then failed empty_pdu
      else (parse_line buf >>= λ v. got (some (v, json), rest))

  abbrev pub first_bser : List ℕ → Reading (Option (Value × Encoding) × List ℕ)
  first_bser stream = do
    (encoding, rest) ← read_version stream
    (value, rest) ← read_body alloc_limit depth rest
    got (some (value, encoding), rest)

  -- `None` where the client has sent nothing.
  unfoldable pub read_first_pdu : List ℕ → Reading (Option (Value × Encoding) × List ℕ)
  read_first_pdu [] = got (none, [])
  read_first_pdu (first ∷ stream) =
      if first == 0x00 then first_bser stream else first_json first stream

  -- An empty line ends the connection like the end of the stream.
  abbrev pub next_json : List ℕ → Reading (Option Value × List ℕ)
  next_json stream =
      let (line, rest) = read_until b'\n' stream in
      let buf = pop_newline line in
      if is_empty_line buf then got (none, rest) else (parse_line buf >>= λ v. got (some v, rest))

  abbrev pub next_bser : Encoding → List ℕ → Reading (Option Value × List ℕ)
  next_bser encoding stream = do
    (actual, rest) ← read_version stream
    if not (is_same actual encoding)
        then failed switched_version
        else do (value, rest) ← read_body alloc_limit depth rest; got (some value, rest)

  unfoldable pub read_pdu : Encoding → List ℕ → Reading (Option Value × List ℕ)
  read_pdu encoding [] = got (none, [])
  read_pdu json (first ∷ stream) = next_json (first ∷ stream)
  read_pdu encoding (first ∷ stream) =
      if first == 0x00 then next_bser encoding stream else failed (expected_magic first)

  -- What the writer sends for a PDU.
  unfoldable pub write_value : Value → Encoding → Outcome (List ℕ)
  write_value value json = ok (Json.encode_pdu serde value)
  write_value value encoding = encode_pdu value encoding

  abbrev pub sent : Outcome (List ℕ) → List ℕ → List ℕ
  sent (ok bytes) later = bytes ++ later
  sent _ later = []

  -- The writer stops at the first PDU that is not written.
  unfoldable pub writer_loop : List Value → Encoding → List ℕ
  writer_loop [] encoding = []
  writer_loop (value ∷ values) encoding =
      sent (write_value value encoding) (writer_loop values encoding)

-- What a turn of a connection meets: the system, and what other tasks do to the state, before the loop
-- looks whether the daemon shuts down and from then until the PDU is dispatched.
pub record Moment : Type 1 where
  pub host : Host
  pub reports : Reports
  pub before : DaemonState → DaemonState
  pub meanwhile : DaemonState → DaemonState

abbrev pub dispatch_and_send : Moment → DaemonState → Value → DaemonState × Value
dispatch_and_send moment s pdu = dispatch moment.host moment.reports (moment.meanwhile s) pdu

-- `moments n` is what the `n`-th turn meets, the first PDU being that of turn 0, and `fault_text` formats a fault.
module _ (serde : SerdeJson) (alloc_limit depth : ℕ) (moments : ℕ → Moment)
    (fault_text : Fault → Text) where
  abbrev parse_error : Fault → Value
  parse_error e = error_response (ascii "parse error: " ++ fault_text e)

  -- The loop, for a session that stays open: the state that it ends with, and the PDUs that it sends to
  -- the session. It ends when the fuel does.
  unfoldable pub connection_loop :
      ℕ → ℕ → DaemonState → Encoding → List ℕ → DaemonState × List Value
  connection_loop zero n s encoding stream = ((moments n).before s, [])
  connection_loop (suc fuel) n s encoding stream =
      let s0 = (moments n).before s in
      if s0.shutting_down
      then (s0, [])
      else elim (read_pdu serde alloc_limit depth encoding stream) [
        | got (none, rest) ↦ (s0, [])
        | got (some pdu, rest) ↦
            let (s1, response) = dispatch_and_send (moments n) s0 pdu in
            let (s2, responses) = connection_loop fuel (n + 1) s1 encoding rest in
            (s2, response ∷ responses)
        | failed e ↦ (s0, parse_error e ∷ [])
        | panicked ↦ (s0, [])
        | overflowed ↦ (s0, [])
      ]

  -- The state, the encoding that the first PDU settles, and what the session is sent.
  unfoldable pub handle_connection :
      DaemonState → List ℕ → DaemonState × (Option Encoding × List Value)
  handle_connection s stream = elim (read_first_pdu serde alloc_limit depth stream) [
    | got (some (pdu, encoding), rest) ↦
        let (s1, response) = dispatch_and_send (moments 0) s pdu in
        let (s2, responses) = connection_loop (length stream) 1 s1 encoding rest in
        (s2, (some encoding, response ∷ responses))
    | got (none, rest) ↦ (s, (none, []))
    | failed e ↦ (s, (none, []))
    | panicked ↦ (s, (none, []))
    | overflowed ↦ (s, (none, []))
  ]
