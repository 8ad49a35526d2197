-- ===== src/Daemon/Server/Frames.antt =====
-- What the protocol writes, the server reads.
use watchwoman.Base.{
  ℕ, ◌%◌, ◌^◌, ◌≤◌, ◌<◌, ◌≡◌, refl, sym, ap, ◌∙◌, subst, Bool, true, false, some, List, [], ◌∷◌,
  ◌++◌, arith, ◌==◌, if◌then◌else◌, length, append_assoc, All, append-nil, le→ltb, nat_eq,
}
use native.Mathlib.Nat.{mod-eq_of_lt}
use watchwoman.Base.Int.{ℤ}
use watchwoman.Protocol.Outcome.{Outcome, ok, Encoding, json, bser_v1, bser_v2}
use watchwoman.Protocol.Value.{Value, IsWellFormed}
use watchwoman.Protocol.Bser.Ints.{
  tag_int8, tag_int16, tag_int32, tag_int64, to_le_bytes, write_int,
}
use watchwoman.Protocol.Bser.Write.{write_value}
use watchwoman.Protocol.Bser.Pdu.{
  magic_v1, magic_v2, frame, encode_pdu, decode_pdu, read_exact, int_from_tag, read_int_from,
}
use watchwoman.Protocol.Bser.Loops.{nesting}
use watchwoman.Protocol.Bser.PduRoundTrip.{decode_pdu-encode_pdu}
use watchwoman.Protocol.Bser.Stream.{read_exact-append, read_int_from-write_int}
use watchwoman.Protocol.Json
use watchwoman.Protocol.Json.{
  SerdeJson, Json, json_number, json_to_value, to_serde, convert, read_until, pop_newline,
  is_empty_line,
}
use watchwoman.Protocol.Json.View.{view, convert-to_serde}
use watchwoman.Protocol.Json.RoundTrip.{
  HasNumbers, IsLine, json_number-AreBack, read_until-append, pop_newline-append,
}
use watchwoman.Daemon.Server
use watchwoman.Daemon.Server.{
  Reading, got, lift, read_bser_int, length_header, bser_decode_value, read_body, read_version,
  parse_line, read_first_pdu, read_pdu,
}

-- A value that the stack, the machine's sizes and the allocator admit.
pub record IsSendable (alloc_limit depth : ℕ) (v : Value) : Type 0 where
  pub shallow : nesting v ≤ depth
  pub well_formed : IsWellFormed alloc_limit v
  pub small : length (write_value v) < 2 ^ 63
  pub fits : length (write_value v) ≤ alloc_limit

length_header-write_int : (n : ℕ) → length_header n ≡ write_int (ℤ.pos n)
unfolding length_header write_int
length_header-write_int n = refl

lift_ok : {A : Type 0} {m : Outcome A} {r : A} → m ≡ ok r → lift m ≡ got r
lift_ok e = ap lift e

tag_case :
    {A : Type 0} (b : Bool) (x y : Outcome A) (z : Reading A) {r : A}
    → (y ≡ ok r → z ≡ got r)
    → (if b then x else y) ≡ ok r
    → (if b then lift x else z) ≡ got r
tag_case true x y z k e = lift_ok e
tag_case false x y z k e = k e

-- An integer that the codec reads from a stream, the server reads.
tag_first : (tag : ℕ) (rest : List ℕ) → read_int_from (tag ∷ rest) ≡ int_from_tag (tag ∷ []) rest
unfolding read_int_from
tag_first tag rest = rw (read_exact-append 1 (tag ∷ []) rest refl) refl

read_bser_int_lem :
    (stream : List ℕ) (r : ℤ × List ℕ) → read_int_from stream ≡ ok r → read_bser_int stream ≡ got r
unfolding read_bser_int int_from_tag
read_bser_int_lem [] r e = unfold read_int_from read_exact in cc
read_bser_int_lem (tag ∷ rest) r e =
    tag_case (tag == tag_int8) _ _ _
      (tag_case (tag == tag_int16) _ _ _
        (tag_case (tag == tag_int32) _ _ _ (tag_case (tag == tag_int64) _ _ _ (λ wrong. cc))))
      (sym (tag_first tag rest) ∙ e)

bser_decode_value-write_value :
    (lim depth : ℕ) (v : Value)
    → IsSendable lim depth v
    → bser_decode_value lim depth (write_value v) ≡ ok (v, length (frame magic_v1 (write_value v)))
unfolding bser_decode_value
bser_decode_value-write_value lim depth v s =
    rw (length_header-write_int (length (write_value v))) (
      subst (λ b. decode_pdu lim depth b ≡ ok (v, length (frame magic_v1 (write_value v))))
        (append-nil (frame magic_v1 (write_value v)))
        (decode_pdu-encode_pdu lim depth v bser_v1 (frame magic_v1 (write_value v)) [] s.shallow
          s.well_formed s.small (unfold encode_pdu in refl)))

read_body-append :
    (lim depth : ℕ) (v : Value) (rest : List ℕ)
    → IsSendable lim depth v
    → read_body lim depth (write_int (ℤ.pos (length (write_value v))) ++ (write_value v ++ rest))
      ≡ got (v, rest)
unfolding read_body
read_body-append lim depth v rest s =
    let whole : length (write_value v) % 2 ^ 64 ≡ length (write_value v) =
      mod-eq_of_lt (omega (arith, s.small)) in
    rw
      (
        read_bser_int_lem _ _ (
            read_int_from-write_int (ℤ.pos (length (write_value v))) (write_value v ++ rest)
              s.small),
        whole,
        le→ltb lim (length (write_value v)) s.fits,
        read_exact-append (length (write_value v)) (write_value v) rest refl,
        bser_decode_value-write_value lim depth v s,
      )
      refl

-- What stands behind the magic's first byte.
abbrev frame_bser : Encoding → List ℕ → List ℕ
frame_bser bser_v1 body = 1 ∷ body
frame_bser _ body = 2 ∷ 0 ∷ 0 ∷ 0 ∷ 0 ∷ body

abbrev body_of : Value → List ℕ → List ℕ
body_of v rest = write_int (ℤ.pos (length (write_value v))) ++ (write_value v ++ rest)

encode_pdu-body_of :
    (v : Value) (encoding : Encoding) (bytes rest : List ℕ)
    → encode_pdu v encoding ≡ ok bytes
    → bytes ++ rest ≡ 0 ∷ frame_bser encoding (body_of v rest)
unfolding encode_pdu to_le_bytes
encode_pdu-body_of v json bytes rest e = cc
encode_pdu-body_of v bser_v1 bytes rest e =
    let same : frame magic_v1 (write_value v) ≡ bytes = cc in
    subst (λ b. b ++ rest ≡ 0 ∷ 1 ∷ body_of v rest) same
      (ap (λ z. 0 ∷ 1 ∷ z)
        (append_assoc (write_int (ℤ.pos (length (write_value v)))) (write_value v) rest))
encode_pdu-body_of v bser_v2 bytes rest e =
    let same : frame (magic_v2 ++ to_le_bytes 4 0) (write_value v) ≡ bytes = cc in
    subst (λ b. b ++ rest ≡ 0 ∷ 2 ∷ 0 ∷ 0 ∷ 0 ∷ 0 ∷ body_of v rest) same
      (ap (λ z. 0 ∷ 2 ∷ 0 ∷ 0 ∷ 0 ∷ 0 ∷ z)
        (append_assoc (write_int (ℤ.pos (length (write_value v)))) (write_value v) rest))

abbrev IsBser : Encoding → Type 0
IsBser json = ⊥
IsBser _ = Unit

read_version-frame_bser :
    (encoding : Encoding) (body : List ℕ)
    → IsBser encoding
    → read_version (frame_bser encoding body) ≡ got (encoding, body)
unfolding read_version
read_version-frame_bser json body b = elim b [ ]
read_version-frame_bser bser_v1 body b = refl
read_version-frame_bser bser_v2 body b =
    rw (read_exact-append 4 (0 ∷ 0 ∷ 0 ∷ 0 ∷ []) body refl) refl

module _ (serde : SerdeJson) (lim depth : ℕ) where
  abbrev first_is_magic : List ℕ → Bool
  first_is_magic [] = false
  first_is_magic (b ∷ bs) = b == 0

  -- A value that is written as a line of JSON.
  pub record IsPrintable (v : Value) : Type 0 where
    pub well_formed : IsWellFormed lim v
    pub line : IsLine serde (to_serde serde v)
    pub no_magic : first_is_magic (serde.to_writer (to_serde serde v)) ≡ false

  -- What a client can send in an encoding, and what the server has of it.
  abbrev pub IsWritable : Encoding → Value → Type 0
  IsWritable json v = IsPrintable v
  IsWritable _ v = IsSendable lim depth v

  abbrev pub seen : Encoding → Value → Value
  seen json v = view v
  seen _ v = v

  bser_frames :
      (encoding : Encoding) (v : Value) (bytes rest : List ℕ)
      → IsBser encoding
      → IsSendable lim depth v
      → encode_pdu v encoding ≡ ok bytes
      → (read_pdu serde lim depth encoding (bytes ++ rest) ≡ got (some v, rest))
        × (read_first_pdu serde lim depth (bytes ++ rest) ≡ got (some (v, encoding), rest))
  unfolding read_pdu read_first_pdu
  bser_frames json v bytes rest b s e = elim b [ ]
  bser_frames bser_v1 v bytes rest b s e =
      rw
        (
          encode_pdu-body_of v bser_v1 bytes rest e,
          read_version-frame_bser bser_v1 (body_of v rest) tt,
          read_body-append lim depth v rest s,
        )
        (refl, refl)
  bser_frames bser_v2 v bytes rest b s e =
      rw
        (
          encode_pdu-body_of v bser_v2 bytes rest e,
          read_version-frame_bser bser_v2 (body_of v rest) tt,
          read_body-append lim depth v rest s,
        )
        (refl, refl)

  parse_line_lem :
      (line : List ℕ) (j : Json serde.Number)
      → serde.from_slice line ≡ some j
      → parse_line serde lim depth line ≡ got (json_to_value serde j)
  parse_line_lem line j parses = rw (parse_line, parses) refl

  json_line :
      (line rest : List ℕ) (j : Json serde.Number)
      → All (λ (b : ℕ). (b == b'\n') ≡ false) line
      → is_empty_line line ≡ false
      → first_is_magic line ≡ false
      → serde.from_slice line ≡ some j
      → (read_pdu serde lim depth json ((line ++ b'\n' ∷ []) ++ rest)
          ≡ got (some (json_to_value serde j), rest))
        × (read_first_pdu serde lim depth ((line ++ b'\n' ∷ []) ++ rest)
            ≡ got (some (json_to_value serde j, json), rest))
  unfolding read_pdu read_first_pdu
  json_line [] rest j all_in full other parses = cc
  json_line (b ∷ line) rest j (here, none_in) full other parses =
      rw
        (
          append_assoc line (b'\n' ∷ []) rest,
          read_until-append (b ∷ line) rest (here, none_in),
          read_until-append line rest none_in,
          pop_newline-append (b ∷ line),
          other,
          parse_line_lem (b ∷ line) j parses,
        )
        (refl, refl)

  -- What is written in an encoding is read in it, and tells it if it comes first.
  pub frames :
      (encoding : Encoding) (v : Value) (bytes rest : List ℕ)
      → HasNumbers serde
      → IsWritable encoding v
      → Server.write_value serde lim depth v encoding ≡ ok bytes
      → (read_pdu serde lim depth encoding (bytes ++ rest) ≡ got (some (seen encoding v), rest))
        × (read_first_pdu serde lim depth (bytes ++ rest)
            ≡ got (some (seen encoding v, encoding), rest))
  unfolding Server.write_value Json.encode_pdu
  frames bser_v1 v bytes rest laws s e = bser_frames bser_v1 v bytes rest tt s e
  frames bser_v2 v bytes rest laws s e = bser_frames bser_v2 v bytes rest tt s e
  frames json v bytes rest laws s e =
      let same : serde.to_writer (to_serde serde v) ++ b'\n' ∷ [] ≡ bytes = cc in
      let back =
        convert-to_serde serde (json_number serde) lim v (json_number-AreBack serde laws)
          s.well_formed in
      subst
        (λ z.
          (read_pdu serde lim depth json (z ++ rest) ≡ got (some (view v), rest))
          × (read_first_pdu serde lim depth (z ++ rest) ≡ got (some (view v, json), rest)))
        same
        (rw (← back) (
          json_line (serde.to_writer (to_serde serde v)) rest (to_serde serde v) s.line.no_newline
            s.line.not_empty s.no_magic s.line.parses))
