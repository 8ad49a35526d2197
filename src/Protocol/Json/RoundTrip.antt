-- ===== src/Protocol/Json/RoundTrip.antt =====
-- A line of JSON reads back as the view of its value.
use watchwoman.Base.{
  ℕ, ◌^◌, ◌≡◌, refl, ap, true, false, some, none, List, [], ◌∷◌, ◌++◌, ◌==◌, nat_eq, list_eq, All,
  append_assoc, Bool-cases, inl, inr,
}
use watchwoman.Base.Int.{ℤ, InRange}
use watchwoman.Protocol.Outcome.{ok}
use watchwoman.Protocol.Value.{Value, IsWellFormed}
use watchwoman.Protocol.Json.{
  Json, SerdeJson, convert, to_serde, number_value, json_number, read_until, pop_newline,
  is_empty_line, read_line, encode_pdu, read_pdu,
}
use watchwoman.Protocol.Json.View.{is_finite, view, AreBack, convert-to_serde}

module _ (serde : SerdeJson) where
  -- What `Number` documents: an i64 is itself again, and a real is one unless it is infinite or a NaN.
  pub record HasNumbers : Type 0 where
    pub as_i64-from_i64 : (i : ℤ) → InRange (2 ^ 63) i → serde.as_i64 (serde.from_i64 i) ≡ some i
    pub from_f64_finite :
        (f : ℕ)
        → is_finite f ≡ true
        → (n : serde.Number) × (serde.from_f64 f ≡ some n)
          × (serde.as_i64 n ≡ none)
          × (serde.as_u64 n ≡ none)
          × (serde.as_f64 n ≡ some f)
    pub from_f64_other : (f : ℕ) → is_finite f ≡ false → serde.from_f64 f ≡ none

  -- A tree is written as a line, with no newline inside, and is parsed from it.
  pub record IsLine (j : Json serde.Number) : Type 0 where
    pub no_newline : All (λ (b : ℕ). (b == b'\n') ≡ false) (serde.to_writer j)
    pub not_empty : is_empty_line (serde.to_writer j) ≡ false
    pub parses : serde.from_slice (serde.to_writer j) ≡ some j

  pub number_value-AreBack : HasNumbers → AreBack serde (number_value serde)
  unfolding number_value convert view
  number_value-AreBack laws = record {
    ints = λ i h. rw (laws.as_i64-from_i64 i h) refl;
    reals = λ f. elim (Bool-cases (is_finite f)) [
      | inl finite ↦
          let (n, made, i, u, back) = laws.from_f64_finite f finite in
          rw (finite, made, i, u, back) refl
      | inr other ↦ rw (other, laws.from_f64_other f other) refl
    ];
  }

  pub json_number-AreBack : HasNumbers → AreBack serde (json_number serde)
  unfolding json_number convert view
  json_number-AreBack laws = record {
    ints = λ i h. rw (laws.as_i64-from_i64 i h) refl;
    reals = λ f. elim (Bool-cases (is_finite f)) [
      | inl finite ↦
          let (n, made, i, u, back) = laws.from_f64_finite f finite in
          rw (finite, made, i, back) refl
      | inr other ↦ rw (other, laws.from_f64_other f other) refl
    ];
  }

pub read_until-append :
    (line rest : List ℕ)
    → All (λ (b : ℕ). (b == b'\n') ≡ false) line
    → read_until b'\n' (line ++ b'\n' ∷ rest) ≡ (line ++ b'\n' ∷ [], rest)
unfolding read_until
read_until-append [] rest none_in = refl
read_until-append (b ∷ line) rest (other, none_in) =
    rw (read_until-append line rest none_in, other) refl

pub pop_newline-append : (line : List ℕ) → pop_newline (line ++ b'\n' ∷ []) ≡ line
unfolding pop_newline
pop_newline-append [] = refl
pop_newline-append (b ∷ []) = refl
pop_newline-append (b ∷ c ∷ line) = ap (◌∷◌ b) (pop_newline-append (c ∷ line))

module _ (serde : SerdeJson) where
  read_pdu-append :
      (line rest : List ℕ)
      → All (λ (b : ℕ). (b == b'\n') ≡ false) line
      → is_empty_line line ≡ false
      → read_pdu serde (line ++ b'\n' ∷ rest) ≡ read_line serde line rest
  unfolding read_pdu
  read_pdu-append [] rest none_in full = cc
  read_pdu-append (b ∷ line) rest none_in full =
      rw (read_until-append (b ∷ line) rest none_in, pop_newline-append (b ∷ line)) refl

  -- A well-formed value whose tree serde_json writes as a line and parses from it is read back,
  -- whatever follows, as its view (byte strings as text, templates as objects, reals that JSON
  -- cannot say as null), and what follows is left.
  pub read_pdu-encode_pdu :
      (lim : ℕ) (v : Value) (rest : List ℕ)
      → HasNumbers serde
      → IsWellFormed lim v
      → IsLine serde (to_serde serde v)
      → read_pdu serde (encode_pdu serde v ++ rest) ≡ ok (some (view v), rest)
  unfolding read_pdu encode_pdu
  read_pdu-encode_pdu lim v rest laws wf line =
      rw
        (
          append_assoc (serde.to_writer (to_serde serde v)) (b'\n' ∷ []) rest,
          read_pdu-append (serde.to_writer (to_serde serde v)) rest line.no_newline line.not_empty,
          line.not_empty,
          line.parses,
          convert-to_serde serde (number_value serde) lim v (number_value-AreBack serde laws) wf,
        )
        refl
