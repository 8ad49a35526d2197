-- ===== src/Daemon/Server/Fuel.antt =====
-- Every PDU that the server reads takes a byte at least, so the loop has fuel enough.
use watchwoman.Base.{
  ℕ, zero, suc, ◌+◌, ◌≤◌, ◌≡◌, refl, sym, ◌∙◌, Bool, true, false, not, Option, some, none, List, [],
  ◌∷◌, arith, if◌then◌else◌, length, length-drop, ltb, Bool-cases, inl, inr, nat_eq, ◌==◌,
}
use watchwoman.Protocol.Outcome.{Encoding, json, bser_v1, bser_v2}
use watchwoman.Protocol.Value.{Value}
use watchwoman.Protocol.Bser.Read.{as_usize}
use watchwoman.Protocol.Bser.Pdu.{read_exact, read_word_from}
use watchwoman.Protocol.Bser.Ints.{tag_int8, tag_int16, tag_int32, tag_int64}
use watchwoman.Base.Text.{Text}
use watchwoman.Protocol.Json.{SerdeJson, read_until, pop_newline, is_empty_line}
use watchwoman.Daemon.State.{DaemonState}
use watchwoman.Daemon.Server.{
  Fault, Moment, dispatch_and_send, Reading, got, failed, panicked, overflowed, ◌>>=◌, lift,
  read_bser_int, read_body, read_version, parse_line, next_json, next_bser, is_same, read_pdu,
  connection_loop,
}
use watchwoman.Daemon.Server.Conversation.{connection_loop_end}

-- What is left of a stream is at most so long.
abbrev Leaves : {A : Type 0} → ℕ → Reading (A × List ℕ) → Type 0
Leaves n (got (a, rest)) = length rest ≤ n
Leaves n _ = Unit

Leaves-bind :
    {A B : Type 0} (n m : ℕ) (r : Reading (A × List ℕ)) (f : A × List ℕ → Reading (B × List ℕ))
    → Leaves n r
    → ((a : A) (rest : List ℕ) → length rest ≤ n → Leaves m (f (a, rest)))
    → Leaves m (r >>= f)
Leaves-bind n m (got (a, rest)) f h k = k a rest h
Leaves-bind n m (failed e) f h k = tt
Leaves-bind n m panicked f h k = tt
Leaves-bind n m overflowed f h k = tt

Leaves-le : {A : Type 0} (n m : ℕ) (r : Reading (A × List ℕ)) → n ≤ m → Leaves n r → Leaves m r
Leaves-le n m (got (a, rest)) le h = omega arith
Leaves-le n m (failed e) le h = tt
Leaves-le n m panicked le h = tt
Leaves-le n m overflowed le h = tt

-- A value, and what is left beside it.
value-Leaves :
    {A B : Type 0} (n : ℕ) (r : Reading (A × B)) (rest : List ℕ)
    → length rest ≤ n
    → Leaves n (r >>= λ (value, consumed). got (value, rest))
value-Leaves n (got (value, consumed)) rest h = h
value-Leaves n (failed e) rest h = tt
value-Leaves n panicked rest h = tt
value-Leaves n overflowed rest h = tt

Leaves-if :
    {A : Type 0} (n : ℕ) (b : Bool) (x y : Reading (A × List ℕ))
    → Leaves n x
    → Leaves n y
    → Leaves n (if b then x else y)
Leaves-if n true x y hx hy = hx
Leaves-if n false x y hx hy = hy

read_exact-Leaves : (n : ℕ) (stream : List ℕ) → Leaves (length stream) (lift (read_exact n stream))
unfolding read_exact
read_exact-Leaves n stream = elim (Bool-cases (ltb (length stream) n)) [
  | inl short ↦ rw short tt
  | inr long ↦ rw long (omega (arith, length-drop n stream))
]

read_word_from-Leaves :
    (w half : ℕ) (stream : List ℕ) → Leaves (length stream) (lift (read_word_from w half stream))
unfolding read_word_from read_exact
read_word_from-Leaves w half stream = elim (Bool-cases (ltb (length stream) w)) [
  | inl short ↦ rw short tt
  | inr long ↦ rw long (omega (arith, length-drop w stream))
]

read_bser_int-Leaves : (stream : List ℕ) → Leaves (length stream) (read_bser_int stream)
unfolding read_bser_int
read_bser_int-Leaves [] = tt
read_bser_int-Leaves (tag ∷ rest) =
    let word : (w half : ℕ) → Leaves (suc (length rest)) (lift (read_word_from w half rest)) =
      λ w half. Leaves-le (length rest) _ _ (omega arith) (read_word_from-Leaves w half rest) in
    Leaves-if _ (tag == tag_int8) _ _ (word 1 0x80) (
      Leaves-if _ (tag == tag_int16) _ _ (word 2 0x8000) (
        Leaves-if _ (tag == tag_int32) _ _ (word 4 0x8000_0000)
          (Leaves-if _ (tag == tag_int64) _ _ (word 8 0x8000_0000_0000_0000) tt)))

read_version-Leaves : (stream : List ℕ) → Leaves (length stream) (read_version stream)
unfolding read_version
read_version-Leaves [] = tt
read_version-Leaves (version ∷ rest) = Leaves-if _ (version == 0x01) _ _ (omega arith) (
    Leaves-if _ (version == 0x02) _ _
      (Leaves-bind (length rest) _ (lift (read_exact 4 rest)) _ (read_exact-Leaves 4 rest)
        (λ caps rest' h. omega arith))
      tt)

read_body-Leaves :
    (lim depth : ℕ) (stream : List ℕ) → Leaves (length stream) (read_body lim depth stream)
unfolding read_body
read_body-Leaves lim depth stream =
    Leaves-bind (length stream) _ (read_bser_int stream) _ (read_bser_int-Leaves stream)
      (λ size rest h. Leaves-if _ (ltb lim (as_usize size)) _ _ tt (
        Leaves-bind (length stream) _ (lift (read_exact (as_usize size) rest)) _
          (Leaves-le (length rest) (length stream) _ h (read_exact-Leaves (as_usize size) rest))
          (λ payload rest' h'. value-Leaves (length stream) _ rest' h')))

read_until_shorter :
    (delimiter b : ℕ) (stream : List ℕ)
    → length (read_until delimiter (b ∷ stream)).1 ≤ length stream
unfolding read_until
read_until_shorter delimiter b [] = ground arith
read_until_shorter delimiter b (c ∷ stream) = ground (arith, read_until_shorter delimiter c stream)

line-Leaves :
    {A B : Type 0} (n : ℕ) (f : A → B) (r : Reading A) (rest : List ℕ)
    → length rest ≤ n
    → Leaves n (r >>= λ v. got (f v, rest))
line-Leaves n f (got v) rest h = h
line-Leaves n f (failed e) rest h = tt
line-Leaves n f panicked rest h = tt
line-Leaves n f overflowed rest h = tt

module _ (serde : SerdeJson) (lim depth : ℕ) where
  next_json-Leaves :
      (b : ℕ) (stream : List ℕ) → Leaves (length stream) (next_json serde lim depth (b ∷ stream))
  next_json-Leaves b stream =
      let shorter = read_until_shorter b'\n' b stream in
      Leaves-if _ (is_empty_line (pop_newline (read_until b'\n' (b ∷ stream)).0)) _ _ shorter (
        line-Leaves _ _ (parse_line serde lim depth (pop_newline (read_until b'\n' (b ∷ stream)).0))
          _ shorter)

  next_bser-Leaves :
      (encoding : Encoding) (stream : List ℕ)
      → Leaves (length stream) (next_bser serde lim depth encoding stream)
  next_bser-Leaves encoding stream =
      Leaves-bind (length stream) _ (read_version stream) _ (read_version-Leaves stream)
        (λ actual rest h. Leaves-if _ (not (is_same actual encoding)) _ _ tt (
          Leaves-bind (length stream) _ (read_body lim depth rest) _
            (Leaves-le (length rest) _ _ h (read_body-Leaves lim depth rest))
            (λ value rest' h'. h')))

  read_pdu-Leaves :
      (encoding : Encoding) (b : ℕ) (stream : List ℕ)
      → Leaves (length stream) (read_pdu serde lim depth encoding (b ∷ stream))
  unfolding read_pdu
  read_pdu-Leaves json b stream = next_json-Leaves b stream
  read_pdu-Leaves bser_v1 b stream = Leaves-if _ (b == 0) _ _ (next_bser-Leaves bser_v1 stream) tt
  read_pdu-Leaves bser_v2 b stream = Leaves-if _ (b == 0) _ _ (next_bser-Leaves bser_v2 stream) tt

  module _ (moments : ℕ → Moment) (fault_text : Fault → Text) where
    abbrev Alike : Encoding → ℕ → ℕ → List ℕ → Type 0
    Alike encoding f g stream =
        (n : ℕ) (s : DaemonState)
        → connection_loop serde lim depth moments fault_text f n s encoding stream
          ≡ connection_loop serde lim depth moments fault_text g n s encoding stream

    turns-Alike :
        (f g : ℕ) (encoding : Encoding) (b : ℕ) (stream : List ℕ)
        (r : Reading (Option Value × List ℕ))
        → read_pdu serde lim depth encoding (b ∷ stream) ≡ r
        → Leaves (length stream) r
        → ((rest : List ℕ) → length rest ≤ length stream → Alike encoding f g rest)
        → Alike encoding (suc f) (suc g) (b ∷ stream)
    unfolding connection_loop
    turns-Alike f g encoding b stream (got (none, rest)) e h again n s = rw e refl
    turns-Alike f g encoding b stream (got (some pdu, rest)) e h again n s =
        let s1 = (dispatch_and_send (moments n) ((moments n).before s) pdu).0 in
        rw e (rw (again rest h (n + 1) s1) refl)
    turns-Alike f g encoding b stream (failed fault) e h again n s = rw e refl
    turns-Alike f g encoding b stream panicked e h again n s = rw e refl
    turns-Alike f g encoding b stream overflowed e h again n s = rw e refl

    -- With fuel for every byte of the stream, whatever the bytes are, more fuel does not change what
    -- a connection does.
    pub connection_loop_enough :
        (f g : ℕ) (encoding : Encoding) (stream : List ℕ) (n : ℕ) (s : DaemonState)
        → length stream ≤ f
        → length stream ≤ g
        → connection_loop serde lim depth moments fault_text f n s encoding stream
          ≡ connection_loop serde lim depth moments fault_text g n s encoding stream
    connection_loop_enough f g encoding [] n s hf hg =
        connection_loop_end serde lim depth moments fault_text f n s encoding
        ∙ sym (connection_loop_end serde lim depth moments fault_text g n s encoding)
    connection_loop_enough (suc f) (suc g) encoding (b ∷ stream) n s hf hg =
        turns-Alike f g encoding b stream _ refl (read_pdu-Leaves encoding b stream)
          (λ rest h m t. connection_loop_enough f g encoding rest m t (omega arith) (omega arith)) n
          s
    connection_loop_enough zero g encoding (b ∷ stream) n s hf hg =
        let no_fuel : ⊥ = omega arith in elim no_fuel [ ]
    connection_loop_enough (suc f) zero encoding (b ∷ stream) n s hf hg =
        let no_fuel : ⊥ = omega arith in elim no_fuel [ ]
