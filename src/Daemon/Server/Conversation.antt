-- ===== src/Daemon/Server/Conversation.antt =====
-- A client sends PDUs, and is answered one by one.
use watchwoman.Base.{
  ℕ, zero, suc, ◌+◌, ◌≤◌, ◌≡◌, refl, ◌∙◌, some, List, [], ◌∷◌, ◌++◌, map, arith, if◌then◌else◌,
  length, length-append, Bool-cases, inl, inr, nat_eq,
}
use watchwoman.Base.Text.{Text}
use watchwoman.Protocol.Outcome.{ok, Encoding}
use watchwoman.Protocol.Value.{Value}
use watchwoman.Protocol.Json.{SerdeJson}
use watchwoman.Protocol.Json.RoundTrip.{HasNumbers}
use watchwoman.Daemon.State.{DaemonState}
use watchwoman.Daemon.Server.{
  Fault, Moment, dispatch_and_send, got, read_pdu, write_value, connection_loop, handle_connection,
}
use watchwoman.Daemon.Server.Frames.{IsWritable, seen, frames}

module _ (serde : SerdeJson) (lim depth : ℕ) where
  -- The bytes of a client that sends these values in an encoding.
  pub data Sends (encoding : Encoding) : List Value → List ℕ → Type 0 where
    sent_all : Sends encoding [] []
    sent_pdu :
        (v : Value) (vs : List Value) (bytes stream : List ℕ)
        → IsWritable serde lim depth encoding v
        → write_value serde lim depth v encoding ≡ ok bytes
        → Sends encoding vs stream
        → Sends encoding (v ∷ vs) (bytes ++ stream)

  write_value-length :
      (encoding : Encoding) (v : Value) (bytes : List ℕ)
      → HasNumbers serde
      → IsWritable serde lim depth encoding v
      → write_value serde lim depth v encoding ≡ ok bytes
      → 1 ≤ length bytes
  unfolding read_pdu
  write_value-length encoding v [] laws w e =
      let (next, first) = frames serde lim depth encoding v [] [] laws w e in cc
  write_value-length encoding v (b ∷ bytes) laws w e = omega arith

  Sends-length :
      {encoding : Encoding} {vs : List Value} {stream : List ℕ}
      → HasNumbers serde
      → Sends encoding vs stream
      → length vs ≤ length stream
  Sends-length laws sent_all = omega arith
  Sends-length {encoding} laws (sent_pdu v vs bytes stream w e later) = omega (
    arith,
    length-append bytes stream,
    write_value-length encoding v bytes laws w e,
    Sends-length laws later,
  )

  module _ (moments : ℕ → Moment) (fault_text : Fault → Text) where
    -- Each value is dispatched in its turn, as long as the daemon is not shutting down when the turn
    -- comes.
    unfoldable pub answers : ℕ → DaemonState → List Value → DaemonState × List Value
    answers n s [] = ((moments n).before s, [])
    answers n s (v ∷ vs) =
        let s0 = (moments n).before s in
        let (s1, response) = dispatch_and_send (moments n) s0 v in
        let (s2, responses) = answers (n + 1) s1 vs in
        if s0.shutting_down then (s0, []) else (s2, response ∷ responses)

    pub connection_loop_end :
        (fuel n : ℕ) (s : DaemonState) (encoding : Encoding)
        → connection_loop serde lim depth moments fault_text fuel n s encoding []
          ≡ ((moments n).before s, [])
    unfolding connection_loop read_pdu
    connection_loop_end zero n s encoding = refl
    connection_loop_end (suc fuel) n s encoding =
        elim (Bool-cases ((moments n).before s).shutting_down) [
          | inl down ↦ rw down refl
          | inr up ↦ rw up refl
        ]

    -- A turn that reads a PDU.
    connection_turn :
        (fuel n : ℕ) (s : DaemonState) (encoding : Encoding) (stream rest : List ℕ) (pdu : Value)
        → read_pdu serde lim depth encoding stream ≡ got (some pdu, rest)
        → let s0 = (moments n).before s in
          let (s1, response) = dispatch_and_send (moments n) s0 pdu in
          let (s2, responses) =
            connection_loop serde lim depth moments fault_text fuel (n + 1) s1 encoding rest in
          connection_loop serde lim depth moments fault_text (suc fuel) n s encoding stream
          ≡ (if s0.shutting_down then (s0, []) else (s2, response ∷ responses))
    unfolding connection_loop
    connection_turn fuel n s encoding stream rest pdu next = rw next refl

    connection_loop-answers :
        (encoding : Encoding) (fuel n : ℕ) (s : DaemonState) (vs : List Value) (stream : List ℕ)
        → HasNumbers serde
        → Sends encoding vs stream
        → length vs ≤ fuel
        → connection_loop serde lim depth moments fault_text fuel n s encoding stream
          ≡ answers n s (map (seen serde lim depth encoding) vs)
    unfolding answers
    connection_loop-answers encoding fuel n s [] [] laws sent_all enough =
        connection_loop_end fuel n s encoding
    connection_loop-answers encoding zero n s vs stream laws (sent_pdu v vs' bytes later w e rest)
          enough =
        let no_fuel : ⊥ = omega arith in elim no_fuel [ ]
    connection_loop-answers encoding (suc fuel) n s vs stream laws
          (sent_pdu v vs' bytes later w e rest) enough =
        let (next, first) = frames serde lim depth encoding v bytes later laws w e in
        let s0 = (moments n).before s in
        let s1 = (dispatch_and_send (moments n) s0 (seen serde lim depth encoding v)).0 in
        connection_turn fuel n s encoding (bytes ++ later) later _ next
        ∙ rw (connection_loop-answers encoding fuel (n + 1) s1 vs' later laws rest (omega arith))
            refl

    -- A client that sends a first value and more, in any encoding, whatever other tasks do to the
    -- state before the loop looks whether the daemon shuts down and from then until a value is
    -- dispatched, is answered by what the dispatch of the first says and of each later one in its
    -- turn, up to the first turn at which the daemon is shutting down, and the state is the one that
    -- these leave and that the loop last saw; what is dispatched is the value sent in BSER, for
    -- values the codec can carry, and its view in JSON, for values that serde_json writes as a line
    -- without the BSER magic in front and parses from it.
    pub handle_connection-answers :
        (s : DaemonState) (encoding : Encoding) (v : Value) (vs : List Value)
        (bytes stream : List ℕ)
        → HasNumbers serde
        → IsWritable serde lim depth encoding v
        → write_value serde lim depth v encoding ≡ ok bytes
        → Sends encoding vs stream
        → let (s1, response) = dispatch_and_send (moments 0) s (seen serde lim depth encoding v) in
          let (s2, responses) = answers 1 s1 (map (seen serde lim depth encoding) vs) in
          handle_connection serde lim depth moments fault_text s (bytes ++ stream)
          ≡ (s2, (some encoding, response ∷ responses))
    unfolding handle_connection
    handle_connection-answers s encoding v vs bytes stream laws w e rest =
        let (next, first) = frames serde lim depth encoding v bytes stream laws w e in
        let s1 = (dispatch_and_send (moments 0) s (seen serde lim depth encoding v)).0 in
        let enough : length vs ≤ length (bytes ++ stream) =
          omega (arith, length-append bytes stream, Sends-length laws rest) in
        rw (handle_connection, first)
          (rw
            (connection_loop-answers encoding (length (bytes ++ stream)) 1 s1 vs stream laws rest
              enough)
            refl)
