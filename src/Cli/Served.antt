-- ===== src/Cli/Served.antt =====
-- What the daemon makes of a command line, and the client of the daemon's answer.
use watchwoman.Base.{
  ℕ, ◌≡◌, refl, sym, ap, ◌∙◌, some, [], ◌∷◌, arith, is_some, ◌||◌, nat_eq, list_eq, if◌then◌else◌,
  append-nil, Bool-cases, inl, inr,
}
use watchwoman.Base.Text.{Text, ascii}
use watchwoman.Protocol.Outcome.{ok, json}
use watchwoman.Protocol.Value.{
  Value, Fields, no_fields, field, string, array, object, null, bool, int, real, bytes, template,
  get_field, insert_field, IsWellFormed,
}
use watchwoman.Protocol.Fields.{get_field-insert_field}
use watchwoman.Protocol.Json.{SerdeJson, to_serde}
use watchwoman.Protocol.Json.View.{view, view_fields, is_finite}
use watchwoman.Protocol.Json.RoundTrip.{HasNumbers, IsLine, read_pdu-encode_pdu}
use watchwoman.Daemon.State.{DaemonState}
use watchwoman.Daemon.Server.{
  Moment, Fault, write_value, writer_loop, dispatch_and_send, handle_connection,
}
use watchwoman.Daemon.Server.Frames.{IsPrintable}
use watchwoman.Daemon.Server.Conversation.{answers, sent_all, handle_connection-answers}
use watchwoman.Cli.{err_present, exit_code, request, send_and_print}

-- A line of JSON keeps the keys of an object.
view_fields-keys :
    (o m : Fields) (k : Text)
    → is_some (get_field (view_fields m o) k) ≡ (is_some (get_field m k) || is_some (get_field o k))
unfolding view_fields get_field
view_fields-keys no_fields m k = ground arith
view_fields-keys (field j v o) m k =
    ground (
      arith,
      view_fields-keys o (insert_field m j (view v)) k,
      get_field-insert_field m j k (view v),
    )

err_present-view : (v : Value) → err_present (view v) ≡ err_present v
unfolding err_present view get_field
err_present-view (object o) = view_fields-keys o no_fields (ascii "error")
err_present-view (real f) = elim (Bool-cases (is_finite f)) [
  | inl finite ↦ rw (view, finite) refl
  | inr other ↦ rw (view, other) refl
]
err_present-view null = refl
err_present-view (bool b) = refl
err_present-view (int i) = refl
err_present-view (string s) = refl
err_present-view (bytes b) = refl
err_present-view (array a) = refl
err_present-view (template keys rows) = refl

module _ (serde : SerdeJson) (lim depth : ℕ) (moments : ℕ → Moment)
    (fault_text : Fault → Text) where
  written : (v : Value) → write_value serde lim depth v json ≡ ok (request serde v)
  unfolding write_value
  written v = refl

  connection_one :
      (s : DaemonState) (v : Value)
      → HasNumbers serde
      → IsPrintable serde lim depth v
      → handle_connection serde lim depth moments fault_text s (request serde v) ≡ (
        (moments 1).before (dispatch_and_send (moments 0) s (view v)).0,
        (some json, (dispatch_and_send (moments 0) s (view v)).1 ∷ []),
      )
  unfolding answers
  connection_one s v laws sendable =
      ap (handle_connection serde lim depth moments fault_text s)
        (sym (append-nil (request serde v)))
      ∙ handle_connection-answers serde lim depth moments fault_text s json v [] (request serde v)
          [] laws sendable (written v) sent_all

  -- A client that sends a PDU in JSON, if serde_json parses what it writes of the PDU and of the
  -- response, leaves the daemon in the state that the dispatch of the PDU's view leaves, with what
  -- other tasks have done to it when the connection looks for more, and exits with 1 exactly if
  -- the response has an error, and with 0 otherwise.
  pub send_and_print-dispatch :
      (s : DaemonState) (v : Value)
      → HasNumbers serde
      → IsPrintable serde lim depth v
      → let (s1, response) = dispatch_and_send (moments 0) s (view v) in
        IsWellFormed lim response
        → IsLine serde (to_serde serde response)
        → let (s2, (encoding, responses)) =
            handle_connection serde lim depth moments fault_text s (request serde v) in
          (s2 ≡ (moments 1).before s1)
          × (send_and_print serde (writer_loop serde lim depth responses json)
              ≡ some (exit_code response))
  unfolding send_and_print writer_loop write_value
  send_and_print-dispatch s v laws sendable wf line =
      let response = (dispatch_and_send (moments 0) s (view v)).1 in
      let back = read_pdu-encode_pdu serde lim response [] laws wf line in
      rw (connection_one s v laws sendable)
        (refl, rw back (ap (λ b. some (if b then 1 else 0)) (err_present-view response)))
