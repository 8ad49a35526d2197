-- ===== src/Daemon/Server/Examples.antt =====
-- A client that asks twice for the daemon's process, in JSON.
use watchwoman.Base.{ℕ, ◌≡◌, refl, some, [], ◌∷◌, ◌++◌, map, arith}
use watchwoman.Base.Text.{Text, ascii}
use watchwoman.Protocol.Outcome.{ok, json}
use watchwoman.Protocol.Json
use watchwoman.Protocol.Json.{to_serde, items_to_serde}
use watchwoman.Protocol.Json.Examples.{
  serde, serde-HasNumbers, command, command-IsLine, command-IsWellFormed,
}
use watchwoman.Commands.Examples.{host, reports, daemon}
use watchwoman.Daemon.State.{DaemonState, request_shutdown}
use watchwoman.Daemon.Server.{
  Moment, Fault, dispatch_and_send, write_value, connection_loop, handle_connection,
}
use watchwoman.Daemon.Server.Frames.{IsPrintable, seen}
use watchwoman.Daemon.Server.Conversation.{
  Sends, sent_all, sent_pdu, answers, handle_connection-answers,
}
use watchwoman.Daemon.Server.Fuel.{connection_loop_enough}

abbrev pub moments : ℕ → Moment
moments n = record { host = host; reports = reports; before = λ s. s; meanwhile = λ s. s }

abbrev pub fault_text : Fault → Text
fault_text e = []

abbrev line : Text
line = ascii "[" ++ (34 ∷ (ascii "get-pid" ++ (34 ∷ ascii "]"))) ++ 10 ∷ []

pub command-IsPrintable : IsPrintable serde 4096 16 command
unfolding to_serde items_to_serde
command-IsPrintable = record {
  well_formed = command-IsWellFormed;
  line = command-IsLine;
  no_magic = refl;
}

command-line : write_value serde 4096 16 command json ≡ ok line
unfolding write_value Json.encode_pdu to_serde items_to_serde
command-line = refl

command-Sends : Sends serde 4096 16 json (command ∷ []) line
command-Sends = sent_pdu command [] line [] command-IsPrintable command-line sent_all

-- Another client shuts the daemon down after the first answer.
abbrev stopping : ℕ → Moment
stopping n = record {
  host = host;
  reports = reports;
  before = λ s. request_shutdown s;
  meanwhile = λ s. s;
}

handle_connection-answers_example :
    let (s1, response) = dispatch_and_send (stopping 0) daemon (seen serde 4096 16 json command) in
    let (s2, responses) =
      answers serde 4096 16 stopping fault_text 1 s1
        (map (seen serde 4096 16 json) (command ∷ [])) in
    handle_connection serde 4096 16 stopping fault_text daemon (line ++ line)
    ≡ (s2, (some json, response ∷ responses))
handle_connection-answers_example =
    handle_connection-answers serde 4096 16 stopping fault_text daemon json command (command ∷ [])
      line line serde-HasNumbers command-IsPrintable command-line command-Sends

-- Then the second PDU is not answered.
stopped : (s : DaemonState) → (answers serde 4096 16 stopping fault_text 1 s (command ∷ [])).1 ≡ []
unfolding answers request_shutdown
stopped s = refl

connection_loop_enough_example :
    connection_loop serde 4096 16 moments fault_text 20 0 daemon json line
    ≡ connection_loop serde 4096 16 moments fault_text 12 0 daemon json line
connection_loop_enough_example =
    connection_loop_enough serde 4096 16 moments fault_text 20 12 json line 0 daemon (omega arith)
      (omega arith)
