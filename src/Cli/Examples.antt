-- ===== src/Cli/Examples.antt =====
-- A client that asks for the daemon's process.
use watchwoman.Base.{
  ℕ, ◌≡◌, refl, true, Option, none, some, List, [], ◌∷◌, ◌==◌, nat_eq, list_eq, if◌then◌else◌,
  arith,
}
use watchwoman.Base.Text.{ascii}
use watchwoman.Protocol.Outcome.{json}
use watchwoman.Base.Int.{pos}
use watchwoman.Base.Text.{Text}
use watchwoman.Protocol.Value.{
  Value, int, string, object, no_fields, field, get_field, insert_field, IsWellFormed, AreFields,
}
use watchwoman.Protocol.Utf8.{is_utf8}
use watchwoman.Base.Map
use watchwoman.Protocol.Json.{
  Json, SerdeJson, j_string, j_number, j_object, no_entries, entry, to_serde, items_to_serde,
  fields_to_serde, insert_entry,
}
use watchwoman.Protocol.Json.RoundTrip.{HasNumbers, IsLine}
use watchwoman.Query.Run.{watchman_compat_version}
use watchwoman.Daemon.Server.Frames.{IsPrintable}
use watchwoman.Protocol.Json.View.{view}
use watchwoman.Protocol.Json.Examples.{
  Number, whole, serde, serde-HasNumbers, command, command-IsWellFormed,
}
use watchwoman.Commands.Info
use watchwoman.Commands.Dispatch.{dispatch, dispatch_inner, dispatch_array, commands, with_version}
use watchwoman.Commands.Examples.{host, reports, daemon}
use watchwoman.Daemon.Server.{writer_loop, dispatch_and_send, handle_connection}
use watchwoman.Daemon.Server.Examples.{moments, fault_text}
use watchwoman.Cli
use watchwoman.Cli.{
  System, get_pid, version, route, pdu, build_pdu, request, send_and_print, exit_code,
}
use watchwoman.Cli.Table.{is_sent, is_sent-route}
use watchwoman.Cli.Served.{send_and_print-dispatch}

abbrev system : System
system = record { canonicalize = λ path. none; current_dir = ascii "/repo" }

build_pdu-get_pid : build_pdu serde system get_pid ≡ pdu command
unfolding build_pdu
build_pdu-get_pid = refl

is_sent-route_example :
    is_sent host reports serde system (route Cli.bser (version (ascii "glob" ∷ []) [])) ≡ true
is_sent-route_example =
    is_sent-route host reports serde system Cli.bser (version (ascii "glob" ∷ []) [])

abbrev answer : Json Number
answer = j_object (
    entry (ascii "version") (j_string watchman_compat_version)
      (entry (ascii "pid") (j_number (whole (pos 4242))) no_entries))

-- A serde_json that has one object.
abbrev print : Json Number → Text
print (j_object o) = ascii "{}"
print j = serde.to_writer j

abbrev parse : List ℕ → Option (Json Number)
parse line = if line == ascii "{}" then some answer else serde.from_slice line

abbrev talker : SerdeJson
talker = record serde { from_slice = parse; to_writer = print }

talker-HasNumbers : HasNumbers talker
talker-HasNumbers = record {
  as_i64-from_i64 = serde-HasNumbers.as_i64-from_i64;
  from_f64_finite = serde-HasNumbers.from_f64_finite;
  from_f64_other = serde-HasNumbers.from_f64_other;
}

command-IsPrintable : IsPrintable talker 4096 16 command
unfolding to_serde items_to_serde
command-IsPrintable = record {
  well_formed = command-IsWellFormed;
  line = record {
    no_newline =
        (refl, (refl, (refl, (refl, (refl, (refl, (refl, (refl, (refl, (refl, (refl, tt)))))))))));
    not_empty = refl;
    parses = refl;
  };
  no_magic = refl;
}

abbrev response : Value
response = object (
    field (ascii "version") (string watchman_compat_version)
      (field (ascii "pid") (int (pos 4242)) no_fields))

response_lem : (dispatch_and_send (moments 0) daemon (view command)).1 ≡ response
unfolding dispatch dispatch_inner dispatch_array commands with_version Map.get view get_field
    Info.get_pid insert_field
response_lem = refl

response-IsWellFormed : IsWellFormed 4096 response
unfolding IsWellFormed AreFields is_utf8 get_field
response-IsWellFormed = (
  (omega arith, omega arith),
  ((refl, omega arith), refl, (refl, omega arith), ((refl, omega arith), refl, omega arith, tt)),
)

response-IsLine : IsLine talker (to_serde talker response)
unfolding to_serde fields_to_serde insert_entry
response-IsLine = record { no_newline = (refl, (refl, tt)); not_empty = refl; parses = refl }

send_and_print-dispatch_example :
    let (s1, response) = dispatch_and_send (moments 0) daemon (view command) in
    let (s2, (encoding, responses)) =
      handle_connection talker 4096 16 moments fault_text daemon (request talker command) in
    (s2 ≡ s1)
    × (send_and_print talker (writer_loop talker 4096 16 responses json)
        ≡ some (exit_code response))
send_and_print-dispatch_example =
    send_and_print-dispatch talker 4096 16 moments fault_text daemon command talker-HasNumbers
      command-IsPrintable (rw response_lem response-IsWellFormed) (rw response_lem response-IsLine)
