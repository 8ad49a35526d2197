-- ===== src/Commands/Triggers/RoundTrip.antt =====
-- What `trigger-list` answers installs the same triggers again.
use watchwoman.Base.{
  ℕ, Bool, Option, ◌^◌, ◌<◌, ◌%◌, ◌≡◌, refl, ap, List, [], ◌∷◌, arith, some, none,
}
use watchwoman.Base.Int.{pos_part, to_signed}
use watchwoman.Base.Text.{Text}
use watchwoman.Protocol.Value.{Value, insert_field, get_field}
use watchwoman.Daemon.Watch.{Trigger, TriggerStdin, name_per_line, json_name}
use watchwoman.Commands.Outcome.{done}
use watchwoman.Commands.Triggers.{parse_trigger, trigger_to_value, command_items, command_strings}

abbrev IsSmall : Option ℕ → Type 0
IsSmall none = Unit
IsSmall (some n) = n < 2 ^ 63

command_strings-command_items : (ss : List Text) → command_strings (command_items ss) ≡ ss
command_strings-command_items [] = refl
command_strings-command_items (s ∷ ss) =
    ap (λ (t : List Text). s ∷ t) (command_strings-command_items ss)

kept : (n : ℕ) → n < 2 ^ 63 → pos_part (to_signed (2 ^ 63) (n % 2 ^ 64)) ≡ n
kept n h = ground arith

parse_fields :
    (name : Text) (command : List Text) (expression : Value) (append_files : Bool)
    (stdin : Option TriggerStdin) (max : Option ℕ)
    → IsSmall max
    → let t : Trigger = record {
      name = name;
      command = command;
      expression = expression;
      append_files = append_files;
      stdin = stdin;
      max_files_stdin = max;
    } in
      parse_trigger (trigger_to_value t) ≡ done t
unfolding parse_trigger trigger_to_value get_field insert_field
parse_fields name command expression append_files none none h =
    rw (command_strings-command_items command) refl
parse_fields name command expression append_files (some name_per_line) none h =
    rw (command_strings-command_items command) refl
parse_fields name command expression append_files (some json_name) none h =
    rw (command_strings-command_items command) refl
parse_fields name command expression append_files none (some n) h =
    rw (command_strings-command_items command, kept n h) refl
parse_fields name command expression append_files (some name_per_line) (some n) h =
    rw (command_strings-command_items command, kept n h) refl
parse_fields name command expression append_files (some json_name) (some n) h =
    rw (command_strings-command_items command, kept n h) refl

-- What a trigger is listed as parses to the same trigger, if its limit of files is below 2^63.
pub parse_trigger-trigger_to_value :
    (t : Trigger) → IsSmall t.max_files_stdin → parse_trigger (trigger_to_value t) ≡ done t
parse_trigger-trigger_to_value t h =
    parse_fields t.name t.command t.expression t.append_files t.stdin t.max_files_stdin h
