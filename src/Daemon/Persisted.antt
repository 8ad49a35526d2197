-- ===== src/Daemon/Persisted.antt =====
-- crates/watchwoman/src/daemon/root.rs: the triggers that a root writes to disk and reads back. The disk
-- is a map from the paths of its files to their bytes; `Format` is what serde_json makes of the triggers.
pub mod Restart
pub mod Examples
use watchwoman.Base.{
  ℕ, Bool, true, false, ◌&&◌, ◌||◌, not, Option, none, some, List, [], ◌∷◌, ◌++◌, ◌==◌, leb, ltb,
  map, nat_eq, list_eq, if◌then◌else◌,
}
use watchwoman.Base.Map
use watchwoman.Base.Text.{Text, ascii}
use watchwoman.Protocol.Utf8.{from_utf8_lossy}
use watchwoman.Protocol.Json.{Json, SerdeJson, to_serde, json_to_value}
use watchwoman.Daemon.Watch.{Trigger, TriggerStdin, name_per_line, json_name}
use watchwoman.Daemon.Root.{Root}

-- The bytes that begin a character of a String.
abbrev is_start : ℕ → Bool
is_start b = not (leb 128 b && ltb b 192)

abbrev pub is_slug_char : ℕ → Bool
is_slug_char b =
    leb b'0' b && leb b b'9'
    || leb b'A' b && leb b b'Z'
    || leb b'a' b && leb b b'z'
    || b == b'.'
    || b == b'-'
    || b == b'_'

-- The loop over the characters: one that is not kept becomes `_`.
unfoldable pub slug_chars : Text → Text
slug_chars [] = []
slug_chars (b ∷ s) =
    let rest = slug_chars s in
    if not (is_start b) then rest else (if is_slug_char b then b else b'_') ∷ rest

abbrev or_underscore : Text → Text
or_underscore [] = ascii "_"
or_underscore (b ∷ s) = b ∷ s

unfoldable pub path_slug : Text → Text
path_slug p = or_underscore (slug_chars (from_utf8_lossy p))

unfoldable pub trigger_persist_dir : Option Text → Text → Option Text
trigger_persist_dir none path = none
trigger_persist_dir (some state) path = some (state ++ (ascii "/roots/" ++ path_slug path))

abbrev pub stdin_text : TriggerStdin → Text
stdin_text name_per_line = ascii "NAME_PER_LINE"
stdin_text json_name = ascii "json"

abbrev pub stdin_from : Option Text → Option TriggerStdin
stdin_from none = none
stdin_from (some s) =
    if s == ascii "NAME_PER_LINE"
    then some name_per_line
    else if s == ascii "json" || s == ascii "JSON"
    then some json_name
    else none

abbrev pub stdin_texts : Option TriggerStdin → Option Text
stdin_texts none = none
stdin_texts (some s) = some (stdin_text s)

pub record PersistedTrigger (N : Type 0) : Type 0 where
  pub name : Text
  pub command : List Text
  pub expression : Json N
  pub append_files : Bool
  pub stdin : Option Text
  pub max_files_stdin : Option ℕ

abbrev pub values : List (Text × Trigger) → List Trigger
values [] = []
values ((name, t) ∷ triggers) = t ∷ values triggers

module _ (serde : SerdeJson) where
  unfoldable pub from_trigger : Trigger → PersistedTrigger serde.Number
  from_trigger t = record {
    name = t.name;
    command = t.command;
    expression = to_serde serde t.expression;
    append_files = t.append_files;
    stdin = stdin_texts t.stdin;
    max_files_stdin = t.max_files_stdin;
  }

  unfoldable pub into_trigger : PersistedTrigger serde.Number → Trigger
  into_trigger p = record {
    name = p.name;
    command = p.command;
    expression = json_to_value serde p.expression;
    append_files = p.append_files;
    stdin = stdin_from p.stdin;
    max_files_stdin = p.max_files_stdin;
  }

  pub record Format : Type 0 where
    pub to_vec_pretty : List (PersistedTrigger serde.Number) → Option (List ℕ)
    pub from_slice : List ℕ → Option (List (PersistedTrigger serde.Number))

  abbrev pub Disk : Type 0
  Disk = List (Text × List ℕ)

  abbrev pub triggers_json : Text → Text
  triggers_json dir = dir ++ ascii "/triggers.json"

  module _ (format : Format) (state_dir : Option Text) where
    abbrev written : Bool → Text → Option (List ℕ) → Disk → Disk
    written renamed dir none disk = disk
    written renamed dir (some bytes) disk =
        if renamed then Map.insert disk (triggers_json dir) bytes else disk

    -- `created` is whether the directory is there, and `renamed` whether the new file is put in place.
    unfoldable pub persist_triggers : Bool → Bool → Disk → Root → Disk
    persist_triggers created renamed disk r = elim (trigger_persist_dir state_dir r.path) [
      | none ↦ disk
      | some dir ↦
          if not created
          then disk
          else written renamed dir (format.to_vec_pretty (map from_trigger (values r.triggers)))
              disk
    ]

    abbrev parsed_triggers : Option (List (PersistedTrigger serde.Number)) → List Trigger
    parsed_triggers none = []
    parsed_triggers (some items) = map into_trigger items

    abbrev pub read_triggers : Option (List ℕ) → List Trigger
    read_triggers none = []
    read_triggers (some bytes) = parsed_triggers (format.from_slice bytes)

    -- The triggers that a registration of a path finds.
    unfoldable pub load_persisted_triggers : Disk → Text → List Trigger
    load_persisted_triggers disk path = elim (trigger_persist_dir state_dir path) [
      | none ↦ []
      | some dir ↦ read_triggers (Map.get disk (triggers_json dir))
    ]
