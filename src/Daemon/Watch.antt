-- ===== src/Daemon/Watch.antt =====
-- crates/watchwoman/src/daemon/root.rs: what a root broadcasts, and the subscriptions, triggers and
-- ignore rules that it keeps.
use watchwoman.Base.{ℕ, Bool, Option, List, [], ◌∷◌}
use watchwoman.Base.Text.{Text, FilePath, ascii}
use watchwoman.Protocol.Value.{Value, string, array, object, no_items, item, no_fields, field}

pub record TickEvent : Type 0 where
  pub tick : ℕ
  pub changed : List FilePath

pub record SubscriptionSpec : Type 0 where
  pub name : Text
  pub query : Value

pub data TriggerStdin : Type 0 where
  name_per_line json_name : TriggerStdin

pub record Trigger : Type 0 where
  pub name : Text
  pub command : List Text
  pub expression : Value
  pub append_files : Bool
  pub stdin : Option TriggerStdin
  pub max_files_stdin : Option ℕ

pub record WatchIgnores : Type 0 where
  pub dirs : List Text
  pub vcs : List Text

unfoldable pub default_ignores : WatchIgnores
default_ignores = record { dirs = []; vcs = ascii ".git" ∷ ascii ".hg" ∷ ascii ".svn" ∷ [] }

-- The query that a trigger runs on a tick.
unfoldable pub query_spec : Trigger → Text → Value
query_spec t since_clock = object (
    field (ascii "expression") t.expression (
      field (ascii "fields") (array (item (string (ascii "name")) no_items))
        (field (ascii "since") (string since_clock) no_fields)))
