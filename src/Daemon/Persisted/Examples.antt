-- ===== src/Daemon/Persisted/Examples.antt =====
-- Two directories that share a slug.
use watchwoman.Base.{◌≡◌, refl, true, false, none, some, [], ◌∷◌, arith, nat_eq, list_eq}
use watchwoman.Base.Map
use watchwoman.Base.Text.{ascii}
use watchwoman.Protocol.Utf8.{from_utf8_lossy}
use watchwoman.Protocol.Value.{string, IsWellFormed}
use watchwoman.Protocol.Utf8.{is_utf8}
use watchwoman.Protocol.Json.Examples.{serde, serde-HasNumbers}
use watchwoman.Daemon.Watch.{Trigger, default_ignores}
use watchwoman.Daemon.Root
use watchwoman.Daemon.Root.{Root}
use watchwoman.Daemon.State.{load_triggers}
use watchwoman.Daemon.Persisted.{
  path_slug, slug_chars, from_trigger, Format, persist_triggers, load_persisted_triggers,
}
use watchwoman.Daemon.Persisted.Restart.{viewed_all, load_triggers-persist}

abbrev make : Trigger
make = record {
  name = ascii "build";
  command = ascii "make" ∷ [];
  expression = string (ascii "true");
  append_files = true;
  stdin = none;
  max_files_stdin = none;
}

abbrev nested : Root
nested = record (Root.new (ascii "/a/b") 1 default_ignores false 1_700_000_000 4242) {
  triggers = (ascii "build", make) ∷ [];
}

abbrev other : Root
other = Root.new (ascii "/a_b") 2 default_ignores false 1_700_000_000 4242

abbrev format : Format serde
format = record {
  to_vec_pretty = λ items. some (ascii "[]");
  from_slice = λ bytes. some (from_trigger serde make ∷ []);
}

-- The triggers of `/a/b` come back at `/a_b`.
load_triggers-persist_example :
    let disk = persist_triggers serde format (some (ascii "/state")) true true [] nested in
    (load_triggers other
      (load_persisted_triggers serde format (some (ascii "/state")) disk (ascii "/a_b"))).triggers
    ≡ viewed_all nested.triggers
unfolding Root.new path_slug slug_chars from_utf8_lossy IsWellFormed is_utf8 Map.get
load_triggers-persist_example =
    load_triggers-persist serde format (ascii "/state") 4096 [] nested other (ascii "/a_b")
      (ascii "[]") serde-HasNumbers ((refl, (refl, omega arith)), tt) (refl, tt) refl refl refl refl
