-- ===== src/Daemon/Watcher/Config.antt =====
-- crates/watchwoman/src/daemon/watcher.rs: what the configuration of a directory says. serde_json parses
-- the file; the directory is asked for its file and for a `.jj` in it.
use watchwoman.Base.{
  ℕ, Bool, Option, none, some, List, [], ◌∷◌, ◌==◌, nat_eq, list_eq, if◌then◌else◌,
}
use watchwoman.Base.Text.{Text, ascii}
use watchwoman.Protocol.Json.{
  Json, JsonItems, JsonFields, SerdeJson, j_string, j_array, j_object, no_elements, element,
  no_entries, entry,
}
use watchwoman.Daemon.Watch.{WatchIgnores, default_ignores}

pub record WatchConfig : Type 0 where
  pub ignores : WatchIgnores
  pub jj_events : Bool

-- `Map::get`.
unfoldable pub get_entry : {N : Type 0} → JsonFields N → Text → Option (Json N)
get_entry no_entries k = none
get_entry (entry j v m) k = let rest = get_entry m k in if j == k then some v else rest

abbrev pub json_get : {N : Type 0} → Json N → Text → Option (Json N)
json_get (j_object fields) key = get_entry fields key
json_get _ key = none

abbrev pub string_items : {N : Type 0} → JsonItems N → List Text
string_items no_elements = []
string_items (element (j_string s) items) = s ∷ string_items items
string_items (element _ items) = string_items items

-- The strings of a list, or the rules from before where there is no list.
abbrev pub strings_or : {N : Type 0} → List Text → Option (Json N) → List Text
strings_or before none = before
strings_or before (some (j_array items)) = string_items items
strings_or before (some _) = before

abbrev pub ignores_of : {N : Type 0} → Option (Json N) → WatchIgnores
ignores_of none = default_ignores
ignores_of (some parsed) = record {
  dirs = strings_or default_ignores.dirs (json_get parsed (ascii "ignore_dirs"));
  vcs = strings_or default_ignores.vcs (json_get parsed (ascii "ignore_vcs"));
}

module _ (serde : SerdeJson) where
  abbrev parsed_config : Option (List ℕ) → Option (Json serde.Number)
  parsed_config none = none
  parsed_config (some bytes) = serde.from_slice bytes

  -- `is_jj` is whether `.jj` is a directory, and `bytes` the `.watchmanconfig` if it can be read.
  unfoldable pub load_watchman_config : Bool → Option (List ℕ) → WatchConfig
  load_watchman_config is_jj bytes = record {
    ignores = ignores_of (parsed_config bytes);
    jj_events = is_jj;
  }
