-- ===== src/Daemon/Root/Direct.antt =====
-- crates/watchwoman/src/commands/clock.rs and state.rs: what the commands `clock`, `state-enter` and
-- `state-leave` do to the fields of a root themselves.
use watchwoman.Base.{
  not, List, [], ◌∷◌, ◌++◌, ◌==◌, nat_eq, list_eq, contains, filter, if◌then◌else◌,
}
use watchwoman.Base.Text.{Text}
use watchwoman.Daemon.Clock.{bump}
use watchwoman.Daemon.Root.{Root}

unfoldable pub bump_clock : Root → Root
bump_clock r = record r { clock = (bump r.clock).0 }

-- `insert` and `remove` of a HashSet.
abbrev insert_state : List Text → Text → List Text
insert_state states name = if contains states name then states else states ++ name ∷ []

abbrev remove_state : List Text → Text → List Text
remove_state states name = filter (λ s. not (s == name)) states

unfoldable pub assert_state : Root → Text → Root
assert_state r name = record r { asserted_states = insert_state r.asserted_states name }

unfoldable pub retract_state : Root → Text → Root
retract_state r name = record r { asserted_states = remove_state r.asserted_states name }
