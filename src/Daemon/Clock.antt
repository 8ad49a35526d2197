-- ===== src/Daemon/Clock.antt =====
-- crates/watchwoman/src/daemon/clock.rs: the tick counter of a root and the clock specs of clients.
pub mod Laws
use watchwoman.Base.{
  ℕ, ◌+◌, ◌%◌, ◌^◌, Bool, true, false, ◌&&◌, ◌||◌, Option, none, some, List, [], ◌∷◌, ◌++◌, ◌==◌,
  nat_eq, list_eq, if◌then◌else◌,
}
use watchwoman.Base.Text.{Text, ascii, strip_prefix, split, split_once, parse_uint, decimal}

-- u64 and u32 fields; `ticks` is the atomic counter.
pub record Clock : Type 0 where
  pub ticks : ℕ
  pub root_number : ℕ
  pub start_time : ℕ
  pub pid : ℕ

-- `Clock::new`, with the seconds since the epoch and the process id that it asks for.
unfoldable pub new : ℕ → ℕ → ℕ → Clock
new root_number now process_id = record {
  ticks = 1;
  root_number = root_number;
  start_time = now;
  pid = process_id;
}

abbrev pub current_tick : Clock → ℕ
current_tick c = c.ticks

-- The new clock and the new tick; a u64 wraps.
unfoldable pub bump : Clock → Clock × ℕ
bump c = let tick = (c.ticks + 1) % 2 ^ 64 in (record c { ticks = tick }, tick)

unfoldable pub encode : Clock → ℕ → Text
encode c tick =
    ascii "c:"
    ++ (decimal c.start_time
        ++ b':' ∷ (decimal c.pid ++ b':' ∷ (decimal c.root_number ++ b':' ∷ decimal tick)))

unfoldable pub current_string : Clock → Text
current_string c = encode c (current_tick c)

pub data ScmVcs : Type 0 where
  git hg : ScmVcs

pub data ClockSpec : Type 0 where
  epoch : ClockSpec
  tick : ℕ → ClockSpec
  named : Text → ClockSpec
  full : ℕ → ℕ → ℕ → ℕ → ClockSpec
  scm : ScmVcs → Text → ClockSpec

abbrev full_of : Option ℕ → Option ℕ → Option ℕ → Option ℕ → ClockSpec
full_of (some start_time) (some pid) (some root_number) (some t) = full start_time pid root_number t
full_of _ _ _ _ = epoch

-- The four pieces behind `c:`.
unfoldable pub parse_full : List Text → ClockSpec
parse_full (a ∷ b ∷ c ∷ d ∷ []) =
    full_of (parse_uint (2 ^ 64) a) (parse_uint (2 ^ 32) b) (parse_uint (2 ^ 64) c)
      (parse_uint (2 ^ 64) d)
parse_full _ = epoch

abbrev parts_or : Text → Option (Text × Text) → Text × Text
parts_or rest none = (rest, [])
parts_or rest (some parts) = parts

unfoldable pub parse_scm : Text → ClockSpec
parse_scm rest =
    let (vcs, mergebase) = parts_or rest (split_once b':' rest) in
    if vcs == ascii "git"
    then scm git mergebase
    else if vcs == ascii "hg" || vcs == ascii "sapling" || vcs == ascii "sl"
    then scm hg mergebase
    else epoch

unfoldable pub parse_bare : Text → ClockSpec
parse_bare s = elim (parse_uint (2 ^ 64) s) [ none ↦ epoch | some n ↦ tick n ]

unfoldable pub parse : Text → ClockSpec
parse s = elim (strip_prefix (ascii "c:") s) [
  | some rest ↦ parse_full (split b':' rest)
  | none ↦ elim (strip_prefix (ascii "n:") s) [
    | some name ↦ named name
    | none ↦ elim (strip_prefix (ascii "scm:") s) [
      | some rest ↦ parse_scm rest
      | none ↦ parse_bare s
    ]
  ]
]

-- A spec of another instance of the root counts from 0.
unfoldable pub tick_against : ClockSpec → Clock → ℕ
tick_against epoch c = 0
tick_against (named name) c = 0
tick_against (scm vcs mergebase) c = 0
tick_against (tick t) c = t
tick_against (full start_time pid root_number t) c =
    if start_time == c.start_time && pid == c.pid && root_number == c.root_number then t else 0
