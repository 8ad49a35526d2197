-- ===== src/Daemon/Clock/Laws.antt =====
-- Clock strings that clients hand back, and the order of ticks.
use watchwoman.Base.{ℕ, ◌+◌, ◌^◌, ◌<◌, ◌≡◌, refl, ◌&&◌, arith, All, ◌==◌, nat_eq, if◌then◌else◌}
use native.Mathlib.Nat.{mod-eq_of_lt}
use watchwoman.Base.Text.{strip_prefix, decimal}
use watchwoman.Base.Decimal.{
  IsDigit, decimal_digits-IsDigit, parse_uint-decimal, split-digits, split-digits_end,
}
use watchwoman.Daemon.Clock.{Clock, bump, encode, full, parse_full, parse, tick_against}

-- The fields are machine integers.
pub record IsClock (c : Clock) : Type 0 where
  pub ticks : c.ticks < 2 ^ 64
  pub root_number : c.root_number < 2 ^ 64
  pub start_time : c.start_time < 2 ^ 64
  pub pid : c.pid < 2 ^ 32

decimal-IsDigit : (n : ℕ) → n < 2 ^ 64 → All IsDigit (decimal n)
decimal-IsDigit n h = decimal_digits-IsDigit 19 n (omega arith)

-- A clock string parses to the four numbers that it was printed from.
pub parse-encode :
    (c : Clock) (t : ℕ)
    → IsClock c
    → t < 2 ^ 64
    → parse (encode c t) ≡ full c.start_time c.pid c.root_number t
unfolding parse encode strip_prefix parse_full
parse-encode c t ok h = rw (
  split-digits (decimal c.start_time) _ (decimal-IsDigit _ ok.start_time),
  split-digits (decimal c.pid) _ (decimal-IsDigit _ (omega arith)),
  split-digits (decimal c.root_number) _ (decimal-IsDigit _ ok.root_number),
  split-digits_end (decimal t) (decimal-IsDigit t h),
  parse_uint-decimal (2 ^ 64) c.start_time ok.start_time ok.start_time,
  parse_uint-decimal (2 ^ 32) c.pid (omega arith) ok.pid,
  parse_uint-decimal (2 ^ 64) c.root_number ok.root_number ok.root_number,
  parse_uint-decimal (2 ^ 64) t h h,
)

-- A clock string that a client hands back counts from its tick if it names this instance of the
-- root (start time, process and root number), and from 0 if it names another, for clocks and
-- ticks within their machine integers.
pub tick_against-parse-encode :
    (c d : Clock) (t : ℕ)
    → IsClock c
    → t < 2 ^ 64
    → tick_against (parse (encode c t)) d ≡ (
        if c.start_time == d.start_time && c.pid == d.pid && c.root_number == d.root_number
        then t
        else 0)
unfolding tick_against
tick_against-parse-encode c d t ok h = rw (parse-encode c t ok h)

-- A bump below the last u64 gives a later tick, which is the clock's from then on, and keeps the
-- identity of the root.
pub bump_lem :
    (c : Clock)
    → c.ticks + 1 < 2 ^ 64
    → ((bump c).1 ≡ c.ticks + 1) × ((bump c).0 ≡ record c { ticks = c.ticks + 1 })
unfolding bump
bump_lem c h = rw (mod-eq_of_lt h) (refl, refl)
