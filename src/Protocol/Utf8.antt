-- ===== src/Protocol/Utf8.antt =====
-- `std::str::from_utf8` and `String::from_utf8_lossy`, as the standard library documents them: a
-- byte automaton over well-formed UTF-8, and its use to replace each maximal ill-formed piece.
pub mod Lossy
pub mod Valid
use watchwoman.Base.{
  ℕ, zero, suc, ◌≡◌, refl, Bool, true, false, ◌&&◌, Option, none, some, List, [], ◌∷◌, ◌++◌, arith,
  ltb, leb, if◌then◌else◌, Option-cases, inl, inr, ◌∙◌, ap, length, length-append, ◌+◌, ◌*◌, ◌≤◌,
}

-- Between characters, or inside one: the next byte must lie between the bounds, and then so many
-- plain continuation bytes must follow.
pub data Utf8State : Type 0 where
  start : Utf8State
  pending : ℕ → ℕ → ℕ → Utf8State

abbrev between : ℕ → ℕ → ℕ → Bool
between lo hi b = leb lo b && leb b hi

utf8_lead : ℕ → Option Utf8State
utf8_lead b =
    if ltb b 0x80
    then some start
    else if between 0xc2 0xdf b
    then some (pending 0 0x80 0xbf)
    else if between 0xe0 0xe0 b
    then some (pending 1 0xa0 0xbf)
    else if between 0xe1 0xec b
    then some (pending 1 0x80 0xbf)
    else if between 0xed 0xed b
    then some (pending 1 0x80 0x9f)
    else if between 0xee 0xef b
    then some (pending 1 0x80 0xbf)
    else if between 0xf0 0xf0 b
    then some (pending 2 0x90 0xbf)
    else if between 0xf1 0xf3 b
    then some (pending 2 0x80 0xbf)
    else if between 0xf4 0xf4 b
    then some (pending 2 0x80 0x8f)
    else none

utf8_step : Utf8State → ℕ → Option Utf8State
unfolding utf8_lead
utf8_step start b = utf8_lead b
utf8_step (pending zero lo hi) b = if between lo hi b then some start else none
utf8_step (pending (suc n) lo hi) b = if between lo hi b then some (pending n 0x80 0xbf) else none

utf8_run : Utf8State → List ℕ → Option Utf8State
utf8_run s [] = some s
utf8_run s (b ∷ bs) = elim (utf8_step s b) [ none ↦ none | some s' ↦ utf8_run s' bs ]

abbrev accepting : Option Utf8State → Bool
accepting (some start) = true
accepting (some (pending n lo hi)) = false
accepting none = false

-- `str::from_utf8(bytes).is_ok()`.
unfoldable pub is_utf8 : List ℕ → Bool
unfolding utf8_run utf8_step
is_utf8 bs = accepting (utf8_run start bs)

-- U+FFFD.
abbrev replacement : List ℕ
replacement = 0xef ∷ 0xbf ∷ 0xbd ∷ []

-- What one byte adds to the output, and the state after it with the bytes of the character that is
-- being read.
record LossyStep : Type 0 where
  out : List ℕ
  state : Utf8State
  seen : List ℕ

lossy_accept : List ℕ → List ℕ → ℕ → Option Utf8State → LossyStep
lossy_accept out seen b (some start) = record {
  out = out ++ (seen ++ b ∷ []);
  state = start;
  seen = [];
}
lossy_accept out seen b (some (pending n lo hi)) = record {
  out = out;
  state = pending n lo hi;
  seen = seen ++ b ∷ [];
}
lossy_accept out seen b none = record { out = out ++ replacement; state = start; seen = [] }

-- A byte that cannot go on with a character ends the ill-formed piece, and is read again as a lead.
lossy_step : Utf8State → List ℕ → ℕ → LossyStep
unfolding lossy_accept utf8_step
lossy_step start seen b = lossy_accept [] seen b (utf8_lead b)
lossy_step (pending n lo hi) seen b = elim (utf8_step (pending n lo hi) b) [
  | some s ↦ lossy_accept [] seen b (some s)
  | none ↦ lossy_accept replacement [] b (utf8_lead b)
]

lossy_from : Utf8State → List ℕ → List ℕ → List ℕ
lossy_from start seen [] = []
lossy_from (pending n lo hi) seen [] = replacement
lossy_from s seen (b ∷ bs) =
    let step = lossy_step s seen b in step.out ++ lossy_from step.state step.seen bs

-- `String::from_utf8_lossy(bytes).into_owned()`.
unfoldable pub from_utf8_lossy : List ℕ → List ℕ
unfolding lossy_from lossy_step
from_utf8_lossy = lossy_from start []
