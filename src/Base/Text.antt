-- ===== src/Base/Text.antt =====
-- Text as its bytes, paths as their components, and the functions of `str` that the daemon calls.
use Prim.Native.Char.{code}
use Prim.Native.String.{String}
use watchwoman.Base.{
  ℕ, zero, suc, ◌+◌, ◌-◌, ◌*◌, ◌/◌, ◌%◌, ◌&&◌, Option, none, some, List, [], ◌∷◌, ◌++◌, map, ltb,
  leb, ◌==◌, nat_eq, if◌then◌else◌,
}

-- A Rust `String` or `OsStr` is the list of its bytes.
abbrev pub Text : Type 0
Text = List ℕ

-- The bytes of an ASCII literal.
abbrev pub ascii : String → Text
ascii String.[] = []
ascii (String.◌∷◌ c s) = code c ∷ ascii s

-- A relative path is the list of its components: `Path` compares by components.
abbrev pub FilePath : Type 0
FilePath = List Text

-- `s.strip_prefix(p)`; `s.starts_with(p)` is whether it succeeds.
unfoldable pub strip_prefix : Text → Text → Option Text
strip_prefix [] s = some s
strip_prefix (p ∷ ps) [] = none
strip_prefix (p ∷ ps) (c ∷ s) = let rest = strip_prefix ps s in if p == c then rest else none

abbrev first_piece : ℕ → List Text → List Text
first_piece c [] = (c ∷ []) ∷ []
first_piece c (w ∷ ws) = (c ∷ w) ∷ ws

-- `s.split(sep)`.
unfoldable pub split : ℕ → Text → List Text
split sep [] = [] ∷ []
split sep (c ∷ s) = let rest = split sep s in if c == sep then [] ∷ rest else first_piece c rest

-- `s.split_once(sep)`.
unfoldable pub split_once : ℕ → Text → Option (Text × Text)
split_once sep [] = none
split_once sep (c ∷ s) =
    let rest = split_once sep s in
    if c == sep then some ([], s) else elim rest [ none ↦ none | some (a, b) ↦ some (c ∷ a, b) ]

-- The digit loop of `str::parse` for an unsigned integer below `modulus`.
unfoldable pub parse_digits : ℕ → ℕ → Text → Option ℕ
parse_digits modulus acc [] = some acc
parse_digits modulus acc (c ∷ s) =
    let acc' = acc * 10 + (c - b'0') in
    let rest = parse_digits modulus acc' s in
    if leb b'0' c && leb c b'9' && ltb acc' modulus then rest else none

abbrev parse_signless : ℕ → Text → Option ℕ
parse_signless modulus [] = none
parse_signless modulus (c ∷ s) = parse_digits modulus 0 (c ∷ s)

-- `s.parse::<uN>()`: one `+` may stand in front.
unfoldable pub parse_uint : ℕ → Text → Option ℕ
parse_uint modulus [] = none
parse_uint modulus (c ∷ s) =
    if c == b'+' then parse_signless modulus s else parse_digits modulus 0 (c ∷ s)

-- An unsigned integer in decimal, for numbers of at most `fuel + 1` digits.
unfoldable pub decimal_digits : ℕ → ℕ → Text
decimal_digits zero n = (b'0' + n) ∷ []
decimal_digits (suc fuel) n =
    let rest = decimal_digits fuel (n / 10) in
    if ltb n 10 then (b'0' + n) ∷ [] else rest ++ (b'0' + n % 10) ∷ []

-- `{}` of a u64, which has at most 20 digits.
abbrev pub decimal : ℕ → Text
decimal n = decimal_digits 19 n

abbrev pub lowercase_byte : ℕ → ℕ
lowercase_byte c = if leb b'A' c && leb c b'Z' then c + 32 else c

-- `s.to_ascii_lowercase()` and `a.eq_ignore_ascii_case(b)`.
abbrev pub to_ascii_lowercase : Text → Text
to_ascii_lowercase s = map lowercase_byte s
