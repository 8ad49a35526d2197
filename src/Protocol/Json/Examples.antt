-- ===== src/Protocol/Json/Examples.antt =====
-- A serde_json that writes strings and arrays, and parses one line.
use watchwoman.Base.{
  ℕ, ◌≡◌, refl, none, some, Option, [], ◌∷◌, ◌++◌, arith, ◌==◌, nat_eq, list_eq, if◌then◌else◌,
}
use watchwoman.Base.Int.{ℤ}
use watchwoman.Base.Text.{Text, ascii}
use watchwoman.Protocol.Utf8.{is_utf8}
use watchwoman.Protocol.Outcome.{ok}
use watchwoman.Protocol.Value.{Value, string, array, no_items, item, IsWellFormed, AreWellFormed}
use watchwoman.Protocol.Json.{
  Json, JsonItems, SerdeJson, j_string, j_array, no_elements, element, to_serde, items_to_serde,
  encode_pdu, read_pdu,
}
use watchwoman.Protocol.Json.View.{is_finite, view}
use watchwoman.Protocol.Json.RoundTrip.{HasNumbers, IsLine, read_pdu-encode_pdu}

pub data Number : Type 0 where
  whole : ℤ → Number
  float : ℕ → Number

abbrev as_whole : Number → Option ℤ
as_whole (whole i) = some i
as_whole (float f) = none

abbrev as_float : Number → Option ℕ
as_float (whole i) = none
as_float (float f) = some f

abbrev mutual
  print : Json Number → Text
  print (j_string s) = b'"' ∷ (s ++ b'"' ∷ [])
  print (j_array a) = b'[' ∷ (print_items a ++ b']' ∷ [])
  print _ = ascii "null"

  print_items : JsonItems Number → Text
  print_items no_elements = []
  print_items (element v no_elements) = print v
  print_items (element v a) = print v ++ b',' ∷ print_items a

abbrev pub command : Value
command = array (item (string (ascii "get-pid")) no_items)

abbrev tree : Json Number
tree = j_array (element (j_string (ascii "get-pid")) no_elements)

abbrev pub serde : SerdeJson
serde = record {
  Number = Number;
  from_i64 = whole;
  from_f64 = λ f. if is_finite f then some (float f) else none;
  as_i64 = as_whole;
  as_u64 = λ n. none;
  as_f64 = as_float;
  from_slice = λ line. if line == print tree then some tree else none;
  to_writer = print;
}

pub serde-HasNumbers : HasNumbers serde
serde-HasNumbers = record {
  as_i64-from_i64 = λ i h. refl;
  from_f64_finite = λ f h. (float f, rw h refl, refl, refl, refl);
  from_f64_other = λ f h. rw h refl;
}

pub command-IsLine : IsLine serde (to_serde serde command)
unfolding to_serde items_to_serde
command-IsLine = record {
  no_newline =
      (refl, (refl, (refl, (refl, (refl, (refl, (refl, (refl, (refl, (refl, (refl, tt)))))))))));
  not_empty = refl;
  parses = refl;
}

pub command-IsWellFormed : IsWellFormed 4096 command
unfolding IsWellFormed AreWellFormed is_utf8
command-IsWellFormed = ((omega arith, omega arith), ((refl, omega arith), tt))

read_pdu-encode_pdu_example :
    read_pdu serde (encode_pdu serde command ++ ascii "rest")
    ≡ ok (some (view command), ascii "rest")
read_pdu-encode_pdu_example =
    read_pdu-encode_pdu serde 4096 command (ascii "rest") serde-HasNumbers command-IsWellFormed
      command-IsLine
