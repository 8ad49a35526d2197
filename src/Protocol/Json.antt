-- ===== src/Protocol/Json.antt =====
-- crates/watchwoman-protocol/src/json.rs: PDUs as lines of JSON. The library serde_json is a parameter:
-- its tree has the constructors that the source matches on, and its numbers are what it holds. The
-- stack is taken to hold the levels of a value.
pub mod View
pub mod RoundTrip
pub mod Examples
use watchwoman.Base.{
  ℕ, ◌+◌, ◌^◌, Bool, true, false, Option, none, some, List, [], ◌∷◌, ◌++◌, ltb, ◌==◌, nat_eq,
  list_eq, if◌then◌else◌,
}
use watchwoman.Base.Int.{ℤ, to_signed, pos}
use watchwoman.Base.Text.{Text}
use watchwoman.Protocol.Utf8.{from_utf8_lossy}
use watchwoman.Protocol.Outcome.{Outcome, ok, err, truncated, bad_json}
use watchwoman.Protocol.Value.{
  Value, Items, Fields, Rows, null, bool, int, real, string, bytes, array, object, template,
  no_items, item, no_fields, field, insert_field, no_rows, row,
}

-- `serde_json::Value`, with the numbers `N`; its maps keep the order of insertion.
mutual
  pub data Json (N : Type 0) : Type 0 where
    j_null : Json N
    j_bool : Bool → Json N
    j_number : N → Json N
    j_string : Text → Json N
    j_array : JsonItems N → Json N
    j_object : JsonFields N → Json N

  pub data JsonItems (N : Type 0) : Type 0 where
    no_elements : JsonItems N
    element : Json N → JsonItems N → JsonItems N

  pub data JsonFields (N : Type 0) : Type 0 where
    no_entries : JsonFields N
    entry : Text → Json N → JsonFields N → JsonFields N

-- `from_slice` is none on an error; `to_writer` is what is written to a vector.
pub record SerdeJson : Type 1 where
  pub Number : Type 0
  pub from_i64 : ℤ → Number
  pub from_f64 : ℕ → Option Number
  pub as_i64 : Number → Option ℤ
  pub as_u64 : Number → Option ℕ
  pub as_f64 : Number → Option ℕ
  pub from_slice : List ℕ → Option (Json Number)
  pub to_writer : Json Number → List ℕ

-- `Map::insert`.
unfoldable pub insert_entry : {N : Type 0} → JsonFields N → Text → Json N → JsonFields N
insert_entry no_entries k v = entry k v no_entries
insert_entry (entry j w m) k v = if j == k then entry j v m else entry j w (insert_entry m k v)

-- `read_until(delimiter)`: what is read, the delimiter with it, and what is left.
unfoldable pub read_until : ℕ → List ℕ → List ℕ × List ℕ
read_until delimiter [] = ([], [])
read_until delimiter (b ∷ stream) =
    let (line, rest) = read_until delimiter stream in
    if b == delimiter then (b ∷ [], stream) else (b ∷ line, rest)

-- A newline at the end is taken off.
unfoldable pub pop_newline : List ℕ → List ℕ
pop_newline [] = []
pop_newline (b ∷ []) = if b == b'\n' then [] else b ∷ []
pop_newline (b ∷ c ∷ line) = b ∷ pop_newline (c ∷ line)

abbrev or_null : {N : Type 0} → Option N → Json N
or_null none = j_null
or_null (some n) = j_number n

-- From serde_json's tree to a value, by what becomes of a number.
module _ {N : Type 0} (number : N → Value) where
  unfoldable mutual
    pub convert : Json N → Value
    convert j_null = null
    convert (j_bool b) = bool b
    convert (j_number n) = number n
    convert (j_string s) = string s
    convert (j_array a) = array (convert_items a)
    convert (j_object o) = object (convert_fields no_fields o)

    pub convert_items : JsonItems N → Items
    convert_items no_elements = no_items
    convert_items (element v a) = item (convert v) (convert_items a)

    pub convert_fields : Fields → JsonFields N → Fields
    convert_fields map no_entries = map
    convert_fields map (entry k v o) = convert_fields (insert_field map k (convert v)) o

abbrev pub is_empty_line : List ℕ → Bool
is_empty_line [] = true
is_empty_line (b ∷ bs) = false

module _ (serde : SerdeJson) where
  unfoldable mutual
    pub to_serde : Value → Json serde.Number
    to_serde null = j_null
    to_serde (bool b) = j_bool b
    to_serde (int i) = j_number (serde.from_i64 i)
    to_serde (real f) = or_null (serde.from_f64 f)
    to_serde (string s) = j_string s
    to_serde (bytes b) = j_string (from_utf8_lossy b)
    to_serde (array a) = j_array (items_to_serde a)
    to_serde (object o) = j_object (fields_to_serde no_entries o)
    to_serde (template keys rows) = j_array (rows_to_serde keys rows)

    pub items_to_serde : Items → JsonItems serde.Number
    items_to_serde no_items = no_elements
    items_to_serde (item v a) = element (to_serde v) (items_to_serde a)

    pub fields_to_serde : JsonFields serde.Number → Fields → JsonFields serde.Number
    fields_to_serde map no_fields = map
    fields_to_serde map (field k v o) = fields_to_serde (insert_entry map k (to_serde v)) o

    pub rows_to_serde : List Text → Rows → JsonItems serde.Number
    rows_to_serde keys no_rows = no_elements
    rows_to_serde keys (row cells rows) =
        element (j_object (cells_to_serde no_entries keys cells)) (rows_to_serde keys rows)

    -- `keys.iter().zip(row.iter())`.
    pub cells_to_serde : JsonFields serde.Number → List Text → Items → JsonFields serde.Number
    cells_to_serde obj [] cells = obj
    cells_to_serde obj (k ∷ keys) no_items = obj
    cells_to_serde obj (k ∷ keys) (item v cells) =
        cells_to_serde (insert_entry obj k (to_serde v)) keys cells

  abbrev real_or_null : Option ℕ → Value
  real_or_null none = null
  real_or_null (some f) = real f

  -- `u as i64` on a u64 keeps the bits.
  abbrev unsigned_or : Option ℕ → Value → Value
  unsigned_or none v = v
  unsigned_or (some u) v = int (to_signed (2 ^ 63) u)

  abbrev int_or : Option ℤ → Value → Value
  int_or none v = v
  int_or (some i) v = int i

  unfoldable pub number_value : serde.Number → Value
  number_value n =
      int_or (serde.as_i64 n) (unsigned_or (serde.as_u64 n) (real_or_null (serde.as_f64 n)))

  -- The same but for a u64 that is no i64, as the daemon has it.
  unfoldable pub json_number : serde.Number → Value
  json_number n = int_or (serde.as_i64 n) (real_or_null (serde.as_f64 n))

  abbrev pub json_to_value : Json serde.Number → Value
  json_to_value = convert json_number

  abbrev pub from_serde : Json serde.Number → Value
  from_serde = convert number_value

  unfoldable pub encode_pdu : Value → List ℕ
  encode_pdu value = serde.to_writer (to_serde value) ++ b'\n' ∷ []

  abbrev parsed : Option (Json serde.Number) → List ℕ → Outcome (Option Value × List ℕ)
  parsed none rest = err bad_json
  parsed (some v) rest = ok (some (from_serde v), rest)

  abbrev pub read_line : List ℕ → List ℕ → Outcome (Option Value × List ℕ)
  read_line line rest =
      if is_empty_line line then err truncated else parsed (serde.from_slice line) rest

  unfoldable pub read_pdu : List ℕ → Outcome (Option Value × List ℕ)
  read_pdu [] = ok (none, [])
  read_pdu (b ∷ stream) =
      let (line, rest) = read_until b'\n' (b ∷ stream) in read_line (pop_newline line) rest
