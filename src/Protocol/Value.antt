-- ===== src/Protocol/Value.antt =====
-- crates/watchwoman-protocol/src/value.rs: the value tree, its accessors, and which trees are
-- values that the codec can write.
use watchwoman.Base.{
  ℕ, suc, ◌*◌, ◌^◌, ◌≤◌, ◌<◌, ◌≡◌, Bool, true, false, Option, none, some, List, ◌==◌, if◌then◌else◌,
  length, All, nat_eq, list_eq,
}
use watchwoman.Base.Int.{ℤ, InRange}
use watchwoman.Base.Text.{Text}
use watchwoman.Protocol.Utf8.{is_utf8}

-- `Items`, `Fields` and `Rows` are the vectors and the IndexMap inside a value. A real is the bit
-- pattern of its f64.
mutual
  pub data Value : Type 0 where
    null : Value
    bool : Bool → Value
    int : ℤ → Value
    real : ℕ → Value
    string : Text → Value
    bytes : List ℕ → Value
    array : Items → Value
    object : Fields → Value
    template : List Text → Rows → Value

  pub data Items : Type 0 where
    no_items : Items
    item : Value → Items → Items

  pub data Fields : Type 0 where
    no_fields : Fields
    field : Text → Value → Fields → Fields

  pub data Rows : Type 0 where
    no_rows : Rows
    row : Items → Rows → Rows

abbrev pub as_object : Value → Option Fields
as_object (object o) = some o
as_object _ = none

abbrev pub as_str : Value → Option Text
as_str (string s) = some s
as_str _ = none

abbrev pub as_array : Value → Option Items
as_array (array a) = some a
as_array _ = none

abbrev pub as_i64 : Value → Option ℤ
as_i64 (int i) = some i
as_i64 _ = none

abbrev pub as_bool : Value → Option Bool
as_bool (bool b) = some b
as_bool _ = none

abbrev pub is_null : Value → Bool
is_null null = true
is_null _ = false

-- `Vec::len` and `IndexMap::len`.
abbrev pub length_items : Items → ℕ
length_items no_items = 0
length_items (item v vs) = suc (length_items vs)

abbrev pub length_fields : Fields → ℕ
length_fields no_fields = 0
length_fields (field k v fs) = suc (length_fields fs)

abbrev pub length_rows : Rows → ℕ
length_rows no_rows = 0
length_rows (row r rs) = suc (length_rows rs)

-- `IndexMap::get` and `IndexMap::insert`: a key that is there keeps its place.
unfoldable pub get_field : Fields → Text → Option Value
get_field no_fields k = none
get_field (field j v fs) k = if j == k then some v else get_field fs k

unfoldable pub insert_field : Fields → Text → Value → Fields
insert_field no_fields k v = field k v no_fields
insert_field (field j w fs) k v = if j == k then field j v fs else field j w (insert_field fs k v)

abbrev pub append_fields : Fields → Fields → Fields
append_fields no_fields gs = gs
append_fields (field k v fs) gs = field k v (append_fields fs gs)

-- A String: valid UTF-8, within the greatest size of an object.
abbrev pub IsText : Text → Type 0
IsText s = (is_utf8 s ≡ true) × (length s < 2 ^ 63)

-- A vector of `n` elements that the allocator grants.
abbrev pub IsSize : ℕ → ℕ → Type 0
IsSize alloc_limit n = (n < 2 ^ 63) × (n ≤ alloc_limit)

-- What the Rust types and the codec's conventions ask of a value: machine ranges, UTF-8 in strings
-- and not in byte strings (which are short enough for a lossy copy), distinct keys, and rows as wide as their template.
unfoldable mutual
  pub IsWellFormed : ℕ → Value → Type 0
  IsWellFormed lim null = Unit
  IsWellFormed lim (bool b) = Unit
  IsWellFormed lim (int z) = InRange (2 ^ 63) z
  IsWellFormed lim (real b) = b < 2 ^ 64
  IsWellFormed lim (string s) = IsText s
  IsWellFormed lim (bytes b) = (is_utf8 b ≡ false) × (3 * length b < 2 ^ 63)
  IsWellFormed lim (array vs) = IsSize lim (length_items vs) × AreWellFormed lim vs
  IsWellFormed lim (object fs) = IsSize lim (length_fields fs) × AreFields lim fs
  IsWellFormed lim (template ks rs) =
      IsSize lim (length ks)
      × All IsText ks
      × IsSize lim (length_rows rs)
      × AreRows lim (length ks) rs

  pub AreWellFormed : ℕ → Items → Type 0
  AreWellFormed lim no_items = Unit
  AreWellFormed lim (item v vs) = IsWellFormed lim v × AreWellFormed lim vs

  pub AreFields : ℕ → Fields → Type 0
  AreFields lim no_fields = Unit
  AreFields lim (field k v fs) =
      IsText k × (get_field fs k ≡ none) × IsWellFormed lim v × AreFields lim fs

  pub AreRows : ℕ → ℕ → Rows → Type 0
  AreRows lim n no_rows = Unit
  AreRows lim n (row r rs) = (length_items r ≡ n) × AreWellFormed lim r × AreRows lim n rs
