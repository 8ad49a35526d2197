-- ===== src/Protocol/Bser/Write.antt =====
-- The payload writer of bser.rs. Each function returns what the source appends to `out`.
use watchwoman.Base.{ℕ, true, false, List, [], ◌∷◌, ◌++◌, if◌then◌else◌, length}
use watchwoman.Base.Int.{pos}
use watchwoman.Base.Text.{Text}
use watchwoman.Protocol.Value.{
  Value, Items, Fields, Rows, null, bool, int, real, string, bytes, array, object, template,
  no_items, item, no_fields, field, no_rows, row, is_null, length_items, length_fields, length_rows,
}
use watchwoman.Protocol.Bser.Ints.{
  tag_array, tag_object, tag_string, tag_real, tag_true, tag_false, tag_null, tag_template,
  tag_skip, to_le_bytes, write_int,
}

-- A byte string, a key or a string: tag, length, bytes.
unfoldable pub write_bytes : List ℕ → List ℕ
write_bytes s = tag_string ∷ (write_int (pos (length s)) ++ s)

unfoldable pub write_keys : List Text → List ℕ
write_keys [] = []
write_keys (k ∷ ks) = write_bytes k ++ write_keys ks

unfoldable mutual
  pub write_value : Value → List ℕ
  write_value null = tag_null ∷ []
  write_value (bool true) = tag_true ∷ []
  write_value (bool false) = tag_false ∷ []
  write_value (int i) = write_int i
  write_value (real f) = tag_real ∷ to_le_bytes 8 f
  write_value (string s) = write_bytes s
  write_value (bytes b) = write_bytes b
  write_value (array vs) = tag_array ∷ (write_int (pos (length_items vs)) ++ write_items vs)
  write_value (object fs) = tag_object ∷ (write_int (pos (length_fields fs)) ++ write_fields fs)
  write_value (template ks rs) =
      tag_template
      ∷ tag_array
      ∷ (write_int (pos (length ks))
          ++ (write_keys ks ++ (write_int (pos (length_rows rs)) ++ write_rows rs)))

  pub write_items : Items → List ℕ
  write_items no_items = []
  write_items (item v vs) = write_value v ++ write_items vs

  pub write_fields : Fields → List ℕ
  write_fields no_fields = []
  write_fields (field k v fs) = write_bytes k ++ (write_value v ++ write_fields fs)

  -- The row loops: a null is written as SKIP.
  pub write_cells : Items → List ℕ
  write_cells no_items = []
  write_cells (item v vs) = (if is_null v then tag_skip ∷ [] else write_value v) ++ write_cells vs

  pub write_rows : Rows → List ℕ
  write_rows no_rows = []
  write_rows (row r rs) = write_cells r ++ write_rows rs
