-- ===== src/Protocol/Bser/RoundTrip.antt =====
-- `read_value` on what `write_value` wrote.
use watchwoman.Base.{ℕ, zero, suc, ◌≤◌, ◌≡◌, refl, ◌∙◌, true, false, List, ◌++◌, arith, length}
use watchwoman.Protocol.Outcome.{ok}
use watchwoman.Protocol.Value.{
  Value, Items, Fields, Rows, null, bool, int, real, string, bytes, array, object, template,
  no_items, item, no_fields, field, no_rows, row, IsWellFormed, AreWellFormed, AreFields, AreRows,
}
use watchwoman.Protocol.Bser.Write.{
  write_bytes, write_value, write_items, write_fields, write_cells, write_rows,
}
use watchwoman.Protocol.Bser.Read.{read_tagged, read_value}
use watchwoman.Protocol.Bser.Leaves.{
  read_tagged_int, read_tagged_bytes, read_tagged_real, read_value_text,
}
use watchwoman.Protocol.Bser.Loops.{
  nesting, nesting_items, nesting_fields, nesting_rows, ReadsBack, ItemsBack, no_items_back,
  item_back, array_back, FieldsBack, no_fields_back, field_back, object_back,
}
use watchwoman.Protocol.Bser.Templates.{
  CellsBack, no_cells-CellsBack, cell_back, RowsBack, no_rows_back, row_back, template_back,
}

nesting_pos : (v : Value) → 1 ≤ nesting v
unfolding nesting
nesting_pos (array vs) = omega arith
nesting_pos _ = omega arith

nesting_fields_pos : (fs : Fields) → 1 ≤ nesting_fields fs
unfolding nesting
nesting_fields_pos no_fields = omega arith
nesting_fields_pos (field k v fs) = omega (arith, nesting_fields_pos fs)

mutual
  unfolding nesting IsWellFormed write_value read_value read_tagged

  value_back :
      (lim depth : ℕ) (v : Value)
      → nesting v ≤ depth
      → IsWellFormed lim v
      → ReadsBack (read_value lim depth) (write_value v) v
  value_back lim zero v h wf rest = absurd (omega (arith, nesting_pos v))
  value_back lim (suc d) null h wf rest = refl
  value_back lim (suc d) (bool true) h wf rest = refl
  value_back lim (suc d) (bool false) h wf rest = refl
  value_back lim (suc d) (int z) h wf rest = read_tagged_int lim (read_value lim d) z rest wf
  value_back lim (suc d) (real b) h wf rest = read_tagged_real lim (read_value lim d) b rest wf
  value_back lim (suc d) (string s) h (valid, short) rest =
      read_tagged_bytes lim (read_value lim d) s rest short ∙ rw valid
  value_back lim (suc d) (bytes s) h (invalid, short) rest =
      read_tagged_bytes lim (read_value lim d) s rest (omega arith) ∙ rw invalid
  value_back lim (suc d) (array vs) h (size, wf) rest =
      array_back lim (read_value lim d) vs (write_items vs) size
        (items_back lim d vs (omega arith) wf) rest
  value_back lim (suc d) (object fs) h (size, wf) rest =
      object_back lim (read_value lim d) fs (write_fields fs) size
        (fields_back lim d fs (omega arith) wf) rest
  value_back lim (suc d) (template ks rs) h (ksize, texts, rsize, wf) rest =
      template_back lim d ks rs (write_rows rs) ksize texts rsize (omega arith)
        (rows_back lim d (length ks) rs (omega arith) wf) rest

  items_back :
      (lim depth : ℕ) (vs : Items)
      → nesting_items vs ≤ depth
      → AreWellFormed lim vs
      → ItemsBack (read_value lim depth) (write_items vs) vs
  items_back lim depth no_items h wf = no_items_back _
  items_back lim depth (item v vs) h (wf, wfs) =
      item_back _ v vs (write_value v) (write_items vs) (value_back lim depth v (omega arith) wf)
        (items_back lim depth vs (omega arith) wfs)

  fields_back :
      (lim depth : ℕ) (fs : Fields)
      → nesting_fields fs ≤ depth
      → AreFields lim fs
      → FieldsBack (read_value lim depth) (write_fields fs) fs
  fields_back lim depth no_fields h wf = no_fields_back _
  fields_back lim depth (field k v fs) h (text, unique, wf, wfs) =
      field_back _ k v fs (write_bytes k) (write_value v) (write_fields fs) unique
        (λ rest. read_value_text lim depth k rest text (omega (arith, nesting_fields_pos fs)))
        (value_back lim depth v (omega arith) wf) (fields_back lim depth fs (omega arith) wfs)

  cells_back :
      (lim depth : ℕ) (vs : Items)
      → nesting_items vs ≤ depth
      → AreWellFormed lim vs
      → CellsBack (read_value lim depth) (write_cells vs) vs
  cells_back lim depth no_items h wf = no_cells-CellsBack _
  cells_back lim depth (item v vs) h (wf, wfs) =
      cell_back _ v vs (write_cells vs) (value_back lim depth v (omega arith) wf)
        (cells_back lim depth vs (omega arith) wfs)

  rows_back :
      (lim depth width : ℕ) (rs : Rows)
      → nesting_rows rs ≤ depth
      → AreRows lim width rs
      → RowsBack (read_value lim depth) width (write_rows rs) rs
  rows_back lim depth width no_rows h wf = no_rows_back _ width
  rows_back lim depth width (row r rs) h (fit, wf, wfs) =
      row_back _ width r rs (write_cells r) (write_rows rs) fit
        (cells_back lim depth r (omega arith) wf) (rows_back lim depth width rs (omega arith) wfs)

-- For every well-formed value that the stack's depth admits, reading its written payload,
-- whatever bytes follow, returns the value and the number of bytes that were written.
pub read_value-write_value :
    (lim depth : ℕ) (v : Value) (rest : List ℕ)
    → nesting v ≤ depth
    → IsWellFormed lim v
    → read_value lim depth (write_value v ++ rest) ≡ ok (v, length (write_value v))
read_value-write_value lim depth v rest h wf = value_back lim depth v h wf rest
