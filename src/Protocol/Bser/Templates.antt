-- ===== src/Protocol/Bser/Templates.antt =====
-- The template arm of the reader on what the writer wrote: keys, row count, cells.
use watchwoman.Base.{
  ℕ, zero, suc, ◌+◌, ◌≤◌, ◌≡◌, refl, ap, List, [], ◌∷◌, ◌++◌, arith, length, length-append,
  append_assoc, All, if◌then◌else◌,
}
use watchwoman.Base.Int.{ℤ}
use watchwoman.Base.Text.{Text}
use watchwoman.Protocol.Outcome.{ok}
use watchwoman.Protocol.Value.{
  Value, Items, Rows, null, string, array, template, no_items, item, no_rows, row, is_null,
  length_items, length_rows, IsText, IsSize,
}
use watchwoman.Protocol.Bser.Ints.{tag_skip, write_int}
use watchwoman.Protocol.Bser.Write.{write_bytes, write_keys, write_value}
use watchwoman.Protocol.Bser.IntRoundTrip.{read_int-write_int}
use watchwoman.Protocol.Bser.Read.{
  Reader, key_text, template_keys, read_cells, read_rows, read_template, read_tagged, read_value,
}
use watchwoman.Protocol.Bser.At.{At, At-append, slice_from-At}
use watchwoman.Protocol.Bser.Leaves.{ok_at, read_value_text, write_value-not_skip, get_elem?-At}
use watchwoman.Protocol.Bser.Loops.{
  ReadsBack, ItemsBack, no_items_back, item_back, array_back, At-assoc, with_capacity_ok,
}

-- The keys of a template, as the array that they are read as.
strings : List Text → Items
strings [] = no_items
strings (k ∷ ks) = item (string k) (strings ks)

length_items-strings : (ks : List Text) → length_items (strings ks) ≡ length ks
unfolding strings
length_items-strings [] = refl
length_items-strings (k ∷ ks) = ap suc (length_items-strings ks)

template_keys-strings : (ks : List Text) → template_keys (strings ks) ≡ ok ks
unfolding strings template_keys key_text
template_keys-strings [] = refl
template_keys-strings (k ∷ ks) = rw (template_keys-strings ks)

strings_back :
    (lim depth : ℕ) (ks : List Text)
    → All IsText ks
    → 1 ≤ depth
    → ItemsBack (read_value lim depth) (write_keys ks) (strings ks)
unfolding strings write_keys
strings_back lim depth [] h d = no_items_back _
strings_back lim depth (k ∷ ks) (h, hs) d =
    item_back _ (string k) (strings ks) (write_bytes k) (write_keys ks)
      (λ rest. read_value_text lim depth k rest h d) (strings_back lim depth ks hs d)

-- The array of keys behind the template's tag.
keys_back :
    (lim depth : ℕ) (ks : List Text)
    → IsSize lim (length ks)
    → All IsText ks
    → 2 ≤ depth
    → ReadsBack
        (read_value lim depth)
        (0x00 ∷ (write_int (ℤ.pos (length ks)) ++ write_keys ks))
        (array (strings ks))
unfolding read_value read_tagged
keys_back lim zero ks s h d rest = absurd (omega arith)
keys_back lim (suc depth) ks s h d rest = rw (length_items-strings ks) at (
    array_back lim (read_value lim depth) (strings ks) (write_keys ks)
      (rw (length_items-strings ks) s) (strings_back lim depth ks h (omega arith)) rest)

abbrev pub CellsBack : Reader → List ℕ → Items → Type 0
CellsBack read written vs =
    (buf : List ℕ) (start : ℕ) (rest : List ℕ)
    → At buf start (written ++ rest)
    → read_cells read (length_items vs) buf start ≡ ok (vs, start + length written)

abbrev pub cell : Value → List ℕ
cell v = if is_null v then tag_skip ∷ [] else write_value v

pub no_cells-CellsBack : (read : Reader) → CellsBack read [] no_items
unfolding read_cells
no_cells-CellsBack read buf start rest at = ok_at _ (omega arith)

-- A null is one SKIP byte, and no other value begins with it.
skip_back :
    (read : Reader) (vs : Items) (ws : List ℕ)
    → CellsBack read ws vs
    → CellsBack read (tag_skip ∷ ws) (item null vs)
unfolding read_cells
skip_back read vs ws more buf start rest at =
    rw
      (
        get_elem?-At buf start _ at,
        more buf (start + 1) rest (At-append buf start (tag_skip ∷ []) (ws ++ rest) at),
      )
      (ok_at _ (omega arith))

value_back :
    (read : Reader) (v : Value) (vs : Items) (ws : List ℕ)
    → ReadsBack read (write_value v) v
    → CellsBack read ws vs
    → CellsBack read (write_value v ++ ws) (item v vs)
unfolding read_cells
value_back read v vs ws one more buf start rest at =
    let w : List ℕ = write_value v in
    let here = At-assoc buf start w ws rest at in
    rw
      (
        get_elem?-At buf start _ here,
        write_value-not_skip v (ws ++ rest),
        slice_from-At buf start _ here,
        one (ws ++ rest),
        more buf (start + length w) rest (At-append buf start w (ws ++ rest) here),
      )
      (ok_at _ (omega (arith, length-append w ws)))

pub cell_back :
    (read : Reader) (v : Value) (vs : Items) (ws : List ℕ)
    → ReadsBack read (write_value v) v
    → CellsBack read ws vs
    → CellsBack read (cell v ++ ws) (item v vs)
cell_back read null vs ws one more = skip_back read vs ws more
cell_back read v vs ws one more = value_back read v vs ws one more

abbrev pub RowsBack : Reader → ℕ → List ℕ → Rows → Type 0
RowsBack read width written rs =
    (buf : List ℕ) (start : ℕ) (rest : List ℕ)
    → At buf start (written ++ rest)
    → read_rows read width (length_rows rs) buf start ≡ ok (rs, start + length written)

pub no_rows_back : (read : Reader) (width : ℕ) → RowsBack read width [] no_rows
unfolding read_rows
no_rows_back read width buf start rest at = ok_at _ (omega arith)

pub row_back :
    (read : Reader) (width : ℕ) (r : Items) (rs : Rows) (w ws : List ℕ)
    → length_items r ≡ width
    → CellsBack read w r
    → RowsBack read width ws rs
    → RowsBack read width (w ++ ws) (row r rs)
unfolding read_rows
row_back read width r rs w ws fit cells more buf start rest at =
    let here = At-assoc buf start w ws rest at in
    rw (← fit, cells buf start (ws ++ rest) here)
      (rw (more buf (start + length w) rest (At-append buf start w (ws ++ rest) here))
        (ok_at _ (omega (arith, length-append w ws))))

pub template_back :
    (lim depth : ℕ) (ks : List Text) (rs : Rows) (ws : List ℕ)
    → IsSize lim (length ks)
    → All IsText ks
    → IsSize lim (length_rows rs)
    → 2 ≤ depth
    → RowsBack (read_value lim depth) (length ks) ws rs
    → ReadsBack
        (read_template lim (read_value lim depth))
        (0x0b
          ∷ 0x00
          ∷ (write_int (ℤ.pos (length ks))
              ++ (write_keys ks ++ (write_int (ℤ.pos (length_rows rs)) ++ ws))))
        (template ks rs)
unfolding read_template
template_back lim depth ks rs ws size texts (small, fits) deep more rest =
    let n : ℤ = ℤ.pos (length_rows rs) in
    let kcount : List ℕ = write_int (ℤ.pos (length ks)) in
    let count : List ℕ = write_int n in
    let keys : List ℕ = 0x00 ∷ (kcount ++ write_keys ks) in
    let buf : List ℕ = 0x0b ∷ 0x00 ∷ ((kcount ++ (write_keys ks ++ (count ++ ws))) ++ rest) in
    let at_keys : At buf 1 (keys ++ (count ++ (ws ++ rest))) = (omega arith, simp append_assoc) in
    let at_count : At buf (1 + length keys) (count ++ (ws ++ rest)) =
      At-append buf 1 keys (count ++ (ws ++ rest)) at_keys in
    let at_rows = At-append buf (1 + length keys) count (ws ++ rest) at_count in
    rw
      (
        slice_from-At buf 1 _ at_keys,
        keys_back lim depth ks size texts deep (count ++ (ws ++ rest)),
        template_keys-strings ks,
        slice_from-At buf (1 + length keys) _ at_count,
        read_int-write_int n (ws ++ rest) small,
        with_capacity_ok lim _ fits,
        more buf (1 + length keys + length count) rest at_rows,
      )
      (ok_at _ (
        omega (
          arith,
          length-append kcount (write_keys ks ++ (count ++ ws)),
          length-append (write_keys ks) (count ++ ws),
          length-append count ws,
          length-append kcount (write_keys ks),
        )))
