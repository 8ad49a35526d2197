-- ===== src/Protocol/Json/View.antt =====
-- What a value is on the other side of a line of JSON.
use watchwoman.Base.{
  ℕ, ◌/◌, ◌%◌, ◌^◌, ◌≡◌, refl, sym, ap, subst, ◌∙◌, Bool, not, none, List, [], ◌∷◌, arith, ◌==◌,
  eq_iff, nat_eq, list_eq, if◌then◌else◌,
}
use watchwoman.Base.Int.{ℤ, InRange}
use watchwoman.Base.Text.{Text}
use watchwoman.Protocol.Utf8.{from_utf8_lossy}
use watchwoman.Protocol.Value.{
  Value, Items, Fields, Rows, null, bool, int, real, string, bytes, array, object, template,
  no_items, item, no_fields, field, get_field, insert_field, append_fields, no_rows, row,
  IsWellFormed, AreWellFormed, AreFields, AreRows,
}
use watchwoman.Protocol.Fields.{
  insert_field_fresh, append_fields_assoc, get_field-insert_field, AreFresh, AreFresh-no_fields,
  append_fields_nil, AreFresh-insert_field,
}
use watchwoman.Protocol.Json.{
  Json, JsonFields, no_entries, entry, SerdeJson, insert_entry, or_null, convert, convert_items,
  convert_fields, to_serde, items_to_serde, fields_to_serde, rows_to_serde, cells_to_serde,
}

-- Neither an infinity nor a NaN: the exponent is not all ones.
abbrev pub is_finite : ℕ → Bool
is_finite f = not (f / 2 ^ 52 % 2 ^ 11 == 2047)

-- A byte string is read as text, a template as the objects of its rows, and a real that JSON cannot
-- say as null.
unfoldable mutual
  pub view : Value → Value
  view null = null
  view (bool b) = bool b
  view (int i) = int i
  view (real f) = if is_finite f then real f else null
  view (string s) = string s
  view (bytes b) = string (from_utf8_lossy b)
  view (array a) = array (view_items a)
  view (object o) = object (view_fields no_fields o)
  view (template keys rows) = array (view_rows keys rows)

  pub view_items : Items → Items
  view_items no_items = no_items
  view_items (item v a) = item (view v) (view_items a)

  pub view_fields : Fields → Fields → Fields
  view_fields map no_fields = map
  view_fields map (field k v o) = view_fields (insert_field map k (view v)) o

  pub view_rows : List Text → Rows → Items
  view_rows keys no_rows = no_items
  view_rows keys (row cells rows) =
      item (object (view_cells no_fields keys cells)) (view_rows keys rows)

  pub view_cells : Fields → List Text → Items → Fields
  view_cells map [] cells = map
  view_cells map (k ∷ keys) no_items = map
  view_cells map (k ∷ keys) (item v cells) = view_cells (insert_field map k (view v)) keys cells

abbrev AreDistinct : Fields → Type 0
AreDistinct no_fields = Unit
AreDistinct (field k v fs) = (get_field fs k ≡ none) × AreDistinct fs

insert_field-AreDistinct :
    (fs : Fields) (k : Text) (v : Value) → AreDistinct fs → AreDistinct (insert_field fs k v)
unfolding insert_field get_field
insert_field-AreDistinct no_fields k v d = (refl, tt)
insert_field-AreDistinct (field j w fs) k v (new, d) = ground (
  arith,
  eq_iff j k,
  eq_iff k j,
  get_field-insert_field fs k j v,
  insert_field-AreDistinct fs k v d,
  new,
  d,
)

module _ (serde : SerdeJson) (number : serde.Number → Value) where
  -- Numbers come back.
  pub record AreBack : Type 0 where
    pub ints : (i : ℤ) → InRange (2 ^ 63) i → number (serde.from_i64 i) ≡ int i
    pub reals : (f : ℕ) → convert number (or_null (serde.from_f64 f)) ≡ view (real f)

  -- The entries of a map, one by one.
  abbrev entries : JsonFields serde.Number → Fields
  entries no_entries = no_fields
  entries (entry k v m) = field k (convert number v) (entries m)

  entries-insert_entry :
      (m : JsonFields serde.Number) (k : Text) (v : Json serde.Number)
      → entries (insert_entry m k v) ≡ insert_field (entries m) k (convert number v)
  unfolding insert_entry insert_field
  entries-insert_entry no_entries k v = refl
  entries-insert_entry (entry j w m) k v = ground (arith, entries-insert_entry m k v)

  convert_fields-entries :
      (map : Fields) (m : JsonFields serde.Number)
      → AreFresh map (entries m)
      → AreDistinct (entries m)
      → convert_fields number map m ≡ append_fields map (entries m)
  unfolding convert_fields
  convert_fields-entries map no_entries fresh d = sym (append_fields_nil map)
  convert_fields-entries map (entry k v m) (new, fresh) (once, d) =
      convert_fields-entries (insert_field map k (convert number v)) m
        (AreFresh-insert_field map (entries m) k (convert number v) once fresh) d
      ∙ ap (λ z. append_fields z (entries m)) (insert_field_fresh map k (convert number v) new)
      ∙ append_fields_assoc map (field k (convert number v) no_fields) (entries m)

  abbrev Grown : JsonFields serde.Number → Fields → Type 0
  Grown m fs = (entries m ≡ fs) × AreDistinct (entries m)

  whole_map :
      (m : JsonFields serde.Number) (fs : Fields)
      → Grown m fs
      → convert_fields number no_fields m ≡ fs
  whole_map m fs (same, d) =
      convert_fields-entries no_fields m (AreFresh-no_fields (entries m)) d ∙ same

  inserted :
      (k : Text) (v : Value) (further : Fields → Fields) (result m : JsonFields serde.Number)
      → AreDistinct (entries m)
      → convert number (to_serde serde v) ≡ view v
      → (AreDistinct (entries (insert_entry m k (to_serde serde v)))
          → Grown result (further (entries (insert_entry m k (to_serde serde v)))))
      → Grown result (further (insert_field (entries m) k (view v)))
  inserted k v further result m d same rest =
      let e : entries (insert_entry m k (to_serde serde v)) ≡ insert_field (entries m) k (view v) =
        entries-insert_entry m k (to_serde serde v) ∙ ap (insert_field (entries m) k) same in
      subst (λ z. Grown result (further z)) e
        (rest (subst AreDistinct (sym e) (insert_field-AreDistinct (entries m) k (view v) d)))

  mutual
    unfolding convert convert_items to_serde items_to_serde fields_to_serde rows_to_serde
        cells_to_serde view view_items view_fields view_rows view_cells IsWellFormed AreWellFormed
        AreFields AreRows

    pub convert-to_serde :
        (lim : ℕ) (v : Value)
        → AreBack
        → IsWellFormed lim v
        → convert number (to_serde serde v) ≡ view v
    convert-to_serde lim null back wf = refl
    convert-to_serde lim (bool b) back wf = refl
    convert-to_serde lim (int i) back wf = back.ints i wf
    convert-to_serde lim (real f) back wf = back.reals f
    convert-to_serde lim (string s) back wf = refl
    convert-to_serde lim (bytes b) back wf = refl
    convert-to_serde lim (array a) back (size, wf) = ap array (items-to_serde lim a back wf)
    convert-to_serde lim (object o) back (size, wf) = ap object (
        whole_map (fields_to_serde serde no_entries o) (view_fields no_fields o)
          (fields-to_serde lim no_entries o back wf tt))
    convert-to_serde lim (template keys rows) back (size, texts, sizes, wf) =
        ap array (rows-to_serde lim _ keys rows back wf)

    items-to_serde :
        (lim : ℕ) (a : Items)
        → AreBack
        → AreWellFormed lim a
        → convert_items number (items_to_serde serde a) ≡ view_items a
    items-to_serde lim no_items back wf = refl
    items-to_serde lim (item v a) back (wf, wfs) =
        rw (convert-to_serde lim v back wf) (ap (item (view v)) (items-to_serde lim a back wfs))

    fields-to_serde :
        (lim : ℕ) (m : JsonFields serde.Number) (o : Fields)
        → AreBack
        → AreFields lim o
        → AreDistinct (entries m)
        → Grown (fields_to_serde serde m o) (view_fields (entries m) o)
    fields-to_serde lim m no_fields back wf d = (refl, d)
    fields-to_serde lim m (field k v o) back (text, once, wf, wfs) d =
        inserted k v (λ z. view_fields z o)
          (fields_to_serde serde (insert_entry m k (to_serde serde v)) o) m d
          (convert-to_serde lim v back wf)
          (λ d'. fields-to_serde lim (insert_entry m k (to_serde serde v)) o back wfs d')

    rows-to_serde :
        (lim n : ℕ) (keys : List Text) (rows : Rows)
        → AreBack
        → AreRows lim n rows
        → convert_items number (rows_to_serde serde keys rows) ≡ view_rows keys rows
    rows-to_serde lim _ keys no_rows back wf = refl
    rows-to_serde lim _ keys (row cells rows) back (width, wf, wfs) =
        rw
          (whole_map (cells_to_serde serde no_entries keys cells) (view_cells no_fields keys cells)
            (cells-to_serde lim no_entries keys cells back wf tt))
          (ap (item (object (view_cells no_fields keys cells)))
            (rows-to_serde lim _ keys rows back wfs))

    cells-to_serde :
        (lim : ℕ) (m : JsonFields serde.Number) (keys : List Text) (cells : Items)
        → AreBack
        → AreWellFormed lim cells
        → AreDistinct (entries m)
        → Grown (cells_to_serde serde m keys cells) (view_cells (entries m) keys cells)
    cells-to_serde lim m [] cells back wf d = (refl, d)
    cells-to_serde lim m (k ∷ keys) no_items back wf d = (refl, d)
    cells-to_serde lim m (k ∷ keys) (item v cells) back (wf, wfs) d =
        inserted k v (λ z. view_cells z keys cells)
          (cells_to_serde serde (insert_entry m k (to_serde serde v)) keys cells) m d
          (convert-to_serde lim v back wf)
          (λ d'. cells-to_serde lim (insert_entry m k (to_serde serde v)) keys cells back wfs d')
