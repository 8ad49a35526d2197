-- ===== src/Protocol/Bser/Read.antt =====
-- The payload reader of bser.rs: `read_value` and the loops of its arms. A reader returns the value
-- and the number of bytes that it consumed.
use watchwoman.Base.{
  ℕ, zero, suc, ◌+◌, ◌-◌, ◌%◌, ◌^◌, Bool, true, false, ◌||◌, ◌&&◌, Option, none, some, List, [],
  ◌∷◌, ltb, leb, ◌==◌, if◌then◌else◌, length, take, drop, get_elem?, nat_eq,
}
use watchwoman.Base.Int.{ℤ, pos_part, to_unsigned}
use watchwoman.Base.Text.{Text}
use watchwoman.Protocol.Outcome.{
  Outcome, ok, err, panic, stack_overflow, truncated, bser, object_key_not_string,
  template_key_not_string, template_keys_not_array, unexpected_skip, unknown_tag, ◌>>=◌, ◌>>◌,
}
use watchwoman.Protocol.Utf8.{is_utf8, from_utf8_lossy}
use watchwoman.Protocol.Value.{
  Value, Items, Fields, Rows, null, bool, int, real, string, bytes, array, object, template,
  no_items, item, no_fields, no_rows, row, insert_field,
}
use watchwoman.Protocol.Bser.Ints.{
  tag_array, tag_object, tag_string, tag_int8, tag_int64, tag_real, tag_true, tag_false, tag_null,
  tag_template, tag_skip, tag_utf8, from_le_bytes, need, read_int,
}

-- `&buf[pos..]` and `&buf[start..end]`, which panic out of bounds.
unfoldable pub slice_from : List ℕ → ℕ → Outcome (List ℕ)
slice_from buf pos = if ltb (length buf) pos then panic else ok (drop pos buf)

unfoldable pub slice : List ℕ → ℕ → ℕ → Outcome (List ℕ)
slice buf start end =
    if ltb end start || ltb (length buf) end
    then panic
    else ok (take (end - start) (drop start buf))

-- `n as usize`, and `+` on usize as a release build computes it.
abbrev pub as_usize : ℤ → ℕ
as_usize = to_unsigned (2 ^ 64)

abbrev pub add_usize : ℕ → ℕ → ℕ
add_usize a b = (a + b) % 2 ^ 64

abbrev pub Reader : Type 0
Reader = List ℕ → Outcome (Value × ℕ)

unfoldable pub read_string : Reader
read_string buf = do
  behind_tag ← slice_from buf 1
  (len, lenlen) ← read_int behind_tag
  let start = 1 + lenlen
  let end = add_usize start (as_usize len)
  need buf end
  s ← slice buf start end
  ok (if is_utf8 s then string s else bytes s, end)

-- A key of an object or a template: a string, or a byte string read lossily.
unfoldable pub key_text : Value → Option Text
key_text (string s) = some s
key_text (bytes b) = some (from_utf8_lossy b)
key_text _ = none

unfoldable pub template_keys : Items → Outcome (List Text)
template_keys no_items = ok []
template_keys (item v vs) = elim (key_text v) [
  | none ↦ err (bser template_key_not_string)
  | some k ↦ template_keys vs >>= λ ks. ok (k ∷ ks)
]

abbrev pub is_skip : Option ℕ → Bool
is_skip none = false
is_skip (some b) = b == tag_skip

-- `Vec::with_capacity(count.max(0) as usize)`, which panics or aborts above what is granted.
unfoldable pub with_capacity : ℕ → ℤ → Outcome (Unit {0})
with_capacity alloc_limit count = if ltb alloc_limit (pos_part count) then panic else ok tt

module _ (read : Reader) where
  -- `for _ in 0..count { read_value(&buf[pos..]) … }`; the position behind the items comes back.
  unfoldable pub read_items : ℕ → List ℕ → ℕ → Outcome (Items × ℕ)
  read_items zero buf pos = ok (no_items, pos)
  read_items (suc n) buf pos = do
    view ← slice_from buf pos
    (v, consumed) ← read view
    (vs, end) ← read_items n buf (pos + consumed)
    ok (item v vs, end)

  unfoldable pub read_fields : ℕ → List ℕ → ℕ → Fields → Outcome (Fields × ℕ)
  read_fields zero buf pos obj = ok (obj, pos)
  read_fields (suc n) buf pos obj = do
    view ← slice_from buf pos
    (k, kconsumed) ← read view
    elim (key_text k) [
      | none ↦ err (bser object_key_not_string)
      | some key ↦ do
        view' ← slice_from buf (pos + kconsumed)
        (v, vconsumed) ← read view'
        read_fields n buf (pos + kconsumed + vconsumed) (insert_field obj key v)
    ]

  -- One row of a template: a SKIP byte stands for null.
  unfoldable pub read_cells : ℕ → List ℕ → ℕ → Outcome (Items × ℕ)
  read_cells zero buf pos = ok (no_items, pos)
  read_cells (suc n) buf pos =
      let cell =
        if is_skip (get_elem? buf pos) then ok (null, 1) else (slice_from buf pos >>= read) in
      cell >>= λ (v, consumed).
      read_cells n buf (pos + consumed) >>= λ (vs, end). ok (item v vs, end)

  unfoldable pub read_rows : ℕ → ℕ → List ℕ → ℕ → Outcome (Rows × ℕ)
  read_rows width zero buf pos = ok (no_rows, pos)
  read_rows width (suc n) buf pos = do
    (r, after) ← read_cells width buf pos
    (rs, end) ← read_rows width n buf after
    ok (row r rs, end)

abbrev pub keys_of : Value → Outcome (List Text)
keys_of (array vs) = template_keys vs
keys_of _ = err (bser template_keys_not_array)

unfoldable pub read_real : Reader
read_real buf = do need buf 9; ok (real (from_le_bytes (take 8 (drop 1 buf))), 9)

unfoldable pub read_int_value : Reader
read_int_value buf = do (n, consumed) ← read_int buf; ok (int n, consumed)

-- The arms of `read_value`, over the reader of what is nested and the allocator's limit.
module _ (alloc_limit : ℕ) (read : Reader) where
  unfoldable pub read_array : Reader
  read_array buf = do
    behind_tag ← slice_from buf 1
    (count, clen) ← read_int behind_tag
    with_capacity alloc_limit count
    (vs, end) ← read_items read (pos_part count) buf (1 + clen)
    ok (array vs, end)

  unfoldable pub read_object : Reader
  read_object buf = do
    behind_tag ← slice_from buf 1
    (count, clen) ← read_int behind_tag
    with_capacity alloc_limit count
    (fs, end) ← read_fields read (pos_part count) buf (1 + clen) no_fields
    ok (object fs, end)

  unfoldable pub read_template : Reader
  read_template buf = do
    behind_tag ← slice_from buf 1
    (keys_val, keys_consumed) ← read behind_tag
    keys ← keys_of keys_val
    let pos = 1 + keys_consumed
    at_count ← slice_from buf pos
    (row_count, rclen) ← read_int at_count
    with_capacity alloc_limit row_count
    (rows, end) ← read_rows read (length keys) (pos_part row_count) buf (pos + rclen)
    ok (template keys rows, end)

  -- The match of `read_value`.
  unfoldable pub read_tagged : Reader
  read_tagged [] = err truncated
  read_tagged (tag ∷ rest) =
      let buf = tag ∷ rest in
      if tag == tag_null
      then ok (null, 1)
      else if tag == tag_true
      then ok (bool true, 1)
      else if tag == tag_false
      then ok (bool false, 1)
      else if leb tag_int8 tag && leb tag tag_int64
      then read_int_value buf
      else if tag == tag_real
      then read_real buf
      else if tag == tag_string || tag == tag_utf8
      then read_string buf
      else if tag == tag_array
      then read_array buf
      else if tag == tag_object
      then read_object buf
      else if tag == tag_template
      then read_template buf
      else if tag == tag_skip
      then err (bser unexpected_skip)
      else err (bser (unknown_tag tag))

-- The source recurs without a limit on the nesting: `depth` is what the thread's stack holds.
unfoldable pub read_value : ℕ → ℕ → Reader
read_value alloc_limit zero buf = stack_overflow
read_value alloc_limit (suc depth) buf = read_tagged alloc_limit (read_value alloc_limit depth) buf
