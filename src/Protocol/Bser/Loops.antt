-- ===== src/Protocol/Bser/Loops.antt =====
-- The loops of the reader on what the loops of the writer wrote, for any reader of the elements.
use Prim.Native.Nat.{max}
use watchwoman.Base.{
  ℕ, suc, ◌+◌, ◌≤◌, ◌≡◌, ap, ◌∙◌, none, List, [], ◌∷◌, ◌++◌, arith, length, length-append,
  append_assoc, le→ltb,
}
use watchwoman.Base.Int.{ℤ}
use watchwoman.Base.Text.{Text}
use watchwoman.Protocol.Outcome.{ok}
use watchwoman.Protocol.Value.{
  Value, Items, Fields, Rows, string, array, object, template, no_items, item, no_fields, field,
  no_rows, row, length_items, length_fields, append_fields, get_field, insert_field, IsSize,
}
use watchwoman.Protocol.Fields.{
  AreFresh, AreFresh-no_fields, append_fields_nil, AreFresh-insert_field, insert_field_fresh,
  append_fields_assoc,
}
use watchwoman.Protocol.Bser.Ints.{write_int}
use watchwoman.Protocol.Bser.IntRoundTrip.{read_int-write_int}
use watchwoman.Protocol.Bser.Read.{
  Reader, key_text, with_capacity, read_items, read_fields, read_array, read_object,
}
use watchwoman.Protocol.Bser.At.{At, At-cons, At-append, slice_from-At}
use watchwoman.Protocol.Bser.Leaves.{ok_at}

-- A bound on how deep `read_value` calls itself on what is written for a value.
unfoldable mutual
  pub nesting : Value → ℕ
  nesting (array vs) = suc (nesting_items vs)
  nesting (object fs) = suc (nesting_fields fs)
  nesting (template ks rs) = suc (max 2 (nesting_rows rs))
  nesting _ = 1

  pub nesting_items : Items → ℕ
  nesting_items no_items = 0
  nesting_items (item v vs) = max (nesting v) (nesting_items vs)

  pub nesting_fields : Fields → ℕ
  nesting_fields no_fields = 1
  nesting_fields (field k v fs) = max (nesting v) (nesting_fields fs)

  pub nesting_rows : Rows → ℕ
  nesting_rows no_rows = 0
  nesting_rows (row r rs) = max (nesting_items r) (nesting_rows rs)

pub with_capacity_ok : (lim n : ℕ) → n ≤ lim → with_capacity lim (ℤ.pos n) ≡ ok tt
unfolding with_capacity
with_capacity_ok lim n h = rw (le→ltb lim n h)

-- At a position the reader finds `written`, and takes all of it as `v`.
abbrev pub ReadsBack : Reader → List ℕ → Value → Type 0
ReadsBack read written v = (rest : List ℕ) → read (written ++ rest) ≡ ok (v, length written)

abbrev pub ItemsBack : Reader → List ℕ → Items → Type 0
ItemsBack read written vs =
    (buf : List ℕ) (start : ℕ) (rest : List ℕ)
    → At buf start (written ++ rest)
    → read_items read (length_items vs) buf start ≡ ok (vs, start + length written)

-- Regroup what stands at a position.
pub At-assoc :
    (buf : List ℕ) (n : ℕ) (x y z : List ℕ) → At buf n ((x ++ y) ++ z) → At buf n (x ++ (y ++ z))
At-assoc buf n x y z (h, e) = (h, e ∙ append_assoc x y z)

pub no_items_back : (read : Reader) → ItemsBack read [] no_items
unfolding read_items
no_items_back read buf start rest at = ok_at _ (omega arith)

pub item_back :
    (read : Reader) (v : Value) (vs : Items) (w ws : List ℕ)
    → ReadsBack read w v
    → ItemsBack read ws vs
    → ItemsBack read (w ++ ws) (item v vs)
unfolding read_items
item_back read v vs w ws one more buf start rest at =
    let here = At-assoc buf start w ws rest at in
    let there = At-append buf start w (ws ++ rest) here in
    rw
      (
        slice_from-At buf start (w ++ (ws ++ rest)) here,
        one (ws ++ rest),
        more buf (start + length w) rest there,
      )
      (ok_at _ (omega (arith, length-append w ws)))

pub array_back :
    (lim : ℕ) (read : Reader) (vs : Items) (ws : List ℕ)
    → IsSize lim (length_items vs)
    → ItemsBack read ws vs
    → ReadsBack
        (read_array lim read)
        (0x00 ∷ (write_int (ℤ.pos (length_items vs)) ++ ws))
        (array vs)
unfolding read_array
array_back lim read vs ws (small, fits) more rest =
    let n : ℤ = ℤ.pos (length_items vs) in
    let count : List ℕ = write_int n in
    let at = At-cons 0x00 (count ++ (ws ++ rest)) in
    rw
      (
        append_assoc,
        slice_from-At _ 1 _ at,
        read_int-write_int n (ws ++ rest) small,
        with_capacity_ok lim _ fits,
        more _ (1 + length count) rest (At-append _ 1 count (ws ++ rest) at),
      )
      (ok_at _ (omega (arith, length-append count ws)))

abbrev pub FieldsBack : Reader → List ℕ → Fields → Type 0
FieldsBack read written fs =
    (buf : List ℕ) (start : ℕ) (rest : List ℕ) (obj : Fields)
    → AreFresh obj fs
    → At buf start (written ++ rest)
    → read_fields read (length_fields fs) buf start obj
      ≡ ok (append_fields obj fs, start + length written)

pub no_fields_back : (read : Reader) → FieldsBack read [] no_fields
unfolding read_fields
no_fields_back read buf start rest obj fresh at = rw (append_fields_nil obj) (ok_at _ (omega arith))

pub field_back :
    (read : Reader) (k : Text) (v : Value) (fs : Fields) (wk wv ws : List ℕ)
    → get_field fs k ≡ none
    → ReadsBack read wk (string k)
    → ReadsBack read wv v
    → FieldsBack read ws fs
    → FieldsBack read (wk ++ (wv ++ ws)) (field k v fs)
unfolding read_fields key_text
field_back read k v fs wk wv ws unique key one more buf start rest obj (new, fresh) at =
    let at_key = At-assoc buf start wk (wv ++ ws) rest at in
    let at_value =
      At-assoc buf (start + length wk) wv ws rest
        (At-append buf start wk ((wv ++ ws) ++ rest) at_key) in
    let behind = At-append buf (start + length wk) wv (ws ++ rest) at_value in
    let whole : append_fields (insert_field obj k v) fs ≡ append_fields obj (field k v fs) =
      ap (λ o. append_fields o fs) (insert_field_fresh obj k v new)
      ∙ append_fields_assoc obj (field k v no_fields) fs in
    rw
      (
        slice_from-At buf start _ at_key,
        key ((wv ++ ws) ++ rest),
        slice_from-At buf (start + length wk) _ at_value,
        one (ws ++ rest),
        more buf (start + length wk + length wv) rest (insert_field obj k v)
            (AreFresh-insert_field obj fs k v unique fresh) behind,
        whole,
      )
      (ok_at _ (omega (arith, length-append wk (wv ++ ws), length-append wv ws)))

pub object_back :
    (lim : ℕ) (read : Reader) (fs : Fields) (ws : List ℕ)
    → IsSize lim (length_fields fs)
    → FieldsBack read ws fs
    → ReadsBack
        (read_object lim read)
        (0x01 ∷ (write_int (ℤ.pos (length_fields fs)) ++ ws))
        (object fs)
unfolding read_object
object_back lim read fs ws (small, fits) more rest =
    let n : ℤ = ℤ.pos (length_fields fs) in
    let count : List ℕ = write_int n in
    let at = At-cons 0x01 (count ++ (ws ++ rest)) in
    rw
      (
        append_assoc,
        slice_from-At _ 1 _ at,
        read_int-write_int n (ws ++ rest) small,
        with_capacity_ok lim _ fits,
        more _ (1 + length count) rest no_fields (AreFresh-no_fields fs)
            (At-append _ 1 count (ws ++ rest) at),
      )
      (ok_at _ (omega (arith, length-append count ws)))
