-- ===== src/Protocol/Bser/Sound.antt =====
-- What `read_value` ensures on any input: bounds on what it consumes and on the stack it uses, and a
-- well-formed value.
use watchwoman.Base.{
  ℕ, zero, suc, ◌+◌, ◌-◌, ◌≤◌, ◌<◌, ◌≡◌, refl, ap, ◌∙◌, subst, sym, true, some, List, [], ◌∷◌,
  arith, inl, inr, Bool-cases, Option-cases, length, length-drop, All-drop, drop, get_elem?, ◌==◌,
  nat_eq, list_eq, eq_iff,
}
use watchwoman.Base.Text.{Text}
use watchwoman.Protocol.Outcome.{
  Outcome, Ensures, returned, failed, Ensures-bind, Ensures-weaken, bind_assoc, ◌>>=◌,
}
use watchwoman.Protocol.Utf8.Lossy.{is_utf8-from_utf8_lossy, length-from_utf8_lossy}
use watchwoman.Protocol.Value.{
  Value, Fields, null, string, bytes, no_fields, field, length_items, length_fields, length_rows,
  get_field, insert_field, IsText, IsWellFormed, AreWellFormed, AreFields, AreRows,
}
use watchwoman.Protocol.Fields.{get_field-insert_field, length_fields-insert_field}
use watchwoman.Protocol.Bser.Read.{
  Reader, is_skip, key_text, read_items, read_fields, read_cells, read_rows, slice_from,
}
use watchwoman.Protocol.Bser.SoundLeaves.{IsByte, IsInput, slice_from_sound}

-- A value read off the front of `buf`, with the bytes that it took.
abbrev pub IsRead : ℕ → List ℕ → Value × ℕ → Type 0
IsRead lim buf (v, n) = (1 ≤ n) × (n ≤ length buf) × IsWellFormed lim v

-- A reader that gives such values, and exhausts the stack only on `bound` bytes or more.
abbrev pub IsSound : ℕ → ℕ → Reader → Type 0
IsSound lim bound read =
    (buf : List ℕ) → IsInput buf → Ensures (bound ≤ length buf) (IsRead lim buf) (read buf)

pub IsInput-drop : (n : ℕ) (buf : List ℕ) → IsInput buf → IsInput (drop n buf)
IsInput-drop n buf (h, few) = (All-drop IsByte n buf h, omega (arith, length-drop n buf))

pub key_text-IsText :
    (lim : ℕ) (v : Value) (k : Text) → IsWellFormed lim v → key_text v ≡ some k → IsText k
unfolding key_text IsWellFormed
key_text-IsText lim (string s) k wf e = subst IsText (cc) wf
key_text-IsText lim (bytes b) k (_, few) e =
    subst IsText (cc) (is_utf8-from_utf8_lossy b, omega (arith, length-from_utf8_lossy b))
key_text-IsText lim null k wf e = cc
key_text-IsText lim _ k wf e = cc

AreFields-insert_field :
    (lim : ℕ) (fs : Fields) (k : Text) (v : Value)
    → IsText k
    → IsWellFormed lim v
    → AreFields lim fs
    → AreFields lim (insert_field fs k v)
unfolding get_field insert_field IsWellFormed
AreFields-insert_field lim no_fields k v text wf wfs = (text, refl, wf, tt)
AreFields-insert_field lim (field j w fs) k v text wf (tj, unique, wj, wfs) =
    elim (Bool-cases (j == k)) [
      | inl same ↦ rw same (tj, unique, wf, wfs)
      | inr other ↦ rw other (
        tj,
        ground (arith, get_field-insert_field fs k j v, eq_iff k j, eq_iff j k),
        wj,
        AreFields-insert_field lim fs k v text wf wfs,
      )
    ]

-- A byte that is there is in bounds.
skip_in_bounds : (buf : List ℕ) (n : ℕ) → is_skip (get_elem? buf n) ≡ true → n < length buf
skip_in_bounds [] n h = cc
skip_in_bounds (b ∷ buf) zero h = omega arith
skip_in_bounds (b ∷ buf) (suc n) h = omega (arith, skip_in_bounds buf n h)

module _ (lim bound : ℕ) (read : Reader) (sound : IsSound lim bound read) where
  -- The reader at a position past the first byte, and what goes on with its value.
  pub read_then :
      {B : Type 0} {Q : B → Type 0} (buf : List ℕ) (n : ℕ) (k : Value × ℕ → Outcome B)
      → IsInput buf
      → 1 ≤ n
      → ((v : Value) (c : ℕ)
          → (1 ≤ c) × (n + c ≤ length buf) × IsWellFormed lim v
          → Ensures (suc bound ≤ length buf) Q (k (v, c)))
      → Ensures (suc bound ≤ length buf) Q (slice_from buf n >>= λ view. read view >>= k)
  read_then buf n k input behind next = Ensures-bind (slice_from_sound buf n) λ view (room, e).
      let size : length view ≡ length buf - n = ap length e ∙ length-drop n buf in
      Ensures-bind
        (Ensures-weaken (λ deep. omega arith) (λ p h. h)
          (sound view (subst IsInput (sym e) (IsInput-drop n buf input))))
        λ (v, c) (taken, fits, wf). next v c (taken, omega arith, wf)

  pub read_items_sound :
      (count : ℕ) (buf : List ℕ) (n : ℕ)
      → IsInput buf
      → 1 ≤ n
      → n ≤ length buf
      → Ensures
          (suc bound ≤ length buf)
          (λ (vs, e). (n ≤ e) × (e ≤ length buf) × (length_items vs ≡ count) × AreWellFormed lim vs)
          (read_items read count buf n)
  unfolding read_items IsWellFormed
  read_items_sound zero buf n input behind room = returned (omega arith, room, refl, tt)
  read_items_sound (suc count) buf n input behind room =
      read_then buf n _ input behind λ v c (taken, fits, wf).
        Ensures-bind (read_items_sound count buf (n + c) input (omega arith) fits)
          λ (vs, e) (after, till, len, wfs). returned (omega arith, till, ap suc len, (wf, wfs))

  pub read_fields_sound :
      (count : ℕ) (buf : List ℕ) (n : ℕ) (obj : Fields)
      → IsInput buf
      → 1 ≤ n
      → n ≤ length buf
      → AreFields lim obj
      → Ensures
          (suc bound ≤ length buf)
          (λ (fs, e).
            (n ≤ e)
            × (e ≤ length buf)
            × (length_fields fs ≤ length_fields obj + count)
            × AreFields lim fs)
          (read_fields read count buf n obj)
  unfolding read_fields
  read_fields_sound zero buf n obj input behind room wf =
      returned (omega arith, room, omega arith, wf)
  read_fields_sound (suc count) buf n obj input behind room wf =
      read_then buf n _ input behind λ k c (taken, fits, wk). elim (Option-cases (key_text k)) [
        | inl other ↦ rw other failed
        | inr (key, text) ↦ rw text (
            read_then buf (n + c) _ input (omega arith) λ v c' (taken', fits', wv).
              let isText : IsText key = key_text-IsText lim k key wk text in
              Ensures-weaken (λ deep. deep)
                (λ (fs, e) (after, till, len, wfs).
                  (omega arith, till, omega (arith, length_fields-insert_field obj key v), wfs))
                (read_fields_sound count buf (n + c + c') (insert_field obj key v) input
                  (omega arith) fits' (AreFields-insert_field lim obj key v isText wv wf)))
      ]

  pub read_cells_sound :
      (count : ℕ) (buf : List ℕ) (n : ℕ)
      → IsInput buf
      → 1 ≤ n
      → n ≤ length buf
      → Ensures
          (suc bound ≤ length buf)
          (λ (vs, e). (n ≤ e) × (e ≤ length buf) × (length_items vs ≡ count) × AreWellFormed lim vs)
          (read_cells read count buf n)
  unfolding read_cells IsWellFormed
  read_cells_sound zero buf n input behind room = returned (omega arith, room, refl, tt)
  read_cells_sound (suc count) buf n input behind room =
      elim (Bool-cases (is_skip (get_elem? buf n))) [
        | inl skip ↦ rw skip (
            Ensures-bind
              (read_cells_sound count buf (n + 1) input (omega arith)
                (omega (arith, skip_in_bounds buf n skip)))
              λ (vs, e) (after, till, len, wfs).
                returned (omega arith, till, ap suc len, (tt, wfs)))
        | inr cell ↦ rw cell (
            rw (bind_assoc (slice_from buf n) read) (
              read_then buf n _ input behind λ v c (taken, fits, wf).
                Ensures-bind (read_cells_sound count buf (n + c) input (omega arith) fits)
                  λ (vs, e) (after, till, len, wfs).
                    returned (omega arith, till, ap suc len, (wf, wfs))))
      ]

  pub read_rows_sound :
      (width count : ℕ) (buf : List ℕ) (n : ℕ)
      → IsInput buf
      → 1 ≤ n
      → n ≤ length buf
      → Ensures
          (suc bound ≤ length buf)
          (λ (rs, e). (n ≤ e) × (e ≤ length buf) × (length_rows rs ≡ count) × AreRows lim width rs)
          (read_rows read width count buf n)
  unfolding read_rows IsWellFormed
  read_rows_sound width zero buf n input behind room = returned (omega arith, room, refl, tt)
  read_rows_sound width (suc count) buf n input behind room =
      Ensures-bind (read_cells_sound width buf n input behind room) λ (r, m) (after, fits, len, wf).
        Ensures-bind (read_rows_sound width count buf m input (omega arith) fits)
          λ (rs, e) (after', till, lens, wfs).
            returned (omega arith, till, ap suc lens, (len, wf, wfs))
