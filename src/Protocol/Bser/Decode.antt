-- ===== src/Protocol/Bser/Decode.antt =====
-- What `read_value` and `decode_pdu` ensure on any bytes.
use watchwoman.Base.{
  ℕ, zero, suc, ◌+◌, ◌*◌, ◌^◌, ◌≤◌, ◌<◌, ◌≡◌, refl, ap, subst, sym, ◌||◌, ◌&&◌, ◌≢◌, List, [], ◌∷◌,
  arith, inl, inr, Bool-cases, Option-cases, length, length-drop, All, All-drop, leb, ◌==◌, nat_eq,
  if◌then◌else◌,
}
use watchwoman.Base.Int.{ℤ, pos, negsuc, pos_part, InRange}
use watchwoman.Protocol.Outcome.{
  ok, stack_overflow, Ensures, returned, failed, overflowed, Ensures-bind, Ensures-if, Ensures-ok,
  Ensures-stack_overflow, Ensures-weaken,
}
use watchwoman.Protocol.Utf8.{is_utf8}
use watchwoman.Protocol.Value.{
  Value, Items, null, string, bytes, array, no_items, item, no_fields, length_items, IsText, IsSize,
  IsWellFormed, AreWellFormed,
}
use watchwoman.Protocol.Bser.Read.{
  Reader, key_text, template_keys, keys_of, read_array, read_object, read_template, read_real,
  read_int_value, read_string, read_tagged, read_value,
}
use watchwoman.Protocol.Bser.SoundLeaves.{
  IsByte, IsInput, need_sound, slice_from_sound, with_capacity_sound, read_int_sound,
  read_string_sound, word-lt,
}
use watchwoman.Protocol.Bser.Sound.{
  IsRead, IsSound, key_text-IsText, read_then, read_items_sound, read_fields_sound, read_rows_sound,
}

pos_part-lt : (half : ℕ) (z : ℤ) → 0 < half → InRange half z → pos_part z < half
pos_part-lt half (pos n) h k = k
pos_part-lt half (negsuc n) h k = h

template_keys_sound :
    (lim : ℕ) {O : Type 0} (vs : Items)
    → AreWellFormed lim vs
    → Ensures O (λ ks. All IsText ks × (length ks ≡ length_items vs)) (template_keys vs)
unfolding template_keys IsWellFormed
template_keys_sound lim no_items wf = returned (tt, refl)
template_keys_sound lim (item v vs) (wf, wfs) = elim (Option-cases (key_text v)) [
  | inl other ↦ rw (other, template_keys) failed
  | inr (k, text) ↦
      rw (text, template_keys)
        (Ensures-bind (template_keys_sound lim vs wfs)
          λ ks (texts, len). returned ((key_text-IsText lim v k wf text, texts), ap suc len))
]

keys_of_sound :
    (lim : ℕ) {O : Type 0} (v : Value)
    → IsWellFormed lim v
    → Ensures O (λ ks. All IsText ks × IsSize lim (length ks)) (keys_of v)
unfolding IsWellFormed
keys_of_sound lim (array vs) (size, wf) =
    Ensures-weaken (λ o. o) (λ ks (texts, len). (texts, rw len size))
      (template_keys_sound lim vs wf)
keys_of_sound lim null wf = failed
keys_of_sound lim _ wf = failed

text_or_bytes :
    (lim : ℕ) (s : List ℕ)
    → 3 * length s < 2 ^ 63
    → IsWellFormed lim (if is_utf8 s then string s else bytes s)
unfolding IsWellFormed
text_or_bytes lim s few = elim (Bool-cases (is_utf8 s)) [
  | inl valid ↦ rw valid (valid, omega arith)
  | inr invalid ↦ rw invalid (invalid, few)
]

module _ {O : Type 0} (lim : ℕ) (buf : List ℕ) (input : IsInput buf) where
  int_arm : Ensures O (IsRead lim buf) (read_int_value buf)
  unfolding read_int_value IsWellFormed
  int_arm =
      Ensures-bind (read_int_sound buf input.0)
        λ (z, n) (two, fits, range). returned (omega arith, fits, range)

  string_arm : Ensures O (IsRead lim buf) (read_string buf)
  string_arm =
      Ensures-weaken (λ o. o)
        (λ (v, n) (some_byte, fits, (s, e, short)). (
          some_byte,
          fits,
          subst (IsWellFormed lim) (sym e) (text_or_bytes lim s (omega (arith, input.1))),
        ))
        (read_string_sound buf input)

  real_arm : Ensures O (IsRead lim buf) (read_real buf)
  unfolding read_real IsWellFormed
  real_arm =
      Ensures-bind (need_sound buf 9)
        λ _ room. returned (omega arith, room, word-lt 8 buf input.0 room)

module _ (lim bound : ℕ) (read : Reader) (sound : IsSound lim bound read) (buf : List ℕ)
    (input : IsInput buf) where
  array_arm : Ensures (suc bound ≤ length buf) (IsRead lim buf) (read_array lim read buf)
  unfolding read_array IsWellFormed
  array_arm = Ensures-bind (slice_from_sound buf 1) λ view (room, e).
      Ensures-bind (read_int_sound view (rw e (All-drop IsByte 1 buf input.0)))
        λ (count, n) (two, fits, range).
          let within : 1 + n ≤ length buf = omega (arith, ap length e, length-drop 1 buf) in
          Ensures-bind (with_capacity_sound lim count) λ _ granted.
            Ensures-bind
              (read_items_sound lim bound read sound (pos_part count) buf (1 + n) input
                (omega arith) within)
              λ (vs, end) (after, till, len, wf). returned (
                omega arith,
                till,
                (rw len (pos_part-lt (2 ^ 63) count (omega arith) range, granted), wf),
              )

  object_arm : Ensures (suc bound ≤ length buf) (IsRead lim buf) (read_object lim read buf)
  unfolding read_object IsWellFormed
  object_arm = Ensures-bind (slice_from_sound buf 1) λ view (room, e).
      Ensures-bind (read_int_sound view (rw e (All-drop IsByte 1 buf input.0)))
        λ (count, n) (two, fits, range).
          let within : 1 + n ≤ length buf = omega (arith, ap length e, length-drop 1 buf) in
          Ensures-bind (with_capacity_sound lim count) λ _ granted.
            Ensures-bind
              (read_fields_sound lim bound read sound (pos_part count) buf (1 + n) no_fields input
                (omega arith) within tt)
              λ (fs, end) (after, till, len, wf).
                let few : pos_part count < 2 ^ 63 =
                  pos_part-lt (2 ^ 63) count (omega arith) range in
                returned (omega arith, till, ((omega arith, omega arith), wf))

  template_arm : Ensures (suc bound ≤ length buf) (IsRead lim buf) (read_template lim read buf)
  unfolding read_template IsWellFormed
  template_arm = read_then lim bound read sound buf 1 _ input (omega arith) λ v c (taken, fits, wf).
      Ensures-bind (keys_of_sound lim v wf) λ ks (texts, ksize).
        Ensures-bind (slice_from_sound buf (1 + c)) λ view (room, e).
          Ensures-bind (read_int_sound view (rw e (All-drop IsByte (1 + c) buf input.0)))
            λ (count, n) (two, there, range).
              let within : 1 + c + n ≤ length buf =
                omega (arith, ap length e, length-drop (1 + c) buf) in
              Ensures-bind (with_capacity_sound lim count) λ _ granted.
                Ensures-bind
                  (read_rows_sound lim bound read sound (length ks) (pos_part count) buf (1 + c + n)
                    input (omega arith) within)
                  λ (rs, end) (after, till, len, wfs). returned (
                    omega arith,
                    till,
                    (
                      ksize,
                      texts,
                      rw len (pos_part-lt (2 ^ 63) count (omega arith) range, granted),
                      wfs,
                    ),
                  )

tagged_sound :
    (lim bound : ℕ) (read : Reader) (buf : List ℕ)
    → IsSound lim bound read
    → IsInput buf
    → Ensures (suc bound ≤ length buf) (IsRead lim buf) (read_tagged lim read buf)
unfolding read_tagged IsWellFormed
tagged_sound lim bound read [] sound input = failed
tagged_sound lim bound read (tag ∷ rest) sound input =
    let buf : List ℕ = tag ∷ rest in
    Ensures-if (tag == 0x0a) (λ _. returned (omega arith, omega arith, tt))
      λ _.
        Ensures-if (tag == 0x08) (λ _. returned (omega arith, omega arith, tt))
          λ _.
            Ensures-if (tag == 0x09) (λ _. returned (omega arith, omega arith, tt))
              λ _.
                Ensures-if (leb 0x03 tag && leb tag 0x06) (λ _. int_arm lim buf input)
                  λ _.
                    Ensures-if (tag == 0x07) (λ _. real_arm lim buf input)
                      λ _.
                        Ensures-if (tag == 0x02 || tag == 0x0d) (λ _. string_arm lim buf input)
                          λ _.
                            Ensures-if (tag == 0x00) (λ _. array_arm lim bound read sound buf input)
                              λ _.
                                Ensures-if (tag == 0x01)
                                  (λ _. object_arm lim bound read sound buf input)
                                  λ _.
                                    Ensures-if (tag == 0x0b)
                                      (λ _. template_arm lim bound read sound buf input)
                                      λ _. Ensures-if (tag == 0x0c) (λ _. failed) λ _. failed

pub read_value-IsSound : (lim depth : ℕ) → IsSound lim depth (read_value lim depth)
unfolding read_value
read_value-IsSound lim zero buf input = overflowed (omega arith)
read_value-IsSound lim (suc depth) buf input =
    tagged_sound lim depth (read_value lim depth) buf (read_value-IsSound lim depth) input

-- Whatever bytes a payload of fewer bytes than a third of 2^63 holds, a value that `read_value`
-- returns is well-formed (UTF-8 in its strings, i64 integers, distinct keys in its objects, rows
-- as wide as their template), and it took at least one byte and no more than there are.
pub read_value_sound :
    (lim depth : ℕ) (buf : List ℕ) (v : Value) (n : ℕ)
    → IsInput buf
    → read_value lim depth buf ≡ ok (v, n)
    → (1 ≤ n) × (n ≤ length buf) × IsWellFormed lim v
read_value_sound lim depth buf v n input = Ensures-ok (read_value-IsSound lim depth buf input)

-- A stack of more levels than a payload has bytes, fewer than a third of 2^63, is never
-- exhausted by reading the payload.
pub read_value-ne-stack_overflow :
    (lim depth : ℕ) (buf : List ℕ)
    → IsInput buf
    → length buf < depth
    → read_value lim depth buf ≢ stack_overflow
read_value-ne-stack_overflow lim depth buf input h e =
    let deep = Ensures-stack_overflow (read_value-IsSound lim depth buf input) e in
    absurd (omega arith)
