-- ===== src/Protocol/Fields.antt =====
-- Laws of the insertion-ordered map inside an object value.
use watchwoman.Base.{
  suc, ◌≤◌, ◌≡◌, refl, ap, none, some, arith, ◌==◌, eq_iff, if◌then◌else◌, list_eq, nat_eq,
}
use watchwoman.Base.Text.{Text}
use watchwoman.Protocol.Value.{
  Value, Fields, no_fields, field, get_field, insert_field, append_fields, length_fields,
}

pub get_field-insert_field :
    (fs : Fields) (k j : Text) (v : Value)
    → get_field (insert_field fs k v) j ≡ (if k == j then some v else get_field fs j)
unfolding get_field insert_field
get_field-insert_field no_fields k j v = refl
get_field-insert_field (field i w fs) k j v =
    ground (arith, eq_iff k j, eq_iff i k, eq_iff i j, get_field-insert_field fs k j v)

-- A key that is not there is appended.
pub insert_field_fresh :
    (fs : Fields) (k : Text) (v : Value)
    → get_field fs k ≡ none
    → insert_field fs k v ≡ append_fields fs (field k v no_fields)
unfolding get_field insert_field
insert_field_fresh no_fields k v h = refl
insert_field_fresh (field i w fs) k v h = ground (arith, insert_field_fresh fs k v)

pub append_fields_assoc :
    (fs gs hs : Fields)
    → append_fields (append_fields fs gs) hs ≡ append_fields fs (append_fields gs hs)
append_fields_assoc no_fields gs hs = refl
append_fields_assoc (field k v fs) gs hs = ap (field k v) (append_fields_assoc fs gs hs)

pub append_fields_nil : (fs : Fields) → append_fields fs no_fields ≡ fs
append_fields_nil no_fields = refl
append_fields_nil (field k v fs) = ap (field k v) (append_fields_nil fs)

pub length_fields-insert_field :
    (fs : Fields) (k : Text) (v : Value)
    → length_fields (insert_field fs k v) ≤ suc (length_fields fs)
unfolding insert_field
length_fields-insert_field no_fields k v = omega arith
length_fields-insert_field (field i w fs) k v = ground (arith, length_fields-insert_field fs k v)

-- None of the keys of the second map is in the first.
abbrev pub AreFresh : Fields → Fields → Type 0
AreFresh obj no_fields = Unit
AreFresh obj (field k v fs) = (get_field obj k ≡ none) × AreFresh obj fs

pub AreFresh-no_fields : (fs : Fields) → AreFresh no_fields fs
unfolding get_field
AreFresh-no_fields no_fields = tt
AreFresh-no_fields (field k v fs) = (refl, AreFresh-no_fields fs)

pub AreFresh-insert_field :
    (obj fs : Fields) (k : Text) (v : Value)
    → get_field fs k ≡ none
    → AreFresh obj fs
    → AreFresh (insert_field obj k v) fs
unfolding get_field
AreFresh-insert_field obj no_fields k v h fresh = tt
AreFresh-insert_field obj (field j w fs) k v h (new, fresh) = (
  ground (arith, get_field-insert_field obj k j v, eq_iff j k, eq_iff k j),
  AreFresh-insert_field obj fs k v (ground arith) fresh,
)
