-- ===== src/Query/Field.antt =====
-- crates/watchwoman/src/query/field.rs: the fields of a row of a result. The contents of files, the
-- SHA-1 digest and the division of reals are parameters.
pub mod Laws
use watchwoman.Base.{
  ℕ, ◌+◌, ◌-◌, ◌/◌, ◌%◌, ◌^◌, Bool, true, false, Option, none, some, List, [], ◌∷◌, ◌++◌, ◌==◌,
  nat_eq, list_eq, if◌then◌else◌, ltb,
}
use watchwoman.Base.Int.{ℤ, pos, negsuc, to_signed}
use watchwoman.Base.Text.{Text, FilePath, ascii}
use watchwoman.Protocol.Utf8.{from_utf8_lossy}
use watchwoman.Protocol.Value.{
  Value, Items, Fields, null, bool, int, real, string, object, no_items, item, no_fields, field,
  insert_field, as_array, as_str,
}
use watchwoman.Daemon.Clock.{Clock, encode}
use watchwoman.Daemon.Entry.{FileEntry, as_wire_str}
use watchwoman.Query.Paths.{path_bytes}
use watchwoman.Query.Expr.Parse.{
  Parsed, ok, bad, ◌>>=◌, or_bad, fields_not_array, field_not_string, unknown_field,
}

pub data Field : Type 0 where
  name exists size mode uid gid ino dev nlink mtime mtime_ms mtime_us mtime_ns mtime_f ctime
        ctime_ms ctime_us ctime_ns ctime_f type new cclock oclock symlink_target content_sha1_hex :
      Field

unfoldable pub parse : Text → Option Field
parse s =
    if s == ascii "name"
    then some name
    else if s == ascii "exists"
    then some exists
    else if s == ascii "size"
    then some size
    else if s == ascii "mode"
    then some mode
    else if s == ascii "uid"
    then some uid
    else if s == ascii "gid"
    then some gid
    else if s == ascii "ino"
    then some ino
    else if s == ascii "dev"
    then some dev
    else if s == ascii "nlink"
    then some nlink
    else if s == ascii "mtime"
    then some mtime
    else if s == ascii "mtime_ms"
    then some mtime_ms
    else if s == ascii "mtime_us"
    then some mtime_us
    else if s == ascii "mtime_ns"
    then some mtime_ns
    else if s == ascii "mtime_f"
    then some mtime_f
    else if s == ascii "ctime"
    then some ctime
    else if s == ascii "ctime_ms"
    then some ctime_ms
    else if s == ascii "ctime_us"
    then some ctime_us
    else if s == ascii "ctime_ns"
    then some ctime_ns
    else if s == ascii "ctime_f"
    then some ctime_f
    else if s == ascii "type"
    then some type
    else if s == ascii "new"
    then some new
    else if s == ascii "cclock"
    then some cclock
    else if s == ascii "oclock"
    then some oclock
    else if s == ascii "symlink_target"
    then some symlink_target
    else if s == ascii "content.sha1hex"
    then some content_sha1_hex
    else none

unfoldable pub wire_name : Field → Text
wire_name name = ascii "name"
wire_name exists = ascii "exists"
wire_name size = ascii "size"
wire_name mode = ascii "mode"
wire_name uid = ascii "uid"
wire_name gid = ascii "gid"
wire_name ino = ascii "ino"
wire_name dev = ascii "dev"
wire_name nlink = ascii "nlink"
wire_name mtime = ascii "mtime"
wire_name mtime_ms = ascii "mtime_ms"
wire_name mtime_us = ascii "mtime_us"
wire_name mtime_ns = ascii "mtime_ns"
wire_name mtime_f = ascii "mtime_f"
wire_name ctime = ascii "ctime"
wire_name ctime_ms = ascii "ctime_ms"
wire_name ctime_us = ascii "ctime_us"
wire_name ctime_ns = ascii "ctime_ns"
wire_name ctime_f = ascii "ctime_f"
wire_name type = ascii "type"
wire_name new = ascii "new"
wire_name cclock = ascii "cclock"
wire_name oclock = ascii "oclock"
wire_name symlink_target = ascii "symlink_target"
wire_name content_sha1_hex = ascii "content.sha1hex"

unfoldable pub default_fields : List Field
default_fields = name ∷ exists ∷ new ∷ size ∷ mode ∷ type ∷ []

abbrev known_field : Text → Option Field → Parsed Field
known_field s none = bad (unknown_field s)
known_field s (some f) = ok f

unfoldable pub parse_items : Items → Parsed (List Field)
parse_items no_items = ok []
parse_items (item v vs) = or_bad (as_str v) field_not_string >>= λ s.
    known_field s (parse s) >>= λ f. parse_items vs >>= λ out. ok (f ∷ out)

unfoldable pub parse_list : Value → Parsed (List Field)
parse_list value = or_bad (as_array value) fields_not_array >>= λ arr. parse_items arr

-- `n as i64` for an unsigned `n`, and the division of an i64, which rounds towards 0.
abbrev pub int_of : ℕ → Value
int_of n = int (to_signed (2 ^ 63) (n % 2 ^ 64))

abbrev negated_count : ℕ → ℤ
negated_count n = to_signed (2 ^ 63) ((2 ^ 64 - n) % 2 ^ 64)

abbrev pub seconds : ℤ → ℤ
seconds (pos n) = pos (n / 1000)
seconds (negsuc n) = negated_count ((n + 1) / 1000)

-- `contents` reads a whole file, if it can be opened and read; `digest` is its SHA-1; `real_seconds`
-- is `ns as f64 / 1_000_000_000.0`.
pub record Files : Type 0 where
  pub contents : Text → FilePath → Option (List ℕ)
  pub digest : List ℕ → List ℕ
  pub real_seconds : ℕ → ℕ

-- `{b:02x}`.
abbrev hex_digit : ℕ → ℕ
hex_digit d = if ltb d 10 then b'0' + d else b'a' + (d - 10)

abbrev hex : List ℕ → Text
hex [] = []
hex (b ∷ bs) = hex_digit (b / 16) ∷ hex_digit (b % 16) ∷ hex bs

abbrev text_or_null : Option Text → Value
text_or_null none = null
text_or_null (some t) = string t

-- `fields.len() == 1 && fields[0] == Field::Name`.
abbrev is_name : Field → Bool
is_name name = true
is_name _ = false

abbrev pub is_only_name : List Field → Bool
is_only_name (f ∷ []) = is_name f
is_only_name _ = false

module _ (files : Files) where
  unfoldable pub sha1_of : Text → FilePath → Value
  sha1_of root_path rel = elim (files.contents root_path rel) [
    | none ↦ null
    | some b ↦ string (hex (files.digest b))
  ]

  module _ (root_path : Text) (rel : FilePath) (entry : FileEntry) (clock : Clock) where
    unfoldable pub render : Field → Value
    render name = string (from_utf8_lossy (path_bytes rel))
    render exists = bool entry.exists
    render size = int_of entry.size
    render mode = int_of entry.mode
    render uid = int_of entry.uid
    render gid = int_of entry.gid
    render ino = int_of entry.ino
    render dev = int_of entry.dev
    render nlink = int_of entry.nlink
    render mtime = int (seconds entry.mtime_ms)
    render mtime_ms = int entry.mtime_ms
    render mtime_us = int_of (entry.mtime_ns / 1_000)
    render mtime_ns = int_of entry.mtime_ns
    render mtime_f = real (files.real_seconds entry.mtime_ns)
    render ctime = int (seconds entry.ctime_ms)
    render ctime_ms = int entry.ctime_ms
    render ctime_us = int_of (entry.ctime_ns / 1_000)
    render ctime_ns = int_of entry.ctime_ns
    render ctime_f = real (files.real_seconds entry.ctime_ns)
    render type = string (as_wire_str entry.kind)
    render new = bool entry.is_new
    render cclock = string (encode clock entry.cclock)
    render oclock = string (encode clock entry.oclock)
    render symlink_target = text_or_null entry.symlink_target
    render content_sha1_hex = sha1_of root_path rel

    unfoldable pub render_all : Fields → List Field → Fields
    render_all out [] = out
    render_all out (f ∷ fs) = render_all (insert_field out (wire_name f) (render f)) fs

    unfoldable pub render_row : List Field → Value
    render_row fields =
        if is_only_name fields then render name else object (render_all no_fields fields)
