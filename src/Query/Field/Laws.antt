-- ===== src/Query/Field/Laws.antt =====
-- Field names read back, and a row holds the fields that were asked for.
use watchwoman.Base.{
  ◌↔◌, sym, ap, ◌∙◌, ◌≡◌, refl, Bool, false, Option, none, some, List, [], ◌∷◌, arith, ◌==◌, eq_iff,
  nat_eq, list_eq, if◌then◌else◌, Bool-cases, inl, inr, any,
}
use watchwoman.Base.Text.{Text, FilePath}
use watchwoman.Protocol.Value.{Value, Fields, object, no_fields, get_field, insert_field}
use watchwoman.Protocol.Fields.{get_field-insert_field}
use watchwoman.Daemon.Clock.{Clock}
use watchwoman.Daemon.Entry.{FileEntry}
use watchwoman.Query.Field.{
  Field, parse, wire_name, Files, render, render_all, render_row, is_only_name, name, exists, size,
  mode, uid, gid, ino, dev, nlink, mtime, mtime_ms, mtime_us, mtime_ns, mtime_f, ctime, ctime_ms,
  ctime_us, ctime_ns, ctime_f, type, new, cclock, oclock, symlink_target, content_sha1_hex,
}

pub parse-wire_name : (f : Field) → parse (wire_name f) ≡ some f
unfolding parse wire_name
parse-wire_name name = refl
parse-wire_name exists = refl
parse-wire_name size = refl
parse-wire_name mode = refl
parse-wire_name uid = refl
parse-wire_name gid = refl
parse-wire_name ino = refl
parse-wire_name dev = refl
parse-wire_name nlink = refl
parse-wire_name mtime = refl
parse-wire_name mtime_ms = refl
parse-wire_name mtime_us = refl
parse-wire_name mtime_ns = refl
parse-wire_name mtime_f = refl
parse-wire_name ctime = refl
parse-wire_name ctime_ms = refl
parse-wire_name ctime_us = refl
parse-wire_name ctime_ns = refl
parse-wire_name ctime_f = refl
parse-wire_name type = refl
parse-wire_name new = refl
parse-wire_name cclock = refl
parse-wire_name oclock = refl
parse-wire_name symlink_target = refl
parse-wire_name content_sha1_hex = refl

module _ (s : Text) (f : Field) where
  arm :
      (lit : Text) (g : Field) (rest : Option Field)
      → wire_name g ≡ lit
      → (rest ≡ some f → wire_name f ≡ s)
      → (if s == lit then some g else rest) ≡ some f
      → wire_name f ≡ s
  arm lit g rest w other h = elim (Bool-cases (s == lit)) [
    | inl same ↦ ground (arith, w, eq_iff s lit, same, rw same at h)
    | inr differs ↦ other (rw differs at h)
  ]

  pub wire_name-parse : parse s ≡ some f → wire_name f ≡ s
  unfolding parse wire_name
  wire_name-parse = arm _ name _ refl (
      arm _ exists _ refl (
        arm _ size _ refl (
          arm _ mode _ refl (
            arm _ uid _ refl (
              arm _ gid _ refl (
                arm _ ino _ refl (
                  arm _ dev _ refl (
                    arm _ nlink _ refl (
                      arm _ mtime _ refl (
                        arm _ mtime_ms _ refl (
                          arm _ mtime_us _ refl (
                            arm _ mtime_ns _ refl (
                              arm _ mtime_f _ refl (
                                arm _ ctime _ refl (
                                  arm _ ctime_ms _ refl (
                                    arm _ ctime_us _ refl (
                                      arm _ ctime_ns _ refl (
                                        arm _ ctime_f _ refl (
                                          arm _ type _ refl (
                                            arm _ new _ refl (
                                              arm _ cclock _ refl (
                                                arm _ oclock _ refl (
                                                  arm _ symlink_target _ refl (
                                                    arm _ content_sha1_hex _ refl
                                                      (λ h. cc)))))))))))))))))))))))))

-- A text is read as a field exactly if it is the name that the field goes by on the wire.
pub parse-wire_name_iff : (s : Text) (f : Field) → (parse s ≡ some f) ↔ (s ≡ wire_name f)
parse-wire_name_iff s f = (λ h. sym (wire_name-parse s f h), λ h. ap parse h ∙ parse-wire_name f)

-- Whether a list of fields has one that goes by a key.
abbrev pub is_asked : List Field → Text → Bool
is_asked fs k = any (λ f. wire_name f == k) fs

abbrev pub cell : {A : Type 0} → Bool → (Field → A) → Option Field → Option A → Option A
cell asked at none old = old
cell asked at (some f) old = if asked then some (at f) else old

module _ (files : Files) (root_path : Text) (rel : FilePath) (entry : FileEntry)
    (clock : Clock) where
  abbrev pub at : Field → Value
  at f = render files root_path rel entry clock f

  get_field-render_all :
      (out : Fields) (fs : List Field) (k : Text)
      → get_field (render_all files root_path rel entry clock out fs) k
        ≡ cell (is_asked fs k) at (parse k) (get_field out k)
  unfolding render_all
  get_field-render_all out [] k = ground arith
  get_field-render_all out (f ∷ fs) k = ground (
    arith,
    get_field-render_all (insert_field out (wire_name f) (at f)) fs k,
    get_field-insert_field out (wire_name f) k (at f),
    eq_iff (wire_name f) k,
    parse-wire_name f,
  )

  -- Unless the only field asked for is the name, a row is an object whose value at any key is that
  -- field's rendering if the key is the wire name of a field that was asked for, and none
  -- otherwise.
  pub render_row_fields :
      (fs : List Field)
      → is_only_name fs ≡ false
      → (o : Fields) × (render_row files root_path rel entry clock fs ≡ object o)
        × ((k : Text) → get_field o k ≡ cell (is_asked fs k) at (parse k) none)
  unfolding render_row get_field
  render_row_fields fs h = (
    render_all files root_path rel entry clock no_fields fs,
    rw h refl,
    λ k. get_field-render_all no_fields fs k,
  )
