-- ===== src/Protocol/Bser/At.antt =====
-- What a buffer holds at a position, and the slices of the reader there.
use watchwoman.Base.{
  ℕ, zero, suc, ◌+◌, ◌-◌, ◌^◌, ◌≤◌, ◌<◌, ◌%◌, ◌≡◌, refl, ap, ◌∙◌, List, [], ◌∷◌, ◌++◌, arith,
  le→ltb, length, length-append, length-drop, drop, drop-append_front, take-append_front,
  if◌then◌else◌,
}
use native.Mathlib.Nat.{mod-eq_of_lt}
use watchwoman.Base.Int.{ℤ}
use watchwoman.Protocol.Outcome.{ok}
use watchwoman.Protocol.Utf8.{is_utf8}
use watchwoman.Protocol.Value.{string, bytes}
use watchwoman.Protocol.Bser.Ints.{need, write_int}
use watchwoman.Protocol.Bser.IntRoundTrip.{read_int-write_int, length-write_int}
use watchwoman.Protocol.Bser.Read.{slice_from, slice, read_string}

-- From position `pos` on, `buf` is `x`.
abbrev pub At : List ℕ → ℕ → List ℕ → Type 0
At buf pos x = (pos ≤ length buf) × (drop pos buf ≡ x)

drop_add : (n m : ℕ) (xs : List ℕ) → drop (n + m) xs ≡ drop m (drop n xs)
drop_add zero m xs = ap (λ k. drop k xs) (omega arith)
drop_add (suc n) m [] = ground (arith, drop-nil (suc n + m), drop-nil m)
  where
    drop-nil : (k : ℕ) → drop k (◌++◌ {A = ℕ} [] []) ≡ []
    drop-nil zero = refl
    drop-nil (suc k) = refl
drop_add (suc n) m (x ∷ xs) = ap (λ k. drop k (x ∷ xs)) shift ∙ drop_add n m xs
  where
    shift : suc n + m ≡ suc (n + m)
    shift = omega arith

pub At-cons : (b : ℕ) (x : List ℕ) → At (b ∷ x) 1 x
At-cons b x = (omega arith, refl)

-- Behind the front of what is there.
pub At-append :
    (buf : List ℕ) (pos : ℕ) (x y : List ℕ) → At buf pos (x ++ y) → At buf (pos + length x) y
At-append buf pos x y (h, e) = (
  omega (arith, length-drop pos buf, ap length e, length-append x y),
  drop_add pos (length x) buf ∙ ap (drop (length x)) e ∙ drop-append_front x y,
)

pub slice_from-At : (buf : List ℕ) (pos : ℕ) (x : List ℕ) → At buf pos x → slice_from buf pos ≡ ok x
unfolding slice_from
slice_from-At buf pos x (h, e) = rw (le→ltb (length buf) pos h) (ap ok e)

-- Where `x` and more stands at `pos`, the buffer is long enough.
pub length-At :
    (buf : List ℕ) (pos : ℕ) (x y : List ℕ)
    → At buf pos (x ++ y)
    → pos + length x + length y ≡ length buf
length-At buf pos x y (h, e) = omega (arith, length-drop pos buf, ap length e, length-append x y)

pub slice-At :
    (buf : List ℕ) (from till : ℕ) (x y : List ℕ)
    → At buf from (x ++ y)
    → till ≡ from + length x
    → slice buf from till ≡ ok x
unfolding slice
slice-At buf from till x y at e =
    let size : from + length x + length y ≡ length buf = length-At buf from x y at in
    let room : till - from ≡ length x = omega arith in
    rw (
      le→ltb till from (omega arith),
      le→ltb (length buf) till (omega arith),
      room,
      at.1,
      take-append_front x y,
    )

-- A length-prefixed byte sequence behind any tag byte: a string if it is UTF-8, else bytes.
pub read_string_lem :
    (tag : ℕ) (s rest : List ℕ)
    → length s < 2 ^ 63
    → let prefix = write_int (ℤ.pos (length s)) in
      read_string (tag ∷ (prefix ++ (s ++ rest)))
      ≡ ok (if is_utf8 s then string s else bytes s, 1 + length prefix + length s)
unfolding read_string need
read_string_lem tag s rest h =
    let prefix : List ℕ = write_int (ℤ.pos (length s)) in
    let buf : List ℕ = tag ∷ (prefix ++ (s ++ rest)) in
    let at : At buf (1 + length prefix) (s ++ rest) =
      At-append buf 1 prefix (s ++ rest) (At-cons tag (prefix ++ (s ++ rest))) in
    let size : 1 + length prefix + length s + length rest ≡ length buf =
      length-At buf _ s rest at in
    let small : length prefix ≤ 9 = (length-write_int (ℤ.pos (length s))).1 in
    let whole : length s % 2 ^ 64 ≡ length s = mod-eq_of_lt (omega arith) in
    let end : (1 + length prefix + length s) % 2 ^ 64 ≡ 1 + length prefix + length s =
      mod-eq_of_lt (omega arith) in
    rw (
      slice_from-At buf 1 _ (At-cons tag _),
      read_int-write_int (ℤ.pos (length s)) (s ++ rest) h,
      whole,
      end,
      le→ltb (length buf) (1 + length prefix + length s) (omega arith),
      slice-At buf (1 + length prefix) (1 + length prefix + length s) s rest at refl,
    )
