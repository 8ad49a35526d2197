-- ===== src/Protocol/Utf8/Lossy.antt =====
-- The lossy conversion returns valid UTF-8, and at most three bytes for each byte.
use watchwoman.Base.{
  ℕ, ◌+◌, ◌*◌, ◌≤◌, ◌≡◌, refl, ap, ◌∙◌, true, Option, none, some, List, [], ◌∷◌, ◌++◌, arith, inl,
  inr, Option-cases, length, length-append,
}
use watchwoman.Protocol.Utf8.{
  Utf8State, start, pending, utf8_lead, utf8_step, utf8_run, accepting, is_utf8, replacement,
  LossyStep, lossy_accept, lossy_step, lossy_from, from_utf8_lossy,
}

utf8_run-append :
    (s : Utf8State) (xs ys : List ℕ)
    → utf8_run s (xs ++ ys) ≡ elim (utf8_run s xs) [ none ↦ none | some s' ↦ utf8_run s' ys ]
unfolding utf8_run
utf8_run-append s [] ys = refl
utf8_run-append s (b ∷ xs) ys = elim (Option-cases (utf8_step s b)) [
  | inl stop ↦ rw (stop, utf8_run)
  | inr (s', go) ↦ rw (go, utf8_run) (utf8_run-append s' xs ys)
]

Whole : List ℕ → Type 0
Whole bs = utf8_run start bs ≡ some start

Whole-append : (xs ys : List ℕ) → Whole xs → Whole ys → Whole (xs ++ ys)
unfolding Whole
Whole-append xs ys hx hy = rw (utf8_run-append, hx) hy

run-snoc :
    (xs : List ℕ) (b : ℕ) {s t : Utf8State}
    → utf8_run start xs ≡ some s
    → utf8_step s b ≡ some t
    → utf8_run start (xs ++ b ∷ []) ≡ some t
run-snoc xs b h k = rw (utf8_run-append, h) (unfold utf8_run in rw (k, utf8_run))

-- A step emits whole characters, and keeps `seen` as a run to its state.
record Sound (r : LossyStep) : Type 0 where
  emitted : Whole r.out
  kept : utf8_run start r.seen ≡ some r.state

replacement-Whole : Whole replacement
unfolding Whole utf8_run utf8_step
replacement-Whole = refl

lossy_accept-Sound :
    (out seen : List ℕ) (b : ℕ) (o : Option Utf8State)
    → Whole out
    → ((t : Utf8State) → o ≡ some t → utf8_run start (seen ++ b ∷ []) ≡ some t)
    → Sound (lossy_accept out seen b o)
unfolding lossy_accept
lossy_accept-Sound out seen b none h k = record {
  emitted = Whole-append out replacement h replacement-Whole;
  kept = unfold utf8_run in refl;
}
lossy_accept-Sound out seen b (some start) h k = record {
  emitted = Whole-append out (seen ++ b ∷ []) h (unfold Whole in k start refl);
  kept = unfold utf8_run in refl;
}
lossy_accept-Sound out seen b (some (pending n lo hi)) h k = record {
  emitted = h;
  kept = k (pending n lo hi) refl;
}

lossy_step-Sound :
    (s : Utf8State) (seen : List ℕ) (b : ℕ)
    → utf8_run start seen ≡ some s
    → Sound (lossy_step s seen b)
unfolding lossy_step
lossy_step-Sound start seen b h =
    lossy_accept-Sound [] seen b (utf8_lead b) (unfold Whole utf8_run in refl)
      (λ t e. run-snoc seen b h (unfold utf8_step in e))
lossy_step-Sound (pending n lo hi) seen b h = elim (Option-cases (utf8_step (pending n lo hi) b)) [
  | inl stop ↦
      rw (stop, lossy_step)
        (lossy_accept-Sound replacement [] b (utf8_lead b) replacement-Whole
          (λ t e. run-snoc [] b {s = start} (unfold utf8_run in refl) (unfold utf8_step in e)))
  | inr (s, go) ↦
      rw (go, lossy_step)
        (lossy_accept-Sound [] seen b (some s) (unfold Whole utf8_run in refl)
          (λ t e. run-snoc seen b h (go ∙ e)))
]

lossy_from-Whole :
    (s : Utf8State) (seen bs : List ℕ) → utf8_run start seen ≡ some s → Whole (lossy_from s seen bs)
unfolding lossy_from
lossy_from-Whole start seen [] h = unfold Whole utf8_run in refl
lossy_from-Whole (pending n lo hi) seen [] h = replacement-Whole
lossy_from-Whole s seen (b ∷ bs) h =
    let step = lossy_step s seen b in
    let sound = lossy_step-Sound s seen b h in
    Whole-append step.out (lossy_from step.state step.seen bs) sound.emitted
      (lossy_from-Whole step.state step.seen bs sound.kept)

-- What the lossy conversion returns is valid UTF-8.
pub is_utf8-from_utf8_lossy : (bs : List ℕ) → is_utf8 (from_utf8_lossy bs) ≡ true
unfolding is_utf8 from_utf8_lossy Whole
is_utf8-from_utf8_lossy bs = ap accepting (lossy_from-Whole start [] bs (unfold utf8_run in refl))

-- One byte adds at most three bytes for each byte that it settles.
lossy_accept-length :
    (out seen : List ℕ) (b : ℕ) (o : Option Utf8State)
    → (length (lossy_accept out seen b o).out + 3 * length (lossy_accept out seen b o).seen
        ≤ length out + 3 * (length seen + 1))
unfolding lossy_accept
lossy_accept-length out seen b none = omega (arith, length-append out replacement)
lossy_accept-length out seen b (some start) =
    omega (arith, length-append out (seen ++ b ∷ []), length-append seen (b ∷ []))
lossy_accept-length out seen b (some (pending n lo hi)) = omega (arith, length-append seen (b ∷ []))

seen_pos :
    (n lo hi : ℕ) (seen : List ℕ) → utf8_run start seen ≡ some (pending n lo hi) → 1 ≤ length seen
unfolding utf8_run
seen_pos n lo hi [] h = cc
seen_pos n lo hi (b ∷ seen) h = omega arith

lossy_step-length :
    (s : Utf8State) (seen : List ℕ) (b : ℕ)
    → utf8_run start seen ≡ some s
    → (length (lossy_step s seen b).out + 3 * length (lossy_step s seen b).seen
        ≤ 3 * (length seen + 1))
unfolding lossy_step
lossy_step-length start seen b h = omega (arith, lossy_accept-length [] seen b (utf8_lead b))
lossy_step-length (pending n lo hi) seen b h = elim (Option-cases (utf8_step (pending n lo hi) b)) [
  | inl stop ↦
      rw (stop, lossy_step)
        (omega (arith, lossy_accept-length replacement [] b (utf8_lead b), seen_pos n lo hi seen h))
  | inr (s, go) ↦ rw (go, lossy_step) (omega (arith, lossy_accept-length [] seen b (some s)))
]

length-lossy_from :
    (s : Utf8State) (seen bs : List ℕ)
    → utf8_run start seen ≡ some s
    → length (lossy_from s seen bs) ≤ 3 * (length seen + length bs)
unfolding lossy_from
length-lossy_from start seen [] h = omega arith
length-lossy_from (pending n lo hi) seen [] h = omega (arith, seen_pos n lo hi seen h)
length-lossy_from s seen (b ∷ bs) h =
    let step = lossy_step s seen b in
    let sound = lossy_step-Sound s seen b h in
    omega (
      arith,
      length-append step.out (lossy_from step.state step.seen bs),
      lossy_step-length s seen b h,
      length-lossy_from step.state step.seen bs sound.kept,
    )

run_nil : utf8_run start [] ≡ some start
unfolding utf8_run
run_nil = refl

pub length-from_utf8_lossy : (bs : List ℕ) → length (from_utf8_lossy bs) ≤ 3 * length bs
unfolding from_utf8_lossy
length-from_utf8_lossy bs = omega (arith, length-lossy_from start [] bs run_nil)
