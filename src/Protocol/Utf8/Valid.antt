-- ===== src/Protocol/Utf8/Valid.antt =====
-- The lossy conversion of what is valid UTF-8 already.
use watchwoman.Base.{
  ℕ, ◌≡◌, refl, subst, ◌∙◌, true, Option, none, some, List, [], ◌∷◌, ◌++◌, inl, inr, Option-cases,
  append_assoc,
}
use watchwoman.Protocol.Utf8.{
  Utf8State, start, pending, utf8_step, utf8_run, accepting, is_utf8, lossy_accept, lossy_step,
  lossy_from, from_utf8_lossy,
}

step_valid :
    (s : Utf8State) (seen : List ℕ) (b : ℕ) {s' : Utf8State}
    → utf8_step s b ≡ some s'
    → lossy_step s seen b ≡ lossy_accept [] seen b (some s')
unfolding lossy_step utf8_step
step_valid start seen b h = rw h refl
step_valid (pending n lo hi) seen b h = rw (h, lossy_step) refl

run_from :
    (s s' : Utf8State) (b : ℕ) (bs : List ℕ)
    → utf8_run s (b ∷ bs) ≡ some start
    → utf8_step s b ≡ some s'
    → utf8_run s' bs ≡ some start
unfolding utf8_run
run_from s s' b bs h go =
    subst (λ o. (elim o [ none ↦ none | some t ↦ utf8_run t bs ]) ≡ some start) go h

-- While the bytes go on to a whole text, they are passed on as they are.
lossy_from_valid :
    (bs : List ℕ) (s : Utf8State) (seen : List ℕ)
    → utf8_run s bs ≡ some start
    → (s ≡ start → seen ≡ [])
    → lossy_from s seen bs ≡ seen ++ bs
unfolding lossy_from utf8_run lossy_accept
lossy_from_valid [] start seen h empty = rw (empty refl) refl
lossy_from_valid [] (pending n lo hi) seen h empty = cc
lossy_from_valid (b ∷ bs) s seen h empty = elim (Option-cases (utf8_step s b)) [
  | inl stop ↦ cc
  | inr (start, go) ↦ rw (step_valid s seen b go) (
      rw (lossy_from_valid bs start [] (run_from s start b bs h go) (λ _. refl))
        (append_assoc seen (b ∷ []) bs))
  | inr (pending n lo hi, go) ↦ rw (step_valid s seen b go) (
      lossy_from_valid bs (pending n lo hi) (seen ++ b ∷ [])
        (run_from s (pending n lo hi) b bs h go) (λ e. cc)
      ∙ append_assoc seen (b ∷ []) bs)
]

accepting-some : (o : Option Utf8State) → accepting o ≡ true → o ≡ some start
accepting-some none h = cc
accepting-some (some start) h = refl
accepting-some (some (pending n lo hi)) h = cc

-- The lossy conversion leaves valid UTF-8 alone.
pub from_utf8_lossy_valid : (bs : List ℕ) → is_utf8 bs ≡ true → from_utf8_lossy bs ≡ bs
unfolding from_utf8_lossy is_utf8
from_utf8_lossy_valid bs h =
    lossy_from_valid bs start [] (accepting-some (utf8_run start bs) h) λ _. refl
