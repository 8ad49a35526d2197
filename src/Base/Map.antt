-- ===== src/Base/Map.antt =====
-- Maps as association lists in the order that IndexMap keeps: `insert` replaces the value of a key
-- that is there, and appends one that is not. HashMap and DashMap are the same up to that order.
use watchwoman.Base.{
  ℕ, ◌+◌, not, ◌&&◌, ◌≤◌, ◌≡◌, refl, Bool, Option, none, some, List, [], ◌∷◌, ◌++◌, arith,
  PartialEq, ◌==◌, if◌then◌else◌, is_some, length, Bool-cases, inl, inr, suc, All, All-map, eq_refl,
}

module _ {ℓ κ} {K : Type ℓ} {V : Type κ} ⦃e : PartialEq K⦄ where
  unfoldable pub get : List (K × V) → K → Option V
  get [] k = none
  get ((j, v) ∷ m) k = if j == k then some v else get m k

  unfoldable pub insert : List (K × V) → K → V → List (K × V)
  insert [] k v = (k, v) ∷ []
  insert ((j, w) ∷ m) k v = if j == k then (j, v) ∷ m else (j, w) ∷ insert m k v

  unfoldable pub remove : List (K × V) → K → List (K × V)
  remove [] k = []
  remove ((j, w) ∷ m) k = if j == k then m else (j, w) ∷ remove m k

  -- `retain`, on the values.
  unfoldable pub retain : (V → Bool) → List (K × V) → List (K × V)
  retain p [] = []
  retain p ((j, w) ∷ m) = let rest = retain p m in if p w then (j, w) ∷ rest else rest

  -- No key occurs twice.
  abbrev pub Unique : List (K × V) → Type κ
  Unique [] = Unit
  Unique ((k, v) ∷ m) = (get m k ≡ none) × Unique m

  abbrev pub contains_key : List (K × V) → K → Bool
  contains_key m k = is_some (get m k)

module _ {ℓ κ} {K : Type ℓ} {V : Type κ} ⦃e : PartialEq K⦄ where
  pub get-insert :
      (m : List (K × V)) (k j : K) (v : V)
      → get (insert m k v) j ≡ (if k == j then some v else get m j)
  unfolding get insert
  get-insert [] k j v = refl
  get-insert ((i, w) ∷ m) k j v =
      ground (arith, e.same_iff k j, e.same_iff i k, e.same_iff i j, get-insert m k j v)

  pub insert-Unique : (m : List (K × V)) (k : K) (v : V) → Unique m → Unique (insert m k v)
  unfolding get insert
  insert-Unique [] k v u = (refl, tt)
  insert-Unique ((i, w) ∷ m) k v (h, u) = elim (Bool-cases (i == k)) [
    | inl same ↦ rw same (h, u)
    | inr other ↦
        rw other (
          ground (arith, get-insert m k i v, e.same_iff k i, e.same_iff i k),
          insert-Unique m k v u,
        )
  ]

  pub get-remove :
      (m : List (K × V)) (k j : K)
      → Unique m
      → get (remove m k) j ≡ (if k == j then none else get m j)
  unfolding get remove
  get-remove [] k j u = ground arith
  get-remove ((i, w) ∷ m) k j (h, u) =
      ground (arith, e.same_iff k j, e.same_iff i k, e.same_iff i j, get-remove m k j u)

  pub remove-Unique : (m : List (K × V)) (k : K) → Unique m → Unique (remove m k)
  unfolding get remove
  remove-Unique [] k u = tt
  remove-Unique ((i, w) ∷ m) k (h, u) = elim (Bool-cases (i == k)) [
    | inl same ↦ rw same u
    | inr other ↦ rw other (ground (arith, get-remove m k i u), remove-Unique m k u)
  ]

  -- `retain` keeps an entry exactly if its value passes.
  pub get-retain :
      (p : V → Bool) (m : List (K × V)) (k : K)
      → Unique m
      → get (retain p m) k ≡ elim (get m k) [ none ↦ none | some v ↦ if p v then some v else none ]
  unfolding get retain
  get-retain p [] k u = refl
  get-retain p ((i, w) ∷ m) k (h, u) = ground (arith, e.same_iff i k, get-retain p m k u)

  pub retain-Unique : (p : V → Bool) (m : List (K × V)) → Unique m → Unique (retain p m)
  unfolding get retain
  retain-Unique p [] u = tt
  retain-Unique p ((i, w) ∷ m) (h, u) = elim (Bool-cases (p w)) [
    | inl kept ↦ rw kept (ground (arith, get-retain p m i u), retain-Unique p m u)
    | inr dropped ↦ rw dropped (retain-Unique p m u)
  ]

  pub length-insert :
      (m : List (K × V)) (k : K) (v : V)
      → length (insert m k v) ≡ (if contains_key m k then length m else suc (length m))
  unfolding get insert
  length-insert [] k v = refl
  length-insert ((i, w) ∷ m) k v = ground (arith, length-insert m k v)

  pub length-retain : (p : V → Bool) (m : List (K × V)) → length (retain p m) ≤ length m
  unfolding retain
  length-retain p [] = omega arith
  length-retain p ((i, w) ∷ m) = ground (arith, length-retain p m)

  -- A key that is not there is appended.
  pub insert_fresh :
      (m : List (K × V)) (k : K) (v : V) → get m k ≡ none → insert m k v ≡ m ++ (k, v) ∷ []
  unfolding get insert
  insert_fresh [] k v h = refl
  insert_fresh ((i, w) ∷ m) k v h = ground (arith, insert_fresh m k v)

module _ {ℓ κ} {K : Type ℓ} {V : Type κ} ⦃e : PartialEq K⦄ where
  -- Every pair of a map without repetitions is what a lookup of its key finds.
  pub Unique-All-get : (m : List (K × V)) → Unique m → All (λ (p : K × V). get m p.0 ≡ some p.1) m
  unfolding get
  Unique-All-get [] u = tt
  Unique-All-get ((i, w) ∷ m) (h, u) = (
    rw (eq_refl i) refl,
    All-map (λ (p : K × V). get m p.0 ≡ some p.1) _ m
        (λ p found. ground (arith, found, h, e.same_iff i p.0)) (Unique-All-get m u),
  )

abbrev pub one : Bool → ℕ
one b = if b then 1 else 0

-- What a key's value counts for.
abbrev pub counted {κ} : {V : Type κ} → (V → Bool) → Option V → ℕ
counted p none = 0
counted p (some v) = one (p v)

module _ {ℓ κ} {K : Type ℓ} {V : Type κ} where
  -- How many values pass a test.
  unfoldable pub count : (V → Bool) → List (K × V) → ℕ
  count p [] = 0
  count p ((j, w) ∷ m) = one (p w) + count p m

  pub count_split :
      (p : V → Bool) (m : List (K × V)) → count p m + count (λ v. not (p v)) m ≡ length m
  unfolding count
  count_split p [] = refl
  count_split p ((j, w) ∷ m) = ground (arith, count_split p m)

module _ {ℓ κ} {K : Type ℓ} {V : Type κ} ⦃e : PartialEq K⦄ where
  pub count-insert :
      (p : V → Bool) (m : List (K × V)) (k : K) (v : V)
      → count p (insert m k v) + counted p (get m k) ≡ count p m + one (p v)
  unfolding get insert count
  count-insert p [] k v = omega arith
  count-insert p ((j, w) ∷ m) k v = elim (Bool-cases (j == k)) [
    | inl same ↦ rw same (omega arith)
    | inr other ↦ rw other (omega (arith, count-insert p m k v))
  ]

  pub count-remove :
      (p : V → Bool) (m : List (K × V)) (k : K)
      → count p (remove m k) + counted p (get m k) ≡ count p m
  unfolding get remove count
  count-remove p [] k = omega arith
  count-remove p ((j, w) ∷ m) k = elim (Bool-cases (j == k)) [
    | inl same ↦ rw same (omega arith)
    | inr other ↦ rw other (omega (arith, count-remove p m k))
  ]

  -- `retain` drops nothing that passes both tests.
  pub count-retain :
      (p q : V → Bool) (m : List (K × V)) → count q (retain p m) ≡ count (λ v. p v && q v) m
  unfolding retain count
  count-retain p q [] = refl
  count-retain p q ((j, w) ∷ m) = elim (Bool-cases (p w)) [
    | inl kept ↦ rw kept (omega (arith, count-retain p q m))
    | inr dropped ↦ rw dropped (omega (arith, count-retain p q m))
  ]
