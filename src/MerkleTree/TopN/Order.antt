-- ===== src/MerkleTree/TopN/Order.antt =====
-- The first so many of a sorted list of keys, as keys are inserted one by one.
use mathlib.Core.Path.{ap₂, subst}
use onchain_exchange_homewor.Prelude.{
  ℕ, zero, suc, ◌-◌, ◌<◌, ◌≤◌, Bool, true, false, List, [], ◌∷◌, ◌++◌, ltb, if◌then◌else◌, length,
  get_or, set, take, sort_by, insert_by, IsSorted, ◌≡◌, refl, sym, ap, ◌∙◌, arith, Bool-cases, inl,
  inr, All,
}

-- `TryInsert` on the keys alone.
unfoldable pub offer_key : (ℕ → ℕ → Bool) → ℕ → ℕ → List ℕ → List ℕ
offer_key before capacity k ks =
    if ltb (length ks) capacity
    then sort_by before (ks ++ (k ∷ []))
    else if before k (get_or ks (length ks - 1) k)
    then sort_by before (set ks (length ks - 1) k)
    else ks

-- A test that puts any two different keys in one order.
pub record IsOrder (before : ℕ → ℕ → Bool) : Type 0 where
  pub asym : (a b : ℕ) → before a b ≡ true → before b a ≡ false
  pub total : (a b : ℕ) → before a b ≡ false → before b a ≡ false → a ≡ b
  pub trans : (a b c : ℕ) → before b a ≡ false → before c b ≡ false → before c a ≡ false

module _ (before : ℕ → ℕ → Bool) (order : IsOrder before) where
  -- The step of `insert_by` on either side of its test.
  insert_by-after :
      (k y : ℕ) (ks : List ℕ)
      → before y k ≡ true
      → insert_by before k (y ∷ ks) ≡ y ∷ insert_by before k ks
  unfolding insert_by
  insert_by-after k y ks e = rw (e, insert_by)

  insert_by-here :
      (k y : ℕ) (ks : List ℕ) → before y k ≡ false → insert_by before k (y ∷ ks) ≡ k ∷ y ∷ ks
  unfolding insert_by
  insert_by-here k y ks e = rw (e, insert_by)

  insert_by-front :
      (k : ℕ) (ks : List ℕ) → All (λ y. before y k ≡ false) ks → insert_by before k ks ≡ k ∷ ks
  unfolding insert_by
  insert_by-front k [] h = refl
  insert_by-front k (y ∷ ks) h = insert_by-here k y ks h.0

  insert_by_comm :
      (a b : ℕ) (ks : List ℕ)
      → insert_by before a (insert_by before b ks) ≡ insert_by before b (insert_by before a ks)
  unfolding insert_by
  insert_by_comm a b [] = ground (arith, order.asym a b, order.total a b)
  insert_by_comm a b (y ∷ ks) = ground (
    arith,
    insert_by_comm a b ks,
    order.asym a b,
    order.total a b,
    order.trans b a y,
    order.trans a b y,
  )

  sort_by-snoc :
      (k : ℕ) (ks : List ℕ)
      → IsSorted before ks
      → sort_by before (ks ++ (k ∷ [])) ≡ insert_by before k ks
  unfolding sort_by
  sort_by-snoc k [] h = refl
  sort_by-snoc k (y ∷ ks) h =
      ap (insert_by before y) (sort_by-snoc k ks h.1)
      ∙ insert_by_comm y k ks
      ∙ ap (insert_by before k) (insert_by-front y ks h.0)

  length-insert_by : (k : ℕ) (ks : List ℕ) → length (insert_by before k ks) ≡ suc (length ks)
  unfolding insert_by
  length-insert_by k [] = refl
  length-insert_by k (y ∷ ks) = elim (Bool-cases (before y k)) [
    | inl e ↦ rw (e, insert_by) (ap suc (length-insert_by k ks))
    | inr e ↦ rw (e, insert_by)
  ]

  take-all : (n : ℕ) (ks : List ℕ) → length ks ≤ n → take n ks ≡ ks
  take-all zero [] h = refl
  take-all zero (k ∷ ks) h = absurd (omega arith)
  take-all (suc n) [] h = refl
  take-all (suc n) (k ∷ ks) h = ap (◌∷◌ k) (take-all n ks (omega arith))

  take-take : (m : ℕ) (y : ℕ) (s : List ℕ) → take m (y ∷ take m s) ≡ take m (y ∷ s)
  take-take zero y s = refl
  take-take (suc m) y [] = refl
  take-take (suc m) y (z ∷ s) = ap (◌∷◌ y) (take-take m z s)

  take-insert_by-take :
      (n k : ℕ) (s : List ℕ)
      → take n (insert_by before k (take n s)) ≡ take n (insert_by before k s)
  unfolding insert_by
  take-insert_by-take zero k s = refl
  take-insert_by-take (suc n) k [] = refl
  take-insert_by-take (suc n) k (y ∷ s) = ground (arith, take-insert_by-take n k s, take-take n y s)

  -- The last key goes for one that stands before it.
  insert_by-last :
      (k y : ℕ) (ks : List ℕ)
      → before k (get_or (y ∷ ks) (length ks) k) ≡ true
      → take (suc (length ks)) (insert_by before k (y ∷ ks))
        ≡ insert_by before k (take (length ks) (y ∷ ks))
  unfolding insert_by
  insert_by-last k y [] h = ground (arith, order.asym k y)
  insert_by-last k y (z ∷ ks) h = ground (arith, insert_by-last k z ks)

  All-last :
      (k y : ℕ) (P : ℕ → Type 0) (ks : List ℕ) → P y → All P ks → P (get_or (y ∷ ks) (length ks) k)
  All-last k y P [] p h = p
  All-last k y P (z ∷ ks) p h = All-last k z P ks h.0 h.1

  -- A key that stands before none of the last ones is not among the first.
  insert_by-none :
      (k y : ℕ) (ks : List ℕ)
      → IsSorted before (y ∷ ks)
      → before k (get_or (y ∷ ks) (length ks) k) ≡ false
      → take (suc (length ks)) (insert_by before k (y ∷ ks)) ≡ y ∷ ks
  insert_by-none k y [] s h = elim (Bool-cases (before y k)) [
    | inl e ↦ rw (insert_by-after k y [] e)
    | inr e ↦ rw (insert_by-here k y [] e) (ap (λ a. a ∷ []) (order.total k y h e))
  ]
  insert_by-none k y (z ∷ ks) s h = elim (Bool-cases (before y k)) [
    | inl e ↦ rw (insert_by-after k y (z ∷ ks) e) (ap (◌∷◌ y) (insert_by-none k z ks s.1 h))
    | inr e ↦
        let last = get_or (z ∷ ks) (length ks) k in
        let below = All-last k z (λ a. before a y ≡ false) ks s.0.0 s.0.1 in
        let same : k ≡ y = order.total k y (order.trans y last k below h) e in
        rw (insert_by-here k y (z ∷ ks) e) (
          ap₂ (λ a b. a ∷ take (suc (length ks)) (b ∷ z ∷ ks)) same (sym same)
          ∙ ap (λ es. y ∷ take (suc (length ks)) es)
              (sym (
                insert_by-front k (z ∷ ks)
                  (subst (λ a. All (λ b. before b a ≡ false) (z ∷ ks)) (sym same) s.0)))
          ∙ ap (◌∷◌ y) (insert_by-none k z ks s.1 h))
  ]

  take-All : (n : ℕ) (P : ℕ → Type 0) (ks : List ℕ) → All P ks → All P (take n ks)
  take-All zero P ks h = tt
  take-All (suc n) P [] h = tt
  take-All (suc n) P (k ∷ ks) h = (h.0, take-All n P ks h.1)

  take-IsSorted : (n : ℕ) (ks : List ℕ) → IsSorted before ks → IsSorted before (take n ks)
  take-IsSorted zero ks h = tt
  take-IsSorted (suc n) [] h = tt
  take-IsSorted (suc n) (k ∷ ks) h = (take-All n _ ks h.0, take-IsSorted n ks h.1)

  length-take-le : (n : ℕ) (ks : List ℕ) → length (take n ks) ≤ n
  length-take-le zero ks = omega arith
  length-take-le (suc n) [] = omega arith
  length-take-le (suc n) (k ∷ ks) = omega (arith, length-take-le n ks)

  set-last :
      (k y : ℕ) (ks : List ℕ) → set (y ∷ ks) (length ks) k ≡ take (length ks) (y ∷ ks) ++ (k ∷ [])
  set-last k y [] = refl
  set-last k y (z ∷ ks) = ap (◌∷◌ y) (set-last k z ks)

  full :
      (k y : ℕ) (ks : List ℕ)
      → IsSorted before (y ∷ ks)
      → (if before k (get_or (y ∷ ks) (length ks) k)
          then sort_by before (set (y ∷ ks) (length ks) k)
          else y ∷ ks)
        ≡ take (suc (length ks)) (insert_by before k (y ∷ ks))
  full k y ks h = elim (Bool-cases (before k (get_or (y ∷ ks) (length ks) k))) [
    | inl e ↦ rw e (
        ap (sort_by before) (set-last k y ks)
        ∙ sort_by-snoc k (take (length ks) (y ∷ ks)) (take-IsSorted (length ks) (y ∷ ks) h)
        ∙ sym (insert_by-last k y ks e))
    | inr e ↦ rw e (sym (insert_by-none k y ks h e))
  ]

  offer_key-sorted :
      (capacity k : ℕ) (ks : List ℕ)
      → 0 < capacity
      → length ks ≤ capacity
      → IsSorted before ks
      → offer_key before capacity k ks ≡ take capacity (insert_by before k ks)
  unfolding offer_key
  offer_key-sorted capacity k ks pos fits h = elim (Bool-cases (ltb (length ks) capacity)) [
    | inl e ↦ rw e (
        sort_by-snoc k ks h
        ∙ sym (take-all capacity (insert_by before k ks) (ground (arith, length-insert_by k ks))))
    | inr e ↦ rw e (at_capacity ks h (ground arith))
  ]
    where
      at_capacity :
          (ks : List ℕ)
          → IsSorted before ks
          → length ks ≡ capacity
          → (if before k (get_or ks (length ks - 1) k)
              then sort_by before (set ks (length ks - 1) k)
              else ks)
            ≡ take capacity (insert_by before k ks)
      at_capacity [] h e = absurd (omega arith)
      at_capacity (y ∷ ks) h e =
          let last : suc (length ks) - 1 ≡ length ks = omega arith in
          rw last (rw (← e) (full k y ks h))

  -- Offering a key to the first ones of a sorted list gives the first ones of the list with it.
  pub offer_key-take :
      (capacity k : ℕ) (s : List ℕ)
      → 0 < capacity
      → IsSorted before s
      → offer_key before capacity k (take capacity s) ≡ take capacity (insert_by before k s)
  offer_key-take capacity k s pos h =
      offer_key-sorted capacity k (take capacity s) pos (length-take-le capacity s)
        (take-IsSorted capacity s h)
      ∙ take-insert_by-take capacity k s
