-- ===== src/SparseTree/Update/Select.antt =====
-- The children that are active, as the end of `updateBatchParallel` of smt-v3/smt.go counts them.
use onchain_exchange_homewor.Prelude.{
  ℕ, zero, suc, ◌<◌, Bool, true, false, List, [], ◌∷◌, if◌then◌else◌, get_or, length, select, ◌≡◌,
  ◌≢◌, ◌⊎◌, inl, inr, refl, sym, ap, ◌∙◌, arith, Bool-cases,
}

-- What a test selects from a list, when a default is the only item that does not pass.
module _ {A : Type 0} (p : A → Bool) (d : A) (sound : (x : A) → p x ≡ false → x ≡ d) where
  pub select_none : (xs : List A) (i : ℕ) → select p xs ≡ [] → get_or xs i d ≡ d
  select_none [] i e = refl
  select_none (x ∷ xs) i e = elim (Bool-cases (p x)) [
    | inl a ↦
        absurd (let f = sym (ap (λ b. if b then x ∷ select p xs else select p xs) a) ∙ e in cc)
    | inr a ↦
        let f = sym (ap (λ b. if b then x ∷ select p xs else select p xs) a) ∙ e in
        at i (sound x a) (λ j. select_none xs j f)
  ]
    where
      at : (i : ℕ) → x ≡ d → ((j : ℕ) → get_or xs j d ≡ d) → get_or (x ∷ xs) i d ≡ d
      at zero same rest = same
      at (suc i) same rest = rest i

  -- The only item that passes.
  pub select_one :
      (xs : List A) (c : A)
      → select p xs ≡ c ∷ []
      → (i : ℕ) × (i < length xs) × (get_or xs i d ≡ c) × ((j : ℕ) → (i ≡ j) ⊎ (get_or xs j d ≡ d))
  select_one [] c e = absurd (let f = e in cc)
  select_one (x ∷ xs) c e = elim (Bool-cases (p x)) [
    | inl a ↦
        let f = sym (ap (λ b. if b then x ∷ select p xs else select p xs) a) ∙ e in
        let none_left : select p xs ≡ [] = cc in (0, omega arith, cc, first none_left)
    | inr a ↦
        let f = sym (ap (λ b. if b then x ∷ select p xs else select p xs) a) ∙ e in
        let (i, small, same, other) = select_one xs c f in
        (suc i, omega arith, same, later i (sound x a) other)
  ]
    where
      first : select p xs ≡ [] → (j : ℕ) → (0 ≡ j) ⊎ (get_or (x ∷ xs) j d ≡ d)
      first e zero = inl refl
      first e (suc j) = inr (select_none xs j e)

      later :
          (i : ℕ)
          → x ≡ d
          → ((j : ℕ) → (i ≡ j) ⊎ (get_or xs j d ≡ d))
          → (j : ℕ) → (suc i ≡ j) ⊎ (get_or (x ∷ xs) j d ≡ d)
      later i same other zero = inr same
      later i same other (suc j) = elim (other j) [ inl e ↦ inl (ap suc e) | inr e ↦ inr e ]

-- The first item that passes, and two of them.
module _ {A : Type 0} (p : A → Bool) (d : A) where
  pub select_first :
      (xs : List A) (a : A) (rest : List A)
      → select p xs ≡ a ∷ rest
      → (i : ℕ) × (i < length xs) × (p (get_or xs i d) ≡ true)
  select_first [] a rest e = absurd (let f = e in cc)
  select_first (x ∷ xs) a rest e = elim (Bool-cases (p x)) [
    | inl t ↦ (0, omega arith, t)
    | inr t ↦
        let f = sym (ap (λ b. if b then x ∷ select p xs else select p xs) t) ∙ e in
        let (i, small, passes) = select_first xs a rest f in (suc i, omega arith, passes)
  ]

  pub select_head : (xs : List A) (a : A) (rest : List A) → select p xs ≡ a ∷ rest → p a ≡ true
  select_head [] a rest e = absurd (let f = e in cc)
  select_head (x ∷ xs) a rest e = elim (Bool-cases (p x)) [
    | inl t ↦
        let f = sym (ap (λ b. if b then x ∷ select p xs else select p xs) t) ∙ e in
        let same : x ≡ a = cc in ap p (sym same) ∙ t
    | inr t ↦
        select_head xs a rest (sym (ap (λ b. if b then x ∷ select p xs else select p xs) t) ∙ e)
  ]

  pub select_two :
      (xs : List A) (a b : A) (rest : List A)
      → select p xs ≡ a ∷ b ∷ rest
      → (i : ℕ) × (j : ℕ) × (i ≢ j)
        × (i < length xs)
        × (j < length xs)
        × (p (get_or xs i d) ≡ true)
        × (p (get_or xs j d) ≡ true)
  select_two [] a b rest e = absurd (let f = e in cc)
  select_two (x ∷ xs) a b rest e = elim (Bool-cases (p x)) [
    | inl t ↦
        let f = sym (ap (λ b. if b then x ∷ select p xs else select p xs) t) ∙ e in
        let more : select p xs ≡ b ∷ rest = cc in
        let (j, small, passes) = select_first xs b rest more in
        (0, suc j, (λ same. omega arith), omega arith, omega arith, t, passes)
    | inr t ↦
        let f = sym (ap (λ b. if b then x ∷ select p xs else select p xs) t) ∙ e in
        let (i, j, away, i_small, j_small, u, v) = select_two xs a b rest f in
        (suc i, suc j, (λ same. away (omega arith)), omega arith, omega arith, u, v)
  ]
