-- ===== src/Prelude/Sort.antt =====
-- `sort.Slice` by a test on two items, as an insertion sort, and what it gives.
use mathlib.Core.Path.{◌≡◌, refl}
use mathlib.Core.Bool.{Bool, true, false}
use mathlib.Core.List.{List, [], ◌∷◌, Perm}
use mathlib.Core.List.Perm
use mathlib.Core.Logic.{inl, inr}
use onchain_exchange_homewor.Prelude.Tests.{if◌then◌else◌, Bool-cases}
use onchain_exchange_homewor.Prelude.Lists.{All}

module _ {ℓ} {A : Type ℓ} (before : A → A → Bool) where
  unfoldable pub insert_by : A → List A → List A
  insert_by x [] = x ∷ []
  insert_by x (y ∷ ys) = if before y x then y ∷ insert_by x ys else x ∷ y ∷ ys

  unfoldable pub sort_by : List A → List A
  unfolding insert_by
  sort_by [] = []
  sort_by (x ∷ xs) = insert_by x (sort_by xs)

  -- No item stands before one that the test puts before it.
  abbrev pub IsSorted : List A → Type 0
  IsSorted [] = Unit
  IsSorted (x ∷ xs) = All (λ y. before y x ≡ false) xs × IsSorted xs

  Perm-insert_by : (x : A) (ys : List A) → Perm (insert_by x ys) (x ∷ ys)
  unfolding insert_by
  Perm-insert_by x [] = Perm.refl _
  Perm-insert_by x (y ∷ ys) = elim (Bool-cases (before y x)) [
    | inl e ↦ rw (e, insert_by) (Perm.trans (Perm.cons y (Perm-insert_by x ys)) (Perm.swap _ _ _))
    | inr e ↦ rw (e, insert_by) (Perm.refl _)
  ]

  -- Sorting reorders.
  pub Perm-sort_by : (xs : List A) → Perm (sort_by xs) xs
  unfolding sort_by
  Perm-sort_by [] = Perm.refl _
  Perm-sort_by (x ∷ xs) = Perm.trans (Perm-insert_by x (sort_by xs)) (Perm.cons x (Perm-sort_by xs))

  All-insert_by : (P : A → Type 0) (x : A) (ys : List A) → P x → All P ys → All P (insert_by x ys)
  unfolding insert_by
  All-insert_by P x [] p h = (p, tt)
  All-insert_by P x (y ∷ ys) p h = elim (Bool-cases (before y x)) [
    | inl e ↦ rw (e, insert_by) (h.0, All-insert_by P x ys p h.1)
    | inr e ↦ rw (e, insert_by) (p, h)
  ]

  pub All-sort_by : (P : A → Type 0) (xs : List A) → All P xs → All P (sort_by xs)
  unfolding sort_by
  All-sort_by P [] h = tt
  All-sort_by P (x ∷ xs) h = All-insert_by P x (sort_by xs) h.0 (All-sort_by P xs h.1)

  insert_by-All : (P : A → Type 0) (x : A) (ys : List A) → All P (insert_by x ys) → P x × All P ys
  unfolding insert_by
  insert_by-All P x [] h = h
  insert_by-All P x (y ∷ ys) h = split (before y x) refl (insert_by-All P x ys) h
    where
      split :
          (b : Bool)
          → before y x ≡ b
          → (All P (insert_by x ys) → P x × All P ys)
          → All P (if b then y ∷ insert_by x ys else x ∷ y ∷ ys)
          → P x × All P (y ∷ ys)
      split true e ih k = let (p, q) = ih k.1 in (p, (k.0, q))
      split false e ih k = k

  pub sort_by-All : (P : A → Type 0) (xs : List A) → All P (sort_by xs) → All P xs
  unfolding sort_by
  sort_by-All P [] h = tt
  sort_by-All P (x ∷ xs) h =
      let (p, k) = insert_by-All P x (sort_by xs) h in (p, sort_by-All P xs k)

  -- For a strict order the result is sorted.
  module _ (asym : (x y : A) → before y x ≡ true → before x y ≡ false)
      (trans : (x y z : A) → before y x ≡ false → before z y ≡ false → before z x ≡ false) where
    All-after :
        (x y : A) (ys : List A)
        → before y x ≡ false
        → All (λ z. before z y ≡ false) ys
        → All (λ z. before z x ≡ false) ys
    All-after x y [] h k = tt
    All-after x y (z ∷ ys) h k = (trans x y z h k.0, All-after x y ys h k.1)

    insert_by-IsSorted : (x : A) (ys : List A) → IsSorted ys → IsSorted (insert_by x ys)
    unfolding insert_by
    insert_by-IsSorted x [] h = (tt, tt)
    insert_by-IsSorted x (y ∷ ys) h = elim (Bool-cases (before y x)) [
      | inl e ↦
          rw (e, insert_by)
            (
              All-insert_by (λ z. before z y ≡ false) x ys (asym x y e) h.0,
              insert_by-IsSorted x ys h.1,
            )
      | inr e ↦ rw (e, insert_by) ((e, All-after x y ys e h.0), h)
    ]

    pub sort_by-IsSorted : (xs : List A) → IsSorted (sort_by xs)
    unfolding sort_by
    sort_by-IsSorted [] = tt
    sort_by-IsSorted (x ∷ xs) = insert_by-IsSorted x (sort_by xs) (sort_by-IsSorted xs)
