-- ===== src/MerkleTree/TopN/Keys.antt =====
-- The cache holds the first of all keys that were inserted.
use mathlib.Core.List.{map-append}
use onchain_exchange_homewor.Prelude.{
  ℕ, zero, suc, ◌-◌, ◌<◌, ◌≤◌, Bool, true, false, List, [], ◌∷◌, ◌++◌, ltb, length, get_or, set,
  take, map, sort_by, insert_by, IsSorted, sort_by-IsSorted, ◌≡◌, refl, ap, ◌∙◌, arith, Bool-cases,
  inl, inr,
}
use onchain_exchange_homewor.MerkleTree.Types.{Hashable}
use onchain_exchange_homewor.MerkleTree.TopN.{
  TopNCache, precedes, new_top_n_cache, key_of, item_precedes, offer, try_insert, get_top,
}
use onchain_exchange_homewor.MerkleTree.TopN.Order.{IsOrder, offer_key, offer_key-take}

precedes-IsOrder : (ascending : Bool) → IsOrder (precedes ascending)
unfolding precedes
precedes-IsOrder true = record {
  asym = λ a b h. ground arith;
  total = λ a b h k. ground arith;
  trans = λ a b c h k. ground arith;
}
precedes-IsOrder false = record {
  asym = λ a b h. ground arith;
  total = λ a b h k. ground arith;
  trans = λ a b c h k. ground arith;
}

module _ {T : Type 0} (hashable : Hashable T) (ascending : Bool) where
  abbrev keys : List T → List ℕ
  keys = map (key_of hashable)

  abbrev before : ℕ → ℕ → Bool
  before = precedes ascending

  keys-insert_by :
      (x : T) (xs : List T)
      → keys (insert_by (item_precedes hashable ascending) x xs)
        ≡ insert_by before (key_of hashable x) (keys xs)
  unfolding insert_by
  keys-insert_by x [] = refl
  keys-insert_by x (y ∷ xs) = ground (arith, keys-insert_by x xs)

  keys-sort_by :
      (xs : List T)
      → keys (sort_by (item_precedes hashable ascending) xs) ≡ sort_by before (keys xs)
  unfolding sort_by
  keys-sort_by [] = refl
  keys-sort_by (x ∷ xs) =
      keys-insert_by x (sort_by (item_precedes hashable ascending) xs)
      ∙ ap (insert_by before (key_of hashable x)) (keys-sort_by xs)

  length-keys : (xs : List T) → length (keys xs) ≡ length xs
  length-keys [] = refl
  length-keys (x ∷ xs) = ap suc (length-keys xs)

  keys-set : (xs : List T) (i : ℕ) (x : T) → keys (set xs i x) ≡ set (keys xs) i (key_of hashable x)
  keys-set [] i x = refl
  keys-set (y ∷ xs) zero x = refl
  keys-set (y ∷ xs) (suc i) x = ap (◌∷◌ (key_of hashable y)) (keys-set xs i x)

  keys-get_or :
      (xs : List T) (i : ℕ) (x : T)
      → key_of hashable (get_or xs i x) ≡ get_or (keys xs) i (key_of hashable x)
  keys-get_or [] i x = refl
  keys-get_or (y ∷ xs) zero x = refl
  keys-get_or (y ∷ xs) (suc i) x = keys-get_or xs i x

  keys-take : (n : ℕ) (xs : List T) → keys (take n xs) ≡ take n (keys xs)
  keys-take zero xs = refl
  keys-take (suc n) [] = refl
  keys-take (suc n) (x ∷ xs) = ap (◌∷◌ (key_of hashable x)) (keys-take n xs)

  -- `TryInsert` does to the keys what it does to the items.
  keys-offer :
      (capacity : ℕ) (x : T) (xs : List T)
      → keys (offer hashable ascending capacity x xs).1
        ≡ offer_key before capacity (key_of hashable x) (keys xs)
  unfolding offer offer_key
  keys-offer capacity x xs = rw (length-keys xs) (
      rw (← keys-get_or xs (length xs - 1) x) (elim (Bool-cases (ltb (length xs) capacity)) [
        | inl room ↦ rw room (
            keys-sort_by (xs ++ (x ∷ []))
            ∙ ap (sort_by before) (map-append (key_of hashable) xs (x ∷ [])))
        | inr full ↦
            rw full
              (elim (Bool-cases
                (before (key_of hashable x) (key_of hashable (get_or xs (length xs - 1) x)))) [
                  | inl better ↦ rw better (
                      keys-sort_by (set xs (length xs - 1) x)
                      ∙ ap (sort_by before) (keys-set xs (length xs - 1) x))
                  | inr worse ↦ rw worse
                ])
      ]))

  -- The items after `TryInsert` of each of a list, the last one first.
  abbrev pub top_items : ℕ → List T → List T
  top_items capacity [] = []
  top_items capacity (x ∷ xs) = (offer hashable ascending capacity x (top_items capacity xs)).1

  sort-keys-IsSorted : (xs : List T) → IsSorted before (sort_by before (keys xs))
  sort-keys-IsSorted xs =
      let order = precedes-IsOrder ascending in
      sort_by-IsSorted before (λ x y. order.asym y x) (λ x y z. order.trans x y z) (keys xs)

  keys-top_items :
      (capacity : ℕ) (xs : List T)
      → 0 < capacity
      → keys (top_items capacity xs) ≡ take capacity (sort_by before (keys xs))
  unfolding sort_by
  keys-top_items zero xs pos = absurd (omega arith)
  keys-top_items (suc n) [] pos = refl
  keys-top_items (suc n) (x ∷ xs) pos =
      let capacity = suc n in
      keys-offer capacity x (top_items capacity xs)
      ∙ ap (offer_key before capacity (key_of hashable x)) (keys-top_items capacity xs pos)
      ∙ offer_key-take before (precedes-IsOrder ascending) capacity (key_of hashable x)
          (sort_by before (keys xs)) pos (sort-keys-IsSorted xs)

  -- The cache after `TryInsert` of each of a list, the last one first.
  abbrev pub after_inserts : List T → TopNCache T → TopNCache T
  after_inserts [] tc = tc
  after_inserts (x ∷ xs) tc = (try_insert hashable x (after_inserts xs tc)).1

  after_inserts-new :
      (capacity : ℕ) (xs : List T)
      → 0 < capacity
      → after_inserts xs (new_top_n_cache capacity ascending) ≡ record {
        items = top_items capacity xs;
        capacity = capacity;
        ascending = ascending;
        enabled = true;
      }
  unfolding new_top_n_cache try_insert
  after_inserts-new capacity [] pos = ground arith
  after_inserts-new capacity (x ∷ xs) pos =
      ap (λ tc. (try_insert hashable x tc).1) (after_inserts-new capacity xs pos)

  take-take : (m n : ℕ) (ks : List ℕ) → m ≤ n → take m (take n ks) ≡ take m ks
  take-take zero n ks h = refl
  take-take (suc m) zero ks h = absurd (omega arith)
  take-take (suc m) (suc n) [] h = refl
  take-take (suc m) (suc n) (k ∷ ks) h = ap (◌∷◌ k) (take-take m n ks (omega arith))

  -- `GetTop(n)`, where `n` is at most the capacity: whatever was inserted in whatever order, the
  -- keys of its items are the `n` first ones of all keys that were inserted, in order: the smallest
  -- for an ascending cache, the greatest for any other.
  pub get_top-keys :
      (capacity n : ℕ) (xs : List T)
      → 0 < capacity
      → n ≤ capacity
      → map (key_of hashable) (get_top n (after_inserts xs (new_top_n_cache capacity ascending)))
        ≡ take n (sort_by (precedes ascending) (map (key_of hashable) xs))
  unfolding get_top
  get_top-keys capacity n xs pos fits = rw (after_inserts-new capacity xs pos) (
      keys-take n (top_items capacity xs)
      ∙ ap (take n) (keys-top_items capacity xs pos)
      ∙ take-take n capacity (sort_by before (keys xs)) fits)
