-- ===== src/MerkleTree/Lru/Puts.antt =====
-- What a write of a value and a new node make of the places of the cache.
use mathlib.Core.Option.{some-injective}
use onchain_exchange_homewor.Prelude.{
  ℕ, ◌<◌, true, false, Option, none, some, ◌==◌, if◌then◌else◌, ◌≡◌, ◌≢◌, ◌⊎◌, sym, ap, ◌∙◌, arith,
  Bool-cases, inl, inr, lookup, lookup-insert,
}
use onchain_exchange_homewor.MerkleTree.Lru.{LruNode, LruCache, write, add_node}
use onchain_exchange_homewor.MerkleTree.Lru.Links.{revised, lookup-revise, labels, label}
use onchain_exchange_homewor.MerkleTree.Lru.Keyed.{
  Holds, IsKeyed, Shrunk, Shrunk-Holds, Shrunk-IsKeyed,
}

module _ {T : Type 0} where
  -- What is true of a cache that an item was put into: it is keyed, and has that item, and besides
  -- only what was there under another ID.
  abbrev pub HasPut : ℕ → T → LruCache T → LruCache T → Type 0
  HasPut id item c c' =
      IsKeyed c'
      × ((j : ℕ) (x : T) → Holds c' j x → ((id ≡ j) × (item ≡ x)) ⊎ ((id ≢ j) × Holds c j x))

  pub Shrunk-HasPut :
      (id : ℕ) (item : T) (c c' c'' : LruCache T)
      → Shrunk c' c''
      → HasPut id item c c'
      → HasPut id item c c''
  Shrunk-HasPut id item c c' c'' s (keyed, only) =
      (Shrunk-IsKeyed c' c'' s keyed, λ j x h. only j x (Shrunk-Holds c' c'' j x s h))

  abbrev pub with_value : T → LruNode T → LruNode T
  with_value item n = record n { value = item }

  pub label-write :
      (p q j : ℕ) (item y : T) (c : LruCache T)
      → label q c ≡ some (j, y)
      → label q (write p (with_value item) c) ≡ some (j, if p == q then item else y)
  label-write p q j item y c e =
      ap labels (lookup-revise p q (with_value item) c.nodes) ∙ of_node (lookup q c.nodes) e
    where
      of_node :
          (o : Option (LruNode T))
          → labels o ≡ some (j, y)
          → labels (if p == q then revised (with_value item) o else o)
            ≡ some (j, if p == q then item else y)
      of_node none e = cc
      of_node (some n) e =
          let s = some-injective (n.id, n.value) (j, y) e in
          elim (Bool-cases (p == q)) [
            | inl same ↦ rw same (ap (λ i. some (i, item)) (ap (λ r. r.0) s))
            | inr other ↦ rw other e
          ]

  -- A new value in the node of an ID.
  pub written-HasPut :
      (id p : ℕ) (item : T) (c : LruCache T)
      → IsKeyed c
      → lookup id c.cache ≡ some p
      → HasPut id item c (write p (with_value item) c)
  written-HasPut id p item c h there = (
    record {
      node = λ j q found. let (y, k) = h.node j q found in (_, label-write p q j item y c k);
      taken = h.taken;
    },
    λ j x (q, found, e). only j x q found e,
  )
    where
      only :
          (j : ℕ) (x : T) (q : ℕ)
          → lookup j c.cache ≡ some q
          → label q (write p (with_value item) c) ≡ some (j, x)
          → ((id ≡ j) × (item ≡ x)) ⊎ ((id ≢ j) × Holds c j x)
      only j x q found e =
          let (y, k) = h.node j q found in
          let (z, l) = h.node id p there in
          let values : (if p == q then item else y) ≡ x =
            ap (λ r. r.1) (some-injective _ _ (sym (label-write p q j item y c k) ∙ e)) in
          elim (Bool-cases (p == q)) [
            | inl same ↦
                let place : p ≡ q = ground arith in
                let ids = some-injective _ _ (sym l ∙ ap (λ r. label r c) place ∙ k) in
                inl (ap (λ r. r.0) ids, rw same at values)
            | inr other ↦ inr (
              (λ same.
                  let place : p ≡ q =
                    some-injective _ _ (sym there ∙ ap (λ i. lookup i c.cache) same ∙ found) in
                  absurd (let b : p == q ≡ true = ground (arith, place) in cc)),
              (q, found, k ∙ ap (λ v. some (j, v)) (rw other at values)),
            )
          ]

  added-cases :
      (id j q : ℕ) (item : T) (c : LruCache T)
      → IsKeyed c
      → lookup j (add_node id item c).cache ≡ some q
      → ((id ≡ j) × (c.fresh ≡ q) × (label q (add_node id item c) ≡ some (id, item)))
        ⊎ ((id ≢ j) × (lookup j c.cache ≡ some q) × (label q (add_node id item c) ≡ label q c))
  unfolding add_node
  added-cases id j q item c h found =
      let e = sym (lookup-insert id j c.fresh c.cache) ∙ found in
      let n : LruNode T = record { id = id; value = item; prev = none; next = none } in
      let nodes = lookup-insert c.fresh q n c.nodes in
      elim (Bool-cases (id == j)) [
        | inl same ↦
            let place : c.fresh ≡ q = some-injective _ _ (rw same at e) in
            let here : c.fresh == q ≡ true = ground (arith, place) in
            inl (ground (arith, same), place, ap labels (rw here at nodes))
        | inr other ↦
            let old : lookup j c.cache ≡ some q = rw other at e in
            let taken = h.taken j q old in
            let there : c.fresh == q ≡ false = ground (arith, taken) in
            inr (ground (arith, other), old, ap labels (rw there at nodes))
      ]

  taken_new : (id q : ℕ) (item : T) (c : LruCache T) → c.fresh ≡ q → q < (add_node id item c).fresh
  unfolding add_node
  taken_new id q item c place = omega (arith, place)

  taken_old : (id q : ℕ) (item : T) (c : LruCache T) → q < c.fresh → q < (add_node id item c).fresh
  unfolding add_node
  taken_old id q item c old = omega (arith, old)

  pub added-HasPut :
      (id : ℕ) (item : T) (c : LruCache T) → IsKeyed c → HasPut id item c (add_node id item c)
  added-HasPut id item c h = (
    record {
      node = λ j q found. elim (added-cases id j q item c h found) [
        | inl (same, _, new) ↦ (item, new ∙ ap (λ i. some (i, item)) same)
        | inr (_, old, kept) ↦ let (x, e) = h.node j q old in (x, kept ∙ e)
      ];
      taken = λ j q found. elim (added-cases id j q item c h found) [
        | inl (_, place, _) ↦ taken_new id q item c place
        | inr (_, old, _) ↦ taken_old id q item c (h.taken j q old)
      ];
    },
    λ j x (q, found, e). elim (added-cases id j q item c h found) [
      | inl (same, _, new) ↦
          inl (same, ap (λ r. r.1) (some-injective (id, item) (j, x) (sym new ∙ e)))
      | inr (other, old, kept) ↦ inr (other, (q, old, sym kept ∙ e))
    ],
  )
