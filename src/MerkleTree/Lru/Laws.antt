-- ===== src/MerkleTree/Lru/Laws.antt =====
-- What the cache finds was put there, and neither replaced nor deleted since.
use mathlib.Core.Option.{some-injective}
use onchain_exchange_homewor.Prelude.{
  ℕ, Bool, true, false, Option, none, some, ltb, length, if◌then◌else◌, ◌≡◌, ◌≢◌, ◌⊎◌, refl, sym,
  ap, ◌∙◌, inl, inr, lookup, erase,
}
use onchain_exchange_homewor.MerkleTree.Lru.{
  LruNode, LruCache, write, add_node, add_to_head, remove_node, move_to_head, remove_tail,
  new_lru_cache, put_lru, try_get_lru, value_at, delete_lru,
}
use onchain_exchange_homewor.MerkleTree.Lru.Links.{
  labels, label, remove_node-Relinks, add_to_head-Relinks, move_to_head-Relinks,
}
use onchain_exchange_homewor.MerkleTree.Lru.Keyed.{
  Holds, IsKeyed, Shrunk-Holds, Shrunk-IsKeyed, Relinked-Shrunk, erase-kept, remove_erased-Shrunk,
  remove_tail-Shrunk,
}
use onchain_exchange_homewor.MerkleTree.Lru.Puts.{
  HasPut, Shrunk-HasPut, with_value, written-HasPut, added-HasPut,
}

module _ {T : Type 0} where
  -- What `tryGet` finds is what the cache has.
  pub try_get_lru-Holds :
      (c : LruCache T) (j : ℕ) (x : T) → IsKeyed c → try_get_lru j c ≡ some x → Holds c j x
  unfolding try_get_lru value_at
  try_get_lru-Holds c j x h e = of_place (lookup j c.cache) refl e
    where
      of_node :
          (q : ℕ) (o : Option (LruNode T))
          → lookup j c.cache ≡ some q
          → labels o ≡ label q c
          → elim o [ none ↦ none | some n ↦ some n.value ] ≡ some x
          → Holds c j x
      of_node q none found same e = cc
      of_node q (some n) found same e =
          let (y, k) = h.node j q found in
          let ids = some-injective (n.id, n.value) (j, y) (same ∙ k) in
          let value : n.value ≡ x = some-injective _ _ e in
          (q, found, k ∙ ap (λ v. some (j, v)) (sym (ap (λ r. r.1) ids) ∙ value))

      of_place :
          (o : Option ℕ)
          → lookup j c.cache ≡ o
          → elim o [
            | none ↦ none
            | some q ↦ elim (lookup q c.nodes) [ none ↦ none | some n ↦ some n.value ]
          ]
            ≡ some x
          → Holds c j x
      of_place none found e = cc
      of_place (some q) found e = of_node q (lookup q c.nodes) found refl e

  pub Holds-try_get_lru : (c : LruCache T) (j : ℕ) (x : T) → Holds c j x → try_get_lru j c ≡ some x
  unfolding try_get_lru value_at
  Holds-try_get_lru c j x (q, found, e) = rw (found, try_get_lru) (of_node (lookup q c.nodes) e)
    where
      of_node :
          (o : Option (LruNode T))
          → labels o ≡ some (j, x)
          → elim o [ none ↦ none | some n ↦ some n.value ] ≡ some x
      of_node none e = cc
      of_node (some n) e = ap (λ r. some r.1) (some-injective (n.id, n.value) (j, x) e)

  pub put_lru-HasPut :
      (id : ℕ) (item : T) (c : LruCache T) → IsKeyed c → HasPut id item c (put_lru id item c)
  unfolding put_lru
  put_lru-HasPut id item c h = of_place (lookup id c.cache) refl
    where
      added : LruCache T
      added = add_to_head c.fresh (add_node id item c)

      of_added : HasPut id item c added
      of_added =
          Shrunk-HasPut id item c (add_node id item c) added
            (Relinked-Shrunk _ _ (add_to_head-Relinks c.fresh (add_node id item c)))
            (added-HasPut id item c h)

      full : (b : Bool) → HasPut id item c (if b then remove_tail added else added)
      full true =
          Shrunk-HasPut id item c added (remove_tail added) (remove_tail-Shrunk added) of_added
      full false = of_added

      of_place :
          (o : Option ℕ)
          → lookup id c.cache ≡ o
          → HasPut id item c (elim o [
            | some p ↦ move_to_head p (write p (with_value item) c)
            | none ↦ if ltb added.capacity (length added.cache) then remove_tail added else added
          ])
      of_place none found = full (ltb added.capacity (length added.cache))
      of_place (some p) found =
          Shrunk-HasPut id item c (write p (with_value item) c) _
            (Relinked-Shrunk _ _ (move_to_head-Relinks p (write p (with_value item) c)))
            (written-HasPut id p item c h found)

  -- What is true of a cache that an ID was deleted from.
  abbrev HasDeleted : ℕ → LruCache T → LruCache T → Type 0
  HasDeleted id c c' = IsKeyed c' × ((j : ℕ) (x : T) → Holds c' j x → (id ≢ j) × Holds c j x)

  delete_lru-HasDeleted : (id : ℕ) (c : LruCache T) → IsKeyed c → HasDeleted id c (delete_lru id c)
  unfolding delete_lru
  delete_lru-HasDeleted id c h = of_place (lookup id c.cache) refl
    where
      of_place :
          (o : Option ℕ)
          → lookup id c.cache ≡ o
          → HasDeleted id c
              (elim o [ none ↦ c | some p ↦ remove_node p (record c { cache = erase id c.cache }) ])
      of_place none found = (
        h,
        λ j x (q, there, e).
            ((λ same. let n = ap (λ i. lookup i c.cache) same in cc), (q, there, e)),
      )
      of_place (some p) found =
          let c' : LruCache T = record c { cache = erase id c.cache } in
          let c'' = remove_node p c' in
          let relinked = Relinked-Shrunk c' c'' (remove_node-Relinks p c') in
          (
            Shrunk-IsKeyed c c'' (remove_erased-Shrunk id p c) h,
            λ j x holds.
                let (q, there, e) = Shrunk-Holds c' c'' j x relinked holds in
                let (other, before) = erase-kept id j q c.cache there in (other, (q, before, e)),
          )

  -- If the node of each ID has that ID, then so it is after `put`, and what `tryGet` finds then is
  -- the item that was put, under its ID, or what it found before, under another.
  pub try_get_lru-put_lru :
      (id : ℕ) (item : T) (c : LruCache T)
      → IsKeyed c
      → IsKeyed (put_lru id item c)
        × ((j : ℕ) (x : T)
            → try_get_lru j (put_lru id item c) ≡ some x
            → ((id ≡ j) × (item ≡ x)) ⊎ ((id ≢ j) × (try_get_lru j c ≡ some x)))
  try_get_lru-put_lru id item c h =
      let (keyed, only) = put_lru-HasPut id item c h in
      (
        keyed,
        λ j x e. elim (only j x (try_get_lru-Holds (put_lru id item c) j x keyed e)) [
          | inl new ↦ inl new
          | inr (other, holds) ↦ inr (other, Holds-try_get_lru c j x holds)
        ],
      )

  -- If the node of each ID has that ID, then so it is after `delete`, and what `tryGet` finds then is
  -- under another ID, and found there before.
  pub try_get_lru-delete_lru :
      (id : ℕ) (c : LruCache T)
      → IsKeyed c
      → IsKeyed (delete_lru id c)
        × ((j : ℕ) (x : T)
            → try_get_lru j (delete_lru id c) ≡ some x
            → (id ≢ j) × (try_get_lru j c ≡ some x))
  try_get_lru-delete_lru id c h =
      let (keyed, only) = delete_lru-HasDeleted id c h in
      (
        keyed,
        λ j x e.
            let (other, holds) = only j x (try_get_lru-Holds (delete_lru id c) j x keyed e) in
            (other, Holds-try_get_lru c j x holds),
      )

  pub new_lru_cache-IsKeyed : (capacity : ℕ) → IsKeyed {T = T} (new_lru_cache capacity)
  unfolding new_lru_cache
  new_lru_cache-IsKeyed capacity = record { node = λ j p e. cc; taken = λ j p e. cc }

  pub try_get_lru-new_lru_cache :
      (capacity id : ℕ) → try_get_lru {T = T} id (new_lru_cache capacity) ≡ none
  unfolding new_lru_cache try_get_lru
  try_get_lru-new_lru_cache capacity id = refl
