-- ===== src/MerkleTree/Lru/Evictions.antt =====
-- What a `put` stores, what it keeps, and what it evicts when the cache is full.
use mathlib.Core.Path.{subst}
use onchain_exchange_homewor.Prelude.{
  ℕ, ◌+◌, ◌≤◌, true, false, none, some, ◌==◌, ltb, if◌then◌else◌, length, ◌≡◌, ◌≢◌, refl, sym, ap,
  ◌∙◌, arith, Bool-cases, Option-cases, inl, inr, lookup,
}
use onchain_exchange_homewor.MerkleTree.Lru.{
  LruCache, points_to, write, link_head, add_node, add_to_head, move_to_head, remove_tail, put_lru,
  try_get_lru,
}
use onchain_exchange_homewor.MerkleTree.Lru.Links.{add_to_head-Relinks, move_to_head-Relinks}
use onchain_exchange_homewor.MerkleTree.Lru.Keyed.{Holds, IsKeyed}
use onchain_exchange_homewor.MerkleTree.Lru.Puts.{with_value}
use onchain_exchange_homewor.MerkleTree.Lru.Laws.{
  try_get_lru-Holds, Holds-try_get_lru, try_get_lru-put_lru,
}
use onchain_exchange_homewor.MerkleTree.Lru.Contents.{
  length-insert, HasTail, evicted, Relinked-kept, written_here, written_other, added_here,
  added_other, remove_tail_other, remove_tail_gone, added, Evicts, added-Evicts,
}

module _ {T : Type 0} where
  -- What is in the cache after a put.
  record IsPut (id : ℕ) (item : T) (c c' : LruCache T) : Type 0 where
    here : Holds c' id item
    kept :
        (j : ℕ) (x : T) → id ≢ j → points_to j (evicted id c) ≡ false → Holds c j x → Holds c' j x
    gone : (j : ℕ) → points_to j (evicted id c) ≡ true → (id ≢ j) × (lookup j c'.cache ≡ none)

  move_to_head-IsPut :
      (id p : ℕ) (item : T) (c : LruCache T)
      → IsKeyed c
      → lookup id c.cache ≡ some p
      → IsPut id item c (move_to_head p (write p (with_value item) c))
  move_to_head-IsPut id p item c h there =
      let c' = write p (with_value item) c in
      let moved = move_to_head-Relinks p c' in
      record {
        here =
            Relinked-kept c' (move_to_head p c') id item moved (written_here id p item c h there);
        kept = λ j x other _ holds.
            Relinked-kept c' (move_to_head p c') j x moved
              (written_other id p item c j x h there other holds);
        gone = λ j e. let e' : points_to j none ≡ true = sym (rw (there, evicted) refl) ∙ e in cc;
      }

  added_found : (id : ℕ) (item : T) (c : LruCache T) → Holds (added id item c) id item
  added_found id item c =
      Relinked-kept (add_node id item c) (added id item c) id item
        (add_to_head-Relinks c.fresh (add_node id item c)) (added_here id item c)

  added_kept :
      (id : ℕ) (item : T) (c : LruCache T) (j : ℕ) (x : T)
      → IsKeyed c
      → id ≢ j
      → Holds c j x
      → Holds (added id item c) j x
  added_kept id item c j x h other holds =
      Relinked-kept (add_node id item c) (added id item c) j x
        (add_to_head-Relinks c.fresh (add_node id item c)) (added_other id item c j x h other holds)

  added-IsPut :
      (id : ℕ) (item : T) (c : LruCache T)
      → IsKeyed c
      → evicted id c ≡ none
      → IsPut id item c (added id item c)
  added-IsPut id item c h e = record {
    here = added_found id item c;
    kept = λ j x other _ holds. added_kept id item c j x h other holds;
    gone = λ j f. let f' : points_to j none ≡ true = sym (ap (points_to j) e) ∙ f in cc;
  }

  remove_tail-IsPut :
      (id k : ℕ) (item : T) (c : LruCache T)
      → IsKeyed c
      → evicted id c ≡ some k
      → Evicts id k item c
      → IsPut id item c (remove_tail (added id item c))
  remove_tail-IsPut id k item c h e v =
      let c' = added id item c in
      record {
        here =
            remove_tail_other c' v.place k v.value id item v.tail v.label
              (λ same. v.other (sym same)) (added_found id item c);
        kept = λ j x other stays holds.
            let apart : j == k ≡ false = sym (ap (points_to j) e) ∙ stays in
            remove_tail_other c' v.place k v.value j x v.tail v.label (ground (arith, apart))
              (added_kept id item c j x h other holds);
        gone = λ j goes.
            let here : j == k ≡ true = sym (ap (points_to j) e) ∙ goes in
            let same : k ≡ j = ground (arith, here) in
            subst (λ j. (id ≢ j) × (lookup j (remove_tail c').cache ≡ none)) same
              (v.other, remove_tail_gone c' v.place k v.value v.tail v.label);
      }

  capacity-link_head : (p : ℕ) (c : LruCache T) → (link_head p c).capacity ≡ c.capacity
  unfolding link_head
  capacity-link_head p c = elim (Option-cases c.head) [
    | inl e ↦ rw (e, link_head) refl
    | inr (q, e) ↦ rw (e, link_head) refl
  ]

  capacity-added : (id : ℕ) (item : T) (c : LruCache T) → (added id item c).capacity ≡ c.capacity
  unfolding add_to_head add_node
  capacity-added id item c = capacity-link_head c.fresh _

  length-added :
      (id : ℕ) (item : T) (c : LruCache T)
      → lookup id c.cache ≡ none
      → length (added id item c).cache ≡ length c.cache + 1
  unfolding add_node
  length-added id item c new =
      ap length (add_to_head-Relinks c.fresh (add_node id item c)).cache
      ∙ length-insert id c.fresh c.cache new

  put_lru-IsPut :
      (id : ℕ) (item : T) (c : LruCache T)
      → IsKeyed c
      → HasTail c
      → 1 ≤ c.capacity
      → IsPut id item c (put_lru id item c)
  unfolding put_lru
  put_lru-IsPut id item c h t room = elim (Option-cases (lookup id c.cache)) [
    | inr (p, e) ↦
        let opened : put_lru id item c ≡ move_to_head p (write p (with_value item) c) =
          rw (e, put_lru) refl in
        subst (IsPut id item c) (sym opened) (move_to_head-IsPut id p item c h e)
    | inl e ↦
        let size = length-added id item c e in
        let capacity = capacity-added id item c in
        elim (Bool-cases (ltb (length c.cache) c.capacity)) [
          | inl free ↦
              let fits : ltb (added id item c).capacity (length (added id item c).cache) ≡ false =
                ground (arith, size, capacity, free) in
              let opened : put_lru id item c ≡ added id item c = rw (e, put_lru) (rw fits refl) in
              subst (IsPut id item c) (sym opened)
                (added-IsPut id item c h (rw (e, evicted) (rw free refl)))
          | inr full ↦
              let over : ltb (added id item c).capacity (length (added id item c).cache) ≡ true =
                ground (arith, size, capacity, full) in
              let opened : put_lru id item c ≡ remove_tail (added id item c) =
                rw (e, put_lru) (rw over refl) in
              let (k, v) = added-Evicts id item c h t e (ground (arith, full, room)) in
              subst (IsPut id item c) (sym opened)
                (remove_tail-IsPut id k item c h (rw (e, evicted) (rw full v.is_tail)) v)
        ]
  ]

  not_there : (j : ℕ) (c : LruCache T) → lookup j c.cache ≡ none → try_get_lru j c ≡ none
  unfolding try_get_lru
  not_there j c e = rw (e, try_get_lru) refl

  -- On a cache of at least one place whose tail is the node of an ID and where the node of each ID
  -- has that ID: after `put`, `tryGet` finds the item under its ID. A new ID that comes into a full
  -- cache evicts the ID of the tail, which is not found any more; a known ID, or one for which there
  -- is room, evicts none. Under every other ID `tryGet` finds what it found before.
  pub put_lru-evicted :
      (id j : ℕ) (item : T) (c : LruCache T)
      → IsKeyed c
      → HasTail c
      → 1 ≤ c.capacity
      → try_get_lru j (put_lru id item c) ≡ (
          if id == j
          then some item
          else if points_to j (evicted id c)
          then none
          else try_get_lru j c)
  put_lru-evicted id j item c h t room =
      let c' = put_lru id item c in
      let put = put_lru-IsPut id item c h t room in
      let (keyed, only) = try_get_lru-put_lru id item c h in
      elim (Bool-cases (id == j)) [
        | inl here ↦
            let same : id ≡ j = ground (arith, here) in
            rw here (ap (λ j. try_get_lru j c') (sym same) ∙ Holds-try_get_lru c' id item put.here)
        | inr apart ↦
            let other : id ≢ j = ground (arith, apart) in
            rw apart (elim (Bool-cases (points_to j (evicted id c))) [
              | inl goes ↦ rw goes (not_there j c' (put.gone j goes).1)
              | inr stays ↦ rw stays (elim (Option-cases (try_get_lru j c)) [
                | inr (x, e) ↦
                    Holds-try_get_lru c' j x
                      (put.kept j x other stays (try_get_lru-Holds c j x h e))
                    ∙ sym e
                | inl e ↦ elim (Option-cases (try_get_lru j c')) [
                  | inl e' ↦ e' ∙ sym e
                  | inr (x, e') ↦ elim (only j x e') [
                    | inl (same, _) ↦ absurd (other same)
                    | inr (_, old) ↦ e' ∙ sym old
                  ]
                ]
              ])
            ])
      ]
