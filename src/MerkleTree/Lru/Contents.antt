-- ===== src/MerkleTree/Lru/Contents.antt =====
-- What a cache has after each step of `put`: the write, the new node in front and the tail that goes.
use mathlib.Core.Path.{subst}
use mathlib.Core.Option.{some-injective}
use onchain_exchange_homewor.Prelude.{
  ℕ, ◌+◌, ◌<◌, true, false, Option, none, some, [], ◌∷◌, ◌==◌, ltb, if◌then◌else◌, length, ◌≡◌, ◌≢◌,
  refl, sym, ap, ◌∙◌, arith, Bool-cases, inl, inr, Map, lookup, insert, erase, lookup-insert,
  lookup-erase,
}
use onchain_exchange_homewor.MerkleTree.Lru.{
  LruNode, LruCache, write, add_node, add_to_head, remove_node, remove_tail,
}
use onchain_exchange_homewor.MerkleTree.Lru.Links.{
  labels, label, Relinked, remove_node-Relinks, add_to_head-Relinks,
}
use onchain_exchange_homewor.MerkleTree.Lru.Keyed.{Holds, IsKeyed}
use onchain_exchange_homewor.MerkleTree.Lru.Puts.{with_value, label-write}

pub length-insert :
    {V : Type 0} (k : ℕ) (v : V) (m : Map V)
    → lookup k m ≡ none
    → length (insert k v m) ≡ length m + 1
length-insert k v [] e = ground arith
length-insert k v ((i, w) ∷ m) e = ground (arith, e, length-insert k v m)

module _ {T : Type 0} where
  -- The tail is the node of an ID; without one the cache is empty.
  pub record HasTail (c : LruCache T) : Type 0 where
    pub of_none : c.tail ≡ none → length c.cache ≡ 0
    pub of_some : (q : ℕ) → c.tail ≡ some q → (k : ℕ) × (lookup k c.cache ≡ some q)

  -- The ID of the tail.
  abbrev pub tail_id : LruCache T → Option ℕ
  tail_id c = elim c.tail [
    | none ↦ none
    | some q ↦ elim (lookup q c.nodes) [ none ↦ none | some n ↦ some n.id ]
  ]

  -- The ID that a new ID evicts: that of the tail if the cache is full.
  abbrev pub evicted : ℕ → LruCache T → Option ℕ
  evicted id c = elim (lookup id c.cache) [
    | some p ↦ none
    | none ↦ if ltb (length c.cache) c.capacity then none else tail_id c
  ]

  pub Relinked-kept :
      (c c' : LruCache T) (j : ℕ) (x : T) → Relinked c c' → Holds c j x → Holds c' j x
  Relinked-kept c c' j x r (p, there, e) = (p, ap (lookup j) r.cache ∙ there, r.label p ∙ e)

  pub written_here :
      (id p : ℕ) (item : T) (c : LruCache T)
      → IsKeyed c
      → lookup id c.cache ≡ some p
      → Holds (write p (with_value item) c) id item
  written_here id p item c h there =
      let (y, k) = h.node id p there in
      let same : p == p ≡ true = ground arith in
      (p, there, label-write p p id item y c k ∙ ap (λ b. some (id, if b then item else y)) same)

  pub written_other :
      (id p : ℕ) (item : T) (c : LruCache T) (j : ℕ) (x : T)
      → IsKeyed c
      → lookup id c.cache ≡ some p
      → id ≢ j
      → Holds c j x
      → Holds (write p (with_value item) c) j x
  written_other id p item c j x h there other (q, found, e) =
      let (y, k) = h.node id p there in
      (
        q,
        found,
        label-write p q j item x c e ∙ elim (Bool-cases (p == q)) [
          | inl same ↦
              let place : p ≡ q = ground (arith, same) in
              let ids = some-injective _ _ (sym k ∙ ap (λ r. label r c) place ∙ e) in
              absurd (other (ap (λ r. r.0) ids))
          | inr apart ↦ rw apart refl
        ],
      )

  pub added_here : (id : ℕ) (item : T) (c : LruCache T) → Holds (add_node id item c) id item
  unfolding add_node
  added_here id item c =
      let n : LruNode T = record { id = id; value = item; prev = none; next = none } in
      let same : id == id ≡ true = ground arith in
      let here : c.fresh == c.fresh ≡ true = ground arith in
      (
        c.fresh,
        lookup-insert id id c.fresh c.cache ∙ rw same refl,
        ap labels (lookup-insert c.fresh c.fresh n c.nodes)
            ∙ ap (λ b. labels (if b then some n else lookup c.fresh c.nodes)) here,
      )

  label-add_node :
      (id q : ℕ) (item : T) (c : LruCache T)
      → q < c.fresh
      → label q (add_node id item c) ≡ label q c
  unfolding add_node
  label-add_node id q item c old =
      let n : LruNode T = record { id = id; value = item; prev = none; next = none } in
      let there : c.fresh == q ≡ false = ground (arith, old) in
      ap labels (lookup-insert c.fresh q n c.nodes)
      ∙ ap (λ b. labels (if b then some n else lookup q c.nodes)) there

  pub added_other :
      (id : ℕ) (item : T) (c : LruCache T) (j : ℕ) (x : T)
      → IsKeyed c
      → id ≢ j
      → Holds c j x
      → Holds (add_node id item c) j x
  unfolding add_node
  added_other id item c j x h other (q, found, e) =
      let apart : id == j ≡ false = ground (arith, other) in
      (
        q,
        lookup-insert id j c.fresh c.cache ∙ rw apart found,
        label-add_node id q item c (h.taken j q found) ∙ e,
      )

  tail-add_to_head :
      (p : ℕ) (c : LruCache T)
      → (add_to_head p c).tail ≡ elim c.tail [ none ↦ some p | some q ↦ some q ]
  unfolding add_to_head
  tail-add_to_head p c = refl

  without_tail : LruCache T → ℕ → LruNode T → LruCache T
  without_tail c p n = remove_node p (record c { cache = erase n.id c.cache })

  remove_tail-remove_node :
      (c : LruCache T) (q : ℕ) (n : LruNode T)
      → c.tail ≡ some q
      → lookup q c.nodes ≡ some n
      → remove_tail c ≡ remove_node q (record c { cache = erase n.id c.cache })
  unfolding remove_tail without_tail
  remove_tail-remove_node c q n tail there =
      ap
        (λ (o : Option ℕ). elim o [
          | none ↦ c
          | some p ↦ elim (lookup p c.nodes) [ none ↦ c | some n ↦ without_tail c p n ]
        ])
        tail
      ∙ ap (λ (o : Option (LruNode T)). elim o [ none ↦ c | some n ↦ without_tail c q n ]) there

  -- The tail goes, and all else stays.
  pub remove_tail_other :
      (c : LruCache T) (q k : ℕ) (y : T) (j : ℕ) (x : T)
      → c.tail ≡ some q
      → label q c ≡ some (k, y)
      → k ≢ j
      → Holds c j x
      → Holds (remove_tail c) j x
  remove_tail_other c q k y j x tail e other (p, found, l) = of_node (lookup q c.nodes) refl e
    where
      of_node :
          (o : Option (LruNode T))
          → lookup q c.nodes ≡ o
          → labels o ≡ some (k, y)
          → Holds (remove_tail c) j x
      of_node none at e = cc
      of_node (some n) at e =
          let id : n.id ≡ k = ap (λ r. r.0) (some-injective (n.id, n.value) (k, y) e) in
          let c' : LruCache T = record c { cache = erase n.id c.cache } in
          let apart : n.id == j ≡ false = ground (arith, id, other) in
          let kept : Holds c' j x = (p, lookup-erase n.id j c.cache ∙ rw apart found, l) in
          let opened = remove_tail-remove_node c q n tail at in
          subst (λ c. Holds c j x) (sym opened)
            (Relinked-kept c' (remove_node q c') j x (remove_node-Relinks q c') kept)

  pub remove_tail_gone :
      (c : LruCache T) (q k : ℕ) (y : T)
      → c.tail ≡ some q
      → label q c ≡ some (k, y)
      → lookup k (remove_tail c).cache ≡ none
  remove_tail_gone c q k y tail e = of_node (lookup q c.nodes) refl e
    where
      of_node :
          (o : Option (LruNode T))
          → lookup q c.nodes ≡ o
          → labels o ≡ some (k, y)
          → lookup k (remove_tail c).cache ≡ none
      of_node none at e = cc
      of_node (some n) at e =
          let id : n.id ≡ k = ap (λ r. r.0) (some-injective (n.id, n.value) (k, y) e) in
          let c' : LruCache T = record c { cache = erase n.id c.cache } in
          let here : n.id == k ≡ true = ground (arith, id) in
          let opened = remove_tail-remove_node c q n tail at in
          ap (λ c. lookup k c.cache) opened
          ∙ ap (lookup k) (remove_node-Relinks q c').cache
          ∙ lookup-erase n.id k c.cache
          ∙ rw here refl

  -- A new ID in front.
  abbrev pub added : ℕ → T → LruCache T → LruCache T
  added id item c = add_to_head c.fresh (add_node id item c)

  -- What goes when a new ID comes into a full cache.
  pub record Evicts (id k : ℕ) (item : T) (c : LruCache T) : Type 0 where
    pub place : ℕ
    pub value : T
    pub tail : (added id item c).tail ≡ some place
    pub label : label place (added id item c) ≡ some (k, value)
    pub other : id ≢ k
    pub is_tail : tail_id c ≡ some k

  pub added-Evicts :
      (id : ℕ) (item : T) (c : LruCache T)
      → IsKeyed c
      → HasTail c
      → lookup id c.cache ≡ none
      → 0 < length c.cache
      → (k : ℕ) × Evicts id k item c
  unfolding add_node
  added-Evicts id item c h t new some_there = of_tail c.tail refl
    where
      of_label :
          (o : Option (LruNode T)) (k : ℕ) (y : T)
          → labels o ≡ some (k, y)
          → elim o as (λ _. Option ℕ) [ none ↦ none | some n ↦ some n.id ] ≡ some k
      of_label none k y e = cc
      of_label (some n) k y e = ap (λ r. some r.0) (some-injective (n.id, n.value) (k, y) e)

      of_tail : (o : Option ℕ) → c.tail ≡ o → (k : ℕ) × Evicts id k item c
      of_tail none e = absurd (let nothing = t.of_none e in omega (arith, nothing, some_there))
      of_tail (some q) e =
          let (k, there) = t.of_some q e in
          let (y, l) = h.node k q there in
          (
            k,
            record {
              place = q;
              value = y;
              tail = tail-add_to_head c.fresh (add_node id item c) ∙ rw e refl;
              label =
                  (add_to_head-Relinks c.fresh (add_node id item c)).label q
                  ∙ label-add_node id q item c (h.taken k q there)
                  ∙ l;
              other = λ same. let both = ap (λ i. lookup i c.cache) same in cc;
              is_tail = rw e (of_label (lookup q c.nodes) k y l);
            },
          )
