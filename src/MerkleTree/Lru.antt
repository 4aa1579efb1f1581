-- ===== src/MerkleTree/Lru.antt =====
-- mt-manager/merkletree/cache_lru.go: a cache that forgets what was used least recently. A `*lruNode`
-- is a place in the heap `nodes`; `fresh` is the next free place. Each method is one step, also
-- `get`, which takes the lock twice.
pub mod Links
pub mod Keyed
pub mod Puts
pub mod Laws
pub mod Contents
pub mod Evictions
use onchain_exchange_homewor.Prelude.{
  ℕ, ◌+◌, Bool, false, Option, none, some, [], ◌∷◌, ◌==◌, ltb, if◌then◌else◌, length, Map, lookup,
  insert, erase,
}

-- `lruNode`
pub record LruNode (T : Type 0) : Type 0 where
  pub id : ℕ
  pub value : T
  pub prev : Option ℕ
  pub next : Option ℕ

-- `lruCache`
pub record LruCache (T : Type 0) : Type 0 where
  pub nodes : Map (LruNode T)
  pub fresh : ℕ
  pub cache : Map ℕ
  pub head : Option ℕ
  pub tail : Option ℕ
  pub capacity : ℕ

-- `==` on pointers.
abbrev pub points_to : ℕ → Option ℕ → Bool
points_to p none = false
points_to p (some q) = p == q

module _ {T : Type 0} where
  abbrev pub revise : ℕ → (LruNode T → LruNode T) → Map (LruNode T) → Map (LruNode T)
  revise p change [] = []
  revise p change ((q, n) ∷ m) = if q == p then (q, change n) ∷ m else (q, n) ∷ revise p change m

  -- A write through a pointer.
  abbrev pub write : ℕ → (LruNode T → LruNode T) → LruCache T → LruCache T
  write p change c = record c { nodes = revise p change c.nodes }

  -- `newLRUCache`
  unfoldable pub new_lru_cache : ℕ → LruCache T
  new_lru_cache capacity = record {
    nodes = [];
    fresh = 0;
    cache = [];
    head = none;
    tail = none;
    capacity = capacity;
  }

  -- `if c.head != nil { c.head.prev = node }`
  unfoldable pub link_head : ℕ → LruCache T → LruCache T
  link_head p c = elim c.head [ none ↦ c | some h ↦ write h (λ n. record n { prev = some p }) c ]

  -- `addToHead`
  unfoldable pub add_to_head : ℕ → LruCache T → LruCache T
  unfolding link_head
  add_to_head p c =
      let c' = link_head p (write p (λ n. record n { next = c.head; prev = none }) c) in
      record c' { head = some p; tail = elim c.tail [ none ↦ some p | some q ↦ some q ] }

  -- The first half of `removeNode`: the node before, or the head, gets the one behind.
  unfoldable pub unlink_prev : LruNode T → LruCache T → LruCache T
  unlink_prev n c = elim n.prev [
    | none ↦ record c { head = n.next }
    | some q ↦ write q (λ m. record m { next = n.next }) c
  ]

  -- The second half.
  unfoldable pub unlink_next : LruNode T → LruCache T → LruCache T
  unlink_next n c = elim n.next [
    | none ↦ record c { tail = n.prev }
    | some q ↦ write q (λ m. record m { prev = n.prev }) c
  ]

  -- A read through a pointer, and what is done with the node.
  abbrev pub at_node : ℕ → (LruNode T → LruCache T → LruCache T) → LruCache T → LruCache T
  at_node p act c = elim (lookup p c.nodes) [ none ↦ c | some n ↦ act n c ]

  -- `removeNode`
  unfoldable pub remove_node : ℕ → LruCache T → LruCache T
  unfolding unlink_prev unlink_next
  remove_node p c = at_node p unlink_next (at_node p unlink_prev c)

  -- `moveToHead`
  unfoldable pub move_to_head : ℕ → LruCache T → LruCache T
  unfolding add_to_head remove_node
  move_to_head p c = if points_to p c.head then c else add_to_head p (remove_node p c)

  -- `removeTail`
  unfoldable pub remove_tail : LruCache T → LruCache T
  unfolding remove_node
  remove_tail c = elim c.tail [
    | none ↦ c
    | some p ↦ at_node p (λ n c. remove_node p (record c { cache = erase n.id c.cache })) c
  ]

  -- A node for an ID that is not in the cache.
  unfoldable pub add_node : ℕ → T → LruCache T → LruCache T
  add_node id item c = record c {
    nodes = insert c.fresh (record { id = id; value = item; prev = none; next = none }) c.nodes;
    fresh = c.fresh + 1;
    cache = insert id c.fresh c.cache;
  }

  -- `put`
  unfoldable pub put_lru : ℕ → T → LruCache T → LruCache T
  unfolding add_node add_to_head remove_tail move_to_head
  put_lru id item c = elim (lookup id c.cache) [
    | some p ↦ move_to_head p (write p (λ n. record n { value = item }) c)
    | none ↦
        let c' = add_to_head c.fresh (add_node id item c) in
        if ltb c'.capacity (length c'.cache) then remove_tail c' else c'
  ]

  unfoldable pub value_at : ℕ → LruCache T → Option T
  value_at p c = elim (lookup p c.nodes) [ none ↦ none | some n ↦ some n.value ]

  -- `get`
  unfoldable pub get_lru : ℕ → LruCache T → Option T × LruCache T
  unfolding value_at move_to_head
  get_lru id c = elim (lookup id c.cache) [
    | none ↦ (none, c)
    | some p ↦ let c' = move_to_head p c in (value_at p c', c')
  ]

  -- `tryGet`
  unfoldable pub try_get_lru : ℕ → LruCache T → Option T
  unfolding value_at
  try_get_lru id c = elim (lookup id c.cache) [ none ↦ none | some p ↦ value_at p c ]

  -- `delete`
  unfoldable pub delete_lru : ℕ → LruCache T → LruCache T
  unfolding remove_node
  delete_lru id c = elim (lookup id c.cache) [
    | none ↦ c
    | some p ↦ remove_node p (record c { cache = erase id c.cache })
  ]

  -- `clear`
  unfoldable pub clear_lru : LruCache T → LruCache T
  clear_lru c = record c { cache = []; head = none; tail = none }

  -- `size`
  unfoldable pub size_lru : LruCache T → ℕ
  size_lru c = length c.cache
