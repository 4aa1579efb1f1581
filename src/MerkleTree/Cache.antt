-- ===== src/MerkleTree/Cache.antt =====
-- What a tree asks of its cache of items (cache_sharded.go over cache_lru.go): the operations, and
-- that what is found was put there and neither replaced nor deleted since. A cache may forget.
use onchain_exchange_homewor.Prelude.{ℕ, Option, none, some, ◌≡◌, ◌⊎◌, ◌≢◌}

pub record Cache (T : Type 0) : Type 1 where
  pub State : Type 0
  pub empty : State
  pub put : ℕ → T → State → State
  pub try_get : ℕ → State → Option T
  pub delete : ℕ → State → State
  -- An empty cache has nothing.
  pub try_get-empty : (id : ℕ) → try_get id empty ≡ none
  -- What is found after a `put` is what was put, or was there before under another ID.
  pub try_get-put :
      (id j : ℕ) (item x : T) (c : State)
      → try_get j (put id item c) ≡ some x
      → ((id ≡ j) × (item ≡ x)) ⊎ ((id ≢ j) × (try_get j c ≡ some x))
  -- What is found after a `delete` was there before under another ID.
  pub try_get-delete :
      (id j : ℕ) (x : T) (c : State)
      → try_get j (delete id c) ≡ some x
      → (id ≢ j) × (try_get j c ≡ some x)
