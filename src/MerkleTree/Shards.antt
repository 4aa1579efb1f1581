-- ===== src/MerkleTree/Shards.antt =====
-- mt-manager/merkletree/cache_sharded.go: a cache of 2 ^ power caches, each for the IDs with the
-- same last bits. `key & shardMask` is the remainder, since the number of shards is a power of 2.
pub mod Laws
use Prim.Native.Nat.{◌^◌}
use onchain_exchange_homewor.Prelude.{
  ℕ, ◌+◌, ◌/◌, ◌%◌, Option, List, [], ◌∷◌, ltb, if◌then◌else◌, length, get_or, set, replicate, map,
}
use onchain_exchange_homewor.MerkleTree.Lru.{
  LruCache, new_lru_cache, put_lru, get_lru, try_get_lru, delete_lru, clear_lru, size_lru,
}

-- `shardCapacity`
unfoldable pub shard_capacity : ℕ → ℕ → ℕ
shard_capacity total_capacity power =
    let capacity = total_capacity / 2 ^ power in if ltb capacity 1 then 1 else capacity

module _ {T : Type 0} where
  -- `newShardedCache`; its `ShardedCache` is the list of its shards.
  unfoldable pub new_sharded_cache : ℕ → ℕ → List (LruCache T)
  new_sharded_cache total_capacity power =
      replicate (2 ^ power) (new_lru_cache (shard_capacity total_capacity power))

  -- The place of an ID's shard.
  abbrev pub shard_of : ℕ → List (LruCache T) → ℕ
  shard_of key shards = key % length shards

  -- `getShard`; there is a shard for every ID.
  abbrev pub get_shard : ℕ → List (LruCache T) → LruCache T
  get_shard key shards = get_or shards (shard_of key shards) (new_lru_cache 1)

  -- `put`
  unfoldable pub put_sharded : ℕ → T → List (LruCache T) → List (LruCache T)
  put_sharded key value shards =
      set shards (shard_of key shards) (put_lru key value (get_shard key shards))

  -- `get`
  unfoldable pub get_sharded : ℕ → List (LruCache T) → Option T × List (LruCache T)
  get_sharded key shards =
      let (value, shard) = get_lru key (get_shard key shards) in
      (value, set shards (shard_of key shards) shard)

  -- `tryGet`
  unfoldable pub try_get_sharded : ℕ → List (LruCache T) → Option T
  try_get_sharded id shards = try_get_lru id (get_shard id shards)

  -- `delete`
  unfoldable pub delete_sharded : ℕ → List (LruCache T) → List (LruCache T)
  delete_sharded id shards = set shards (shard_of id shards) (delete_lru id (get_shard id shards))

  -- `clear`
  unfoldable pub clear_sharded : List (LruCache T) → List (LruCache T)
  clear_sharded shards = map clear_lru shards

  -- `size`
  unfoldable pub size_sharded : List (LruCache T) → ℕ
  size_sharded [] = 0
  size_sharded (shard ∷ rest) = size_lru shard + size_sharded rest
