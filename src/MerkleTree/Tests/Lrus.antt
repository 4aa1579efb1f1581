-- ===== src/MerkleTree/Tests/Lrus.antt =====
-- The theorems on the cache of cache_lru.go, of two places, and on cache_sharded.go.
use onchain_exchange_homewor.Prelude.{List, some, none, ◌≡◌, ◌≤◌, ◌==◌, if◌then◌else◌, arith, refl}
use onchain_exchange_homewor.Models.Balance.{Balance}
use onchain_exchange_homewor.MerkleTree.Lru.{
  LruCache, points_to, new_lru_cache, put_lru, get_lru, try_get_lru,
}
use onchain_exchange_homewor.MerkleTree.Lru.Keyed.{IsKeyed}
use onchain_exchange_homewor.MerkleTree.Lru.Laws.{new_lru_cache-IsKeyed, try_get_lru-put_lru}
use onchain_exchange_homewor.MerkleTree.Lru.Contents.{HasTail, evicted}
use onchain_exchange_homewor.MerkleTree.Lru.Evictions.{put_lru-evicted}
use onchain_exchange_homewor.MerkleTree.Shards.{
  shard_capacity, new_sharded_cache, put_sharded, try_get_sharded,
}
use onchain_exchange_homewor.MerkleTree.Shards.Laws.{
  AreKeyed, put_sharded-AreKeyed, new_sharded_cache-AreKeyed,
}
use onchain_exchange_homewor.MerkleTree.Tests.Items.{first, second, third}

abbrev two_places : LruCache Balance
two_places = put_lru 2 second (put_lru 1 first (new_lru_cache 2))

two_places-IsKeyed : IsKeyed two_places
two_places-IsKeyed =
    (try_get_lru-put_lru 2 second (put_lru 1 first (new_lru_cache 2))
      (try_get_lru-put_lru 1 first (new_lru_cache 2) (new_lru_cache-IsKeyed 2)).0).0

-- What was used last stays, what was used before goes.
gone : try_get_lru 2 (put_lru 257 third (get_lru 1 two_places).1) ≡ none
unfolding put_lru get_lru try_get_lru new_lru_cache
gone = refl

kept : try_get_lru 1 (put_lru 257 third (get_lru 1 two_places).1) ≡ some first
unfolding put_lru get_lru try_get_lru new_lru_cache
kept = refl

two_places-HasTail : HasTail two_places
unfolding put_lru new_lru_cache
two_places-HasTail = record { of_none = λ e. cc; of_some = λ q e. (1, e) }

two_places_room : 1 ≤ two_places.capacity
unfolding put_lru new_lru_cache
two_places_room = omega arith

-- A third balance comes in, and the first goes.
put_lru-evicted_example : try_get_lru 1 (put_lru 257 third two_places) ≡ (
    if 257 == 1
    then some third
    else if points_to 1 (evicted 257 two_places)
    then none
    else try_get_lru 1 two_places)
put_lru-evicted_example =
    put_lru-evicted 257 1 third two_places two_places-IsKeyed two_places-HasTail two_places_room

-- Two shards with one balance.
abbrev shards : List (LruCache Balance)
shards = put_sharded 1 first (new_sharded_cache 4 1)

shards-AreKeyed : AreKeyed shards
shards-AreKeyed =
    put_sharded-AreKeyed 1 first (new_sharded_cache 4 1) (new_sharded_cache-AreKeyed Balance 4 1)

still_there : try_get_sharded 1 (put_sharded 257 third shards) ≡ some first
unfolding put_sharded try_get_sharded new_sharded_cache put_lru try_get_lru new_lru_cache
    shard_capacity
still_there = refl
