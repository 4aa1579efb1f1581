-- ===== src/ShardedSet.antt =====
-- `ShardedSet` of v2-tx-pipeline/sharded_cache.go, which tells transactions that were seen before. A
-- Go map with no values is a list without repetitions.
pub mod Answers
mod Tests
use onchain_exchange_homewor.Prelude.{
  ℕ, zero, suc, ◌+◌, ◌-◌, ◌*◌, ◌/◌, ◌%◌, Bool, true, false, not, ◌||◌, Option, none, some, List, [],
  ◌∷◌, if◌then◌else◌, ◌==◌, ltb, length, get_or, set, replicate,
}
use onchain_exchange_homewor.MerkleTree.Types.{bytes_eq}

-- `&` on so many bits.
unfoldable pub bit_and : ℕ → ℕ → ℕ → ℕ
bit_and zero a b = 0
bit_and (suc w) a b = (a % 2) * (b % 2) + 2 * bit_and w (a / 2) (b / 2)

-- `ShardedSet`
pub record ShardedSet : Type 0 where
  pub shards : List (List (List ℕ))
  pub shard_mask : ℕ
  pub hasher : List ℕ → ℕ
  pub key_size : ℕ

-- The default hasher: the last four bytes.
abbrev pub default_hasher : List ℕ → ℕ
default_hasher key =
    let n = length key in
    if ltb n 4
    then 0
    else get_or key (n - 4) 0
      + get_or key (n - 3) 0 * 0x100
      + get_or key (n - 2) 0 * 0x10000
      + get_or key (n - 1) 0 * 0x1000000

abbrev pub hasher_or_default : Option (List ℕ → ℕ) → List ℕ → ℕ
hasher_or_default none = default_hasher
hasher_or_default (some h) = h

-- `NewShardedSet`; `none` is a panic.
unfoldable pub new_sharded_set : ℕ → ℕ → Option (List ℕ → ℕ) → Option ShardedSet
unfolding bit_and
new_sharded_set shard_count key_size_bytes hasher =
    if shard_count == 0
      || not (bit_and 64 shard_count (shard_count - 1) == 0)
      || key_size_bytes == 0
    then none
    else some (record {
      shards = replicate shard_count [];
      shard_mask = (shard_count - 1) % 0x100000000;
      hasher = hasher_or_default hasher;
      key_size = key_size_bytes;
    })

-- Whether a key is in a shard.
abbrev pub is_in : List ℕ → List (List ℕ) → Bool
is_in key [] = false
is_in key (k ∷ items) = bytes_eq k key || is_in key items

abbrev pub add_item : List ℕ → List (List ℕ) → List (List ℕ)
add_item key items = if is_in key items then items else key ∷ items

unfoldable pub shard_index : ShardedSet → List ℕ → ℕ
unfolding bit_and
shard_index s key = bit_and 32 (s.hasher key % 0x100000000) s.shard_mask

abbrev pub shard_at : ShardedSet → List ℕ → List (List ℕ)
shard_at s key = get_or s.shards (shard_index s key) []

-- The check under the read lock.
abbrev pub check : ShardedSet → List ℕ → Bool
check s key = is_in key (shard_at s key)

-- The check and the insertion under the write lock.
abbrev pub claim : ShardedSet → List ℕ → Bool × ShardedSet
claim s key = (
  check s key,
  record s { shards = set s.shards (shard_index s key) (add_item key (shard_at s key)) },
)

-- `Seen`
unfoldable pub seen : List ℕ → ShardedSet → Bool × ShardedSet
unfolding shard_index
seen key s =
    if length key == s.key_size
    then (if check s key then (true, s) else claim s key)
    else (false, s)

-- `Put`
unfoldable pub put_key : List ℕ → ShardedSet → ShardedSet
unfolding shard_index
put_key key s = if length key == s.key_size then (claim s key).1 else s
