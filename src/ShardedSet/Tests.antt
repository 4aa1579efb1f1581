-- ===== src/ShardedSet/Tests.antt =====
-- A `ShardedSet` of v2-tx-pipeline/sharded_cache.go with four shards, for keys of two bytes.
use onchain_exchange_homewor.Prelude.{none, List, [], ◌∷◌, ◌≡◌, refl, replicate}
use onchain_exchange_homewor.ShardedSet.{bit_and, ShardedSet, default_hasher, new_sharded_set}
use onchain_exchange_homewor.ShardedSet.Answers.{
  seen_call, put_call, Call, answers, set_answers, answers-new_sharded_set,
}

abbrev four_shards : ShardedSet
four_shards = record {
  shards = replicate 4 [];
  shard_mask = 3;
  hasher = default_hasher;
  key_size = 2;
}

abbrev some_calls : List Call
some_calls =
    seen_call (1 ∷ 2 ∷ [])
    ∷ put_call (7 ∷ 8 ∷ [])
    ∷ seen_call (1 ∷ 2 ∷ [])
    ∷ seen_call (7 ∷ 8 ∷ [])
    ∷ seen_call (9 ∷ [])
    ∷ seen_call (9 ∷ [])
    ∷ []

answers-new_sharded_set_example : answers some_calls four_shards ≡ set_answers 2 some_calls []
unfolding new_sharded_set bit_and
answers-new_sharded_set_example = answers-new_sharded_set 4 2 none four_shards some_calls refl
