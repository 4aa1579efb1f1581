-- ===== src/Models/Tests.antt =====
-- The theorems on the models at concrete values.
use std.Logic.{◌↔◌}
use onchain_exchange_homewor.Prelude.{
  ◌%◌, ℕ, ◌+◌, ◌≡◌, ◌⊎◌, ◌<◌, ◌≤◌, ◌++◌, some, none, List, [], ◌∷◌, length, take, replicate, arith,
}
use onchain_exchange_homewor.Models.Bytes.{numbers, length-put_be}
use onchain_exchange_homewor.Models.Balance
use onchain_exchange_homewor.Models.Balance.{Balance, new_balance}
use onchain_exchange_homewor.Models.Balance.Codec.{serialize-deserialize}
use onchain_exchange_homewor.Models.Balance.Keys.{new_balance-key}
use onchain_exchange_homewor.Models.Order
use onchain_exchange_homewor.Models.Order.{Order}
use onchain_exchange_homewor.Models.Order.Codec.{deserialize-serialize}

-- A sell order of user 3.
abbrev order : Order
order = Order.new_order 7 3 2 5000000000 900 1 0

deserialize-serialize_example : Order.deserialize (Order.serialize order ++ (255 ∷ [])) ≡ some order
unfolding Order.new_order
deserialize-serialize_example = deserialize-serialize order (255 ∷ []) (record {
  order_id = omega arith;
  user_id = omega arith;
  symbol = omega arith;
  price = omega arith;
  quantity = omega arith;
  filled = omega arith;
  side = omega arith;
  order_type = omega arith;
  timestamp = omega arith;
  key = length-put_be 8 7;
})

-- 36 bytes and one more.
abbrev bytes : List ℕ
bytes = replicate 36 200 ++ (7 ∷ [])

serialize-deserialize_example :
    ((Balance.deserialize bytes ≡ none) × (length bytes < 36))
    ⊎ ((b : Balance) × (Balance.deserialize bytes ≡ some b)
        × (36 ≤ length bytes)
        × (Balance.serialize b ≡ take 36 bytes))
serialize-deserialize_example = serialize-deserialize bytes (ground arith)

new_balance-key_example :
    ((new_balance (1 + numbers 4) 7 100 20).key ≡ (new_balance 1 7 300 40).key)
    ↔ (((1 + numbers 4) % numbers 4 ≡ 1 % numbers 4) × ◌≡◌ {A = ℕ} 7 7)
new_balance-key_example =
    new_balance-key (1 + numbers 4) 7 1 7 100 20 300 40 (omega arith) (omega arith)
