-- ===== src/MerkleTree/Tests/Items.antt =====
-- Balances as the items of a tree.
use onchain_exchange_homewor.Prelude.{[]}
use onchain_exchange_homewor.Models.Balance
use onchain_exchange_homewor.Models.Balance.{Balance, balance_id, new_balance}
use onchain_exchange_homewor.MerkleTree.Types.{Hashable, Node, alloc}
use onchain_exchange_homewor.MerkleTree.Nodes.{insert_node}

-- The identity stands for Blake3.
abbrev pub balances : Hashable Balance
balances = record {
  hash = λ b. Balance.hash (λ bs. bs) b;
  key = λ b. b.key;
  id = balance_id;
  zero_value = record { user_id = 0; asset_id = 0; available = 0; locked = 0; key = [] };
  blake3 = λ bs. bs;
}

-- Two balances in one tree, and a third whose key has the path of the first.
abbrev pub first : Balance
first = new_balance 0 1 100 20

abbrev pub second : Balance
second = new_balance 0 2 50 0

abbrev pub third : Balance
third = new_balance 0 257 70 0

abbrev pub root : Node Balance
root = insert_node balances 2 0 second (insert_node balances 2 0 first (alloc balances))
