-- ===== src/State.antt =====
-- `State` of v2-tx-pipeline/state/state.go: accounts and orders in memory, the writes that go to
-- Pebble, and the root over what changed. A goroutine that sends a write, the writer that takes one,
-- and the ticks of the timers are steps of their own.
pub mod Mirror
pub mod Drain
mod Tests
use onchain_exchange_homewor.Prelude.{
  ℕ, zero, suc, ◌+◌, ◌%◌, Bool, true, false, Option, none, some, List, [], ◌∷◌, ◌++◌, if◌then◌else◌,
  ltb, leb, ◌==◌, length, lookup, insert, erase, Map, map, sort_by, u64_mod,
}
use Prim.Native.Nat.{Ordering}
use onchain_exchange_homewor.Models.Bytes.{put_be}
use onchain_exchange_homewor.MerkleTree.Types.{Hash, bytes_of}
use onchain_exchange_homewor.MerkleTree.Range.{compare_keys}
use onchain_exchange_homewor.SparseTree.Types.{BytesMap, put, delete_key}

pub record Account : Type 0 where
  pub id : ℕ
  pub name : List ℕ

-- `Account.Marshal`
abbrev pub marshal_account : Account → List ℕ
marshal_account a = bytes_of "account:" ++ a.name

pub record Order : Type 0 where
  pub id : ℕ
  pub instrument_id : ℕ
  pub side : ℕ
  pub price : ℕ
  pub qty : ℕ

-- `Order.Marshal`
abbrev pub marshal_order : Order → List ℕ
marshal_order o = bytes_of "order"

-- `accountKey`
abbrev pub account_key : ℕ → List ℕ
account_key id = 0x01 ∷ put_be 8 id

-- `balanceKeyBytes`
abbrev pub balance_key_bytes : ℕ → ℕ → List ℕ
balance_key_bytes account_id asset_id = 0x02 ∷ put_be 8 account_id ++ put_be 4 asset_id

-- `positionKeyBytes`
abbrev pub position_key_bytes : ℕ → ℕ → List ℕ
position_key_bytes account_id instrument_id = 0x03 ∷ put_be 8 account_id ++ put_be 4 instrument_id

-- `orderKey`
abbrev pub order_key : ℕ → List ℕ
order_key id = 0x10 ∷ put_be 8 id

-- `orderBookKey`
abbrev pub order_book_key : ℕ → List ℕ
order_book_key instrument_id = 0x20 ∷ put_be 4 instrument_id

-- `tradeKey`
abbrev pub trade_key : ℕ → List ℕ
trade_key id = 0x30 ∷ put_be 8 id

-- `RootKey`
abbrev pub root_key : List ℕ
root_key = 0xFF ∷ 0x01 ∷ []

-- `writeTask`; a value of `none` is nil, which deletes.
pub record WriteTask : Type 0 where
  pub key : List ℕ
  pub value : Option (List ℕ)

-- `State`, with the goroutines that are sending, the channel, the writer's batch and the database.
pub record State : Type 0 where
  pub accounts : Map Account
  pub orders : Map Order
  pub dirty_accounts : List ℕ
  pub dirty_orders : List ℕ
  pub current_root : Hash
  pub version : ℕ
  pub sending : List WriteTask
  pub write_ch : List WriteTask
  pub batch : List WriteTask
  pub db : BytesMap (List ℕ)

-- An element added to a set.
abbrev pub mark : ℕ → List ℕ → List ℕ
mark id [] = id ∷ []
mark id (i ∷ ids) = if i == id then i ∷ ids else i ∷ mark id ids

-- `SetOrder`
unfoldable pub set_order : Order → State → State
set_order ord s = record s {
  orders = insert ord.id ord s.orders;
  dirty_orders = mark ord.id s.dirty_orders;
  sending = s.sending ++ (record { key = order_key ord.id; value = some (marshal_order ord) } ∷ []);
}

-- `CancelOrder`
unfoldable pub cancel_order : ℕ → State → State
cancel_order id s = record s {
  orders = erase id s.orders;
  dirty_orders = mark id s.dirty_orders;
  sending = s.sending ++ (record { key = order_key id; value = none } ∷ []);
}

-- The write of the goroutine at an index, and the others.
abbrev pub take_out : ℕ → List WriteTask → Option (WriteTask × List WriteTask)
take_out i [] = none
take_out zero (t ∷ ts) = some (t, ts)
take_out (suc i) (t ∷ ts) = elim (take_out i ts) [
  | none ↦ none
  | some (u, rest) ↦ some (u, t ∷ rest)
]

abbrev pub sent : State → Option (WriteTask × List WriteTask) → State
sent s none = s
sent s (some (t, rest)) = record s { sending = rest; write_ch = s.write_ch ++ (t ∷ []) }

-- One of the goroutines sends, if the channel has room.
unfoldable pub send : ℕ → State → State
send i s = if ltb (length s.write_ch) 0x40000 then sent s (take_out i s.sending) else s

-- `batch.Set` or `batch.Delete`, when the batch is committed.
abbrev pub apply_task : WriteTask → BytesMap (List ℕ) → BytesMap (List ℕ)
apply_task t db = elim t.value [ none ↦ delete_key t.key db | some v ↦ put t.key v db ]

abbrev pub apply_tasks : List WriteTask → BytesMap (List ℕ) → BytesMap (List ℕ)
apply_tasks [] db = db
apply_tasks (t ∷ ts) db = apply_tasks ts (apply_task t db)

-- `batch.Commit` and `batch.Reset`
abbrev pub commit_batch : State → State
commit_batch s = record s { db = apply_tasks s.batch s.db; batch = [] }

-- A write goes into the batch, which is committed when it is full.
abbrev pub taken : State → List WriteTask → State
taken s [] = s
taken s (t ∷ rest) =
    let batch = s.batch ++ (t ∷ []) in
    let next = record s { write_ch = rest; batch = batch } in
    if leb 8192 (length batch) then commit_batch next else next

-- `backgroundWriter` takes a write from the channel.
unfoldable pub write_task : State → State
write_task s = taken s s.write_ch

-- `backgroundWriter` at a tick.
unfoldable pub write_tick : State → State
write_tick s = commit_batch s

abbrev pub account_entry : State → ℕ → WriteTask
account_entry s id = record {
  key = account_key id;
  value = elim (lookup id s.accounts) [ none ↦ none | some a ↦ some (marshal_account a) ];
}

abbrev pub order_entry : State → ℕ → WriteTask
order_entry s id = record {
  key = order_key id;
  value = elim (lookup id s.orders) [ none ↦ none | some o ↦ some (marshal_order o) ];
}

unfoldable pub entry_before : WriteTask → WriteTask → Bool
unfolding compare_keys
entry_before a b = elim (compare_keys a.key b.key) [
  | Ordering.lt ↦ true
  | Ordering.eq ↦ false
  | Ordering.gt ↦ false
]

abbrev pub entries_bytes : List WriteTask → List ℕ
entries_bytes [] = []
entries_bytes (e ∷ es) =
    e.key ++ elim e.value [ none ↦ 0xDE ∷ 0xAD ∷ [] | some v ↦ v ] ++ entries_bytes es

-- The first half of `computeAndSaveRoot`, under the read lock, up to the hash; none if nothing
-- changed.
unfoldable pub compute_root : (List ℕ → Hash) → State → Option Hash
unfolding sort_by entry_before
compute_root blake3 s =
    hash_of (map (account_entry s) s.dirty_accounts ++ map (order_entry s) s.dirty_orders)
  where
    hash_of : List WriteTask → Option Hash
    hash_of [] = none
    hash_of (e ∷ es) = some (blake3 (entries_bytes (sort_by entry_before (e ∷ es))))

-- The second half, under the write lock.
unfoldable pub save_root : Hash → State → State
save_root root s = record s {
  current_root = root;
  version = (s.version + 1) % u64_mod;
  dirty_accounts = [];
  dirty_orders = [];
  db = put root_key root s.db;
}
