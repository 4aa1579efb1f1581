-- ===== src/Lib.antt =====
-- Verification of parts of the on-chain exchange: the matching engine,
-- verkle-orderbook/main.go, the Merkle trees over accounts, balances and orders, mt-manager, the
-- sparse Merkle tree smt-v3/smt.go, and of v2-tx-pipeline the state, state/state.go, and the set of
-- seen transactions, sharded_cache.go.
--
-- The matching engine. An `OrderBook` keeps, for each side, a map from a price to a `PriceLevel` of
-- 16 slots; a slot is a list of orders with a volume, a level has a total volume. `AddLimitOrder`,
-- `AddLimitOrderBatch` and `ExecuteMarketOrder` create an order and match it (`tryMatchUnsafe`)
-- against the other side, level by level at the cached best price; what is not filled rests in the
-- slot that `determineSlot` gives, and in `OrderIndex`. `CancelOrder`, `CancelAllByTrader` and
-- `ModifyOrder` find orders through the index. `updateBestPrices` keeps the best prices, and
-- `rebuildTree` builds a tree of 16-way nodes over the levels for hashing.
--
-- The trees. mt-manager/models has the records that trees hold, with an ID, a key of eight bytes,
-- the bytes that are hashed and an encoding. A `Tree` of mt-manager/merkletree/tree.go keeps its
-- items in a map by ID, in a cache, in nodes that are found by the bytes of the key, and in two
-- caches of first items (cache_top_n.go). `Insert`, `Delete` and the batches mark nodes dirty,
-- `ComputeRoot` hashes what is dirty, `Get` asks the cache and then the map, and range.go walks the
-- nodes for the items between two keys. A `TreeManager` of manager.go keeps trees by name,
-- the root that was last seen of each, and a root over all; `ComputeGlobalRoot` looks for changes and
-- hashes the roots of all trees into one, and `GetMerkleProof` proves that a root is among them
-- (merkle_proof.go).
--
-- The sparse tree. An `SMT` of smt-v3/smt.go keeps the root of a tree whose nodes, with up to 256
-- children, stand in a `Store` under their hashes, and a map of pending updates. `Set` writes to the
-- pending updates, `Commit` sorts them into a batch, and `updateBatchParallel` goes down the tree with
-- the parts of the batch, one byte of the keys at each level, and builds the nodes on the way back;
-- `Update` does so with one pair. `Get` looks at the pending updates and then walks from the root.
--
-- The state of the pipeline. A `State` holds accounts and orders in memory and marks what changes.
-- `SetOrder` and `CancelOrder` start a goroutine that sends the write to a channel;
-- `backgroundWriter` takes writes from it into a batch for Pebble, and commits the batch when it is
-- full or at a tick; `computeAndSaveRoot` hashes what is marked. A `ShardedSet` of
-- sharded_cache.go keeps keys in shards, by the bits of a hash; `Seen` asks for a key and adds it.
--
-- The files.
--   Prelude, Prelude/*: Boolean tests, lists, 64-bit words, maps as association lists, insertion
--     sort with its laws.
--   OrderBook/Types: the data. OrderBook/Orders: `RemainingSize`, `IsFilled`, `safeAdd`,
--     `safeSubtract`, `determineSlot`, pools.
--   OrderBook/Matching: `tryMatchUnsafe`, one function for each loop. Below it: Exchange (one
--     trade), Queue (the reference queue), Serve and Effects (the orders of a slot), Levels and
--     Slots (a level), Visit (a level written back), Fair and Rounds (the outer loop), Stale (the
--     best price after a deletion, and a round at a price without a level).
--   OrderBook/Prices, OrderBook/Prices/Best: `updateBestPrices`, `rebuildBestPrices`.
--   OrderBook/Entry, Entry/Limit, Entry/Batch: `AddLimitOrder`, `AddLimitOrderBatch`,
--     `ExecuteMarketOrder`. Entry/Unmatched: orders to buy after the best ask level was deleted.
--   OrderBook/Cancel, Cancel/Index: `CancelOrder`, `CancelAllByTrader`.
--   OrderBook/Modify: `ModifyOrder`.
--   OrderBook/History, History/Trades: the trade history. OrderBook/Repair, Repair/Volumes:
--     `CleanupEmptyLevels`, `validateAndFixLevelConsistency`. OrderBook/Tree, Tree/Leaves:
--     `rebuildTree`, `buildSideTree`.
--   OrderBook/Exact: volumes as sums, through an order appended and an order removed.
--   OrderBook/Tests: a small book, and the theorems applied to it.
--   Models/Bytes: numbers and fields of byte slices. Models/Account, Balance, Order, Transaction: the
--     records of mt-manager/models; Codec, Keys and Fill below them have the proofs.
--   MerkleTree/Types: `Hashable`, `Node`. MerkleTree/Nodes: `insertNode`, `deleteNode`, and below
--     Paths, Delete, Collide (where items stand). MerkleTree/Hashing: `computeNodeHash`, and below
--     Caching, Upkeep (what is cached is true). MerkleTree/TopN, with Order, Keys: cache_top_n.go.
--     MerkleTree/Range, with Live, Keys, Parallel, Tombstones: range.go. MerkleTree/Cache: what a tree asks
--     of its cache. MerkleTree/Lru, with Links, Keyed, Puts, Laws, and
--     Contents and Evictions (all that a put changes): cache_lru.go. MerkleTree/Shards,
--     with Laws: cache_sharded.go, which is such a cache. MerkleTree/Tree: the methods of `Tree`;
--     below it Steps (the calls as a relation), Roots, Reads, Answers. MerkleTree/Proof, with
--     Complete, Binding, Padding: the global root. MerkleTree/Manager: manager.go; below it
--     Interface (what it asks of a tree), Methods (the methods on single trees, and proofs), Backing
--     (the methods of `Tree` in that place), Loops and Collect (the loops of `ComputeGlobalRoot`),
--     Current (what the caches hold), Calls, with Names, Upkeep and Sound (the calls as a relation),
--     Inclusion (the index of a tree), Laws and Waits (when a proof returns).
--   SparseTree/Types: the data, `MemoryStore`. SparseTree/Nodes: `get`, `storeLeaf`,
--     `storeInternal`; below it Stored (what stands below a root) and Reads. SparseTree/Update:
--     `updateBatchParallel`; below it Select and Collapse (the node at the end), Sorted (a batch),
--     Spread, Rounds and Loop (the loop over the runs), Correct and Levels (all branches),
--     Overwrites (the append to a part of a batch). SparseTree/Tree: the methods of `SMT`; below it
--     Valid, Laws, Held, Unique, Roots.
--   State: state.go; below it Mirror (orders in memory and in the database) and Drain (writes that
--     arrive). ShardedSet: sharded_cache.go; below it Answers (the shards as one set).
--   Models/Tests, MerkleTree/Tests, SparseTree/Tests, State/Tests, ShardedSet/Tests: the theorems
--     applied to balances, orders and keys.
--
-- The model of the engine. A `*Order` is a place in the heap `OrderBook.orders`, so a write through
-- the index is seen through the slots; the place of a new order is its ID. Numbers are natural; the
-- increments of IDs, fills and counters wrap at 2 ^ 64. A Go map is an association list, whose
-- order stands for the order in which Go visits the map. The wall clock is a function from the
-- number of a trade to its time. Each operation runs under the book's lock and is one step, but for
-- `CancelAllByTrader`: it lets go of the lock after it has collected the IDs, and each `CancelOrder`
-- takes it again; it is modelled as that sequence, without calls of others in between.
--
-- The model of the trees. `Keys` and `Children` of a node are one list. A tree is over any type
-- with a hash, a key and an ID (`Hashable`), which also gives Blake3; the cache of items is an
-- interface with the laws that what is found was put and neither replaced nor deleted since, and a
-- `*lruNode` is a place in a heap. A method runs alone, and an item of a batch is one step; the
-- order in which goroutines take the items, or send their results, is an argument. Items do not
-- change while they are in a tree. `sort.Slice` is insertion sort, so it keeps ties in order.
-- `none` of `InsertBatch` is a panic.
-- A call on a tree by the pointer that `GetTree` returns is a call on the manager, which puts
-- the tree back. A method of the manager runs alone, so its lock is seen only where a method calls
-- another. The lock is the number of its readers and whether it is held for writing; `Lock` waits
-- while either holds it, and `ComputeGlobalRoot` gets the lock as its caller holds it. A wait that
-- only the waiting call could end is `deadlock`.
--
-- The model of the sparse tree. A node is its fields, and the hash of its bytes is a function of the
-- node, of which the theorems ask that no two nodes have the same hash and none that of the empty
-- tree. The tree has no cache of nodes, and a batch has at most 2048 pairs, so that one goroutine
-- runs. A batch comes with the pairs that stand behind it in its array, since `append` writes there;
-- how far an array grows is an argument. A nil value is `none`. The levels that are left, 32 at the
-- root, are the argument on which `get` and `updateBatchParallel` recurse.
--
-- The model of the pipeline's state. The goroutines that are still to send stand in a list, the
-- channel has room for 0x40000 writes, and sending, taking a write, a tick of the writer and the two
-- halves of `computeAndSaveRoot` are events of their own. The database is a map from keys to values.
--
-- Fuel. The loops over the levels of hashes run on one more than the number of hashes; a level has
-- at most half as many, rounded up, as the one below. The outer loop of `tryMatchUnsafe` runs on
-- fuel, one more than the number of orders that rest on the other side: each round that goes on
-- fills the taker or empties at least one maker. The loop over the runs of a batch has as many rounds
-- as the batch has pairs; each round takes at least one.
--
-- Not modelled: of the engine, the hashes of the tree's nodes, printing, JSON export, the
-- simulation and its goroutines, lock timing counters; of mt-manager, resizing a cache, the arena,
-- statistics, the manager's `GetTreeInfo`, and snapshots, which stand on a
-- database; of smt-v3, the sharded cache of nodes, larger batches, and the store on a database; of
-- state.go, loading from Pebble and the entities that no method changes; and the repository's other
-- programs.
--

pub mod Prelude
pub mod OrderBook
pub mod Models
pub mod MerkleTree
pub mod SparseTree
pub mod State
pub mod ShardedSet
