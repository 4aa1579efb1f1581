-- ===== src/OrderBook/Cancel.antt =====
-- Cancellation in verkle-orderbook/main.go: `CancelOrder` and `CancelAllByTrader`.
pub mod Index
use onchain_exchange_homewor.Prelude.{
  ℕ, ◌+◌, Bool, true, false, ◌||◌, none, some, List, [], ◌∷◌, ◌==◌, if◌then◌else◌, add64, Map,
  lookup, erase, insert, set,
}
use onchain_exchange_homewor.OrderBook.Types.{Side, Order, Slot, PriceLevel, OrderBook}
use onchain_exchange_homewor.OrderBook.Orders.{
  remaining_size, safe_subtract, put_order_to_pool, levels_of, set_levels, get_slot,
}
use onchain_exchange_homewor.OrderBook.Prices.{is_empty, update_best_prices}

-- The loop `for i, o := range slot.Orders`: the first order with the ID is taken out.
unfoldable pub remove_by_id : (ℕ → Order) → ℕ → List ℕ → List ℕ
remove_by_id h id [] = []
remove_by_id h id (r ∷ rs) = if (h r).id == id then rs else r ∷ remove_by_id h id rs

unfoldable pub has_id : (ℕ → Order) → ℕ → List ℕ → Bool
has_id h id [] = false
has_id h id (r ∷ rs) = (h r).id == id || has_id h id rs

-- A slot from which the order has been taken, if it was there, with its volume.
unfoldable pub remove_from_slot : (ℕ → Order) → ℕ → ℕ → Slot → Slot
remove_from_slot h id remaining slot =
    let kept = remove_by_id h id slot.orders in
    record {
      orders = kept;
      volume =
          if is_empty kept
          then 0
          else if has_id h id slot.orders
          then safe_subtract slot.volume remaining
          else slot.volume;
    }

unfoldable pub remove_from_level : (ℕ → Order) → ℕ → Order → PriceLevel → PriceLevel
remove_from_level h id o level =
    let slot = get_slot level o.slot in
    record level {
      total_volume =
          if has_id h id slot.orders
          then safe_subtract level.total_volume (remaining_size o)
          else level.total_volume;
      slots = set level.slots o.slot (remove_from_slot h id (remaining_size o) slot);
    }

-- The order leaves the index and goes back to the pool.
unfoldable pub drop_order : ℕ → ℕ → OrderBook → OrderBook
drop_order id r ob = put_order_to_pool r (record ob { order_index = erase id ob.order_index })

-- A level written back, or deleted if nothing remains on it; with new best prices then.
unfoldable pub store_level : Side → ℕ → PriceLevel → OrderBook → OrderBook
store_level side price level ob =
    if level.total_volume == 0
    then update_best_prices (set_levels side (erase level.price (levels_of side ob)) ob)
    else set_levels side (insert price level (levels_of side ob)) ob

unfoldable pub count_cancel : OrderBook → OrderBook
count_cancel ob = record ob {
  stats = record ob.stats { total_cancels = add64 ob.stats.total_cancels 1 };
}

unfoldable pub count_operation : OrderBook → OrderBook
count_operation ob = record ob {
  stats = record ob.stats { total_operations = add64 ob.stats.total_operations 1 };
}

-- `CancelOrder`
unfoldable pub cancel_order : ℕ → OrderBook → OrderBook × Bool
cancel_order order_id ob = elim (lookup order_id ob.order_index) [
  | none ↦ (ob, false)
  | some r ↦
      let o = ob.orders r in
      elim (lookup o.price (levels_of o.side ob)) [
        | none ↦ (count_cancel (drop_order order_id r ob), true)
        | some level ↦
            let level' = remove_from_level ob.orders order_id o level in
            (
              count_cancel
                  (count_operation (store_level o.side o.price level' (drop_order order_id r ob))),
              true,
            )
      ]
]

-- The IDs of a trader's orders in the index; a Go map gives them in any order.
unfoldable pub ids_of_trader : ℕ → (ℕ → Order) → Map ℕ → List ℕ
ids_of_trader trader_id h [] = []
ids_of_trader trader_id h ((id, r) ∷ index) =
    if (h r).trader_id == trader_id
    then id ∷ ids_of_trader trader_id h index
    else ids_of_trader trader_id h index

-- The loop over `toCancel`, which counts what was cancelled.
unfoldable pub cancel_all : List ℕ → OrderBook → OrderBook × ℕ
cancel_all [] ob = (ob, 0)
cancel_all (id ∷ ids) ob =
    let (ob', done) = cancel_order id ob in
    let (ob'', n) = cancel_all ids ob' in (ob'', if done then n + 1 else n)

-- `CancelAllByTrader`. The lock is free between the collection of the IDs and each `CancelOrder`; this
-- is the case where no other call runs in between.
unfoldable pub cancel_all_by_trader : ℕ → OrderBook → OrderBook × ℕ
cancel_all_by_trader trader_id ob = cancel_all (ids_of_trader trader_id ob.orders ob.order_index) ob
