-- ===== src/OrderBook/Entry.antt =====
-- How orders enter the book of verkle-orderbook/main.go: `AddLimitOrder`, `AddLimitOrderBatch` and
-- `ExecuteMarketOrder`.
pub mod Limit
pub mod Batch
pub mod Unmatched
use onchain_exchange_homewor.Prelude.{
  ℕ, Bool, true, false, ◌||◌, Option, none, some, List, [], ◌∷◌, ◌++◌, ltb, ◌==◌, if◌then◌else◌,
  add64, max_u64, lookup, insert, set,
}
use onchain_exchange_homewor.OrderBook.Types.{Side, buy, sell, Order, Slot, PriceLevel, OrderBook}
use onchain_exchange_homewor.OrderBook.Orders.{
  remaining_size, is_filled, safe_add, determine_slot, new_price_level, update, put_order_to_pool,
  levels_of, set_levels, opposite, get_slot,
}
use onchain_exchange_homewor.OrderBook.Prices.{is_empty, update_best_prices}
use onchain_exchange_homewor.OrderBook.Matching.{try_match, best_opposite_price}

-- The arguments of `AddLimitOrder`, an item of a batch.
pub record Request : Type 0 where
  pub trader_id : ℕ
  pub price : ℕ
  pub size : ℕ
  pub side : Side

-- An order taken from the pool and filled in, with its slot.
unfoldable pub make_order : ℕ → Request → Order
make_order id req =
    let o : Order = record {
      id = id;
      trader_id = req.trader_id;
      price = req.price;
      size = req.size;
      filled_size = 0;
      side = req.side;
      slot = 0;
      is_partial_fill = false;
    } in
    record o { slot = determine_slot o }

-- The next ID, and the book with the new order in its heap.
unfoldable pub next_id : OrderBook → ℕ
next_id ob = add64 ob.next_order_id 1

unfoldable pub open_order : Request → OrderBook → OrderBook
unfolding next_id
open_order req ob = record ob {
  next_order_id = next_id ob;
  orders = update ob.orders (next_id ob) (make_order (next_id ob) req);
}

-- An order appended to its slot, with the volumes of what remains of it.
unfoldable pub append_order : ℕ → Order → PriceLevel → PriceLevel
append_order r o level =
    let slot = get_slot level o.slot in
    let slot' : Slot = record {
      orders = slot.orders ++ (r ∷ []);
      volume = safe_add slot.volume (remaining_size o);
    } in
    record level {
      total_volume = safe_add level.total_volume (remaining_size o);
      slots = set level.slots o.slot slot';
    }

-- The best price on the order's own side, moved by a new level of `AddLimitOrder`.
unfoldable pub raise_best : Side → ℕ → OrderBook → OrderBook
raise_best sell price ob =
    if ob.best_ask_atomic == 0 || ltb price ob.best_ask_atomic
    then record ob { best_ask_atomic = price }
    else ob
raise_best buy price ob =
    if ltb ob.best_bid_atomic price then record ob { best_bid_atomic = price } else ob

-- The level of a price, or a new one.
unfoldable pub level_at : Side → ℕ → OrderBook → PriceLevel
level_at side price ob = elim (lookup price (levels_of side ob)) [
  | none ↦ new_price_level price
  | some level ↦ level
]

abbrev pub has_level : Side → ℕ → OrderBook → Bool
has_level side price ob = elim (lookup price (levels_of side ob)) [ none ↦ false | some _ ↦ true ]

-- The order put into its level and into the index.
unfoldable pub enter_order : ℕ → OrderBook → OrderBook
enter_order r ob =
    let o = ob.orders r in
    let level = append_order r o (level_at o.side o.price ob) in
    let ob' = set_levels o.side (insert o.price level (levels_of o.side ob)) ob in
    record ob' { order_index = insert o.id r ob'.order_index }

unfoldable pub count_order : OrderBook → OrderBook
count_order ob = record ob {
  stats = record ob.stats {
    total_orders = add64 ob.stats.total_orders 1;
    total_operations = add64 ob.stats.total_operations 1;
  };
}

-- What `AddLimitOrder` does with an order that is not filled.
unfoldable pub rest_order : ℕ → OrderBook → OrderBook
rest_order r ob =
    let o = ob.orders r in
    enter_order r (if has_level o.side o.price ob then ob else raise_best o.side o.price ob)

-- `AddLimitOrder`: the new book, and the order that it returns.
unfoldable pub add_limit_order : (ℕ → ℕ) → Request → OrderBook → Option (OrderBook × ℕ)
add_limit_order clock req ob =
    let r = next_id ob in
    elim (try_match clock r (open_order req ob)) [
      | none ↦ none
      | some ob' ↦
          some (count_order (if is_filled (ob'.orders r) then ob' else rest_order r ob'), r)
    ]

-- What `AddLimitOrderBatch` does with an order that is not filled: a new level marks the cache.
unfoldable pub rest_in_batch : ℕ → OrderBook → OrderBook
rest_in_batch r ob =
    let o = ob.orders r in
    enter_order r
      (if has_level o.side o.price ob then ob else record ob { prices_cache_dirty = true })

-- The loop of `AddLimitOrderBatch`.
unfoldable pub add_batch : (ℕ → ℕ) → List Request → OrderBook → Option (OrderBook × List ℕ)
add_batch clock [] ob = some (ob, [])
add_batch clock (req ∷ reqs) ob =
    let r = next_id ob in
    elim (try_match clock r (open_order req ob)) [
      | none ↦ none
      | some ob' ↦
          elim (add_batch clock reqs
            (count_order (if is_filled (ob'.orders r) then ob' else rest_in_batch r ob'))) [
              | none ↦ none
              | some (ob'', rs) ↦ some (ob'', r ∷ rs)
            ]
    ]

-- `AddLimitOrderBatch`
unfoldable pub add_limit_order_batch :
    (ℕ → ℕ) → List Request → OrderBook → Option (OrderBook × List ℕ)
add_limit_order_batch clock reqs ob = elim (add_batch clock reqs ob) [
  | none ↦ none
  | some (ob', rs) ↦ some (update_best_prices ob', rs)
]

-- The limit of a market order: it is executed at any price.
abbrev pub market_limit : Side → ℕ
market_limit buy = max_u64
market_limit sell = 0

unfoldable pub count_market_order : OrderBook → OrderBook
count_market_order ob = record ob {
  stats = record ob.stats {
    total_market_orders = add64 ob.stats.total_market_orders 1;
    total_operations = add64 ob.stats.total_operations 1;
  };
}

-- `ExecuteMarketOrder`: false where the other side has no level at its best price.
unfoldable pub execute_market_order : (ℕ → ℕ) → ℕ → ℕ → Side → OrderBook → Option (OrderBook × Bool)
execute_market_order clock trader_id size side ob =
    let best_price = best_opposite_price side ob in
    let levels = levels_of (opposite side) ob in
    if best_price == 0 || is_empty levels
    then some (ob, false)
    else elim (lookup best_price levels) [
      | none ↦ some (ob, false)
      | some _ ↦
          let req : Request = record {
            trader_id = trader_id;
            price = market_limit side;
            size = size;
            side = side;
          } in
          let r = next_id ob in
          elim (try_match clock r (open_order req ob)) [
            | none ↦ none
            | some ob' ↦ some (count_market_order (put_order_to_pool r ob'), true)
          ]
    ]
