-- ===== src/OrderBook/Tests/Books.antt =====
-- A book with two asks at 100, of 1500 and of 10, one at 101 of 2000, and a buyer up to 101.
use onchain_exchange_homewor.Prelude.{ℕ, false, [], ◌∷◌, replicate, set}
use onchain_exchange_homewor.OrderBook.Types.{
  Side, buy, sell, Order, Slot, PriceLevel, Trade, OrderBook, new_order_book, empty_order,
  empty_slot,
}
use onchain_exchange_homewor.OrderBook.Orders.{update}
use onchain_exchange_homewor.OrderBook.Entry.{Request}

abbrev pub clock : ℕ → ℕ
clock n = n

abbrev pub order : ℕ → ℕ → ℕ → ℕ → ℕ → Side → ℕ → Order
order id trader_id price size filled side slot = record {
  id = id;
  trader_id = trader_id;
  price = price;
  size = size;
  filled_size = filled;
  side = side;
  slot = slot;
  is_partial_fill = false;
}

abbrev pub orders : ℕ → Order
orders =
    update
      (update
        (update (update (λ _. empty_order) 1 (order 1 500 100 1500 0 sell 11)) 2
          (order 2 500 100 10 0 sell 2))
        3 (order 3 600 101 2000 0 sell 3))
      4 (order 4 501 101 3000 0 buy 12)

abbrev pub slot_of : ℕ → ℕ → Slot
slot_of r volume = record { orders = r ∷ []; volume = volume }

abbrev pub level_100 : PriceLevel
level_100 = record {
  price = 100;
  total_volume = 1510;
  slots = set (set (replicate 16 empty_slot) 11 (slot_of 1 1500)) 2 (slot_of 2 10);
}

abbrev pub level_101 : PriceLevel
level_101 = record {
  price = 101;
  total_volume = 2000;
  slots = set (replicate 16 empty_slot) 3 (slot_of 3 2000);
}

abbrev level_99 : PriceLevel
level_99 = record { price = 99; total_volume = 0; slots = replicate 16 empty_slot }

abbrev pub book : OrderBook
book = record new_order_book {
  next_order_id = 4;
  orders = orders;
  sell_levels = (100, level_100) ∷ (101, level_101) ∷ [];
  order_index = (1, 1) ∷ (2, 2) ∷ (3, 3) ∷ [];
  best_ask_atomic = 100;
}

abbrev pub trade_at : ℕ → Trade
trade_at time = record {
  trade_id = time;
  taker_order_id = 4;
  maker_order_id = 1;
  taker_trader_id = 501;
  maker_trader_id = 500;
  price = 100;
  size = 1;
  taker_side = buy;
  taker_partial = false;
  maker_partial = false;
  timestamp = time;
}

abbrev pub bid : ℕ → ℕ → Request
bid price size = record { trader_id = 501; price = price; size = size; side = buy }

abbrev pub ask : ℕ → ℕ → Request
ask price size = record { trader_id = 600; price = price; size = size; side = sell }

-- The book with a bid, after a rebuild of its cached prices.
abbrev pub cached_book : OrderBook
cached_book = record book {
  buy_levels = (99, level_99) ∷ [];
  best_bid_atomic = 99;
  buy_prices_sorted = 99 ∷ [];
  sell_prices_sorted = 100 ∷ 101 ∷ [];
}
