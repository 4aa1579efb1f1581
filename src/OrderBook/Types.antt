-- ===== src/OrderBook/Types.antt =====
-- The data of verkle-orderbook/main.go: sides, orders, trades, slots, price levels and the book.
-- A `*Order` is a number, its place in the heap `orders` of the book; a new order's place is its
-- ID, which no other order has. Slots and the index hold such places, so that a fill or a
-- change made through one of them is seen through the other.
use onchain_exchange_homewor.Prelude.{ℕ, Bool, false, List, [], Map}

pub data Side : Type 0 where
  buy sell : Side

pub record Order : Type 0 where
  pub id : ℕ
  pub trader_id : ℕ
  pub price : ℕ
  pub size : ℕ
  pub filled_size : ℕ
  pub side : Side
  pub slot : ℕ
  pub is_partial_fill : Bool

pub record Trade : Type 0 where
  pub trade_id : ℕ
  pub taker_order_id : ℕ
  pub maker_order_id : ℕ
  pub taker_trader_id : ℕ
  pub maker_trader_id : ℕ
  pub price : ℕ
  pub size : ℕ
  pub taker_side : Side
  pub taker_partial : Bool
  pub maker_partial : Bool
  pub timestamp : ℕ

pub record Slot : Type 0 where
  pub orders : List ℕ
  pub volume : ℕ

pub record PriceLevel : Type 0 where
  pub price : ℕ
  pub total_volume : ℕ
  pub slots : List Slot

pub record Stats : Type 0 where
  pub total_operations : ℕ
  pub total_orders : ℕ
  pub total_matches : ℕ
  pub total_cancels : ℕ
  pub total_modifies : ℕ
  pub total_market_orders : ℕ

-- `best_bid` and `best_ask` are the plain fields `BestBid` and `BestAsk`.
pub record OrderBook : Type 0 where
  pub next_order_id : ℕ
  pub next_trade_id : ℕ
  pub orders : ℕ → Order
  pub buy_levels : Map PriceLevel
  pub sell_levels : Map PriceLevel
  pub order_index : Map ℕ
  pub trades : List Trade
  pub best_bid : ℕ
  pub best_ask : ℕ
  pub best_bid_atomic : ℕ
  pub best_ask_atomic : ℕ
  pub buy_prices_sorted : List ℕ
  pub sell_prices_sorted : List ℕ
  pub prices_cache_dirty : Bool
  pub stats : Stats

-- `Order{}`
abbrev pub empty_order : Order
empty_order = record {
  id = 0;
  trader_id = 0;
  price = 0;
  size = 0;
  filled_size = 0;
  side = buy;
  slot = 0;
  is_partial_fill = false;
}

abbrev pub empty_slot : Slot
empty_slot = record { orders = []; volume = 0 }

abbrev pub empty_stats : Stats
empty_stats = record {
  total_operations = 0;
  total_orders = 0;
  total_matches = 0;
  total_cancels = 0;
  total_modifies = 0;
  total_market_orders = 0;
}

-- `NewOrderBook`, without the goroutines that hash the book.
abbrev pub new_order_book : OrderBook
new_order_book = record {
  next_order_id = 0;
  next_trade_id = 0;
  orders = λ _. empty_order;
  buy_levels = [];
  sell_levels = [];
  order_index = [];
  trades = [];
  best_bid = 0;
  best_ask = 0;
  best_bid_atomic = 0;
  best_ask_atomic = 0;
  buy_prices_sorted = [];
  sell_prices_sorted = [];
  prices_cache_dirty = false;
  stats = empty_stats;
}
