-- ===== src/OrderBook/Tests/Trading.antt =====
-- The trading theorems at a small book, and runs of it.
use onchain_exchange_homewor.Prelude.{ℕ, ◌≡◌, refl, some, List, [], ◌∷◌, arith, All, length}
use onchain_exchange_homewor.OrderBook.Orders.{remaining_size, levels_of}
use onchain_exchange_homewor.OrderBook.Matching.Stale.{without_ask}
use onchain_exchange_homewor.OrderBook.Entry.{execute_market_order}
use onchain_exchange_homewor.OrderBook.Types.{buy}
use onchain_exchange_homewor.Prelude.{erase, false}
use onchain_exchange_homewor.OrderBook.Entry.Unmatched.{Bid, add_bids, without_ask-add_bids}
use onchain_exchange_homewor.OrderBook.Types.{OrderBook, new_order_book}
use onchain_exchange_homewor.OrderBook.Matching.{try_match, match_level, level_start}
use onchain_exchange_homewor.OrderBook.Matching.Exchange.{HeapInRange}
use onchain_exchange_homewor.OrderBook.Matching.Queue.{total}
use onchain_exchange_homewor.OrderBook.Matching.Serve.{entries}
use onchain_exchange_homewor.OrderBook.Matching.Levels.{Serves}
use onchain_exchange_homewor.OrderBook.Matching.Slots.{
  IsExact, queue, match_level-Serves, match_level-IsExact,
}
use onchain_exchange_homewor.OrderBook.Matching.Fair.{Matched}
use onchain_exchange_homewor.OrderBook.Matching.Rounds.{try_match-Matched}
use onchain_exchange_homewor.OrderBook.Entry.{next_id, add_limit_order, add_limit_order_batch}
use onchain_exchange_homewor.OrderBook.Entry.Limit.{Added, add_limit_order-Added}
use onchain_exchange_homewor.OrderBook.Entry.Batch.{add_limit_order_batch-no_trades}
use onchain_exchange_homewor.OrderBook.Tests.Books.{
  clock, orders, level_100, book, bid, ask, cached_book,
}

orders-range : HeapInRange orders
orders-range r = ground arith

try_match-Matched_example :
    (ob : OrderBook) × (try_match clock 4 book ≡ some ob) × Matched 4 book ob
unfolding levels_of
try_match-Matched_example = try_match-Matched clock 4 book orders-range (ground arith)

match_level-Serves_example :
    let (slots, s) = match_level clock 4 100 level_100 book in
    Serves 4 100 (queue level_100.slots) (queue slots) (level_start level_100 book) s
match_level-Serves_example =
    match_level-Serves clock 4 100 level_100 book orders-range (ground arith) (ground arith)

match_level-IsExact_example :
    let (slots, s) = match_level clock 4 100 level_100 book in
    All (IsExact s.book.orders) slots
    × (s.total_volume ≡ total (entries s.book.orders (queue slots)))
unfolding remaining_size
match_level-IsExact_example =
    match_level-IsExact clock 4 100 level_100 book orders-range (ground arith) (ground arith)
      (ground arith) (ground arith)

add_limit_order-Added_example :
    (ob : OrderBook) × (add_limit_order clock (bid 101 3000) book ≡ some (ob, next_id book))
    × Added (bid 101 3000) book ob
unfolding levels_of next_id
add_limit_order-Added_example =
    add_limit_order-Added clock (bid 101 3000) book orders-range (ground arith) (ground arith)

-- Two orders to buy, above all asks.
abbrev bids : List Bid
bids =
    record { trader_id = 7; price = 200; size = 10 }
    ∷ record { trader_id = 8; price = 300; size = 20 }
    ∷ []

without_ask-add_bids_example :
    (last : OrderBook) × (add_bids clock bids (without_ask 100 cached_book) ≡ some last)
    × (last.trades ≡ cached_book.trades)
    × (last.sell_levels ≡ erase 100 cached_book.sell_levels)
    × (last.best_ask_atomic ≡ 100)
    × (execute_market_order clock 9 5 buy last ≡ some (last, false))
without_ask-add_bids_example =
    without_ask-add_bids clock 100 (101 ∷ []) bids 9 5 cached_book refl refl

add_limit_order_batch-no_trades_example :
    (ob : OrderBook) × (rs : List ℕ) × (add_limit_order_batch clock
        (bid 100 5 ∷ ask 90 5 ∷ [])
        new_order_book
      ≡ some (ob, rs))
    × (ob.trades ≡ [])
    × (length rs ≡ 2)
add_limit_order_batch-no_trades_example =
    add_limit_order_batch-no_trades clock (bid 100 5 ∷ ask 90 5 ∷ []) new_order_book refl refl
