-- ===== src/OrderBook/Tests/Upkeep.antt =====
-- The theorems on cancellation, volumes, best prices, repairs, history and the tree, at a small book.
use onchain_exchange_homewor.Prelude.{
  ℕ, ◌+◌, ◌-◌, ◌≤◌, ◌⊎◌, All, ◌≡◌, ◌≢◌, refl, false, none, some, if◌then◌else◌, ◌==◌, List, [], ◌∷◌,
  ◌++◌, arith, length, replicate, lookup, IsSorted, sort_by, insert_by,
}
use mathlib.Core.List.{Perm}
use onchain_exchange_homewor.OrderBook.Types.{Order, Slot, Trade, PriceLevel, OrderBook}
use onchain_exchange_homewor.OrderBook.Orders.{remaining_size, get_slot}
use onchain_exchange_homewor.OrderBook.Matching.Queue.{total}
use onchain_exchange_homewor.OrderBook.Matching.Serve.{entries}
use onchain_exchange_homewor.OrderBook.Entry.{append_order}
use onchain_exchange_homewor.OrderBook.Cancel.{
  cancel_order, remove_from_level, cancel_all_by_trader,
}
use onchain_exchange_homewor.OrderBook.Cancel.Index.{
  is_known, cancel_order-index, cancel_all_by_trader-index,
}
use onchain_exchange_homewor.OrderBook.Exact.{
  LevelIsExact, append_order-IsExact, remove_from_level-IsExact,
}
use onchain_exchange_homewor.OrderBook.Prices.{rebuild_best_prices}
use onchain_exchange_homewor.OrderBook.Prices.Best.{
  IsBestAsk, IsBestBid, rebuild_best_prices-IsBest,
}
use onchain_exchange_homewor.OrderBook.Tree.{
  sell_side, price_before, nonempty_levels, build_side_tree, side_children, sorted_levels,
}
use onchain_exchange_homewor.OrderBook.Tree.Leaves.{
  leaves_of, leaves, build_side_tree-leaves, length-leaves-side_children,
}
use onchain_exchange_homewor.OrderBook.History.{clear_old_trades}
use onchain_exchange_homewor.OrderBook.History.Trades.{IsOld, clear_old_trades_lem}
use onchain_exchange_homewor.OrderBook.Repair.{fix_slot, is_valid_order}
use onchain_exchange_homewor.OrderBook.Repair.Volumes.{filled, fix_slot-volume}
use onchain_exchange_homewor.OrderBook.Tests.Books.{
  order, orders, level_100, cached_book, book, trade_at, slot_of,
}
use onchain_exchange_homewor.OrderBook.Types.{sell}

level_100-IsExact : LevelIsExact orders level_100
unfolding remaining_size
level_100-IsExact = record { slots = ground arith; total_volume = refl }

append_order-IsExact_example :
    let level = append_order 4 (orders 4) level_100 in
    let slot = get_slot level_100 (orders 4).slot in
    let slot' : Slot = record {
      orders = slot.orders ++ (4 ∷ []);
      volume = slot.volume + remaining_size (orders 4);
    } in
    (get_slot level 2 ≡ (if (orders 4).slot == 2 then slot' else get_slot level_100 2))
    × (level.total_volume ≡ level_100.total_volume + remaining_size (orders 4))
    × LevelIsExact orders level
unfolding remaining_size
append_order-IsExact_example =
    append_order-IsExact orders 4 2 level_100 level_100-IsExact (ground arith) (ground arith)

remove_from_level-IsExact_example :
    let level = remove_from_level orders 1 (orders 1) level_100 in
    let slot = get_slot level_100 (orders 1).slot in
    let slot' : Slot = record { orders = []; volume = slot.volume - remaining_size (orders 1) } in
    (get_slot level 2 ≡ (if (orders 1).slot == 2 then slot' else get_slot level_100 2))
    × (level.total_volume ≡ level_100.total_volume - remaining_size (orders 1))
    × LevelIsExact orders level
remove_from_level-IsExact_example =
    remove_from_level-IsExact orders 1 2 [] [] level_100 level_100-IsExact (ground arith) refl tt

cancel_order-index_example :
    ((cancel_order 1 book).1 ≡ is_known 1 book)
    × (lookup 2 (cancel_order 1 book).0.order_index
        ≡ (if 1 == 2 then none else lookup 2 book.order_index))
cancel_order-index_example = cancel_order-index 1 2 book

cancel_all_by_trader-index_example :
    let index = (cancel_all_by_trader 500 book).0.order_index in
    lookup 1 index ≡ (if (book.orders 1).trader_id == 500 then none else some 1)
cancel_all_by_trader-index_example = cancel_all_by_trader-index 500 1 1 book (ground arith) refl

rebuild_best_prices-IsBest_example :
    let ob = rebuild_best_prices cached_book in
    IsBestAsk cached_book.sell_levels ob.best_ask_atomic
    × IsBestBid cached_book.buy_levels ob.best_bid_atomic
    × (ob.prices_cache_dirty ≡ false)
rebuild_best_prices-IsBest_example = rebuild_best_prices-IsBest cached_book

build_side_tree-leaves_example :
    Perm (leaves_of (build_side_tree sell_side book.sell_levels)) (nonempty_levels book.sell_levels)
    × IsSorted (price_before sell_side) (leaves_of (build_side_tree sell_side book.sell_levels))
unfolding sorted_levels nonempty_levels sort_by insert_by
build_side_tree-leaves_example = build_side_tree-leaves sell_side book.sell_levels (ground arith)

abbrev many_levels : List PriceLevel
many_levels = replicate 257 level_100

length-leaves-side_children_example :
    (length (leaves (side_children many_levels)) ≤ 256)
    × (leaves (side_children many_levels) ≢ many_levels)
length-leaves-side_children_example = length-leaves-side_children many_levels (ground arith)

-- Trades at the times 1, 2 and 3.
abbrev traded_book : OrderBook
traded_book = record book { trades = trade_at 1 ∷ trade_at 2 ∷ trade_at 3 ∷ [] }

clear_old_trades_lem_example :
    (All (IsOld 2) traded_book.trades × (clear_old_trades 2 traded_book ≡ (traded_book, 0)))
    ⊎ ((old : List Trade) × (t : Trade) × (fresh : List Trade) × (traded_book.trades
          ≡ old ++ (t ∷ fresh))
        × All (IsOld 2) old
        × (2 ≤ t.timestamp)
        × ((clear_old_trades 2 traded_book).0.trades ≡ t ∷ fresh)
        × ((clear_old_trades 2 traded_book).1 ≡ length old))
clear_old_trades_lem_example = clear_old_trades_lem 2 traded_book

-- A heap in which order 1 is filled by half.
abbrev half_filled : ℕ → Order
half_filled _ = order 1 500 100 1500 750 sell 11

fix_slot-volume_example :
    let slot = fix_slot half_filled 100 (slot_of 1 750) in
    (slot.orders ≡ 1 ∷ [])
    × (slot.volume ≡ total (entries half_filled (1 ∷ [])) + filled half_filled (1 ∷ []))
unfolding remaining_size is_valid_order
fix_slot-volume_example =
    fix_slot-volume half_filled 100 (slot_of 1 750) (ground arith) (ground arith) (ground arith)
