-- ===== src/OrderBook/History.antt =====
-- The trade history of verkle-orderbook/main.go: `GetTradesByOrderID`, `GetTradesByTraderID`,
-- `GetRecentTrades` and `ClearOldTrades`.
pub mod Trades
use onchain_exchange_homewor.Prelude.{
  ℕ, ◌+◌, ◌-◌, ◌||◌, List, [], ◌∷◌, ltb, leb, ◌==◌, if◌then◌else◌, length, drop, select,
}
use onchain_exchange_homewor.OrderBook.Types.{Trade, OrderBook}

unfoldable pub trades_by_order_id : ℕ → OrderBook → List Trade
trades_by_order_id order_id ob =
    select (λ t. t.taker_order_id == order_id || t.maker_order_id == order_id) ob.trades

unfoldable pub trades_by_trader_id : ℕ → OrderBook → List Trade
trades_by_trader_id trader_id ob =
    select (λ t. t.taker_trader_id == trader_id || t.maker_trader_id == trader_id) ob.trades

-- `GetRecentTrades`; a limit of 0 stands for every limit that is not positive.
unfoldable pub recent_trades : ℕ → OrderBook → List Trade
recent_trades limit ob =
    let n = length ob.trades in
    let limit' = if limit == 0 || ltb n limit then n else limit in drop (n - limit') ob.trades

-- The loop that looks for the first trade not older than the cutoff; 0 if there is none.
unfoldable pub first_valid_index : ℕ → ℕ → List Trade → ℕ
first_valid_index cutoff i [] = 0
first_valid_index cutoff i (t ∷ ts) =
    if leb cutoff t.timestamp then i else first_valid_index cutoff (i + 1) ts

-- `ClearOldTrades`, given the time of the cutoff: the new book and the number of trades removed.
unfoldable pub clear_old_trades : ℕ → OrderBook → OrderBook × ℕ
clear_old_trades cutoff ob =
    let i = first_valid_index cutoff 0 ob.trades in
    if i == 0 then (ob, 0) else (record ob { trades = drop i ob.trades }, i)
