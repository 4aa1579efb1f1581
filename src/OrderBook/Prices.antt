-- ===== src/OrderBook/Prices.antt =====
-- The best prices of verkle-orderbook/main.go: the cached lists of prices, `updateBestPrices` with
-- its fast path, `rebuildBestPrices`, and the unlocked read.
pub mod Best
use onchain_exchange_homewor.Prelude.{
  ℕ, Bool, true, false, not, ◌&&◌, List, [], ◌∷◌, ltb, if◌then◌else◌, keys, sort_by,
}
use onchain_exchange_homewor.OrderBook.Types.{OrderBook}

abbrev pub first_or_zero : List ℕ → ℕ
first_or_zero [] = 0
first_or_zero (p ∷ _) = p

abbrev pub is_empty {ℓ} : {A : Type ℓ} → List A → Bool
is_empty [] = true
is_empty (_ ∷ _) = false

-- `rebuildBestPrices`: bids from the highest, asks from the lowest.
unfoldable pub rebuild_best_prices : OrderBook → OrderBook
rebuild_best_prices ob =
    let bids = sort_by (λ a b. ltb b a) (keys ob.buy_levels) in
    let asks = sort_by ltb (keys ob.sell_levels) in
    record ob {
      buy_prices_sorted = bids;
      best_bid_atomic = first_or_zero bids;
      sell_prices_sorted = asks;
      best_ask_atomic = first_or_zero asks;
      prices_cache_dirty = false;
    }

-- The test of the fast path: the cache counts as valid.
abbrev pub has_valid_cache : OrderBook → Bool
has_valid_cache ob =
    not ob.prices_cache_dirty
    && not (is_empty ob.buy_prices_sorted)
    && not (is_empty ob.sell_prices_sorted)

-- `updateBestPrices`, without its diagnostic call counter.
unfoldable pub update_best_prices : OrderBook → OrderBook
update_best_prices ob =
    if has_valid_cache ob
    then record ob {
      best_bid_atomic = first_or_zero ob.buy_prices_sorted;
      best_ask_atomic = first_or_zero ob.sell_prices_sorted;
    }
    else rebuild_best_prices ob

-- `GetSpreadUnsafe`
unfoldable pub get_spread_unsafe : OrderBook → ℕ × ℕ
get_spread_unsafe ob = (ob.best_bid, ob.best_ask)
