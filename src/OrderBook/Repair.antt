-- ===== src/OrderBook/Repair.antt =====
-- The repairs of verkle-orderbook/main.go: `CleanupEmptyLevels` and
-- `validateAndFixLevelConsistency`.
pub mod Volumes
use onchain_exchange_homewor.Prelude.{
  ℕ, ◌+◌, ◌*◌, Bool, false, not, ◌&&◌, ◌||◌, List, [], ◌∷◌, ltb, leb, ◌==◌, if◌then◌else◌, add64,
  Map, select, length, map,
}
use onchain_exchange_homewor.OrderBook.Types.{Order, Slot, PriceLevel, OrderBook}
use onchain_exchange_homewor.OrderBook.Prices.{is_empty, update_best_prices}

abbrev pub price_decimals : ℕ
price_decimals = 100

-- A loop of `CleanupEmptyLevels` over one side: the levels that stay, and how many went.
unfoldable pub cleanup_side : Map PriceLevel → Map PriceLevel × ℕ
cleanup_side [] = ([], 0)
cleanup_side ((p, level) ∷ rest) =
    let (kept, n) = cleanup_side rest in
    if level.total_volume == 0 then (kept, n + 1) else ((p, level) ∷ kept, n)

-- `CleanupEmptyLevels`
unfoldable pub cleanup_empty_levels : OrderBook → OrderBook × ℕ
cleanup_empty_levels ob =
    let (bids, m) = cleanup_side ob.buy_levels in
    let (asks, n) = cleanup_side ob.sell_levels in
    let ob' : OrderBook = record ob { buy_levels = bids; sell_levels = asks } in
    (if ltb 0 (m + n) then update_best_prices ob' else ob', m + n)

-- The orders that the check keeps: at the level's price, and not suspiciously large.
unfoldable pub is_valid_order : ℕ → Order → Bool
is_valid_order price o = o.price == price && leb o.size (0xf4240 * price_decimals)

-- `realVolume += order.Size`
unfoldable pub real_volume : (ℕ → Order) → List ℕ → ℕ → ℕ
real_volume h [] acc = acc
real_volume h (r ∷ rs) acc = real_volume h rs (add64 acc (h r).size)

unfoldable pub fix_slot : (ℕ → Order) → ℕ → Slot → Slot
unfolding is_valid_order real_volume
fix_slot h price slot =
    let valid = select (λ r. is_valid_order price (h r)) slot.orders in
    record {
      orders = if length valid == length slot.orders then slot.orders else valid;
      volume = real_volume h valid 0;
    }

-- `calculatedTotal += realVolume`
unfoldable pub calculated_total : List Slot → ℕ → ℕ
calculated_total [] acc = acc
calculated_total (slot ∷ slots) acc = calculated_total slots (add64 acc slot.volume)

unfoldable pub has_any_orders : List Slot → Bool
has_any_orders [] = false
has_any_orders (slot ∷ slots) = not (is_empty slot.orders) || has_any_orders slots

-- `validateAndFixLevelConsistency`
unfoldable pub fix_level : (ℕ → Order) → PriceLevel → PriceLevel
unfolding fix_slot calculated_total has_any_orders
fix_level h level =
    let slots = map (fix_slot h level.price) level.slots in
    let total = calculated_total slots 0 in
    record level {
      slots = slots;
      total_volume =
          if not (has_any_orders slots) && not (level.total_volume == 0) then 0 else total;
    }
