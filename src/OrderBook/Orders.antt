-- ===== src/OrderBook/Orders.antt =====
-- Orders, volumes and slots of verkle-orderbook/main.go: what remains of an order, saturating
-- volumes, the slot of an order, levels and orders taken from the pools, and the two sides.
use onchain_exchange_homewor.Prelude.{
  ℕ, ◌+◌, ◌-◌, ◌%◌, ◌≤◌, ◌≡◌, Bool, ltb, leb, ◌==◌, if◌then◌else◌, max_u64, Map, replicate, get_or,
  arith,
}
use onchain_exchange_homewor.OrderBook.Types.{
  Side, buy, sell, Order, Slot, PriceLevel, OrderBook, empty_order, empty_slot,
}

-- `RemainingSize`
unfoldable pub remaining_size : Order → ℕ
remaining_size o = if leb o.size o.filled_size then 0 else o.size - o.filled_size

-- `IsFilled`
unfoldable pub is_filled : Order → Bool
is_filled o = leb o.size o.filled_size

-- `safeSubtract`
unfoldable pub safe_subtract : ℕ → ℕ → ℕ
safe_subtract from value = if ltb from value then 0 else from - value

-- `safeAdd`
unfoldable pub safe_add : ℕ → ℕ → ℕ
safe_add a b = if ltb (max_u64 - b) a then max_u64 else a + b

abbrev pub verkle_width : ℕ
verkle_width = 16

abbrev pub slot_vip : ℕ
slot_vip = 1

abbrev pub slot_small_retail : ℕ
slot_small_retail = 2

abbrev pub slot_retail_start : ℕ
slot_retail_start = 3

abbrev pub slot_retail_end : ℕ
slot_retail_end = 14

-- `determineSlot`
unfoldable pub determine_slot : Order → ℕ
determine_slot order =
    if ltb order.trader_id 100
    then slot_vip
    else if ltb order.size 1000
    then slot_small_retail
    else slot_retail_start + order.trader_id % (slot_retail_end - slot_retail_start + 1)

-- `getPriceLevelFromPool`, with the price that every caller writes next.
unfoldable pub new_price_level : ℕ → PriceLevel
new_price_level p = record {
  price = p;
  total_volume = 0;
  slots = replicate verkle_width empty_slot;
}

-- A write through an order's pointer.
abbrev pub update : (ℕ → Order) → ℕ → Order → ℕ → Order
update h r o j = if r == j then o else h j

-- `putOrderToPool`: the order is cleared before it goes back to the pool.
unfoldable pub put_order_to_pool : ℕ → OrderBook → OrderBook
put_order_to_pool r ob = record ob { orders = update ob.orders r empty_order }

-- `levels := ob.BuyLevels; if side == SELL { levels = ob.SellLevels }`
unfoldable pub levels_of : Side → OrderBook → Map PriceLevel
levels_of buy ob = ob.buy_levels
levels_of sell ob = ob.sell_levels

unfoldable pub set_levels : Side → Map PriceLevel → OrderBook → OrderBook
set_levels buy m ob = record ob { buy_levels = m }
set_levels sell m ob = record ob { sell_levels = m }

abbrev pub opposite : Side → Side
opposite buy = sell
opposite sell = buy

abbrev pub get_slot : PriceLevel → ℕ → Slot
get_slot level i = get_or level.slots i empty_slot

-- Every order goes to one of the slots 1 to 14: VIP traders to 1, other small orders to 2, the
-- rest to 3 to 14; slot 0 (liquidations) and slot 15 (reserved) are never chosen.
pub determine_slot_bounds : (o : Order) → (1 ≤ determine_slot o) × (determine_slot o ≤ 14)
unfolding determine_slot
determine_slot_bounds o = ground arith

-- The two saturating operations stay in 64 bits, and are exact where the result fits.
pub safe_add-eq : (a b : ℕ) → a + b ≤ max_u64 → safe_add a b ≡ a + b
unfolding safe_add
safe_add-eq a b h = ground arith

pub safe_subtract-eq : (a b : ℕ) → safe_subtract a b ≡ a - b
unfolding safe_subtract
safe_subtract-eq a b = ground arith
