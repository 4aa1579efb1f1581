-- ===== src/OrderBook/Modify.antt =====
-- `ModifyOrder` of verkle-orderbook/main.go: a change of size on the same level, and a change of
-- price, which moves the order and then matches it.
use onchain_exchange_homewor.Prelude.{
  ℕ, Bool, true, false, not, ◌||◌, Option, none, some, List, [], ◌∷◌, ◌++◌, ◌==◌, if◌then◌else◌,
  add64, lookup, insert, erase, set,
}
use onchain_exchange_homewor.OrderBook.Types.{Order, Slot, PriceLevel, OrderBook}
use onchain_exchange_homewor.OrderBook.Orders.{
  remaining_size, safe_add, safe_subtract, determine_slot, new_price_level, update, levels_of,
  set_levels, get_slot,
}
use onchain_exchange_homewor.OrderBook.Prices.{is_empty, update_best_prices}
use onchain_exchange_homewor.OrderBook.Matching.{try_match}
use onchain_exchange_homewor.OrderBook.Entry.{append_order, has_level, level_at}
use onchain_exchange_homewor.OrderBook.Cancel.{
  remove_by_id, has_id, remove_from_level, drop_order, store_level,
}

-- `newX != nil && *newX != x`
unfoldable pub is_changed : Option ℕ → ℕ → Bool
is_changed none x = false
is_changed (some y) x = not (y == x)

abbrev pub value_or : Option ℕ → ℕ → ℕ
value_or none x = x
value_or (some y) x = y

unfoldable pub count_modify : OrderBook → OrderBook
count_modify ob = record ob {
  stats = record ob.stats {
    total_modifies = add64 ob.stats.total_modifies 1;
    total_operations = add64 ob.stats.total_operations 1;
  };
}

-- The old slot without the order, whose volume is already taken off.
unfoldable pub vacate_slot : (ℕ → Order) → ℕ → ℕ → Slot → Slot
vacate_slot h id volume slot =
    let kept = remove_by_id h id slot.orders in
    record { orders = kept; volume = if is_empty kept then 0 else volume }

-- The new size is not above what is filled: the order is removed. The best prices stay.
unfoldable pub resize_to_filled : ℕ → ℕ → Order → PriceLevel → OrderBook → OrderBook
resize_to_filled order_id r o level ob =
    let slot = get_slot level o.slot in
    let volume = safe_subtract slot.volume (remaining_size o) in
    let level' : PriceLevel = record level {
      total_volume = safe_subtract level.total_volume (remaining_size o);
      slots = set level.slots o.slot (vacate_slot ob.orders order_id volume slot);
    } in
    let levels = levels_of o.side ob in
    let ob' =
      set_levels o.side
        (if level'.total_volume == 0
          then erase level.price levels
          else insert o.price level' levels)
        ob in
    count_modify (drop_order order_id r ob')

-- The order, with its new size in `o'`, stays on its level, in the slot that its new size asks for.
unfoldable pub resize_slots : (ℕ → Order) → ℕ → ℕ → Order → Order → PriceLevel → List Slot
resize_slots h order_id r o o' level =
    let slot = get_slot level o.slot in
    let volume = safe_subtract slot.volume (remaining_size o) in
    if determine_slot o' == o.slot
    then set level.slots o.slot (record slot { volume = safe_add volume (remaining_size o') })
    else let level' : PriceLevel = record level {
      slots = set level.slots o.slot (vacate_slot h order_id volume slot);
    } in
      let target = get_slot level' (determine_slot o') in
      set level'.slots (determine_slot o') (record {
        orders = target.orders ++ (r ∷ []);
        volume = safe_add target.volume (remaining_size o');
      })

-- Case 1 of `ModifyOrder`: only the size changes.
unfoldable pub resize_order : ℕ → ℕ → ℕ → PriceLevel → OrderBook → OrderBook
resize_order order_id r size level ob =
    let o = ob.orders r in
    let o' : Order = record o { size = size } in
    if remaining_size o' == 0
    then resize_to_filled order_id r o level ob
    else let total = safe_subtract level.total_volume (remaining_size o) in
      let level' : PriceLevel = record level {
        total_volume = safe_add total (remaining_size o');
        slots = resize_slots ob.orders order_id r o o' level;
      } in
      let ob' = set_levels o.side (insert o.price level' (levels_of o.side ob)) ob in
      count_modify
        (record ob' { orders = update ob.orders r (record o' { slot = determine_slot o' }) })

-- Step 3 of a change of price: the order joins its new level.
unfoldable pub join_level : ℕ → OrderBook → OrderBook
join_level r ob =
    let o = ob.orders r in
    let ob' =
      if has_level o.side o.price ob
      then ob
      else update_best_prices
          (set_levels o.side (insert o.price (new_price_level o.price) (levels_of o.side ob)) ob) in
    let level = append_order r o (level_at o.side o.price ob') in
    count_modify (set_levels o.side (insert o.price level (levels_of o.side ob')) ob')

-- Steps 1 and 2 of a change of price: the order leaves its old level, and gets its new fields.
unfoldable pub leave_level : ℕ → ℕ → ℕ → ℕ → PriceLevel → OrderBook → OrderBook
leave_level order_id r price size level ob =
    let o = ob.orders r in
    let ob' = store_level o.side o.price (remove_from_level ob.orders order_id o level) ob in
    let moved : Order = record o { price = price; size = size } in
    record ob' { orders = update ob'.orders r (record moved { slot = determine_slot moved }) }

-- An order that the new size makes filled is dropped; any other joins its new level and is matched.
unfoldable pub relocate : (ℕ → ℕ) → ℕ → ℕ → OrderBook → Option (OrderBook × Bool)
relocate clock order_id r ob =
    if remaining_size (ob.orders r) == 0
    then some (count_modify (drop_order order_id r ob), true)
    else (elim (try_match clock r (join_level r ob)) [ none ↦ none | some ob' ↦ some (ob', true) ])

-- Case 2 of `ModifyOrder`: the price changes, and perhaps the size.
unfoldable pub move_order :
    (ℕ → ℕ) → ℕ → ℕ → ℕ → ℕ → PriceLevel → OrderBook → Option (OrderBook × Bool)
move_order clock order_id r price size level ob =
    if has_id ob.orders order_id (get_slot level (ob.orders r).slot).orders
    then relocate clock order_id r (leave_level order_id r price size level ob)
    else some (ob, false)

-- `ModifyOrder`; `none` for a price or a size is a nil pointer.
unfoldable pub modify_order :
    (ℕ → ℕ) → ℕ → Option ℕ → Option ℕ → OrderBook → Option (OrderBook × Bool)
modify_order clock order_id new_price new_size ob = elim (lookup order_id ob.order_index) [
  | none ↦ some (ob, false)
  | some r ↦
      let o = ob.orders r in
      let price_changed = is_changed new_price o.price in
      let size_changed = is_changed new_size o.size in
      if price_changed || size_changed
      then elim (lookup o.price (levels_of o.side ob)) [
        | none ↦ some (ob, false)
        | some level ↦
            if price_changed
            then move_order clock order_id r (value_or new_price o.price) (value_or new_size o.size)
                level ob
            else some (resize_order order_id r (value_or new_size o.size) level ob, true)
      ]
      else some (ob, true)
]
