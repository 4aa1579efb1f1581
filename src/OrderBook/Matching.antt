-- ===== src/OrderBook/Matching.antt =====
-- The matching engine of verkle-orderbook/main.go, `tryMatchUnsafe`, loop by loop: one execution,
-- the orders of a slot (first in, first out), the slots of a level (0 to 15), one round at the
-- best price, and the rounds. `clock` gives the time that is read for each trade.
pub mod Exchange
pub mod Queue
pub mod Serve
pub mod Effects
pub mod Levels
pub mod Slots
pub mod Visit
pub mod Fair
pub mod Rounds
pub mod Stale
use onchain_exchange_homewor.Prelude.{
  ℕ, zero, suc, ◌+◌, Bool, true, false, not, ◌&&◌, ◌||◌, Option, none, some, List, [], ◌∷◌, ◌++◌,
  ltb, leb, ◌==◌, if◌then◌else◌, add64, Map, lookup, insert, erase, length,
}
use onchain_exchange_homewor.OrderBook.Types.{
  Side, buy, sell, Order, Trade, Slot, PriceLevel, OrderBook,
}
use onchain_exchange_homewor.OrderBook.Orders.{
  remaining_size, is_filled, safe_subtract, update, put_order_to_pool, levels_of, set_levels,
  opposite,
}
use onchain_exchange_homewor.OrderBook.Prices.{is_empty, update_best_prices}

-- What the loops over one level change.
pub record Run : Type 0 where
  pub book : OrderBook
  pub slot_volume : ℕ
  pub total_volume : ℕ
  pub level_matched : Bool

abbrev pub order_at : Run → ℕ → Order
order_at s r = s.book.orders r

-- The order after `FilledSize += n`, then with the flag that a partial fill sets.
abbrev pub fill : ℕ → Order → Order
fill n o = record o { filled_size = add64 o.filled_size n }

abbrev pub mark_partial : Order → Order
mark_partial o = record o { is_partial_fill = not (is_filled o) || o.is_partial_fill }

unfoldable pub execute_size : Order → Order → ℕ
execute_size taker maker =
    if ltb (remaining_size maker) (remaining_size taker)
    then remaining_size maker
    else remaining_size taker

-- A maker that is filled leaves the index and goes back to the pool.
unfoldable pub retire : ℕ → OrderBook → OrderBook
retire m ob =
    put_order_to_pool m (record ob { order_index = erase (ob.orders m).id ob.order_index })

-- The state in which the loop over the slots begins.
abbrev pub level_start : PriceLevel → OrderBook → Run
level_start level ob = record {
  book = ob;
  slot_volume = 0;
  total_volume = level.total_volume;
  level_matched = false;
}

module _ (clock : ℕ → ℕ) (taker best_price : ℕ) where
  -- The orders after `FilledSize += executeSize` on both, then with the taker's flag.
  unfoldable pub filled_orders : ℕ → Run → ℕ → Order
  filled_orders maker s =
      let n = execute_size (order_at s taker) (order_at s maker) in
      let h = update s.book.orders taker (fill n (order_at s taker)) in
      update h maker (fill n (h maker))

  unfoldable pub marked_orders : ℕ → Run → ℕ → Order
  unfolding filled_orders
  marked_orders maker s = let h = filled_orders maker s in update h taker (mark_partial (h taker))

  unfoldable pub executed_trade : ℕ → Run → Trade
  unfolding marked_orders
  executed_trade maker s =
      let trade_id = add64 s.book.next_trade_id 1 in
      record {
        trade_id = trade_id;
        taker_order_id = (order_at s taker).id;
        maker_order_id = (order_at s maker).id;
        taker_trader_id = (order_at s taker).trader_id;
        maker_trader_id = (order_at s maker).trader_id;
        price = best_price;
        size = execute_size (order_at s taker) (order_at s maker);
        taker_side = (order_at s taker).side;
        taker_partial = not (is_filled (filled_orders maker s taker));
        maker_partial = not (is_filled (marked_orders maker s maker));
        timestamp = clock trade_id;
      }

  -- One trade between the taker and a maker.
  unfoldable pub execute : ℕ → Run → Run
  unfolding executed_trade
  execute maker s =
      let ob = s.book in
      let h = marked_orders maker s in
      let trade = executed_trade maker s in
      record {
        book = record ob {
          next_trade_id = trade.trade_id;
          orders = update h maker (mark_partial (h maker));
          trades = ob.trades ++ (trade ∷ []);
          stats = record ob.stats { total_matches = add64 ob.stats.total_matches 1 };
        };
        slot_volume = safe_subtract s.slot_volume trade.size;
        total_volume = safe_subtract s.total_volume trade.size;
        level_matched = true;
      }

  -- The trade, and the removal of a maker that it fills; the flag says whether it was removed.
  unfoldable pub exchange : ℕ → Run → Bool × Run
  exchange maker s =
      let s' = execute maker s in
      if is_filled (order_at s' maker)
      then (true, record s' { book = retire maker s'.book })
      else (false, s')

  -- `for i < len(slot.Orders)`: the orders that stay, and the new state.
  unfoldable pub match_orders : List ℕ → Run → List ℕ × Run
  match_orders [] s = ([], s)
  match_orders (m ∷ rest) s = elim (is_filled (order_at s taker)) [
    | true ↦ (m ∷ rest, s)
    | false ↦
        let (removed, s') = exchange m s in
        let (kept, s'') = match_orders rest s' in (if removed then kept else m ∷ kept, s'')
  ]

  -- One slot: an empty one is skipped, and one that becomes empty has its volume cleared.
  unfoldable pub match_slot : Slot → Run → Slot × Run
  match_slot slot s =
      if is_empty slot.orders
      then (slot, s)
      else let (kept, s') = match_orders slot.orders (record s { slot_volume = slot.volume }) in
        (record { orders = kept; volume = if is_empty kept then 0 else s'.slot_volume }, s')

  -- `for slotIdx := 0; slotIdx < VERKLE_WIDTH; slotIdx++`
  unfoldable pub match_slots : List Slot → Run → List Slot × Run
  match_slots [] s = ([], s)
  match_slots (slot ∷ rest) s = elim (is_filled (order_at s taker)) [
    | true ↦ (slot ∷ rest, s)
    | false ↦
        let (slot', s') = match_slot slot s in
        let (rest', s'') = match_slots rest s' in (slot' ∷ rest', s'')
  ]

  unfoldable pub match_level : PriceLevel → OrderBook → List Slot × Run
  match_level level ob = match_slots level.slots (level_start level ob)

-- The level as the loops left it, written back; an empty one is deleted.
unfoldable pub close_level : Side → ℕ → PriceLevel → List Slot → Run → OrderBook
close_level side best_price level slots s =
    let level' : PriceLevel = record level { total_volume = s.total_volume; slots = slots } in
    let levels = levels_of side s.book in
    if s.total_volume == 0
    then update_best_prices (set_levels side (erase best_price levels) s.book)
    else set_levels side (insert best_price level' levels) s.book

-- The best price on the other side, and whether the taker's limit allows it.
unfoldable pub best_opposite_price : Side → OrderBook → ℕ
best_opposite_price buy ob = ob.best_ask_atomic
best_opposite_price sell ob = ob.best_bid_atomic

unfoldable pub can_match : Side → ℕ → ℕ → Bool
can_match buy best_price limit = ltb 0 best_price && leb best_price limit
can_match sell best_price limit = ltb 0 best_price && leb limit best_price

-- What a round of the outer loop ends in: `break`, or the next round.
pub data Round : Type 0 where
  stop again : OrderBook → Round

unfoldable pub after_level : Bool → OrderBook → Round
after_level true ob = again ob
after_level false ob = stop ob

unfoldable pub match_round : (ℕ → ℕ) → ℕ → OrderBook → Round
match_round clock taker ob =
    let o = ob.orders taker in
    let best_price = best_opposite_price o.side ob in
    if can_match o.side best_price o.price
    then elim (lookup best_price (levels_of (opposite o.side) ob)) [
      | none ↦ stop ob
      | some level ↦
          let (slots, s) = match_level clock taker best_price level ob in
          after_level s.level_matched (close_level (opposite o.side) best_price level slots s)
    ]
    else stop ob

-- `for !takerOrder.IsFilled()`, on fuel; `none` means that the fuel ran out.
unfoldable pub match_rounds : (ℕ → ℕ) → ℕ → ℕ → OrderBook → Option OrderBook
match_rounds clock taker zero ob = none
match_rounds clock taker (suc fuel) ob = elim (is_filled (ob.orders taker)) [
  | true ↦ some ob
  | false ↦ elim (match_round clock taker ob) [
    | stop ob' ↦ some ob'
    | again ob' ↦ match_rounds clock taker fuel ob'
  ]
]

-- The orders that rest on one side.
unfoldable pub resting_slots : List Slot → ℕ
resting_slots [] = 0
resting_slots (slot ∷ rest) = length slot.orders + resting_slots rest

unfoldable pub resting : Map PriceLevel → ℕ
unfolding resting_slots
resting [] = 0
resting ((_, level) ∷ rest) = resting_slots level.slots + resting rest

-- A filled taker leaves the index.
unfoldable pub finish : ℕ → OrderBook → OrderBook
finish taker ob =
    if is_filled (ob.orders taker)
    then record ob { order_index = erase (ob.orders taker).id ob.order_index }
    else ob

-- `tryMatchUnsafe`, with a round for each resting order on the other side and one to stop.
unfoldable pub try_match : (ℕ → ℕ) → ℕ → OrderBook → Option OrderBook
unfolding resting
try_match clock taker ob =
    let fuel = resting (levels_of (opposite (ob.orders taker).side) ob) + 1 in
    elim (match_rounds clock taker fuel ob) [ none ↦ none | some ob' ↦ some (finish taker ob') ]
