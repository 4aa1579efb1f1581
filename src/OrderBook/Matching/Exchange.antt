-- ===== src/OrderBook/Matching/Exchange.antt =====
-- One trade of the matching engine: what it does to the two orders, to all other orders, to the
-- volumes and to the history.
use onchain_exchange_homewor.Prelude.{
  ℕ, ◌+◌, ◌-◌, ◌<◌, ◌≡◌, ◌≢◌, true, false, [], ◌∷◌, ◌++◌, arith, u64_mod, leb,
}
use onchain_exchange_homewor.OrderBook.Types.{Order}
use onchain_exchange_homewor.OrderBook.Orders.{
  remaining_size, is_filled, safe_subtract, put_order_to_pool,
}
use onchain_exchange_homewor.OrderBook.Matching.{
  Run, order_at, execute_size, retire, executed_trade, execute, exchange,
}

-- The fields of every order fit their 64 bits.
abbrev pub IsWord : Order → Type 0
IsWord o = (o.size < u64_mod) × (o.filled_size < u64_mod)

abbrev pub HeapInRange : (ℕ → Order) → Type 0
HeapInRange h = (r : ℕ) → IsWord (h r)

-- What a taker and a maker trade.
abbrev pub size_traded : ℕ → ℕ → Run → ℕ
size_traded taker maker s = execute_size (order_at s taker) (order_at s maker)

module _ (clock : ℕ → ℕ) (taker best_price maker : ℕ) (s : Run) where
  pub exchange-removed :
      IsWord (order_at s maker)
      → taker ≢ maker
      → (exchange clock taker best_price maker s).0
        ≡ leb (remaining_size (order_at s maker)) (remaining_size (order_at s taker))
  unfolding exchange execute execute_size remaining_size is_filled
  exchange-removed w ne = ground arith

  pub exchange-taker :
      IsWord (order_at s taker)
      → taker ≢ maker
      → let t = order_at s taker in
        let t' = order_at (exchange clock taker best_price maker s).1 taker in
        (t'.size ≡ t.size)
        × (t'.filled_size ≡ t.filled_size + size_traded taker maker s)
        × (t'.price ≡ t.price)
        × (t'.side ≡ t.side)
        × (t'.id ≡ t.id)
  unfolding exchange execute execute_size remaining_size is_filled retire put_order_to_pool
  exchange-taker w ne = ground arith

  pub exchange-others :
      (r : ℕ)
      → r ≢ taker
      → r ≢ maker
      → order_at (exchange clock taker best_price maker s).1 r ≡ order_at s r
  unfolding exchange execute retire put_order_to_pool
  exchange-others r ne ne' = ground arith

  -- A maker that stays has given the traded size, and the taker is filled.
  pub exchange-kept :
      IsWord (order_at s taker)
      → IsWord (order_at s maker)
      → taker ≢ maker
      → (exchange clock taker best_price maker s).0 ≡ false
      → let s' = (exchange clock taker best_price maker s).1 in
        (remaining_size (order_at s' maker)
          ≡ remaining_size (order_at s maker) - size_traded taker maker s)
        × ((order_at s' maker).id ≡ (order_at s maker).id)
        × (is_filled (order_at s' taker) ≡ true)
  unfolding exchange execute execute_size remaining_size is_filled retire put_order_to_pool
  exchange-kept w w' ne h = ground arith

  pub exchange-trades :
      let new = executed_trade clock taker best_price maker s in
      ((exchange clock taker best_price maker s).1.book.trades ≡ s.book.trades ++ (new ∷ []))
      × (new.size ≡ size_traded taker maker s)
      × (new.price ≡ best_price)
      × (new.taker_order_id ≡ (order_at s taker).id)
      × (new.maker_order_id ≡ (order_at s maker).id)
  unfolding exchange execute retire put_order_to_pool
  exchange-trades = ground arith

  pub exchange-volumes :
      let s' = (exchange clock taker best_price maker s).1 in
      (s'.slot_volume ≡ s.slot_volume - size_traded taker maker s)
      × (s'.total_volume ≡ s.total_volume - size_traded taker maker s)
      × (s'.level_matched ≡ true)
  unfolding exchange execute safe_subtract
  exchange-volumes = ground arith

  pub exchange-range :
      HeapInRange s.book.orders
      → HeapInRange (exchange clock taker best_price maker s).1.book.orders
  unfolding exchange execute retire put_order_to_pool
  exchange-range w r = ground (arith, w r, w taker, w maker)

  pub exchange-book :
      let ob' = (exchange clock taker best_price maker s).1.book in
      (ob'.buy_levels ≡ s.book.buy_levels)
      × (ob'.sell_levels ≡ s.book.sell_levels)
      × (ob'.next_order_id ≡ s.book.next_order_id)
      × (ob'.best_bid_atomic ≡ s.book.best_bid_atomic)
      × (ob'.best_ask_atomic ≡ s.book.best_ask_atomic)
      × (ob'.buy_prices_sorted ≡ s.book.buy_prices_sorted)
      × (ob'.sell_prices_sorted ≡ s.book.sell_prices_sorted)
      × (ob'.prices_cache_dirty ≡ s.book.prices_cache_dirty)
  unfolding exchange execute retire put_order_to_pool
  exchange-book = ground arith
