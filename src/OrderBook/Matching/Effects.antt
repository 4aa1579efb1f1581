-- ===== src/OrderBook/Matching/Effects.antt =====
-- What the loop over the orders of a slot does besides: to the taker, to all other orders, to the
-- volumes, and to the rest of the book.
use onchain_exchange_homewor.Prelude.{ℕ, ◌+◌, ◌-◌, ◌≡◌, ◌≢◌, refl, sym, List, [], ◌∷◌, arith}
use onchain_exchange_homewor.OrderBook.Types.{Order, OrderBook}
use onchain_exchange_homewor.OrderBook.Orders.{remaining_size}
use onchain_exchange_homewor.OrderBook.Matching.{
  Run, order_at, execute_size, exchange, match_orders,
}
use onchain_exchange_homewor.OrderBook.Matching.Exchange.{
  HeapInRange, exchange-taker, exchange-others, exchange-volumes, exchange-range, exchange-book,
}
use onchain_exchange_homewor.OrderBook.Matching.Queue.{executions, total}
use onchain_exchange_homewor.OrderBook.Matching.Serve.{
  entries, Distinct, Avoids, is_filled-remaining, entries-exchange, taker-exchange,
}

-- The taker's order after it has been filled by `n` more: nothing else of its terms has changed.
pub record IsFilledBy (n : ℕ) (t t' : Order) : Type 0 where
  pub filled : t'.filled_size ≡ t.filled_size + n
  pub size : t'.size ≡ t.size
  pub price : t'.price ≡ t.price
  pub side : t'.side ≡ t.side
  pub id : t'.id ≡ t.id

-- The parts of the book that matching on a level leaves alone. The index, the trades with their
-- IDs, and the counters change.
pub record SameBook (ob ob' : OrderBook) : Type 0 where
  pub buy_levels : ob'.buy_levels ≡ ob.buy_levels
  pub sell_levels : ob'.sell_levels ≡ ob.sell_levels
  pub next_order_id : ob'.next_order_id ≡ ob.next_order_id
  pub best_bid_atomic : ob'.best_bid_atomic ≡ ob.best_bid_atomic
  pub best_ask_atomic : ob'.best_ask_atomic ≡ ob.best_ask_atomic
  pub buy_prices_sorted : ob'.buy_prices_sorted ≡ ob.buy_prices_sorted
  pub sell_prices_sorted : ob'.sell_prices_sorted ≡ ob.sell_prices_sorted
  pub prices_cache_dirty : ob'.prices_cache_dirty ≡ ob.prices_cache_dirty

-- What the loop has taken off the two volumes.
pub record VolumesDown (n : ℕ) (s s' : Run) : Type 0 where
  pub slot_volume : s'.slot_volume ≡ s.slot_volume - n
  pub total_volume : s'.total_volume ≡ s.total_volume - n

module _ (clock : ℕ → ℕ) (taker best_price : ℕ) where
  pub match_orders-range :
      (xs : List ℕ) (s : Run)
      → HeapInRange s.book.orders
      → HeapInRange (match_orders clock taker best_price xs s).1.book.orders
  unfolding match_orders
  match_orders-range [] s w r = w r
  match_orders-range (m ∷ xs) s w r = ground (
    arith,
    w r,
    match_orders-range xs (exchange clock taker best_price m s).1
        (exchange-range clock taker best_price m s w) r,
  )

  pub match_orders-taker :
      (xs : List ℕ) (s : Run)
      → HeapInRange s.book.orders
      → Avoids taker xs
      → Distinct xs
      → IsFilledBy
          (total (executions (remaining_size (order_at s taker)) (entries s.book.orders xs)))
          (order_at s taker)
          (order_at (match_orders clock taker best_price xs s).1 taker)
  unfolding match_orders executions execute_size
  match_orders-taker [] s w a d = ground arith
  match_orders-taker (m ∷ xs) s w a d =
      let ne : taker ≢ m = λ e. a.0 (sym e) in
      let s' = (exchange clock taker best_price m s).1 in
      ground (
        arith,
        is_filled-remaining (order_at s taker),
        exchange-taker clock taker best_price m s (w taker) ne,
        taker-exchange clock taker best_price m s w ne,
        entries-exchange clock taker best_price m s xs a.1 d.0,
        match_orders-taker xs s' (exchange-range clock taker best_price m s w) a.1 d.1,
      )

  pub match_orders-others :
      (xs : List ℕ) (s : Run) (r : ℕ)
      → r ≢ taker
      → Avoids r xs
      → order_at (match_orders clock taker best_price xs s).1 r ≡ order_at s r
  unfolding match_orders
  match_orders-others [] s r ne a = refl
  match_orders-others (m ∷ xs) s r ne a = ground (
    arith,
    exchange-others clock taker best_price m s r ne (λ e. a.0 (sym e)),
    match_orders-others xs (exchange clock taker best_price m s).1 r ne a.1,
  )

  pub match_orders-volumes :
      (xs : List ℕ) (s : Run)
      → HeapInRange s.book.orders
      → Avoids taker xs
      → Distinct xs
      → VolumesDown
          (total (executions (remaining_size (order_at s taker)) (entries s.book.orders xs)))
          s
          (match_orders clock taker best_price xs s).1
  unfolding match_orders executions execute_size
  match_orders-volumes [] s w a d = ground arith
  match_orders-volumes (m ∷ xs) s w a d =
      let ne : taker ≢ m = λ e. a.0 (sym e) in
      let s' = (exchange clock taker best_price m s).1 in
      ground (
        arith,
        is_filled-remaining (order_at s taker),
        exchange-volumes clock taker best_price m s,
        taker-exchange clock taker best_price m s w ne,
        entries-exchange clock taker best_price m s xs a.1 d.0,
        match_orders-volumes xs s' (exchange-range clock taker best_price m s w) a.1 d.1,
      )

  pub match_orders-book :
      (xs : List ℕ) (s : Run) → SameBook s.book (match_orders clock taker best_price xs s).1.book
  unfolding match_orders
  match_orders-book [] s = ground arith
  match_orders-book (m ∷ xs) s = ground (
    arith,
    exchange-book clock taker best_price m s,
    match_orders-book xs (exchange clock taker best_price m s).1,
  )

  -- The orders that stay are among those that were there.
  pub match_orders-Avoids :
      (xs : List ℕ) (s : Run) (r : ℕ)
      → Avoids r xs
      → Avoids r (match_orders clock taker best_price xs s).0
  unfolding match_orders
  match_orders-Avoids [] s r a = tt
  match_orders-Avoids (m ∷ xs) s r a =
      ground (arith, match_orders-Avoids xs (exchange clock taker best_price m s).1 r a.1)

  pub match_orders-Distinct :
      (xs : List ℕ) (s : Run) → Distinct xs → Distinct (match_orders clock taker best_price xs s).0
  unfolding match_orders
  match_orders-Distinct [] s d = tt
  match_orders-Distinct (m ∷ xs) s d =
      let s' = (exchange clock taker best_price m s).1 in
      ground (arith, match_orders-Distinct xs s' d.1, match_orders-Avoids xs s' m d.0)
