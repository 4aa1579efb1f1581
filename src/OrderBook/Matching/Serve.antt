-- ===== src/OrderBook/Matching/Serve.antt =====
-- The loop over the orders of a slot serves them as the reference queue does.
use onchain_exchange_homewor.Prelude.{
  ℕ, ◌-◌, ◌≡◌, ◌≢◌, refl, sym, true, List, [], ◌∷◌, ◌++◌, arith, ◌==◌, map, All,
}
use mathlib.Core.List.{append-nil, append_assoc, map-append}
use onchain_exchange_homewor.OrderBook.Types.{Order, Trade}
use onchain_exchange_homewor.OrderBook.Orders.{remaining_size, is_filled}
use onchain_exchange_homewor.OrderBook.Matching.{
  Run, order_at, execute_size, exchange, match_orders,
}
use onchain_exchange_homewor.OrderBook.Matching.Exchange.{
  HeapInRange, size_traded, exchange-removed, exchange-taker, exchange-others, exchange-kept,
  exchange-trades, exchange-range,
}
use onchain_exchange_homewor.OrderBook.Matching.Queue.{Entries, executions, leftovers}

-- The entries of the orders at some places.
abbrev pub entries : (ℕ → Order) → List ℕ → Entries
entries h = map (λ r. ((h r).id, remaining_size (h r)))

-- No place twice, and none is `t`.
abbrev pub Distinct : List ℕ → Type 0
Distinct [] = Unit
Distinct (x ∷ xs) = All (λ y. y ≢ x) xs × Distinct xs

abbrev pub Avoids : ℕ → List ℕ → Type 0
Avoids t = All (λ y. y ≢ t)

-- What the history says of a trade.
abbrev pub Deal : Type 0
Deal = ℕ × ℕ × ℕ × ℕ

abbrev pub deals : List Trade → List Deal
deals = map (λ t. (t.taker_order_id, t.price, t.maker_order_id, t.size))

-- The trades of a taker at a price, as the reference has them.
abbrev pub deals_at : ℕ → ℕ → Entries → List Deal
deals_at taker_id price = map (λ e. (taker_id, price, e.0, e.1))

pub is_filled-remaining : (o : Order) → is_filled o ≡ (remaining_size o == 0)
unfolding is_filled remaining_size
is_filled-remaining o = ground arith

module _ (clock : ℕ → ℕ) (taker best_price : ℕ) where
  pub entries-exchange :
      (m : ℕ) (s : Run) (xs : List ℕ)
      → Avoids taker xs
      → Avoids m xs
      → entries (exchange clock taker best_price m s).1.book.orders xs ≡ entries s.book.orders xs
  entries-exchange m s [] a b = refl
  entries-exchange m s (x ∷ xs) a b =
      let e = exchange-others clock taker best_price m s x a.0 b.0 in
      let ih = entries-exchange m s xs a.1 b.1 in cc

  pub taker-exchange :
      (m : ℕ) (s : Run)
      → HeapInRange s.book.orders
      → taker ≢ m
      → remaining_size (order_at (exchange clock taker best_price m s).1 taker)
        ≡ remaining_size (order_at s taker) - size_traded taker m s
  unfolding remaining_size
  taker-exchange m s w ne = ground (arith, exchange-taker clock taker best_price m s (w taker) ne)

  deals-exchange :
      (m : ℕ) (s : Run)
      → deals (exchange clock taker best_price m s).1.book.trades
        ≡ deals s.book.trades
          ++ (((order_at s taker).id, best_price, (order_at s m).id, size_traded taker m s) ∷ [])
  deals-exchange m s =
      let (added, size, price, id, id') = exchange-trades clock taker best_price m s in
      rw (added, map-append, size, price, id, id')

  pub match_orders-filled :
      (xs : List ℕ) (s : Run)
      → is_filled (order_at s taker) ≡ true
      → match_orders clock taker best_price xs s ≡ (xs, s)
  unfolding match_orders
  match_orders-filled [] s h = refl
  match_orders-filled (m ∷ xs) s h = rw (h, match_orders)

  -- The orders that stay, and what they have left.
  pub match_orders-leftovers :
      (xs : List ℕ) (s : Run)
      → HeapInRange s.book.orders
      → Avoids taker xs
      → Distinct xs
      → let (kept, s') = match_orders clock taker best_price xs s in
        entries s'.book.orders kept
        ≡ leftovers (remaining_size (order_at s taker)) (entries s.book.orders xs)
  unfolding leftovers match_orders execute_size
  match_orders-leftovers [] s w a d = refl
  match_orders-leftovers (m ∷ xs) s w a d =
      let ne : taker ≢ m = λ e. a.0 (sym e) in
      let s' = (exchange clock taker best_price m s).1 in
      ground (
        arith,
        is_filled-remaining (order_at s taker),
        exchange-removed clock taker best_price m s (w m) ne,
        exchange-kept clock taker best_price m s (w taker) (w m) ne,
        taker-exchange m s w ne,
        entries-exchange m s xs a.1 d.0,
        match_orders-filled xs s',
        match_orders-leftovers xs s' (exchange-range clock taker best_price m s w) a.1 d.1,
      )

  -- The trades that are added to the history.
  pub match_orders-executions :
      (xs : List ℕ) (s : Run)
      → HeapInRange s.book.orders
      → Avoids taker xs
      → Distinct xs
      → deals (match_orders clock taker best_price xs s).1.book.trades
        ≡ deals s.book.trades
          ++ deals_at
              (order_at s taker).id
              best_price
              (executions (remaining_size (order_at s taker)) (entries s.book.orders xs))
  unfolding executions match_orders execute_size
  match_orders-executions [] s w a d = sym (append-nil _)
  match_orders-executions (m ∷ xs) s w a d =
      let ne : taker ≢ m = λ e. a.0 (sym e) in
      let s' = (exchange clock taker best_price m s).1 in
      let t = order_at s taker in
      let n = size_traded taker m s in
      ground (
        arith,
        is_filled-remaining t,
        deals-exchange m s,
        exchange-taker clock taker best_price m s (w taker) ne,
        taker-exchange m s w ne,
        entries-exchange m s xs a.1 d.0,
        append-nil (deals s.book.trades),
        append_assoc (deals s.book.trades) ((t.id, best_price, (order_at s m).id, n) ∷ []) (
            deals_at t.id best_price
              (executions (remaining_size t - n) (entries s.book.orders xs))),
        match_orders-executions xs s' (exchange-range clock taker best_price m s w) a.1 d.1,
      )
