-- ===== src/OrderBook/Entry/Batch.antt =====
-- `AddLimitOrderBatch` sets the best prices only after the whole batch: where neither side has one
-- before, the orders of the batch are not matched with one another.
use onchain_exchange_homewor.Prelude.{
  ℕ, zero, suc, ◌+◌, ◌≡◌, refl, inl, inr, ap, ◌<◌, some, List, [], ◌∷◌, arith, length, Bool-cases,
  if◌then◌else◌,
}
use onchain_exchange_homewor.OrderBook.Types.{Side, buy, sell, Trade, OrderBook}
use onchain_exchange_homewor.OrderBook.Orders.{is_filled, levels_of, set_levels, opposite}
use onchain_exchange_homewor.OrderBook.Prices.{update_best_prices, rebuild_best_prices}
use onchain_exchange_homewor.OrderBook.Matching.{
  stop, best_opposite_price, can_match, match_round, match_rounds, resting, finish, try_match,
}
use onchain_exchange_homewor.OrderBook.Entry.{
  Request, next_id, open_order, enter_order, count_order, rest_in_batch, add_batch,
  add_limit_order_batch,
}

-- Neither side has a best price, and these are the trades.
record IsQuiet (ts : List Trade) (ob : OrderBook) : Type 0 where
  no_bid : ob.best_bid_atomic ≡ 0
  no_ask : ob.best_ask_atomic ≡ 0
  trades : ob.trades ≡ ts

module _ (clock : ℕ → ℕ) (ts : List Trade) where
  match_round-quiet :
      (taker : ℕ) (ob : OrderBook) → IsQuiet ts ob → match_round clock taker ob ≡ stop ob
  unfolding match_round can_match best_opposite_price
  match_round-quiet taker ob q = at_side (ob.orders taker).side refl
    where
      at_side : (side : Side) → (ob.orders taker).side ≡ side → match_round clock taker ob ≡ stop ob
      at_side buy e = ground (arith, q)
      at_side sell e = ground (arith, q)

  match_rounds-quiet :
      (fuel taker : ℕ) (ob : OrderBook)
      → 0 < fuel
      → IsQuiet ts ob
      → match_rounds clock taker fuel ob ≡ some ob
  unfolding match_rounds
  match_rounds-quiet zero taker ob h q = absurd (omega arith)
  match_rounds-quiet (suc fuel) taker ob h q = elim (Bool-cases (is_filled (ob.orders taker))) [
    | inl f ↦ rw (f, match_rounds)
    | inr f ↦ rw (f, match_round-quiet taker ob q, match_rounds)
  ]

  try_match-quiet :
      (taker : ℕ) (ob : OrderBook)
      → IsQuiet ts ob
      → try_match clock taker ob ≡ some (finish taker ob)
  unfolding try_match
  try_match-quiet taker ob q = rw (
    match_rounds-quiet (resting (levels_of (opposite (ob.orders taker).side) ob) + 1) taker ob
        (omega arith) q,
    try_match,
  )

  -- What a batch does with an order that was not matched.
  after_quiet : ℕ → OrderBook → OrderBook
  after_quiet r ob =
      let ob' = finish r ob in
      count_order (if is_filled (ob'.orders r) then ob' else rest_in_batch r ob')

  finish-IsQuiet : (r : ℕ) (ob : OrderBook) → IsQuiet ts ob → IsQuiet ts (finish r ob)
  unfolding finish
  finish-IsQuiet r ob q = ground arith

  rest_in_batch-IsQuiet : (r : ℕ) (ob : OrderBook) → IsQuiet ts ob → IsQuiet ts (rest_in_batch r ob)
  unfolding rest_in_batch enter_order set_levels
  rest_in_batch-IsQuiet r ob q = ground arith

  after-IsQuiet : (r : ℕ) (ob : OrderBook) → IsQuiet ts ob → IsQuiet ts (after_quiet r ob)
  unfolding after_quiet count_order
  after-IsQuiet r ob q =
      let q' = finish-IsQuiet r ob q in ground (arith, q', rest_in_batch-IsQuiet r (finish r ob) q')

  open_order-IsQuiet :
      (req : Request) (ob : OrderBook) → IsQuiet ts ob → IsQuiet ts (open_order req ob)
  unfolding open_order
  open_order-IsQuiet req ob q = ground arith

  add_batch-IsQuiet :
      (reqs : List Request) (ob : OrderBook)
      → IsQuiet ts ob
      → (ob' : OrderBook) × (rs : List ℕ) × (add_batch clock reqs ob ≡ some (ob', rs))
        × IsQuiet ts ob'
        × (length rs ≡ length reqs)
  unfolding add_batch after_quiet
  add_batch-IsQuiet [] ob q = (ob, [], refl, q, refl)
  add_batch-IsQuiet (req ∷ reqs) ob q =
      let r = next_id ob in
      let q' = open_order-IsQuiet req ob q in
      let (ob', rs, e, q'', n) =
        add_batch-IsQuiet reqs (after_quiet r (open_order req ob))
          (after-IsQuiet r (open_order req ob) q') in
      (ob', r ∷ rs, rw (try_match-quiet r (open_order req ob) q', add_batch, e), q'', ap suc n)

-- A batch into a book with no best price on either side trades nothing, whatever limits cross
-- within it: it returns an ID for each request, and the history is as it was.
pub add_limit_order_batch-no_trades :
    (clock : ℕ → ℕ) (reqs : List Request) (ob : OrderBook)
    → ob.best_bid_atomic ≡ 0
    → ob.best_ask_atomic ≡ 0
    → (ob' : OrderBook) × (rs : List ℕ) × (add_limit_order_batch clock reqs ob ≡ some (ob', rs))
      × (ob'.trades ≡ ob.trades)
      × (length rs ≡ length reqs)
unfolding add_limit_order_batch update_best_prices rebuild_best_prices
add_limit_order_batch-no_trades clock reqs ob b a =
    let (ob', rs, e, q, n) =
      add_batch-IsQuiet clock ob.trades reqs ob
        (record { no_bid = b; no_ask = a; trades = refl }) in
    (update_best_prices ob', rs, rw (e, add_limit_order_batch), ground (arith, q), n)
