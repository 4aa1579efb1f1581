-- ===== src/OrderBook/Entry/Unmatched.antt =====
-- After the best ask level was deleted on the fast path of `updateBestPrices`, orders to buy are not
-- matched, as the cached best ask has no level any more.
use mathlib.Core.Path.{subst₂}
use onchain_exchange_homewor.Prelude.{
  ℕ, zero, suc, ◌+◌, ◌<◌, ◌≡◌, refl, sym, ap, ◌∙◌, inl, inr, Bool-cases, true, false, Option, none,
  some, List, [], ◌∷◌, Map, arith, lookup, erase, lookup-erase, if◌then◌else◌,
}
use onchain_exchange_homewor.OrderBook.Types.{buy, Trade, PriceLevel, OrderBook}
use onchain_exchange_homewor.OrderBook.Orders.{is_filled, levels_of, set_levels, opposite}
use onchain_exchange_homewor.OrderBook.Prices.{has_valid_cache}
use onchain_exchange_homewor.OrderBook.Matching.{
  best_opposite_price, match_rounds, resting, finish, try_match,
}
use onchain_exchange_homewor.OrderBook.Matching.Stale.{
  without_ask, without_ask-best, match_round-no_level,
}
use onchain_exchange_homewor.OrderBook.Entry.{
  Request, next_id, make_order, open_order, raise_best, enter_order, count_order, rest_order,
  add_limit_order, execute_market_order,
}

-- An order to buy.
pub record Bid : Type 0 where
  pub trader_id : ℕ
  pub price : ℕ
  pub size : ℕ

abbrev pub request : Bid → Request
request b = record { trader_id = b.trader_id; price = b.price; size = b.size; side = buy }

-- Orders to buy, added one after the other by `AddLimitOrder`.
abbrev pub add_bids : (ℕ → ℕ) → List Bid → OrderBook → Option OrderBook
add_bids clock [] ob = some ob
add_bids clock (b ∷ bs) ob = elim (add_limit_order clock (request b) ob) [
  | none ↦ none
  | some (ob', _) ↦ add_bids clock bs ob'
]

-- The best ask has no level; these are the asks and the trades.
record IsStale (p : ℕ) (levels : Map PriceLevel) (ts : List Trade) (ob : OrderBook) : Type 0 where
  best : ob.best_ask_atomic ≡ p
  asks : ob.sell_levels ≡ levels
  trades : ob.trades ≡ ts

module _ (clock : ℕ → ℕ) (p : ℕ) (asks : Map PriceLevel) (ts : List Trade)
    (gone : lookup p asks ≡ none) where
  no_level :
      (ob : OrderBook)
      → IsStale p asks ts ob
      → lookup (best_opposite_price buy ob) (levels_of (opposite buy) ob) ≡ none
  unfolding best_opposite_price levels_of
  no_level ob s = subst₂ (λ q m. lookup q m ≡ none) (sym s.best) (sym s.asks) gone

  match_rounds-IsStale :
      (fuel taker : ℕ) (ob : OrderBook)
      → 0 < fuel
      → (ob.orders taker).side ≡ buy
      → IsStale p asks ts ob
      → match_rounds clock taker fuel ob ≡ some ob
  unfolding match_rounds
  match_rounds-IsStale zero taker ob h side s = absurd (omega arith)
  match_rounds-IsStale (suc fuel) taker ob h side s =
      elim (Bool-cases (is_filled (ob.orders taker))) [
        | inl f ↦ rw (f, match_rounds)
        | inr f ↦ rw (f, match_round-no_level clock taker buy ob side (no_level ob s), match_rounds)
      ]

  try_match-IsStale :
      (taker : ℕ) (ob : OrderBook)
      → (ob.orders taker).side ≡ buy
      → IsStale p asks ts ob
      → try_match clock taker ob ≡ some (finish taker ob)
  unfolding try_match
  try_match-IsStale taker ob side s = rw (
    match_rounds-IsStale (resting (levels_of (opposite (ob.orders taker).side) ob) + 1) taker ob
        (omega arith) side s,
    try_match,
  )

  finish-IsStale : (r : ℕ) (ob : OrderBook) → IsStale p asks ts ob → IsStale p asks ts (finish r ob)
  unfolding finish
  finish-IsStale r ob s = ground arith

  rest_order-IsStale :
      (r : ℕ) (ob : OrderBook)
      → (ob.orders r).side ≡ buy
      → IsStale p asks ts ob
      → IsStale p asks ts (rest_order r ob)
  unfolding rest_order enter_order set_levels raise_best
  rest_order-IsStale r ob side s = rw (side, rest_order) (ground (arith, s))

  opened :
      (b : Bid) (ob : OrderBook)
      → IsStale p asks ts ob
      → IsStale p asks ts (open_order (request b) ob)
        × (((open_order (request b) ob).orders (next_id ob)).side ≡ buy)
  unfolding open_order make_order
  opened b ob s = (ground arith, ground arith)

  finish-orders : (r : ℕ) (ob : OrderBook) → (finish r ob).orders ≡ ob.orders
  unfolding finish
  finish-orders r ob = ground arith

  count_order-IsStale : (ob : OrderBook) → IsStale p asks ts ob → IsStale p asks ts (count_order ob)
  unfolding count_order
  count_order-IsStale ob s = record { best = s.best; asks = s.asks; trades = s.trades }

  after_bid : ℕ → OrderBook → OrderBook
  after_bid r ob =
      let ob' = finish r ob in
      count_order (if is_filled (ob'.orders r) then ob' else rest_order r ob')

  after_bid-IsStale :
      (r : ℕ) (ob : OrderBook)
      → (ob.orders r).side ≡ buy
      → IsStale p asks ts ob
      → IsStale p asks ts (after_bid r ob)
  unfolding after_bid
  after_bid-IsStale r ob side s =
      let s' = finish-IsStale r ob s in
      let side' = ap (λ h. (h r).side) (finish-orders r ob) ∙ side in
      elim (Bool-cases (is_filled ((finish r ob).orders r))) [
        | inl f ↦ rw f (count_order-IsStale (finish r ob) s')
        | inr f ↦ rw f (count_order-IsStale _ (rest_order-IsStale r (finish r ob) side' s'))
      ]

  add_limit_order-IsStale :
      (b : Bid) (ob : OrderBook)
      → IsStale p asks ts ob
      → (ob' : OrderBook) × (add_limit_order clock (request b) ob ≡ some (ob', next_id ob))
        × IsStale p asks ts ob'
  unfolding add_limit_order after_bid
  add_limit_order-IsStale b ob s =
      let r = next_id ob in
      let (s', side) = opened b ob s in
      (
        after_bid r (open_order (request b) ob),
        rw (try_match-IsStale r (open_order (request b) ob) side s', add_limit_order),
        after_bid-IsStale r (open_order (request b) ob) side s',
      )

  add_bids-IsStale :
      (bs : List Bid) (ob : OrderBook)
      → IsStale p asks ts ob
      → (ob' : OrderBook) × (add_bids clock bs ob ≡ some ob') × IsStale p asks ts ob'
  add_bids-IsStale [] ob s = (ob, refl, s)
  add_bids-IsStale (b ∷ bs) ob s =
      let (next, added, s') = add_limit_order-IsStale b ob s in
      let (last, rest, s'') = add_bids-IsStale bs next s' in
      (
        last,
        ap (λ (o : Option (OrderBook × ℕ)). elim o [ none ↦ none | some r ↦ add_bids clock bs r.0 ])
              added
            ∙ rest,
        s'',
      )

  execute_market_order-IsStale :
      (trader_id size : ℕ) (ob : OrderBook)
      → IsStale p asks ts ob
      → execute_market_order clock trader_id size buy ob ≡ some (ob, false)
  unfolding execute_market_order
  execute_market_order-IsStale trader_id size ob s =
      rw (no_level ob s, execute_market_order) (ground arith)

-- With a valid cache whose best ask is `p`, the level `p` is deleted. Then orders to buy that
-- `AddLimitOrder` adds one after the other, as many as there are and whatever their limits, trade
-- nothing: the asks at other prices stay as they were and the best ask stays `p`; and after them an
-- `ExecuteMarketOrder` to buy fails and changes nothing.
pub without_ask-add_bids :
    (clock : ℕ → ℕ) (p : ℕ) (ps : List ℕ) (bids : List Bid) (trader_id size : ℕ) (ob : OrderBook)
    → has_valid_cache ob ≡ true
    → ob.sell_prices_sorted ≡ p ∷ ps
    → (last : OrderBook) × (add_bids clock bids (without_ask p ob) ≡ some last)
      × (last.trades ≡ ob.trades)
      × (last.sell_levels ≡ erase p ob.sell_levels)
      × (last.best_ask_atomic ≡ p)
      × (execute_market_order clock trader_id size buy last ≡ some (last, false))
without_ask-add_bids clock p ps bids trader_id size ob valid e =
    let asks = erase p ob.sell_levels in
    let (best, levels, trades) = without_ask-best p ps ob valid e in
    let gone : lookup p asks ≡ none = rw lookup-erase (ground arith) in
    let (last, added, s) =
      add_bids-IsStale clock p asks ob.trades gone bids (without_ask p ob)
        (record { best = best; asks = levels; trades = trades }) in
    (
      last,
      added,
      s.trades,
      s.asks,
      s.best,
      execute_market_order-IsStale clock p asks ob.trades gone trader_id size last s,
    )
