-- ===== src/OrderBook/Entry/Limit.antt =====
-- `AddLimitOrder`: it ends, its trades are fair, and what is not filled is in the index.
use mathlib.Core.Path.{subst}
use onchain_exchange_homewor.Prelude.{
  ℕ, ◌<◌, ◌≡◌, refl, ◌∙◌, ◌⊎◌, inl, inr, Bool, true, false, some, arith, u64_mod, Bool-cases,
  if◌then◌else◌, lookup, lookup-insert,
}
use onchain_exchange_homewor.OrderBook.Types.{Side, buy, sell, OrderBook}
use onchain_exchange_homewor.OrderBook.Orders.{is_filled, levels_of, set_levels, opposite}
use onchain_exchange_homewor.OrderBook.Matching.Exchange.{HeapInRange}
use onchain_exchange_homewor.OrderBook.Matching.Visit.{AllReady}
use onchain_exchange_homewor.OrderBook.Matching.Fair.{Matched}
use onchain_exchange_homewor.OrderBook.Matching.Rounds.{try_match-Matched}
use onchain_exchange_homewor.OrderBook.Entry.{
  Request, make_order, next_id, open_order, has_level, raise_best, enter_order, count_order,
  rest_order, add_limit_order,
}

module _ (req : Request) (ob : OrderBook) where
  open_order-taker :
      let o = (open_order req ob).orders (next_id ob) in
      (o.id ≡ next_id ob)
      × (o.side ≡ req.side)
      × (o.price ≡ req.price)
      × (o.size ≡ req.size)
      × (o.filled_size ≡ 0)
  unfolding open_order make_order
  open_order-taker = ground arith

  pub open_order-range :
      HeapInRange ob.orders → req.size < u64_mod → HeapInRange (open_order req ob).orders
  unfolding open_order make_order
  open_order-range w h r = ground (arith, w r)

  pub open_order-levels : (side : Side) → levels_of side (open_order req ob) ≡ levels_of side ob
  unfolding open_order levels_of
  open_order-levels buy = refl
  open_order-levels sell = refl

-- Resting an order changes no order and no trade.
rest_order-same :
    (r : ℕ) (ob : OrderBook)
    → ((rest_order r ob).orders ≡ ob.orders) × ((rest_order r ob).trades ≡ ob.trades)
unfolding rest_order enter_order raise_best set_levels
rest_order-same r ob = ground arith

enter_order-index :
    (r : ℕ) (ob : OrderBook) → lookup (ob.orders r).id (enter_order r ob).order_index ≡ some r
unfolding enter_order
enter_order-index r ob = rw lookup-insert (ground arith)

raise_best-orders :
    (side : Side) (p : ℕ) (ob : OrderBook) → (raise_best side p ob).orders ≡ ob.orders
unfolding raise_best
raise_best-orders buy p ob = ground arith
raise_best-orders sell p ob = ground arith

rest_order-index :
    (r : ℕ) (ob : OrderBook) → lookup (ob.orders r).id (rest_order r ob).order_index ≡ some r
unfolding rest_order
rest_order-index r ob =
    let o = ob.orders r in
    let ob' = if has_level o.side o.price ob then ob else raise_best o.side o.price ob in
    subst (λ h. lookup (h r).id (enter_order r ob').order_index ≡ some r) same
      (enter_order-index r ob')
  where
    pick :
        (b : Bool) (ob₁ : OrderBook)
        → ob₁.orders ≡ ob.orders
        → (if b then ob else ob₁).orders ≡ ob.orders
    pick true ob₁ e = refl
    pick false ob₁ e = e

    same :
        let o = ob.orders r in
        (if has_level o.side o.price ob then ob else raise_best o.side o.price ob).orders
        ≡ ob.orders
    same =
        let o = ob.orders r in
        pick (has_level o.side o.price ob) (raise_best o.side o.price ob)
          (raise_best-orders o.side o.price ob)

-- What `AddLimitOrder` promises of the book that it returns: the new order was matched fairly, and
-- if it is not filled, the index holds it.
pub record Added (req : Request) (ob ob' : OrderBook) : Type 0 where
  pub matched : Matched (next_id ob) (open_order req ob) ob'
  pub indexed :
      (is_filled (ob'.orders (next_id ob)) ≡ true)
      ⊎ (lookup (next_id ob) ob'.order_index ≡ some (next_id ob))

module _ (clock : ℕ → ℕ) (req : Request) (ob : OrderBook) where
  -- The end of `AddLimitOrder`, after matching.
  settle-Added :
      (ob₁ : OrderBook)
      → Matched (next_id ob) (open_order req ob) ob₁
      → Added req ob (
          count_order
            (if is_filled (ob₁.orders (next_id ob)) then ob₁ else rest_order (next_id ob) ob₁))
  unfolding count_order
  settle-Added ob₁ m =
      let r = next_id ob in
      let id : (ob₁.orders r).id ≡ r = m.filled.id ∙ (open_order-taker req ob).0 in
      elim (Bool-cases (is_filled (ob₁.orders r))) [
        | inl f ↦ rw f (record {
          matched = record { new = m.new; history = m.history; fair = m.fair; filled = m.filled };
          indexed = inl f;
        })
        | inr f ↦
            let (orders, trades) = rest_order-same r ob₁ in
            rw f (record {
              matched = record {
                new = m.new;
                history = rw trades m.history;
                fair = m.fair;
                filled = rw orders m.filled;
              };
              indexed = inr (
                  subst (λ i. lookup i (rest_order r ob₁).order_index ≡ some r) id
                    (rest_order-index r ob₁));
            })
      ]

  -- `AddLimitOrder` returns, with the next ID, if all fields fit 64 bits and no level of the other
  -- side holds an order twice or the new ID. Every new trade is the new order's and within its
  -- limit, its filled size is the sum of the new trades, and unless it is filled it is in the index.
  pub add_limit_order-Added :
      HeapInRange ob.orders
      → req.size < u64_mod
      → AllReady (next_id ob) (levels_of (opposite req.side) ob)
      → (ob' : OrderBook) × (add_limit_order clock req ob ≡ some (ob', next_id ob))
        × Added req ob ob'
  unfolding add_limit_order
  add_limit_order-Added w h ready =
      let side = (open_order-taker req ob).1 in
      let (ob₁, e, m) =
        try_match-Matched clock (next_id ob) (open_order req ob) (open_order-range req ob w h)
          (rw (side, open_order-levels) ready) in
      (
        count_order
            (if is_filled (ob₁.orders (next_id ob)) then ob₁ else rest_order (next_id ob) ob₁),
        rw (e, add_limit_order),
        settle-Added ob₁ m,
      )
