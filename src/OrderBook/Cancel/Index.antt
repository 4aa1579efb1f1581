-- ===== src/OrderBook/Cancel/Index.antt =====
-- Cancellation and the index: `CancelOrder` removes its ID and no other, `CancelAllByTrader`
-- removes the orders of its trader and no other.
use mathlib.Core.Path.{subst}
use onchain_exchange_homewor.Prelude.{
  ℕ, ◌≡◌, ◌≢◌, refl, ◌∙◌, ◌⊎◌, inl, inr, Bool, true, false, none, some, List, [], ◌∷◌, arith, Map,
  keys, lookup, erase, lookup-erase, ◌==◌, if◌then◌else◌, Option-cases, Bool-cases, All,
}
use onchain_exchange_homewor.OrderBook.Types.{Side, Order, PriceLevel, OrderBook}
use onchain_exchange_homewor.OrderBook.Orders.{levels_of, set_levels, put_order_to_pool}
use onchain_exchange_homewor.OrderBook.Prices.{update_best_prices, rebuild_best_prices}
use onchain_exchange_homewor.OrderBook.Matching.Serve.{Distinct}
use onchain_exchange_homewor.OrderBook.Cancel.{
  remove_from_level, drop_order, store_level, count_cancel, count_operation, cancel_order,
  ids_of_trader, cancel_all, cancel_all_by_trader,
}

abbrev pub is_known : ℕ → OrderBook → Bool
is_known id ob = elim (lookup id ob.order_index) [ none ↦ false | some _ ↦ true ]

store_level-index :
    (side : Side) (price : ℕ) (level : PriceLevel) (ob : OrderBook)
    → (store_level side price level ob).order_index ≡ ob.order_index
unfolding store_level set_levels update_best_prices rebuild_best_prices
store_level-index side price level ob = ground arith

erase_absent :
    {V : Type 0} (k j : ℕ) (m : Map V)
    → lookup k m ≡ none
    → lookup j m ≡ (if k == j then none else lookup j m)
erase_absent k j m h = elim (Bool-cases (k == j)) [
  | inl e ↦ rw e (let same : k ≡ j = ground arith in rw (← same) h)
  | inr e ↦ rw e
]

cancel_order-known : (id : ℕ) (ob : OrderBook) → (cancel_order id ob).1 ≡ is_known id ob
unfolding cancel_order
cancel_order-known id ob = ground arith

cancel_order-erase :
    (id r : ℕ) (ob : OrderBook)
    → lookup id ob.order_index ≡ some r
    → (cancel_order id ob).0.order_index ≡ erase id ob.order_index
unfolding cancel_order count_cancel count_operation drop_order put_order_to_pool
cancel_order-erase id r ob e =
    let o = ob.orders r in
    elim (Option-cases (lookup o.price (levels_of o.side ob))) [
      | inl f ↦ rw (e, f, cancel_order)
      | inr (level, f) ↦ rw (
        e,
        f,
        cancel_order,
        store_level-index o.side o.price (remove_from_level ob.orders id o level)
            (drop_order id r ob),
      )
    ]

cancel_order-absent :
    (id : ℕ) (ob : OrderBook) → lookup id ob.order_index ≡ none → (cancel_order id ob).0 ≡ ob
unfolding cancel_order
cancel_order-absent id ob e = rw (e, cancel_order)

-- `CancelOrder` succeeds exactly where the index knows the ID. Afterwards the index does not know
-- it, and knows every other ID as before.
pub cancel_order-index :
    (id j : ℕ) (ob : OrderBook)
    → ((cancel_order id ob).1 ≡ is_known id ob)
      × (lookup j (cancel_order id ob).0.order_index
          ≡ (if id == j then none else lookup j ob.order_index))
cancel_order-index id j ob = elim (Option-cases (lookup id ob.order_index)) [
  | inl e ↦ (
    cancel_order-known id ob,
    rw (cancel_order-absent id ob e) (erase_absent id j ob.order_index e),
  )
  | inr (r, e) ↦ (
    cancel_order-known id ob,
    rw (cancel_order-erase id r ob e) (lookup-erase id j ob.order_index),
  )
]

-- The orders left alone by a loop of cancellations.
cancel_all-index :
    (ids : List ℕ) (j : ℕ) (ob : OrderBook)
    → (All (λ i. i ≢ j) ids → lookup j (cancel_all ids ob).0.order_index ≡ lookup j ob.order_index)
      × (lookup j ob.order_index ≡ none → lookup j (cancel_all ids ob).0.order_index ≡ none)
unfolding cancel_all
cancel_all-index [] j ob = (λ h. refl, λ h. h)
cancel_all-index (i ∷ ids) j ob =
    let ob' = (cancel_order i ob).0 in
    let (same, stay) = cancel_all-index ids j ob' in
    let step = (cancel_order-index i j ob).1 in
    (λ h. same h.1 ∙ step ∙ ground arith, λ h. stay (step ∙ ground arith))

cancel_all-cases :
    (ids : List ℕ) (j : ℕ) (ob : OrderBook)
    → All (λ i. i ≢ j) ids ⊎ (lookup j (cancel_all ids ob).0.order_index ≡ none)
unfolding cancel_all
cancel_all-cases [] j ob = inl tt
cancel_all-cases (i ∷ ids) j ob =
    let ob' = (cancel_order i ob).0 in
    let step = (cancel_order-index i j ob).1 in
    elim (Bool-cases (i == j)) [
      | inl e ↦ inr ((cancel_all-index ids j ob').1 (step ∙ rw e))
      | inr e ↦ elim (cancel_all-cases ids j ob') [
        | inl apart ↦ inl (ground arith, apart)
        | inr gone ↦ inr gone
      ]
    ]

module _ (trader_id : ℕ) (h : ℕ → Order) where
  ids_of_trader-has :
      (j r : ℕ) (m : Map ℕ)
      → lookup j m ≡ some r
      → (h r).trader_id ≡ trader_id
      → ¬ All (λ i. i ≢ j) (ids_of_trader trader_id h m)
  unfolding ids_of_trader
  ids_of_trader-has j r [] e t a = cc
  ids_of_trader-has j r ((i, q) ∷ m) e t a = ground (arith, ids_of_trader-has j r m, a)

  -- The IDs of a trader are among the keys.
  ids_of_trader-All :
      (j : ℕ) (m : Map ℕ)
      → All (λ i. i ≢ j) (keys m)
      → All (λ i. i ≢ j) (ids_of_trader trader_id h m)
  unfolding ids_of_trader
  ids_of_trader-All j [] a = tt
  ids_of_trader-All j ((i, q) ∷ m) a = ground (arith, ids_of_trader-All j m a.1)

  ids_of_trader-apart :
      (j r : ℕ) (m : Map ℕ)
      → lookup j m ≡ some r
      → (h r).trader_id ≢ trader_id
      → Distinct (keys m)
      → All (λ i. i ≢ j) (ids_of_trader trader_id h m)
  unfolding ids_of_trader
  ids_of_trader-apart j r [] e t d = cc
  ids_of_trader-apart j r ((i, q) ∷ m) e t d = elim (Bool-cases (i == j)) [
    | inl f ↦
        let same : i ≡ j = ground arith in
        ground (arith, ids_of_trader-All j m (subst (λ k. All (λ x. x ≢ k) (keys m)) same d.0))
    | inr f ↦ ground (arith, ids_of_trader-apart j r m (rw f at e) t d.1)
  ]

-- `CancelAllByTrader` takes every order of the trader out of the index, and no order of another,
-- where the index holds no ID twice.
pub cancel_all_by_trader-index :
    (trader_id id r : ℕ) (ob : OrderBook)
    → Distinct (keys ob.order_index)
    → lookup id ob.order_index ≡ some r
    → let index = (cancel_all_by_trader trader_id ob).0.order_index in
      lookup id index ≡ (if (ob.orders r).trader_id == trader_id then none else some r)
unfolding cancel_all_by_trader
cancel_all_by_trader-index trader_id id r ob d e =
    let ids = ids_of_trader trader_id ob.orders ob.order_index in
    elim (Bool-cases ((ob.orders r).trader_id == trader_id)) [
      | inl t ↦ rw t (elim (cancel_all-cases ids id ob) [
        | inl apart ↦
            absurd
              (ids_of_trader-has trader_id ob.orders id r ob.order_index e (ground arith) apart)
        | inr gone ↦ gone
      ])
      | inr t ↦ rw t (
          (cancel_all-index ids id ob).0
            (ids_of_trader-apart trader_id ob.orders id r ob.order_index e (ground arith) d)
          ∙ e)
    ]
