-- ===== src/OrderBook/Matching/Rounds.antt =====
-- The rounds of the matching loop: the fuel of `try_match` is enough, and the result is fair.
use mathlib.Core.Path.{subst}
use onchain_exchange_homewor.Prelude.{
  ℕ, zero, suc, ◌+◌, ◌<◌, ◌≡◌, sym, ap, ◌∙◌, ◌⊎◌, inl, inr, true, some, arith, Bool-cases,
  Option-cases, lookup,
}
use onchain_exchange_homewor.OrderBook.Types.{Side, PriceLevel, OrderBook}
use onchain_exchange_homewor.OrderBook.Orders.{remaining_size, is_filled, levels_of, opposite}
use onchain_exchange_homewor.OrderBook.Matching.{
  stop, again, match_level, best_opposite_price, can_match, after_level, match_round, match_rounds,
  resting, finish, try_match,
}
use onchain_exchange_homewor.OrderBook.Matching.Exchange.{HeapInRange}
use onchain_exchange_homewor.OrderBook.Matching.Queue.{executions}
use onchain_exchange_homewor.OrderBook.Matching.Serve.{entries, deals, deals_at}
use onchain_exchange_homewor.OrderBook.Matching.Slots.{queue}
use onchain_exchange_homewor.OrderBook.Matching.Visit.{
  AllReady, close_level-orders, close_level-trades, visit-Serves, after, after-ready, after-fewer,
  was_resting,
}
use onchain_exchange_homewor.OrderBook.Matching.Fair.{
  Matched, Matched-refl, Matched-trans, moved-deals_at, All-deals_at, can_match-WithinLimit,
}

-- What a round that goes on leaves for the next one, on the side that the taker is matched with.
record Progress (taker : ℕ) (side : Side) (ob ob' : OrderBook) : Type 0 where
  range : HeapInRange ob'.orders
  ready : AllReady taker (levels_of side ob')
  some_resting : 0 < resting (levels_of side ob)
  fewer :
      (is_filled (ob'.orders taker) ≡ true)
      ⊎ (resting (levels_of side ob') < resting (levels_of side ob))

module _ (clock : ℕ → ℕ) (taker : ℕ) where
  -- The side that the taker is matched with, and its best price.
  abbrev other_side : OrderBook → Side
  other_side ob = opposite (ob.orders taker).side

  abbrev best_price : OrderBook → ℕ
  best_price ob = best_opposite_price (ob.orders taker).side ob

  module _ (ob : OrderBook) (level : PriceLevel) (w : HeapInRange ob.orders)
      (ready : AllReady taker (levels_of (other_side ob) ob))
      (found : lookup (best_price ob) (levels_of (other_side ob) ob) ≡ some level) where
    abbrev visited : OrderBook
    visited = after clock taker (best_price ob) (other_side ob) level ob w ready found

    visit-Matched :
        can_match (ob.orders taker).side (best_price ob) (ob.orders taker).price ≡ true
        → Matched taker ob visited
    visit-Matched c =
        let v = visit-Serves clock taker (best_price ob) (other_side ob) level ob w ready found in
        let o = ob.orders taker in
        let q = executions (remaining_size o) (entries ob.orders (queue level.slots)) in
        let (slots, s) = match_level clock taker (best_price ob) level ob in
        let same = close_level-orders (other_side ob) (best_price ob) level slots s in
        let kept = close_level-trades (other_side ob) (best_price ob) level slots s in
        record {
          new = deals_at o.id (best_price ob) q;
          history = ap deals kept ∙ v.traded;
          fair = All-deals_at o (best_price ob) q (can_match-WithinLimit o.side _ o.price c);
          filled = rw (moved-deals_at, same) v.filled;
        }

    visit-Progress :
        (match_level clock taker (best_price ob) level ob).1.level_matched ≡ true
        → Progress taker (other_side ob) ob visited
    visit-Progress h = record {
      range =
          let (slots, s) = match_level clock taker (best_price ob) level ob in
          subst HeapInRange (sym (close_level-orders (other_side ob) (best_price ob) level slots s))
            (visit-Serves clock taker (best_price ob) (other_side ob) level ob w ready found).range;
      ready = after-ready clock taker (best_price ob) (other_side ob) level ob w ready found;
      some_resting =
          was_resting clock taker (best_price ob) (other_side ob) level ob w ready found h;
      fewer = after-fewer clock taker (best_price ob) (other_side ob) level ob w ready found h;
    }

  -- A round stops, or goes on with progress; either way it is fair.
  match_round-cases :
      (ob : OrderBook)
      → HeapInRange ob.orders
      → AllReady taker (levels_of (other_side ob) ob)
      → (ob' : OrderBook) × ((match_round clock taker ob ≡ stop ob')
          ⊎ ((match_round clock taker ob ≡ again ob') × Progress taker (other_side ob) ob ob'))
        × Matched taker ob ob'
  unfolding match_round after_level
  match_round-cases ob w ready =
      elim (Bool-cases (can_match (ob.orders taker).side (best_price ob) (ob.orders taker).price)) [
        | inr c ↦ (ob, inl (rw (c, match_round)), Matched-refl taker ob)
        | inl c ↦ elim (Option-cases (lookup (best_price ob) (levels_of (other_side ob) ob))) [
          | inl e ↦ (ob, inl (rw (c, e, match_round)), Matched-refl taker ob)
          | inr (level, e) ↦
              let m = visit-Matched ob level w ready e c in
              elim (Bool-cases (match_level clock taker (best_price ob) level ob).1.level_matched) [
                | inl h ↦ (
                  visited ob level w ready e,
                  inr (rw (c, e, h, match_round, after_level), visit-Progress ob level w ready e h),
                  m,
                )
                | inr h ↦
                    (visited ob level w ready e, inl (rw (c, e, h, match_round, after_level)), m)
              ]
        ]
      ]

  match_rounds-filled :
      (fuel : ℕ) (ob : OrderBook)
      → 0 < fuel
      → is_filled (ob.orders taker) ≡ true
      → match_rounds clock taker fuel ob ≡ some ob
  unfolding match_rounds
  match_rounds-filled zero ob h f = absurd (omega arith)
  match_rounds-filled (suc fuel) ob h f = rw (f, match_rounds)

  -- With more fuel than there are resting orders the loop ends, and is fair.
  match_rounds-Matched :
      (fuel : ℕ) (ob : OrderBook)
      → HeapInRange ob.orders
      → AllReady taker (levels_of (other_side ob) ob)
      → resting (levels_of (other_side ob) ob) < fuel
      → (ob' : OrderBook) × (match_rounds clock taker fuel ob ≡ some ob') × Matched taker ob ob'
  unfolding match_rounds
  match_rounds-Matched zero ob w ready h = absurd (omega arith)
  match_rounds-Matched (suc fuel) ob w ready h = elim (Bool-cases (is_filled (ob.orders taker))) [
    | inl f ↦ (ob, rw (f, match_rounds), Matched-refl taker ob)
    | inr f ↦
        let (ob₁, ended, m) = match_round-cases ob w ready in
        elim ended [
          | inl e ↦ (ob₁, rw (f, e, match_rounds), m)
          | inr (e, p) ↦ elim p.fewer [
            | inl done ↦ (
              ob₁,
              rw (f, e, match_rounds)
                  (match_rounds-filled fuel ob₁ (omega (arith, p.some_resting)) done),
              m,
            )
            | inr less ↦
                let same = sym m.filled.side in
                let (ob₂, e₂, m₂) =
                  match_rounds-Matched fuel ob₁ p.range
                    (subst (λ side. AllReady taker (levels_of (opposite side) ob₁)) same p.ready)
                    (subst (λ side. resting (levels_of (opposite side) ob₁) < fuel) same
                      (omega arith)) in
                (ob₂, rw (f, e, match_rounds) e₂, Matched-trans taker ob ob₁ ob₂ m m₂)
          ]
        ]
  ]

  finish-Matched : (ob ob' : OrderBook) → Matched taker ob ob' → Matched taker ob (finish taker ob')
  unfolding finish
  finish-Matched ob ob' m = elim (Bool-cases (is_filled (ob'.orders taker))) [
    | inl f ↦
        rw (f, finish)
          (record { new = m.new; history = m.history; fair = m.fair; filled = m.filled })
    | inr f ↦ rw (f, finish) m
  ]

  -- `tryMatchUnsafe` ends, whatever the volumes and the cached prices say, if the orders' fields
  -- fit 64 bits and no level of the other side holds an order twice or the taker itself. Every new
  -- trade is the taker's and within its limit, and the taker's filled size grows by exactly the
  -- sum of the new trades, with its ID, side, price and size as they were.
  pub try_match-Matched :
      (ob : OrderBook)
      → HeapInRange ob.orders
      → AllReady taker (levels_of (other_side ob) ob)
      → (ob' : OrderBook) × (try_match clock taker ob ≡ some ob') × Matched taker ob ob'
  unfolding try_match
  try_match-Matched ob w ready =
      let (ob', e, m) =
        match_rounds-Matched (resting (levels_of (other_side ob) ob) + 1) ob w ready
          (omega arith) in
      (finish taker ob', rw (e, try_match), finish-Matched ob ob' m)
