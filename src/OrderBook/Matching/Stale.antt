-- ===== src/OrderBook/Matching/Stale.antt =====
-- Where the cached prices are not what the book holds: `updateBestPrices` on its fast path, and the
-- matching that follows from it.
use mathlib.Core.Path.{subst}
use onchain_exchange_homewor.Prelude.{
  ℕ, ◌≡◌, sym, inl, inr, Bool-cases, true, none, List, ◌∷◌, arith, lookup, erase,
}
use onchain_exchange_homewor.OrderBook.Types.{Side, sell, OrderBook}
use onchain_exchange_homewor.OrderBook.Orders.{levels_of, set_levels, opposite}
use onchain_exchange_homewor.OrderBook.Prices.{
  has_valid_cache, update_best_prices, rebuild_best_prices,
}
use onchain_exchange_homewor.OrderBook.Matching.{stop, best_opposite_price, can_match, match_round}

-- The book after the level at `p` of the ask side was deleted, as `tryMatchUnsafe` and
-- `CancelOrder` do it.
abbrev pub without_ask : ℕ → OrderBook → OrderBook
without_ask p ob = update_best_prices (set_levels sell (erase p ob.sell_levels) ob)

pub without_ask-best :
    (p : ℕ) (ps : List ℕ) (ob : OrderBook)
    → has_valid_cache ob ≡ true
    → ob.sell_prices_sorted ≡ p ∷ ps
    → ((without_ask p ob).best_ask_atomic ≡ p)
      × ((without_ask p ob).sell_levels ≡ erase p ob.sell_levels)
      × ((without_ask p ob).trades ≡ ob.trades)
unfolding update_best_prices set_levels rebuild_best_prices
without_ask-best p ps ob valid e = ground arith

-- Without a level at the best price a round ends at once.
pub match_round-no_level :
    (clock : ℕ → ℕ) (taker : ℕ) (side : Side) (ob : OrderBook)
    → (ob.orders taker).side ≡ side
    → lookup (best_opposite_price side ob) (levels_of (opposite side) ob) ≡ none
    → match_round clock taker ob ≡ stop ob
unfolding match_round
match_round-no_level clock taker side ob e gone =
    let o = ob.orders taker in
    let gone' =
      subst (λ d. lookup (best_opposite_price d ob) (levels_of (opposite d) ob) ≡ none) (sym e)
        gone in
    elim (Bool-cases (can_match o.side (best_opposite_price o.side ob) o.price)) [
      | inl c ↦ rw (c, gone', match_round)
      | inr c ↦ rw (c, match_round)
    ]
