-- ===== src/OrderBook/Prices/Best.antt =====
-- A rebuild of the best prices is right: the best bid is the highest price with a level, the best
-- ask the lowest, and an empty side has 0.
use mathlib.Core.Path.{subst}
use onchain_exchange_homewor.Prelude.{
  ℕ, ◌≤◌, ◌≡◌, ◌≢◌, refl, sym, Bool, false, none, List, [], ◌∷◌, arith, ltb, Map, lookup, keys, All,
  sort_by, IsSorted, All-sort_by, sort_by-All, sort_by-IsSorted,
}
use onchain_exchange_homewor.OrderBook.Types.{PriceLevel, OrderBook}
use onchain_exchange_homewor.OrderBook.Prices.{first_or_zero, rebuild_best_prices}

-- The best ask of a side: 0 if it is empty, else the price of a level, and no price is lower.
abbrev pub IsBestAsk : Map PriceLevel → ℕ → Type 0
IsBestAsk [] p = p ≡ 0
IsBestAsk (e ∷ m) p = (lookup p (e ∷ m) ≢ none) × All (λ k. p ≤ k) (keys (e ∷ m))

-- The best bid: no price is higher.
abbrev pub IsBestBid : Map PriceLevel → ℕ → Type 0
IsBestBid [] p = p ≡ 0
IsBestBid (e ∷ m) p = (lookup p (e ∷ m) ≢ none) × All (λ k. k ≤ p) (keys (e ∷ m))

-- Bids descend.
abbrev higher_first : ℕ → ℕ → Bool
higher_first a b = ltb b a

module _ {V : Type 0} where
  -- Each key is found, also behind more entries.
  keys-lookup : (m : Map V) → All (λ k. lookup k m ≢ none) (keys m)
  keys-lookup [] = tt
  keys-lookup ((j, w) ∷ m) = (ground arith, behind (keys m) (keys-lookup m))
    where
      behind :
          (ks : List ℕ)
          → All (λ k. lookup k m ≢ none) ks
          → All (λ k. lookup k ((j, w) ∷ m) ≢ none) ks
      behind [] h = tt
      behind (k ∷ ks) h = (ground arith, behind ks h.1)

-- A weaker property of each key.
All-keys : {P Q : ℕ → Type 0} (ks : List ℕ) → ((k : ℕ) → P k → Q k) → All P ks → All Q ks
All-keys [] f h = tt
All-keys (k ∷ ks) f h = (f k h.0, All-keys ks f h.1)

-- The first of a sorted list comes before all others.
first-All :
    (before : ℕ → ℕ → Bool) (ps : List ℕ)
    → ((p : ℕ) → before p p ≡ false)
    → IsSorted before ps
    → All (λ q. before q (first_or_zero ps) ≡ false) ps
first-All before [] irrefl h = tt
first-All before (p ∷ ps) irrefl h = (irrefl p, h.0)

module _ (before : ℕ → ℕ → Bool) where
  -- The first of the sorted prices of a side that has a level.
  first_key :
      (e : ℕ × PriceLevel) (m : Map PriceLevel)
      → ((p : ℕ) → before p p ≡ false)
      → IsSorted before (sort_by before (keys (e ∷ m)))
      → let p = first_or_zero (sort_by before (keys (e ∷ m))) in
        (lookup p (e ∷ m) ≢ none) × All (λ k. before k p ≡ false) (keys (e ∷ m))
  first_key e m irrefl s =
      let ps = sort_by before (keys (e ∷ m)) in
      (
        at_first (λ p. lookup p (e ∷ m) ≢ none) ps
            (λ h. (sort_by-All before (λ _. ⊥) (keys (e ∷ m)) (subst (All (λ _. ⊥)) (sym h) tt)).0)
            (All-sort_by before _ (keys (e ∷ m)) (keys-lookup (e ∷ m))),
        sort_by-All before _ (keys (e ∷ m)) (first-All before ps irrefl s),
      )
    where
      at_first : (P : ℕ → Type 0) (ps : List ℕ) → ps ≢ [] → All P ps → P (first_or_zero ps)
      at_first P [] ne h = absurd (ne refl)
      at_first P (p ∷ ps) ne h = h.0

-- `rebuildBestPrices` sets the true best prices of both sides, and marks the cache valid.
pub rebuild_best_prices-IsBest :
    (ob : OrderBook)
    → let ob' = rebuild_best_prices ob in
      IsBestAsk ob.sell_levels ob'.best_ask_atomic
      × IsBestBid ob.buy_levels ob'.best_bid_atomic
      × (ob'.prices_cache_dirty ≡ false)
unfolding rebuild_best_prices sort_by
rebuild_best_prices-IsBest ob = (asks ob.sell_levels, bids ob.buy_levels, refl)
  where
    asks : (m : Map PriceLevel) → IsBestAsk m (first_or_zero (sort_by ltb (keys m)))
    asks [] = refl
    asks (e ∷ m) =
        let (found, least) =
          first_key ltb e m (λ p. ground arith)
            (sort_by-IsSorted ltb (λ x y h. ground arith) (λ x y z h k. ground arith)
              (keys (e ∷ m))) in
        (found, All-keys (keys (e ∷ m)) (λ k h. ground arith) least)

    bids : (m : Map PriceLevel) → IsBestBid m (first_or_zero (sort_by higher_first (keys m)))
    bids [] = refl
    bids (e ∷ m) =
        let (found, greatest) =
          first_key higher_first e m (λ p. ground arith)
            (sort_by-IsSorted higher_first (λ x y h. ground arith) (λ x y z h k. ground arith)
              (keys (e ∷ m))) in
        (found, All-keys (keys (e ∷ m)) (λ k h. ground arith) greatest)
