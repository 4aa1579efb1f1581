-- ===== src/OrderBook/History/Trades.antt =====
-- What the queries of the trade history return, and what `ClearOldTrades` removes.
use onchain_exchange_homewor.Prelude.{
  ℕ, zero, suc, ◌+◌, ◌-◌, ◌≤◌, ◌<◌, ◌≡◌, ◌⊎◌, inl, inr, ap, Bool-cases, refl, ◌||◌, sym, List, [],
  ◌∷◌, ◌++◌, arith, ltb, ◌==◌, if◌then◌else◌, length, drop, All, take, take-append-drop,
}
use onchain_exchange_homewor.OrderBook.Types.{Trade, OrderBook}
use onchain_exchange_homewor.OrderBook.History.{first_valid_index, clear_old_trades, recent_trades}

abbrev pub IsOld : ℕ → Trade → Type 0
IsOld cutoff t = t.timestamp < cutoff

index-append :
    (cutoff i : ℕ) (old : List Trade) (t : Trade) (fresh : List Trade)
    → All (IsOld cutoff) old
    → cutoff ≤ t.timestamp
    → first_valid_index cutoff i (old ++ (t ∷ fresh)) ≡ i + length old
unfolding first_valid_index
index-append cutoff i [] t fresh h k = ground arith
index-append cutoff i (o ∷ old) t fresh h k =
    ground (arith, index-append cutoff (i + 1) old t fresh h.1 k)

drop-append : (old fresh : List Trade) → drop (length old) (old ++ fresh) ≡ fresh
drop-append [] fresh = refl
drop-append (o ∷ old) fresh = drop-append old fresh

clear_old_trades-append :
    (cutoff : ℕ) (old : List Trade) (t : Trade) (fresh : List Trade) (ob : OrderBook)
    → ob.trades ≡ old ++ (t ∷ fresh)
    → All (IsOld cutoff) old
    → cutoff ≤ t.timestamp
    → ((clear_old_trades cutoff ob).0.trades ≡ t ∷ fresh)
      × ((clear_old_trades cutoff ob).1 ≡ length old)
unfolding clear_old_trades
clear_old_trades-append cutoff old t fresh ob e h k =
    ground
      (arith, index-append cutoff 0 old t fresh h k, drop-append old (t ∷ fresh), length_zero old)
  where
    length_zero : (ts : List Trade) → length ts ≡ 0 → ts ++ (t ∷ fresh) ≡ t ∷ fresh
    length_zero [] e = refl
    length_zero (x ∷ ts) e = absurd (omega arith)

index-old :
    (cutoff i : ℕ) (ts : List Trade) → All (IsOld cutoff) ts → first_valid_index cutoff i ts ≡ 0
unfolding first_valid_index
index-old cutoff i [] h = refl
index-old cutoff i (t ∷ ts) h = ground (arith, index-old cutoff (i + 1) ts h.1)

clear_old_trades-keeps :
    (cutoff : ℕ) (ob : OrderBook)
    → All (IsOld cutoff) ob.trades
    → clear_old_trades cutoff ob ≡ (ob, 0)
unfolding clear_old_trades
clear_old_trades-keeps cutoff ob h = rw (index-old cutoff 0 ob.trades h)

split_trades :
    (cutoff : ℕ) (ts : List Trade)
    → All (IsOld cutoff) ts
      ⊎ ((old : List Trade) × (t : Trade) × (fresh : List Trade) × (ts ≡ old ++ (t ∷ fresh))
          × All (IsOld cutoff) old
          × (cutoff ≤ t.timestamp))
split_trades cutoff [] = inl tt
split_trades cutoff (t ∷ ts) = elim (Bool-cases (ltb t.timestamp cutoff)) [
  | inr e ↦ inr ([], t, ts, refl, tt, ground arith)
  | inl e ↦ elim (split_trades cutoff ts) [
    | inl h ↦ inl (ground arith, h)
    | inr (old, u, fresh, same, h, k) ↦
        inr (t ∷ old, u, fresh, ap (◌∷◌ t) same, (ground arith, h), k)
  ]
]

-- `ClearOldTrades` removes none of the trades where all are older than the cutoff. Otherwise it
-- removes exactly the trades older than the cutoff that stand before the first trade that is not,
-- and says how many; it keeps that one and all behind it.
pub clear_old_trades_lem :
    (cutoff : ℕ) (ob : OrderBook)
    → (All (IsOld cutoff) ob.trades × (clear_old_trades cutoff ob ≡ (ob, 0)))
      ⊎ ((old : List Trade) × (t : Trade) × (fresh : List Trade) × (ob.trades ≡ old ++ (t ∷ fresh))
          × All (IsOld cutoff) old
          × (cutoff ≤ t.timestamp)
          × ((clear_old_trades cutoff ob).0.trades ≡ t ∷ fresh)
          × ((clear_old_trades cutoff ob).1 ≡ length old))
clear_old_trades_lem cutoff ob = elim (split_trades cutoff ob.trades) [
  | inl h ↦ inl (h, clear_old_trades-keeps cutoff ob h)
  | inr (old, t, fresh, e, h, k) ↦
      let (a, b) = clear_old_trades-append cutoff old t fresh ob e h k in
      inr (old, t, fresh, e, h, k, a, b)
]

length-drop : (n : ℕ) (ts : List Trade) → length (drop n ts) ≡ length ts - n
length-drop zero ts = omega arith
length-drop (suc n) [] = omega arith
length-drop (suc n) (t ∷ ts) = omega (arith, length-drop n ts)

-- `GetRecentTrades` returns the last trades of the history: as many as the limit says, or all for
-- a limit of 0 or above their number.
pub recent_trades-suffix :
    (limit : ℕ) (ob : OrderBook)
    → (older : List Trade) × (ob.trades ≡ older ++ recent_trades limit ob)
      × (length (recent_trades limit ob)
          ≡ (if limit == 0 || ltb (length ob.trades) limit then length ob.trades else limit))
unfolding recent_trades
recent_trades-suffix limit ob =
    let n = length ob.trades in
    let k = n - (if limit == 0 || ltb n limit then n else limit) in
    (take k ob.trades, sym (take-append-drop k ob.trades), ground (arith, length-drop k ob.trades))
