-- ===== src/OrderBook/Matching/Fair.antt =====
-- What matching promises a taker, whatever its route through the book: its trades are within its
-- limit, and it is filled by what they add up to.
use onchain_exchange_homewor.Prelude.{
  ℕ, ◌+◌, ◌≤◌, ◌≡◌, refl, sym, ◌∙◌, true, List, [], ◌∷◌, ◌++◌, arith, All, All-append,
}
use mathlib.Core.List.{append-nil, append_assoc}
use onchain_exchange_homewor.OrderBook.Types.{Side, buy, sell, Order, OrderBook}
use onchain_exchange_homewor.OrderBook.Matching.{can_match}
use onchain_exchange_homewor.OrderBook.Matching.Queue.{Entries, total}
use onchain_exchange_homewor.OrderBook.Matching.Serve.{Deal, deals, deals_at}
use onchain_exchange_homewor.OrderBook.Matching.Effects.{IsFilledBy}

-- What a taker's limit allows: a buyer pays at most it, a seller gets at least it.
abbrev pub WithinLimit : Side → ℕ → ℕ → Type 0
WithinLimit buy limit price = price ≤ limit
WithinLimit sell limit price = limit ≤ price

-- A trade of this taker, within its limit.
abbrev pub IsFair : Order → Deal → Type 0
IsFair o d = (d.0 ≡ o.id) × WithinLimit o.side o.price d.1

-- The sizes of some trades, together.
abbrev pub moved : List Deal → ℕ
moved [] = 0
moved (d ∷ ds) = d.3 + moved ds

-- From `ob` to `ob'` the taker was matched: new trades, all fair, which fill it by their sizes.
pub record Matched (taker : ℕ) (ob ob' : OrderBook) : Type 0 where
  pub new : List Deal
  pub history : deals ob'.trades ≡ deals ob.trades ++ new
  pub fair : All (IsFair (ob.orders taker)) new
  pub filled : IsFilledBy (moved new) (ob.orders taker) (ob'.orders taker)

moved-append : (ds es : List Deal) → moved (ds ++ es) ≡ moved ds + moved es
moved-append [] es = omega arith
moved-append (d ∷ ds) es = omega (arith, moved-append ds es)

pub moved-deals_at : (id price : ℕ) (q : Entries) → moved (deals_at id price q) ≡ total q
moved-deals_at id price [] = refl
moved-deals_at id price (e ∷ q) = omega (arith, moved-deals_at id price q)

pub All-deals_at :
    (o : Order) (price : ℕ) (q : Entries)
    → WithinLimit o.side o.price price
    → All (IsFair o) (deals_at o.id price q)
All-deals_at o price [] h = tt
All-deals_at o price (e ∷ q) h = ((refl, h), All-deals_at o price q h)

IsFair-same :
    (o o' : Order) (ds : List Deal)
    → o'.id ≡ o.id
    → o'.side ≡ o.side
    → o'.price ≡ o.price
    → All (IsFair o') ds
    → All (IsFair o) ds
IsFair-same o o' [] i s p h = tt
IsFair-same o o' (d ∷ ds) i s p h = (rw (i, s, p) at h.0, IsFair-same o o' ds i s p h.1)

pub Matched-refl : (taker : ℕ) (ob : OrderBook) → Matched taker ob ob
Matched-refl taker ob = record {
  new = [];
  history = sym (append-nil _);
  fair = tt;
  filled = ground arith;
}

pub Matched-trans :
    (taker : ℕ) (ob ob' ob'' : OrderBook)
    → Matched taker ob ob'
    → Matched taker ob' ob''
    → Matched taker ob ob''
Matched-trans taker ob ob' ob'' m n = record {
  new = m.new ++ n.new;
  history = n.history ∙ rw (m.history, append_assoc);
  fair = All-append _ m.new n.new m.fair (
      IsFair-same (ob.orders taker) (ob'.orders taker) n.new m.filled.id m.filled.side
        m.filled.price n.fair);
  filled = ground (arith, m.filled, n.filled, moved-append m.new n.new);
}

pub can_match-WithinLimit :
    (side : Side) (best limit : ℕ) → can_match side best limit ≡ true → WithinLimit side limit best
unfolding can_match
can_match-WithinLimit buy best limit h = ground arith
can_match-WithinLimit sell best limit h = ground arith
