-- ===== src/OrderBook/Matching/Queue.antt =====
-- The reference for price-level matching: a taker with so much left to fill is served from a queue
-- of makers, each an ID with what it has left, in order.
use onchain_exchange_homewor.Prelude.{
  ℕ, ◌+◌, ◌-◌, ◌<◌, ◌≡◌, refl, List, [], ◌∷◌, ◌++◌, ltb, leb, ◌==◌, if◌then◌else◌, arith,
}

abbrev pub Entries : Type 0
Entries = List (ℕ × ℕ)

abbrev pub lesser : ℕ → ℕ → ℕ
lesser a b = if ltb b a then b else a

-- The trades, each a maker's ID and a size.
unfoldable pub executions : ℕ → Entries → Entries
executions left [] = []
executions left ((id, m) ∷ q) =
    if left == 0 then [] else (id, lesser left m) ∷ executions (left - lesser left m) q

-- The makers that stay in the queue, with what they have left.
unfoldable pub leftovers : ℕ → Entries → Entries
leftovers left [] = []
leftovers left ((id, m) ∷ q) =
    if left == 0
    then (id, m) ∷ q
    else if leb m left
    then leftovers (left - m) q
    else (id, m - left) ∷ q

-- All that a queue holds, or that a list of trades moves.
abbrev pub total : Entries → ℕ
total [] = 0
total ((_, m) ∷ q) = m + total q

pub total-append : (p q : Entries) → total (p ++ q) ≡ total p + total q
total-append [] q = omega arith
total-append (e ∷ p) q = omega (arith, total-append p q)

pub executions-zero : (q : Entries) → executions 0 q ≡ []
unfolding executions
executions-zero [] = refl
executions-zero (e ∷ q) = refl

pub leftovers-zero : (q : Entries) → leftovers 0 q ≡ q
unfolding leftovers
leftovers-zero [] = refl
leftovers-zero (e ∷ q) = refl

-- Together the trades fill the lesser of what the taker wants and what the queue holds.
pub total-executions : (left : ℕ) (q : Entries) → total (executions left q) ≡ lesser left (total q)
unfolding executions
total-executions left [] = ground arith
total-executions left ((id, m) ∷ q) = ground (arith, total-executions (left - lesser left m) q)

-- What leaves the queue is what is traded.
pub total-leftovers :
    (left : ℕ) (q : Entries) → total (leftovers left q) + total (executions left q) ≡ total q
unfolding executions leftovers
total-leftovers left [] = refl
total-leftovers left ((id, m) ∷ q) =
    ground (arith, total-leftovers (left - m) q, executions-zero q, leftovers-zero q)

pub executions-append :
    (left : ℕ) (p q : Entries)
    → executions left (p ++ q)
      ≡ executions left p ++ executions (left - total (executions left p)) q
unfolding executions
executions-append left [] q = let e : left - 0 ≡ left = omega arith in rw e
executions-append left ((id, m) ∷ p) q =
    ground (arith, executions-append (left - lesser left m) p q, executions-zero q)

pub leftovers-append :
    (left : ℕ) (p q : Entries)
    → leftovers left (p ++ q) ≡ leftovers left p ++ leftovers (left - total (executions left p)) q
unfolding executions leftovers
leftovers-append left [] q = let e : left - 0 ≡ left = omega arith in rw e
leftovers-append left ((id, m) ∷ p) q =
    ground (arith, leftovers-append (left - m) p q, leftovers-zero q, executions-zero p)

-- A taker that wants more than the queue holds empties it.
pub leftovers-nil : (left : ℕ) (q : Entries) → total q < left → leftovers left q ≡ []
unfolding leftovers
leftovers-nil left [] h = refl
leftovers-nil left ((id, m) ∷ q) h = ground (arith, leftovers-nil (left - m) q)
