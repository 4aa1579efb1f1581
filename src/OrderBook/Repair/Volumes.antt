-- ===== src/OrderBook/Repair/Volumes.antt =====
-- The repairs: `CleanupEmptyLevels` removes exactly the levels without volume, and
-- `validateAndFixLevelConsistency` writes the orders' full sizes into the volumes.
use mathlib.Core.Path.{subst}
use onchain_exchange_homewor.Prelude.{
  ℕ, ◌+◌, ◌≤◌, ◌<◌, ◌≡◌, ◌≢◌, refl, ◌∙◌, inl, inr, true, Option, none, some, List, [], ◌∷◌, arith,
  All, length, u64_mod, add64, select, Map, keys, lookup, ◌==◌, if◌then◌else◌, Bool-cases,
}
use onchain_exchange_homewor.OrderBook.Types.{Order, Slot, PriceLevel}
use onchain_exchange_homewor.OrderBook.Orders.{remaining_size}
use onchain_exchange_homewor.OrderBook.Matching.Queue.{total}
use onchain_exchange_homewor.OrderBook.Matching.Serve.{entries, Distinct}
use onchain_exchange_homewor.OrderBook.Repair.{cleanup_side, is_valid_order, real_volume, fix_slot}

-- What is filled of some orders.
abbrev pub filled : (ℕ → Order) → List ℕ → ℕ
filled h [] = 0
filled h (r ∷ rs) = (h r).filled_size + filled h rs

-- An order that the check keeps.
abbrev IsKept : (ℕ → Order) → ℕ → ℕ → Type 0
IsKept h price r = is_valid_order price (h r) ≡ true

-- An order that is filled at most to its size.
abbrev IsInSize : (ℕ → Order) → ℕ → Type 0
IsInSize h r = (h r).filled_size ≤ (h r).size

select-All :
    (h : ℕ → Order) (price : ℕ) (rs : List ℕ)
    → All (IsKept h price) rs
    → select (λ r. is_valid_order price (h r)) rs ≡ rs
select-All h price [] a = refl
select-All h price (r ∷ rs) a = rw (a.0, select-All h price rs a.1)

-- The sum of the sizes is what is left and what is filled.
real_volume-sum :
    (h : ℕ → Order) (price : ℕ) (rs : List ℕ) (acc : ℕ)
    → All (IsKept h price) rs
    → All (IsInSize h) rs
    → acc + total (entries h rs) + filled h rs < u64_mod
    → real_volume h rs acc ≡ acc + total (entries h rs) + filled h rs
unfolding real_volume remaining_size
real_volume-sum h price [] acc a b p = omega arith
real_volume-sum h price (r ∷ rs) acc a b p =
    ground (arith, real_volume-sum h price rs (add64 acc (h r).size) a.1 b.1)

-- `validateAndFixLevelConsistency` sets a slot's volume to what its orders have left and, on top of
-- that, all that is already filled of them, if its check keeps them all, none is filled beyond its
-- size, and the sum fits 64 bits; and the orders stay.
pub fix_slot-volume :
    (h : ℕ → Order) (price : ℕ) (slot : Slot)
    → All (IsKept h price) slot.orders
    → All (IsInSize h) slot.orders
    → total (entries h slot.orders) + filled h slot.orders < u64_mod
    → let slot' = fix_slot h price slot in
      (slot'.orders ≡ slot.orders)
      × (slot'.volume ≡ total (entries h slot.orders) + filled h slot.orders)
unfolding fix_slot
fix_slot-volume h price slot a b p =
    rw (select-All h price slot.orders a)
      (ground arith, real_volume-sum h price slot.orders 0 a b (omega arith) ∙ omega arith)

absent : {V : Type 0} (k : ℕ) (m : Map V) → All (λ j. j ≢ k) (keys m) → lookup k m ≡ none
absent k [] a = refl
absent k ((j, v) ∷ m) a = ground (arith, absent k m a.1)

cleanup-absent :
    (k : ℕ) (m : Map PriceLevel) → lookup k m ≡ none → lookup k (cleanup_side m).0 ≡ none
unfolding cleanup_side
cleanup-absent k [] e = refl
cleanup-absent k ((j, l) ∷ m) e = ground (arith, cleanup-absent k m)

-- A level, if it has volume.
abbrev pub if_volume : Option PriceLevel → Option PriceLevel
if_volume none = none
if_volume (some level) = if level.total_volume == 0 then none else some level

-- `CleanupEmptyLevels` on a side whose prices are distinct, as a map's keys are: a level stays, as
-- it was, exactly if it has volume, and the count is the number of levels that went.
pub cleanup_side-lookup :
    (k : ℕ) (m : Map PriceLevel)
    → Distinct (keys m)
    → (lookup k (cleanup_side m).0 ≡ if_volume (lookup k m))
      × (length (cleanup_side m).0 + (cleanup_side m).1 ≡ length m)
unfolding cleanup_side
cleanup_side-lookup k [] d = (refl, refl)
cleanup_side-lookup k ((j, l) ∷ m) d = elim (Bool-cases (j == k)) [
  | inl e ↦
      let same : j ≡ k = ground arith in
      let gone = absent k m (subst (λ i. All (λ x. x ≢ i) (keys m)) same d.0) in
      ground (arith, cleanup_side-lookup k m d.1, cleanup-absent k m gone)
  | inr e ↦ ground (arith, cleanup_side-lookup k m d.1)
]
