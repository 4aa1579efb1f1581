-- ===== src/OrderBook/Matching/Slots.antt =====
-- The loop over the slots of a level serves the level's queue, and keeps every slot's volume the
-- sum of what its orders have left.
use onchain_exchange_homewor.Prelude.{
  ℕ, ◌≡◌, refl, sym, ap, ◌∙◌, inl, inr, true, List, [], ◌∷◌, ◌++◌, arith, All, All-split,
  Bool-cases,
}
use mathlib.Core.List.{append-nil}
use onchain_exchange_homewor.OrderBook.Types.{Order, Slot, PriceLevel, OrderBook}
use onchain_exchange_homewor.OrderBook.Orders.{remaining_size, is_filled}
use onchain_exchange_homewor.OrderBook.Prices.{is_empty}
use onchain_exchange_homewor.OrderBook.Matching.{
  Run, order_at, match_slot, match_slots, match_level, level_start,
}
use onchain_exchange_homewor.OrderBook.Matching.Exchange.{HeapInRange}
use onchain_exchange_homewor.OrderBook.Matching.Queue.{
  executions, leftovers, total, executions-zero, leftovers-zero, total-leftovers,
}
use onchain_exchange_homewor.OrderBook.Matching.Serve.{
  entries, Distinct, Avoids, is_filled-remaining,
}
use onchain_exchange_homewor.OrderBook.Matching.Effects.{match_orders-volumes}
use onchain_exchange_homewor.OrderBook.Matching.Levels.{
  Serves, AllDisjoint, AllDisjoint-sym, entries-others, Distinct-append, Avoids-append,
  Serves-append, earlier, match_orders-Serves,
}

-- The orders of some slots, in the order in which they are served.
abbrev pub queue : List Slot → List ℕ
queue [] = []
queue (slot ∷ slots) = slot.orders ++ queue slots

-- The volume of a slot is the sum of what its orders have left.
abbrev pub IsExact : (ℕ → Order) → Slot → Type 0
IsExact h slot = slot.volume ≡ total (entries h slot.orders)

module _ {taker best_price : ℕ} where
  -- A filled taker is served nothing.
  Serves-filled :
      (xs : List ℕ) (s : Run)
      → HeapInRange s.book.orders
      → Distinct xs
      → is_filled (order_at s taker) ≡ true
      → Serves taker best_price xs xs s s
  Serves-filled xs s w d h =
      let e : remaining_size (order_at s taker) ≡ 0 =
        ground (arith, is_filled-remaining (order_at s taker)) in
      record {
        stay = rw (e, leftovers-zero);
        traded = rw (e, executions-zero, append-nil);
        filled = rw (e, executions-zero) (ground arith);
        total_volume = rw (e, executions-zero) (omega arith);
        book = ground arith;
        range = w;
        others = λ r _ _. refl;
        keeps = λ r a. a;
        distinct = d;
      }

  Serves-nil : (s : Run) → HeapInRange s.book.orders → Serves taker best_price [] [] s s
  unfolding executions leftovers
  Serves-nil s w = record {
    stay = refl;
    traded = sym (append-nil _);
    filled = ground arith;
    total_volume = omega arith;
    book = ground arith;
    range = w;
    others = λ r _ _. refl;
    keeps = λ r a. a;
    distinct = tt;
  }

  Serves-empty :
      (xs : List ℕ) (s : Run)
      → HeapInRange s.book.orders
      → is_empty xs ≡ true
      → Serves taker best_price xs xs s s
  Serves-empty [] s w e = Serves-nil s w
  Serves-empty (x ∷ xs) s w e = cc

  -- The slot's volume, which the loop starts from, is no part of what is served.
  Serves-volume :
      (n : ℕ) {xs kept : List ℕ} {s s' : Run}
      → Serves taker best_price xs kept (record s { slot_volume = n }) s'
      → Serves taker best_price xs kept s s'
  Serves-volume n v = record {
    stay = v.stay;
    traded = v.traded;
    filled = v.filled;
    total_volume = v.total_volume;
    book = v.book;
    range = v.range;
    others = v.others;
    keeps = v.keeps;
    distinct = v.distinct;
  }

module _ (clock : ℕ → ℕ) (taker best_price : ℕ) where
  match_slot-Serves :
      (slot : Slot) (s : Run)
      → HeapInRange s.book.orders
      → Avoids taker slot.orders
      → Distinct slot.orders
      → let (slot', s') = match_slot clock taker best_price slot s in
        Serves taker best_price slot.orders slot'.orders s s'
  unfolding match_slot
  match_slot-Serves slot s w a d = elim (Bool-cases (is_empty slot.orders)) [
    | inl e ↦ rw (e, match_slot) (Serves-empty slot.orders s w e)
    | inr e ↦
        rw (e, match_slot)
          (Serves-volume slot.volume (
            match_orders-Serves clock taker best_price slot.orders
              (record s { slot_volume = slot.volume }) w a d))
  ]

  match_slot-IsExact :
      (slot : Slot) (s : Run)
      → HeapInRange s.book.orders
      → Avoids taker slot.orders
      → Distinct slot.orders
      → IsExact s.book.orders slot
      → let (slot', s') = match_slot clock taker best_price slot s in IsExact s'.book.orders slot'
  unfolding match_slot
  match_slot-IsExact slot s w a d e =
      let s₀ : Run = record s { slot_volume = slot.volume } in
      let v = match_orders-volumes clock taker best_price slot.orders s₀ w a d in
      let u = match_orders-Serves clock taker best_price slot.orders s₀ w a d in
      ground (
        arith,
        u.stay,
        v,
        total-leftovers (remaining_size (order_at s taker)) (entries s.book.orders slot.orders),
      )

  pub match_slots-Serves :
      (slots : List Slot) (s : Run)
      → HeapInRange s.book.orders
      → Avoids taker (queue slots)
      → Distinct (queue slots)
      → let (slots', s') = match_slots clock taker best_price slots s in
        Serves taker best_price (queue slots) (queue slots') s s'
  unfolding match_slots
  match_slots-Serves [] s w a d = Serves-nil s w
  match_slots-Serves (slot ∷ slots) s w a d = elim (Bool-cases (is_filled (order_at s taker))) [
    | inl e ↦ rw (e, match_slots) (Serves-filled (queue (slot ∷ slots)) s w d e)
    | inr e ↦
        let (a₁, a₂) = Avoids-append taker slot.orders (queue slots) a in
        let (d₁, d₂, dj) = Distinct-append slot.orders (queue slots) d in
        let v = match_slot-Serves slot s w a₁ d₁ in
        rw (e, match_slots)
          (Serves-append v
            (match_slots-Serves slots (match_slot clock taker best_price slot s).1 v.range a₂ d₂) a₁
            a₂ dj)
  ]

  -- A slot that has been served keeps its volume while later slots are served.
  IsExact-All :
      {xs kept : List ℕ} {s s' : Run} (slots : List Slot)
      → Serves taker best_price xs kept s s'
      → Avoids taker (queue slots)
      → AllDisjoint (queue slots) xs
      → All (IsExact s.book.orders) slots
      → All (IsExact s'.book.orders) slots
  IsExact-All [] v a d e = tt
  IsExact-All (slot ∷ slots) v a d e =
      let (a₁, a₂) = Avoids-append taker slot.orders (queue slots) a in
      let (d₁, d₂) = All-split _ slot.orders (queue slots) d in
      (e.0 ∙ ap total (sym (entries-others slot.orders v a₁ d₁)), IsExact-All slots v a₂ d₂ e.1)

  pub match_slots-IsExact :
      (slots : List Slot) (s : Run)
      → HeapInRange s.book.orders
      → Avoids taker (queue slots)
      → Distinct (queue slots)
      → All (IsExact s.book.orders) slots
      → let (slots', s') = match_slots clock taker best_price slots s in
        All (IsExact s'.book.orders) slots'
  unfolding match_slots
  match_slots-IsExact [] s w a d h = tt
  match_slots-IsExact (slot ∷ slots) s w a d h = elim (Bool-cases (is_filled (order_at s taker))) [
    | inl e ↦ rw (e, match_slots) h
    | inr e ↦
        let (a₁, a₂) = Avoids-append taker slot.orders (queue slots) a in
        let (d₁, d₂, dj) = Distinct-append slot.orders (queue slots) d in
        let v = match_slot-Serves slot s w a₁ d₁ in
        let s' = (match_slot clock taker best_price slot s).1 in
        let v' = match_slots-Serves slots s' v.range a₂ d₂ in
        let x = match_slot-IsExact slot s w a₁ d₁ h.0 in
        rw (e, match_slots)
          (
            x ∙ ap total (sym (earlier v v' a₁ a₂ dj)),
            match_slots-IsExact slots s' v.range a₂ d₂
                (IsExact-All slots v a₂ (AllDisjoint-sym slot.orders (queue slots) dj) h.1),
          )
  ]

  -- A visit to a level serves the orders of slots 0 to 15, each slot first in, first out, as the
  -- reference queue does. The new trades are the executions at the level's price, in that order;
  -- the orders that stay are the leftovers; the taker's filled size grows, and the level's total
  -- volume falls, by the sum of the executions. Other orders stay as they are, and so do the levels
  -- in both maps, the last order ID and the cached prices. This holds if the orders' fields fit 64
  -- bits and the level holds no order twice and not the taker.
  pub match_level-Serves :
      (level : PriceLevel) (ob : OrderBook)
      → HeapInRange ob.orders
      → Avoids taker (queue level.slots)
      → Distinct (queue level.slots)
      → let (slots, s) = match_level clock taker best_price level ob in
        Serves taker best_price (queue level.slots) (queue slots) (level_start level ob) s
  unfolding match_level
  match_level-Serves level ob w a d = match_slots-Serves level.slots _ w a d

  -- A level whose slot volumes and total volume are the sums of what its orders have left is left
  -- so by a visit, if the orders' fields fit 64 bits and the level holds no order twice and not the
  -- taker.
  pub match_level-IsExact :
      (level : PriceLevel) (ob : OrderBook)
      → HeapInRange ob.orders
      → Avoids taker (queue level.slots)
      → Distinct (queue level.slots)
      → All (IsExact ob.orders) level.slots
      → level.total_volume ≡ total (entries ob.orders (queue level.slots))
      → let (slots, s) = match_level clock taker best_price level ob in
        All (IsExact s.book.orders) slots
        × (s.total_volume ≡ total (entries s.book.orders (queue slots)))
  unfolding match_level
  match_level-IsExact level ob w a d exact sum =
      let v = match_level-Serves level ob w a d in
      let left = remaining_size (ob.orders taker) in
      let q = entries ob.orders (queue level.slots) in
      (
        match_slots-IsExact level.slots (level_start level ob) w a d exact,
        omega (arith, v.total_volume, ap total v.stay, total-leftovers left q),
      )
