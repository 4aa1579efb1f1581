-- ===== src/OrderBook/Matching/Visit.antt =====
-- A visit to one level: what it leaves in the book is fit for the next visit, and it fills the
-- taker or takes the level's orders off the book.
use mathlib.Core.Path.{subst}
use onchain_exchange_homewor.Prelude.{
  ℕ, ◌+◌, ◌≤◌, ◌<◌, ◌≡◌, refl, ap, ◌∙◌, ◌⊎◌, inl, inr, true, false, some, List, [], ◌∷◌, ◌++◌,
  arith, All, length, length-append, Bool-cases, if◌then◌else◌, ◌==◌, Map, lookup, insert, erase,
}
use onchain_exchange_homewor.OrderBook.Types.{Side, buy, sell, Order, Slot, PriceLevel, OrderBook}
use onchain_exchange_homewor.OrderBook.Orders.{remaining_size, is_filled, levels_of, set_levels}
use onchain_exchange_homewor.OrderBook.Prices.{update_best_prices, rebuild_best_prices}
use onchain_exchange_homewor.OrderBook.Matching.{
  Run, order_at, match_slot, match_slots, match_level, level_start, close_level, resting_slots,
  resting,
}
use onchain_exchange_homewor.OrderBook.Matching.Exchange.{HeapInRange}
use onchain_exchange_homewor.OrderBook.Matching.Queue.{leftovers-nil, total-executions}
use onchain_exchange_homewor.OrderBook.Matching.Serve.{
  entries, Distinct, Avoids, is_filled-remaining,
}
use onchain_exchange_homewor.OrderBook.Matching.Effects.{SameBook}
use onchain_exchange_homewor.OrderBook.Matching.Levels.{Serves, remaining-taker}
use onchain_exchange_homewor.OrderBook.Matching.Slots.{queue, match_level-Serves}

-- A level that the taker may be matched on: no order stands in it twice, nor the taker itself.
abbrev pub IsReady : ℕ → PriceLevel → Type 0
IsReady taker level = Avoids taker (queue level.slots) × Distinct (queue level.slots)

abbrev pub AllReady : ℕ → Map PriceLevel → Type 0
AllReady taker = All (λ e. IsReady taker e.1)

entries-nil : (h : ℕ → Order) (xs : List ℕ) → entries h xs ≡ [] → xs ≡ []
entries-nil h [] e = refl
entries-nil h (x ∷ xs) e = cc

-- After its orders were served, the taker is filled or no order stays.
Serves-progress :
    {taker best_price : ℕ} {xs kept : List ℕ} {s s' : Run}
    → Serves taker best_price xs kept s s'
    → is_filled (order_at s' taker) ≡ false
    → kept ≡ []
Serves-progress {taker} {best_price} {xs} {kept} {s} {s'} v h =
    let left = remaining_size (order_at s taker) in
    let q = entries s.book.orders xs in
    entries-nil s'.book.orders kept (
      v.stay
      ∙ leftovers-nil left q (
          ground (
            arith,
            is_filled-remaining (order_at s' taker),
            remaining-taker v,
            total-executions left q,
          )))

length-queue : (slots : List Slot) → resting_slots slots ≡ length (queue slots)
unfolding resting_slots
length-queue [] = refl
length-queue (slot ∷ slots) =
    omega (arith, length-append slot.orders (queue slots), length-queue slots)

-- A level without orders is not matched.
left-nil : (xs ys : List ℕ) → xs ++ ys ≡ [] → xs ≡ []
left-nil [] ys h = refl
left-nil (x ∷ xs) ys h = cc

module _ (clock : ℕ → ℕ) (taker best_price : ℕ) where
  match_slot-unmatched :
      (slot : Slot) (s : Run) → slot.orders ≡ [] → (match_slot clock taker best_price slot s).1 ≡ s
  unfolding match_slot
  match_slot-unmatched slot s e = rw (e, match_slot)

  match_slots-unmatched :
      (slots : List Slot) (s : Run)
      → queue slots ≡ []
      → (match_slots clock taker best_price slots s).1 ≡ s
  unfolding match_slots
  match_slots-unmatched [] s e = refl
  match_slots-unmatched (slot ∷ slots) s e = elim (Bool-cases (is_filled (order_at s taker))) [
    | inl f ↦ rw (f, match_slots)
    | inr f ↦
        let e₁ : slot.orders ≡ [] = left-nil slot.orders (queue slots) e in
        let e₂ : queue slots ≡ [] = rw e₁ at e in
        rw (f, match_slots, match_slot-unmatched slot s e₁, match_slots-unmatched slots s e₂)
  ]

  -- So a level that was matched held an order.
  matched-resting :
      (level : PriceLevel) (ob : OrderBook)
      → (match_level clock taker best_price level ob).1.level_matched ≡ true
      → 0 < resting_slots level.slots
  unfolding match_level
  matched-resting level ob h = held (queue level.slots) refl
    where
      held : (xs : List ℕ) → queue level.slots ≡ xs → 0 < resting_slots level.slots
      held [] e =
          let same = match_slots-unmatched level.slots (level_start level ob) e in absurd (cc)
      held (x ∷ xs) e = omega (arith, length-queue level.slots, ap length e)

module _ {ℓ} {A : Type ℓ} (P : A → Type 0) where
  All-insert :
      (k : ℕ) (v : A) (m : Map A) → P v → All (λ e. P e.1) m → All (λ e. P e.1) (insert k v m)
  All-insert k v [] p h = (p, tt)
  All-insert k v ((j, w) ∷ m) p h = ground (arith, All-insert k v m p h.1)

  All-erase : (k : ℕ) (m : Map A) → All (λ e. P e.1) m → All (λ e. P e.1) (erase k m)
  All-erase k [] h = tt
  All-erase k ((j, w) ∷ m) h = ground (arith, All-erase k m h.1)

  All-lookup : (k : ℕ) (v : A) (m : Map A) → lookup k m ≡ some v → All (λ e. P e.1) m → P v
  All-lookup k v [] e h = cc
  All-lookup k v ((j, w) ∷ m) e h = elim (Bool-cases (j == k)) [
    | inl f ↦ subst P (ground arith) h.0
    | inr f ↦ All-lookup k v m (rw f at e) h.1
  ]

resting-erase-le : (p : ℕ) (m : Map PriceLevel) → resting (erase p m) ≤ resting m
unfolding resting
resting-erase-le p [] = omega arith
resting-erase-le p ((j, w) ∷ m) = ground (arith, resting-erase-le p m)

resting-erase :
    (p : ℕ) (level : PriceLevel) (m : Map PriceLevel)
    → lookup p m ≡ some level
    → resting (erase p m) + resting_slots level.slots ≤ resting m
unfolding resting
resting-erase p level [] e = cc
resting-erase p level ((j, w) ∷ m) e = ground (arith, resting-erase p level m, resting-erase-le p m)

resting-insert :
    (p : ℕ) (level level' : PriceLevel) (m : Map PriceLevel)
    → lookup p m ≡ some level
    → resting (insert p level' m) + resting_slots level.slots
      ≡ resting m + resting_slots level'.slots
unfolding resting
resting-insert p level level' [] e = cc
resting-insert p level level' ((j, w) ∷ m) e = ground (arith, resting-insert p level level' m)

-- What the end of a visit leaves in the book.
module _ (side : Side) (p : ℕ) (level : PriceLevel) (slots : List Slot) (s : Run) where
  pub close_level-orders : (close_level side p level slots s).orders ≡ s.book.orders
  unfolding close_level set_levels update_best_prices rebuild_best_prices
  close_level-orders = ground arith

  pub close_level-trades : (close_level side p level slots s).trades ≡ s.book.trades
  unfolding close_level set_levels update_best_prices rebuild_best_prices
  close_level-trades = ground arith

  pub close_level-levels : levels_of side (close_level side p level slots s) ≡ (
      if s.total_volume == 0
      then erase p (levels_of side s.book)
      else insert p
          (record level { total_volume = s.total_volume; slots = slots })
          (levels_of side s.book))
  unfolding close_level set_levels levels_of update_best_prices rebuild_best_prices
  close_level-levels = ground arith

levels_of-same :
    (side : Side) (ob ob' : OrderBook) → SameBook ob ob' → levels_of side ob' ≡ levels_of side ob
unfolding levels_of
levels_of-same buy ob ob' h = h.buy_levels
levels_of-same sell ob ob' h = h.sell_levels

module _ (clock : ℕ → ℕ) (taker p : ℕ) (side : Side) (level : PriceLevel) (ob : OrderBook)
    (w : HeapInRange ob.orders) (ready : AllReady taker (levels_of side ob))
    (found : lookup p (levels_of side ob) ≡ some level) where
  abbrev pub visit : List Slot × Run
  visit = match_level clock taker p level ob

  pub visit-Serves :
      Serves taker p (queue level.slots) (queue visit.0) (level_start level ob) visit.1
  visit-Serves =
      let r = All-lookup (IsReady taker) p level _ found ready in
      match_level-Serves clock taker p level ob w r.0 r.1

  abbrev pub after : OrderBook
  after = close_level side p level visit.0 visit.1

  new_ready : Avoids taker (queue visit.0) × Distinct (queue visit.0)
  new_ready =
      let r = All-lookup (IsReady taker) p level _ found ready in
      (visit-Serves.keeps taker r.0, visit-Serves.distinct)

  pub after-ready : AllReady taker (levels_of side after)
  after-ready =
      rw
        (
          close_level-levels side p level visit.0 visit.1,
          levels_of-same side ob visit.1.book visit-Serves.book,
        )
        (elim (Bool-cases (visit.1.total_volume == 0)) [
          | inl e ↦ rw e (All-erase (IsReady taker) p _ ready)
          | inr e ↦ rw e (All-insert (IsReady taker) p _ _ new_ready ready)
        ])

  pub after-fewer :
      visit.1.level_matched ≡ true
      → (is_filled (after.orders taker) ≡ true)
        ⊎ (resting (levels_of side after) < resting (levels_of side ob))
  after-fewer h = elim (Bool-cases (is_filled (order_at visit.1 taker))) [
    | inl e ↦ inl (rw (close_level-orders side p level visit.0 visit.1) e)
    | inr e ↦
        let none_left : resting_slots visit.0 ≡ 0 =
          length-queue visit.0 ∙ ap length (Serves-progress visit-Serves e) in
        inr (
          rw
            (
              close_level-levels side p level visit.0 visit.1,
              levels_of-same side ob visit.1.book visit-Serves.book,
            )
            (ground (
              arith,
              none_left,
              matched-resting clock taker p level ob h,
              resting-erase p level (levels_of side ob) found,
              resting-insert p level
                  (record level { total_volume = visit.1.total_volume; slots = visit.0 })
                  (levels_of side ob) found,
            )))
  ]

  -- A level that was matched held an order.
  pub was_resting : visit.1.level_matched ≡ true → 0 < resting (levels_of side ob)
  was_resting h = omega (
    arith,
    matched-resting clock taker p level ob h,
    resting-erase p level (levels_of side ob) found,
  )
