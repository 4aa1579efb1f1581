-- ===== src/OrderBook/Exact.antt =====
-- The volumes that the order book keeps on its levels stay the sums of what the orders have left,
-- through the two changes of a level besides matching: an order appended, and an order removed.
use mathlib.Core.Path.{subst}
use onchain_exchange_homewor.Prelude.{
  ℕ, zero, suc, ◌+◌, ◌-◌, ◌≤◌, ◌<◌, ◌≡◌, ◌≢◌, refl, sym, ap, ◌∙◌, true, List, [], ◌∷◌, ◌++◌, arith,
  All, length, get_or, set, ◌==◌, max_u64, if◌then◌else◌, Bool-cases, inl, inr,
}
use onchain_exchange_homewor.OrderBook.Types.{Order, Slot, PriceLevel, empty_slot}
use onchain_exchange_homewor.OrderBook.Orders.{
  remaining_size, safe_add, safe_add-eq, safe_subtract, safe_subtract-eq, get_slot,
}
use onchain_exchange_homewor.OrderBook.Prices.{is_empty}
use onchain_exchange_homewor.OrderBook.Matching.Queue.{total, total-append}
use onchain_exchange_homewor.OrderBook.Matching.Serve.{entries}
use onchain_exchange_homewor.OrderBook.Matching.Levels.{entries-append}
use onchain_exchange_homewor.OrderBook.Matching.Slots.{IsExact, queue}
use onchain_exchange_homewor.OrderBook.Entry.{append_order}
use onchain_exchange_homewor.OrderBook.Cancel.{
  remove_by_id, has_id, remove_from_slot, remove_from_level,
}

-- Each slot's volume, and the level's, is the sum of what the orders have left.
pub record LevelIsExact (h : ℕ → Order) (level : PriceLevel) : Type 0 where
  pub slots : All (IsExact h) level.slots
  pub total_volume : level.total_volume ≡ total (entries h (queue level.slots))

module _ (h : ℕ → Order) where
  abbrev held : List ℕ → ℕ
  held rs = total (entries h rs)

  held-append : (rs qs : List ℕ) → held (rs ++ qs) ≡ held rs + held qs
  held-append rs qs = rw (entries-append, total-append)

  All-set :
      (slots : List Slot) (i : ℕ) (v : Slot)
      → All (IsExact h) slots
      → IsExact h v
      → All (IsExact h) (set slots i v)
  All-set [] i v a p = tt
  All-set (slot ∷ slots) zero v a p = (p, a.1)
  All-set (slot ∷ slots) (suc i) v a p = (a.0, All-set slots i v a.1 p)

  All-get :
      (slots : List Slot) (i : ℕ) → All (IsExact h) slots → IsExact h (get_or slots i empty_slot)
  All-get [] i a = refl
  All-get (slot ∷ slots) zero a = a.0
  All-get (slot ∷ slots) (suc i) a = All-get slots i a.1

  held-set :
      (slots : List Slot) (i : ℕ) (v : Slot)
      → i < length slots
      → held (queue (set slots i v)) + held (get_or slots i empty_slot).orders
        ≡ held (queue slots) + held v.orders
  held-set [] i v p = absurd (omega arith)
  held-set (slot ∷ slots) zero v p =
      omega (arith, held-append slot.orders (queue slots), held-append v.orders (queue slots))
  held-set (slot ∷ slots) (suc i) v p = omega (
    arith,
    held-append slot.orders (queue slots),
    held-append slot.orders (queue (set slots i v)),
    held-set slots i v (omega arith),
  )

  held-get-le :
      (slots : List Slot) (i : ℕ) → held (get_or slots i empty_slot).orders ≤ held (queue slots)
  held-get-le [] i = omega arith
  held-get-le (slot ∷ slots) zero = omega (arith, held-append slot.orders (queue slots))
  held-get-le (slot ∷ slots) (suc i) =
      omega (arith, held-append slot.orders (queue slots), held-get-le slots i)

  get_or-set :
      (slots : List Slot) (i j : ℕ) (v : Slot)
      → i < length slots
      → get_or (set slots i v) j empty_slot ≡ (if i == j then v else get_or slots j empty_slot)
  get_or-set [] i j v p = absurd (omega arith)
  get_or-set (slot ∷ slots) zero zero v p = ground arith
  get_or-set (slot ∷ slots) zero (suc j) v p = ground arith
  get_or-set (slot ∷ slots) (suc i) zero v p = ground arith
  get_or-set (slot ∷ slots) (suc i) (suc j) v p =
      ground (arith, get_or-set slots i j v (omega arith))

  LevelIsExact-append_order :
      (r : ℕ) (level : PriceLevel)
      → LevelIsExact h level
      → (h r).slot < length level.slots
      → level.total_volume + remaining_size (h r) ≤ max_u64
      → LevelIsExact h (append_order r (h r) level)
  unfolding append_order
  LevelIsExact-append_order r level x p fits =
      let o = h r in
      let slot = get_slot level o.slot in
      let exact = All-get level.slots o.slot x.slots in
      let le = held-get-le level.slots o.slot in
      let grown : held (slot.orders ++ (r ∷ [])) ≡ held slot.orders + remaining_size o =
        held-append slot.orders (r ∷ []) ∙ omega arith in
      let volume : safe_add slot.volume (remaining_size o) ≡ slot.volume + remaining_size o =
        safe_add-eq slot.volume (remaining_size o) (omega (arith, x.total_volume, le, exact)) in
      let sum = safe_add-eq level.total_volume (remaining_size o) fits in
      record {
        slots = All-set level.slots o.slot _ x.slots (omega (arith, volume, exact, grown));
        total_volume = omega (
          arith,
          sum,
          x.total_volume,
          grown,
          held-set level.slots o.slot
              (record {
                orders = slot.orders ++ (r ∷ []);
                volume = safe_add slot.volume (remaining_size o);
              })
              p,
        );
      }

  -- On a level whose slot volumes and total volume are the sums of what its orders have left, an
  -- order that is appended stands behind the others of its slot, what it has left is added to the
  -- slot's volume and to the level's, the other slots stay, and the volumes are still the sums. This
  -- holds if the level has the order's slot and its volume stays in 64 bits.
  pub append_order-IsExact :
      (r j : ℕ) (level : PriceLevel)
      → LevelIsExact h level
      → (h r).slot < length level.slots
      → level.total_volume + remaining_size (h r) ≤ max_u64
      → let level' = append_order r (h r) level in
        let slot = get_slot level (h r).slot in
        let slot' : Slot = record {
          orders = slot.orders ++ (r ∷ []);
          volume = slot.volume + remaining_size (h r);
        } in
        (get_slot level' j ≡ (if (h r).slot == j then slot' else get_slot level j))
        × (level'.total_volume ≡ level.total_volume + remaining_size (h r))
        × LevelIsExact h level'
  unfolding append_order
  append_order-IsExact r j level x p fits =
      let o = h r in
      let slot = get_slot level o.slot in
      let exact = All-get level.slots o.slot x.slots in
      let le = held-get-le level.slots o.slot in
      let volume : safe_add slot.volume (remaining_size o) ≡ slot.volume + remaining_size o =
        safe_add-eq slot.volume (remaining_size o) (omega (arith, x.total_volume, le, exact)) in
      (
        get_or-set level.slots o.slot j _ p
            ∙ ap
                (λ n.
                  if o.slot == j
                  then record { orders = slot.orders ++ (r ∷ []); volume = n }
                  else get_slot level j)
                volume,
        safe_add-eq level.total_volume (remaining_size o) fits,
        LevelIsExact-append_order r level x p fits,
      )

  -- The first order with the ID leaves, and nothing else.
  remove_by_id-first :
      (r : ℕ) (xs ys : List ℕ)
      → All (λ q. (h q).id ≢ (h r).id) xs
      → (remove_by_id h (h r).id (xs ++ (r ∷ ys)) ≡ xs ++ ys)
        × (has_id h (h r).id (xs ++ (r ∷ ys)) ≡ true)
  unfolding remove_by_id has_id
  remove_by_id-first r [] ys a = (ground arith, ground arith)
  remove_by_id-first r (x ∷ xs) ys a =
      let (kept, there) = remove_by_id-first r xs ys a.1 in
      (ground (arith, a.0, kept), ground (arith, a.0, there))

  held-empty : (rs : List ℕ) → is_empty rs ≡ true → held rs ≡ 0
  held-empty [] e = refl
  held-empty (r ∷ rs) e = cc

  -- A slot without one of its orders.
  abbrev pub without : List ℕ → List ℕ → ℕ → Slot → Slot
  without xs ys n slot = record { orders = xs ++ ys; volume = slot.volume - n }

  remove_from_slot-without :
      (r : ℕ) (xs ys : List ℕ) (slot : Slot)
      → IsExact h slot
      → slot.orders ≡ xs ++ (r ∷ ys)
      → All (λ q. (h q).id ≢ (h r).id) xs
      → remove_from_slot h (h r).id (remaining_size (h r)) slot
        ≡ without xs ys (remaining_size (h r)) slot
  unfolding remove_from_slot
  remove_from_slot-without r xs ys slot x e a =
      let n = remaining_size (h r) in
      let (first, there) = remove_by_id-first r xs ys a in
      let kept : remove_by_id h (h r).id slot.orders ≡ xs ++ ys =
        ap (remove_by_id h (h r).id) e ∙ first in
      let had : has_id h (h r).id slot.orders ≡ true = ap (has_id h (h r).id) e ∙ there in
      let sum : slot.volume ≡ held (xs ++ ys) + n =
        omega (arith, x, ap held e, held-append xs (r ∷ ys), held-append xs ys) in
      let volume : (if is_empty (xs ++ ys) then 0 else safe_subtract slot.volume n)
          ≡ slot.volume - n =
        elim (Bool-cases (is_empty (xs ++ ys))) [
          | inl none_left ↦ rw none_left (omega (arith, sum, held-empty (xs ++ ys) none_left))
          | inr some_left ↦ rw some_left (safe_subtract-eq slot.volume n)
        ] in
      rw (kept, had) (ap (λ v. record { orders = xs ++ ys; volume = v }) volume)

  without-IsExact :
      (r : ℕ) (xs ys : List ℕ) (slot : Slot)
      → IsExact h slot
      → slot.orders ≡ xs ++ (r ∷ ys)
      → IsExact h (without xs ys (remaining_size (h r)) slot)
        × (held slot.orders ≡ held (xs ++ ys) + remaining_size (h r))
  without-IsExact r xs ys slot x e =
      let sum : held slot.orders ≡ held (xs ++ ys) + remaining_size (h r) =
        omega (arith, ap held e, held-append xs (r ∷ ys), held-append xs ys) in
      (omega (arith, x, sum), sum)

  -- On a level whose slot volumes and total volume are the sums of what its orders have left, an
  -- order that is removed leaves its slot, where it stands behind orders with other IDs and the rest
  -- of the slot stays, what it has left goes off the slot's volume and the level's, the other slots
  -- stay, and the volumes are still the sums. This holds if the level has the order's slot.
  pub remove_from_level-IsExact :
      (r j : ℕ) (xs ys : List ℕ) (level : PriceLevel)
      → LevelIsExact h level
      → (h r).slot < length level.slots
      → (get_slot level (h r).slot).orders ≡ xs ++ (r ∷ ys)
      → All (λ q. (h q).id ≢ (h r).id) xs
      → let level' = remove_from_level h (h r).id (h r) level in
        let slot = get_slot level (h r).slot in
        let slot' : Slot = record {
          orders = xs ++ ys;
          volume = slot.volume - remaining_size (h r);
        } in
        (get_slot level' j ≡ (if (h r).slot == j then slot' else get_slot level j))
        × (level'.total_volume ≡ level.total_volume - remaining_size (h r))
        × LevelIsExact h level'
  unfolding remove_from_level
  remove_from_level-IsExact r j xs ys level x p e a =
      let o = h r in
      let n = remaining_size o in
      let slot = get_slot level o.slot in
      let exact = All-get level.slots o.slot x.slots in
      let same = remove_from_slot-without r xs ys slot exact e a in
      let had : has_id h o.id slot.orders ≡ true =
        ap (has_id h o.id) e ∙ (remove_by_id-first r xs ys a).1 in
      let (exact', sum) = without-IsExact r xs ys slot exact e in
      let total_volume : (remove_from_level h o.id o level).total_volume ≡ level.total_volume - n =
        rw had (safe_subtract-eq level.total_volume n) in
      (
        get_or-set level.slots o.slot j _ p
            ∙ ap (λ v. if o.slot == j then v else get_slot level j) same,
        total_volume,
        record {
          slots = All-set level.slots o.slot _ x.slots (subst (IsExact h) (sym same) exact');
          total_volume =
              total_volume
              ∙ omega
                  (arith, x.total_volume, sum, held-set level.slots o.slot (without xs ys n slot) p)
              ∙ ap (λ v. held (queue (set level.slots o.slot v))) (sym same);
        },
      )
