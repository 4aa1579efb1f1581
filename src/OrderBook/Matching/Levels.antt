-- ===== src/OrderBook/Matching/Levels.antt =====
-- A level is served as one queue: the orders of its slots, slot 0 first.
use onchain_exchange_homewor.Prelude.{
  ℕ, ◌+◌, ◌-◌, ◌≡◌, ◌≢◌, refl, sym, ◌∙◌, List, [], ◌∷◌, ◌++◌, arith, All,
}
use mathlib.Core.Path.{ap₂}
use mathlib.Core.List.{append_assoc, map-append}
use onchain_exchange_homewor.OrderBook.Types.{Order}
use onchain_exchange_homewor.OrderBook.Orders.{remaining_size}
use onchain_exchange_homewor.OrderBook.Matching.{Run, order_at, match_orders}
use onchain_exchange_homewor.OrderBook.Matching.Exchange.{HeapInRange}
use onchain_exchange_homewor.OrderBook.Matching.Queue.{
  Entries, executions, leftovers, total, total-append, executions-append, leftovers-append,
}
use onchain_exchange_homewor.OrderBook.Matching.Serve.{
  entries, Distinct, Avoids, deals, deals_at, match_orders-leftovers, match_orders-executions,
}
use onchain_exchange_homewor.OrderBook.Matching.Effects.{
  IsFilledBy, SameBook, match_orders-range, match_orders-taker, match_orders-others,
  match_orders-volumes, match_orders-book, match_orders-Avoids, match_orders-Distinct,
}

-- From `s` to `s'` the taker was served at a price from the orders `xs`, of which `kept` stay.
pub record Serves (taker best_price : ℕ) (xs kept : List ℕ) (s s' : Run) : Type 0 where
  pub stay :
      entries s'.book.orders kept
      ≡ leftovers (remaining_size (order_at s taker)) (entries s.book.orders xs)
  pub traded :
      deals s'.book.trades
      ≡ deals s.book.trades
        ++ deals_at
            (order_at s taker).id
            best_price
            (executions (remaining_size (order_at s taker)) (entries s.book.orders xs))
  pub filled :
      IsFilledBy
        (total (executions (remaining_size (order_at s taker)) (entries s.book.orders xs)))
        (order_at s taker)
        (order_at s' taker)
  pub total_volume :
      s'.total_volume
      ≡ s.total_volume
        - total (executions (remaining_size (order_at s taker)) (entries s.book.orders xs))
  pub book : SameBook s.book s'.book
  pub range : HeapInRange s'.book.orders
  pub others : (r : ℕ) → r ≢ taker → Avoids r xs → order_at s' r ≡ order_at s r
  pub keeps : (r : ℕ) → Avoids r xs → Avoids r kept
  pub distinct : Distinct kept

abbrev pub AllDisjoint : List ℕ → List ℕ → Type 0
AllDisjoint xs ys = All (λ x. Avoids x ys) xs

-- Lists of places: what a bound on all of an appended list says of its parts.
pub Avoids-append : (r : ℕ) (xs ys : List ℕ) → Avoids r (xs ++ ys) → Avoids r xs × Avoids r ys
Avoids-append r [] ys a = (tt, a)
Avoids-append r (x ∷ xs) ys a = let (b, c) = Avoids-append r xs ys a.1 in ((a.0, b), c)

append-Avoids : (r : ℕ) (xs ys : List ℕ) → Avoids r xs → Avoids r ys → Avoids r (xs ++ ys)
append-Avoids r [] ys a b = b
append-Avoids r (x ∷ xs) ys a b = (a.0, append-Avoids r xs ys a.1 b)

pub Distinct-append :
    (xs ys : List ℕ) → Distinct (xs ++ ys) → Distinct xs × Distinct ys × AllDisjoint xs ys
Distinct-append [] ys d = (tt, d, tt)
Distinct-append (x ∷ xs) ys d =
    let (dx, dy, dj) = Distinct-append xs ys d.1 in
    let (a, b) = Avoids-append x xs ys d.0 in ((a, dx), dy, (b, dj))

append-Distinct :
    (xs ys : List ℕ) → Distinct xs → Distinct ys → AllDisjoint xs ys → Distinct (xs ++ ys)
append-Distinct [] ys dx dy dj = dy
append-Distinct (x ∷ xs) ys dx dy dj =
    (append-Avoids x xs ys dx.0 dj.0, append-Distinct xs ys dx.1 dy dj.1)

AllDisjoint-nil : (xs : List ℕ) → AllDisjoint xs []
AllDisjoint-nil [] = tt
AllDisjoint-nil (x ∷ xs) = (tt, AllDisjoint-nil xs)

AllDisjoint-cons :
    (x : ℕ) (xs ys : List ℕ) → Avoids x ys → AllDisjoint ys xs → AllDisjoint ys (x ∷ xs)
AllDisjoint-cons x xs [] a d = tt
AllDisjoint-cons x xs (y ∷ ys) a d = ((λ e. a.0 (sym e), d.0), AllDisjoint-cons x xs ys a.1 d.1)

pub AllDisjoint-sym : (xs ys : List ℕ) → AllDisjoint xs ys → AllDisjoint ys xs
AllDisjoint-sym [] ys d = AllDisjoint-nil ys
AllDisjoint-sym (x ∷ xs) ys d = AllDisjoint-cons x xs ys d.0 (AllDisjoint-sym xs ys d.1)

AllDisjoint-keeps :
    (xs kept ys : List ℕ)
    → ((r : ℕ) → Avoids r xs → Avoids r kept)
    → AllDisjoint ys xs
    → AllDisjoint ys kept
AllDisjoint-keeps xs kept [] k d = tt
AllDisjoint-keeps xs kept (y ∷ ys) k d = (k y d.0, AllDisjoint-keeps xs kept ys k d.1)

pub entries-append :
    (h : ℕ → Order) (xs ys : List ℕ) → entries h (xs ++ ys) ≡ entries h xs ++ entries h ys
entries-append h xs ys = rw map-append

deals_at-append :
    (id price : ℕ) (p q : Entries)
    → deals_at id price (p ++ q) ≡ deals_at id price p ++ deals_at id price q
deals_at-append id price p q = rw map-append

module _ {taker best_price : ℕ} where
  pub entries-others :
      {xs kept : List ℕ} {s s' : Run} (ys : List ℕ)
      → Serves taker best_price xs kept s s'
      → Avoids taker ys
      → AllDisjoint ys xs
      → entries s'.book.orders ys ≡ entries s.book.orders ys
  entries-others [] v a d = refl
  entries-others (y ∷ ys) v a d =
      let e = v.others y a.0 d.0 in let ih = entries-others ys v a.1 d.1 in cc

  pub remaining-taker :
      {xs kept : List ℕ} {s s' : Run}
      → Serves taker best_price xs kept s s'
      → remaining_size (order_at s' taker)
        ≡ remaining_size (order_at s taker)
          - total (executions (remaining_size (order_at s taker)) (entries s.book.orders xs))
  unfolding remaining_size
  remaining-taker v = ground (arith, v.filled)

  -- Serving two queues, one after the other, is serving the two appended.
  module _ {xs ys kept kept' : List ℕ} {s s' s'' : Run} (v : Serves taker best_price xs kept s s')
      (v' : Serves taker best_price ys kept' s' s'') (a : Avoids taker xs) (a' : Avoids taker ys)
      (d : AllDisjoint xs ys) where
    pub later : entries s'.book.orders ys ≡ entries s.book.orders ys
    later = entries-others ys v a' (AllDisjoint-sym xs ys d)

    pub kept-ys : AllDisjoint kept ys
    kept-ys =
        AllDisjoint-sym ys kept (AllDisjoint-keeps xs kept ys v.keeps (AllDisjoint-sym xs ys d))

    pub earlier : entries s''.book.orders kept ≡ entries s'.book.orders kept
    earlier = entries-others kept v' (v.keeps taker a) kept-ys

    executions-both :
        executions (remaining_size (order_at s taker)) (entries s.book.orders (xs ++ ys))
        ≡ executions (remaining_size (order_at s taker)) (entries s.book.orders xs)
          ++ executions (remaining_size (order_at s' taker)) (entries s'.book.orders ys)
    executions-both = rw (map-append, executions-append, remaining-taker v, later)

    total-both :
        total (executions (remaining_size (order_at s taker)) (entries s.book.orders (xs ++ ys)))
        ≡ total (executions (remaining_size (order_at s taker)) (entries s.book.orders xs))
          + total (executions (remaining_size (order_at s' taker)) (entries s'.book.orders ys))
    total-both = rw (executions-both, total-append)

    pub Serves-append : Serves taker best_price (xs ++ ys) (kept ++ kept') s s''
    Serves-append = record {
      stay =
          entries-append s''.book.orders kept kept'
          ∙ ap₂ (◌++◌) (earlier ∙ v.stay) v'.stay
          ∙ rw (entries-append, leftovers-append, remaining-taker v, later);
      traded = cc (
        v'.traded,
        v.traded,
        v.filled.id,
        executions-both,
        deals_at-append (order_at s taker).id best_price
            (executions (remaining_size (order_at s taker)) (entries s.book.orders xs))
            (executions (remaining_size (order_at s' taker)) (entries s'.book.orders ys)),
        append_assoc (deals s.book.trades)
            (deals_at (order_at s taker).id best_price
              (executions (remaining_size (order_at s taker)) (entries s.book.orders xs)))
            (deals_at (order_at s taker).id best_price
              (executions (remaining_size (order_at s' taker)) (entries s'.book.orders ys))),
      );
      filled = ground (arith, total-both, v.filled, v'.filled);
      total_volume = omega (arith, total-both, v.total_volume, v'.total_volume);
      book = ground (arith, v.book, v'.book);
      range = v'.range;
      others =
          λ r ne b. let (b₁, b₂) = Avoids-append r xs ys b in v'.others r ne b₂ ∙ v.others r ne b₁;
      keeps = λ r b.
          let (b₁, b₂) = Avoids-append r xs ys b in
          append-Avoids r kept kept' (v.keeps r b₁) (v'.keeps r b₂);
      distinct =
          append-Distinct kept kept' v.distinct v'.distinct
            (AllDisjoint-keeps ys kept' kept v'.keeps kept-ys);
    }

module _ (clock : ℕ → ℕ) (taker best_price : ℕ) where
  pub match_orders-Serves :
      (xs : List ℕ) (s : Run)
      → HeapInRange s.book.orders
      → Avoids taker xs
      → Distinct xs
      → Serves taker best_price xs
          (match_orders clock taker best_price xs s).0
          s
          (match_orders clock taker best_price xs s).1
  match_orders-Serves xs s w a d = record {
    stay = match_orders-leftovers clock taker best_price xs s w a d;
    traded = match_orders-executions clock taker best_price xs s w a d;
    filled = match_orders-taker clock taker best_price xs s w a d;
    total_volume = (match_orders-volumes clock taker best_price xs s w a d).total_volume;
    book = match_orders-book clock taker best_price xs s;
    range = match_orders-range clock taker best_price xs s w;
    others = match_orders-others clock taker best_price xs s;
    keeps = match_orders-Avoids clock taker best_price xs s;
    distinct = match_orders-Distinct clock taker best_price xs s d;
  }
