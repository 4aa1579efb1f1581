-- ===== src/State/Drain.antt =====
-- The writes of v2-tx-pipeline/state/state.go reach the database.
use onchain_exchange_homewor.Prelude.{
  ℕ, ◌<◌, List, [], ◌∷◌, ◌++◌, if◌then◌else◌, ltb, leb, length, lookup, All, ◌≡◌, refl, sym, ap,
  ◌∙◌, Map,
}
use mathlib.Core.Path.{subst}
use onchain_exchange_homewor.Models.Bytes.{numbers}
use onchain_exchange_homewor.SparseTree.Types.{find}
use onchain_exchange_homewor.State.{
  Order, order_key, WriteTask, State, sent, taken, take_out, send, write_task, write_tick,
  commit_batch,
}
use onchain_exchange_homewor.State.Mirror.{
  pending, stored, Event, send_event, write_event, tick_event, happen_all, IsInOrder, either, start,
  happen_all-IsMirrored, settled-empty,
}

-- The writer takes what the channel holds, then what each goroutine sends, and commits at a tick.
abbrev pub drain_sends : List WriteTask → List Event
drain_sends [] = tick_event ∷ []
drain_sends (t ∷ ts) = send_event 0 ∷ write_event ∷ drain_sends ts

abbrev pub drain_writes : List WriteTask → List WriteTask → List Event
drain_writes [] sending = drain_sends sending
drain_writes (t ∷ ts) sending = write_event ∷ drain_writes ts sending

abbrev pub drain : State → List Event
drain s = drain_writes s.write_ch s.sending

drain_sends-IsInOrder : (ts : List WriteTask) → All IsInOrder (drain_sends ts)
drain_sends-IsInOrder [] = (tt, tt)
drain_sends-IsInOrder (t ∷ ts) = (refl, (tt, drain_sends-IsInOrder ts))

drain_writes-IsInOrder : (ts us : List WriteTask) → All IsInOrder (drain_writes ts us)
drain_writes-IsInOrder [] us = drain_sends-IsInOrder us
drain_writes-IsInOrder (t ∷ ts) us = (tt, drain_writes-IsInOrder ts us)

-- What the channel and the goroutines hold, and the orders.
abbrev Holds : List WriteTask → List WriteTask → Map Order → State → Type 0
Holds ts us orders s = (s.write_ch ≡ ts) × (s.sending ≡ us) × (s.orders ≡ orders)

taken-Holds :
    (t : WriteTask) (ts us : List WriteTask) (orders : Map Order) (s : State)
    → (s.sending ≡ us) × (s.orders ≡ orders)
    → Holds ts us orders (taken s (t ∷ ts))
taken-Holds t ts us orders s (e, f) =
    let batch = s.batch ++ (t ∷ []) in
    let next : State = record s { write_ch = ts; batch = batch } in
    either (Holds ts us orders) (leb 8192 (length batch)) (commit_batch next) next (refl, e, f)
      (refl, e, f)

write_task-Holds :
    (t : WriteTask) (ts us : List WriteTask) (orders : Map Order) (s : State)
    → Holds (t ∷ ts) us orders s
    → Holds ts us orders (write_task s)
unfolding write_task
write_task-Holds t ts us orders s (c, e, f) =
    subst (λ l. Holds ts us orders (taken s l)) (sym c) (taken-Holds t ts us orders s (e, f))

send-Holds :
    (t : WriteTask) (us : List WriteTask) (orders : Map Order) (s : State)
    → Holds [] (t ∷ us) orders s
    → Holds (t ∷ []) us orders (send 0 s)
unfolding send
send-Holds t us orders s (c, e, f) =
    subst
      (λ l.
        Holds (t ∷ []) us orders
          (if ltb (length l) 0x40000 then sent s (take_out 0 s.sending) else s))
      (sym c)
      (subst (λ l. Holds (t ∷ []) us orders (sent s (take_out 0 l))) (sym e)
        (ap (λ l. l ++ (t ∷ [])) c, refl, f))

-- Nothing is on its way.
abbrev IsDrained : Map Order → State → Type 0
IsDrained orders s = (pending s ≡ []) × (s.orders ≡ orders)

drain_sends-IsDrained :
    (us : List WriteTask) (orders : Map Order) (s : State)
    → Holds [] us orders s
    → IsDrained orders (happen_all (drain_sends us) s)
unfolding write_tick
drain_sends-IsDrained [] orders s (c, e, f) = (ap (λ l. l ++ s.sending) c ∙ e, f)
drain_sends-IsDrained (t ∷ us) orders s h =
    drain_sends-IsDrained us orders (write_task (send 0 s))
      (write_task-Holds t [] us orders (send 0 s) (send-Holds t us orders s h))

drain_writes-IsDrained :
    (ts us : List WriteTask) (orders : Map Order) (s : State)
    → Holds ts us orders s
    → IsDrained orders (happen_all (drain_writes ts us) s)
drain_writes-IsDrained [] us orders s h = drain_sends-IsDrained us orders s h
drain_writes-IsDrained (t ∷ ts) us orders s h =
    drain_writes-IsDrained ts us orders (write_task s) (write_task-Holds t ts us orders s h)

-- From an empty state and database, after any updates, cancellations, sends in the order in which
-- the goroutines were started, writes, ticks and roots: when the writer then takes all that is on its
-- way and its timer ticks, nothing is on its way, and the database holds under the key of every
-- 64-bit ID the order that was in memory, and nothing if there was none.
pub find-drain :
    (es : List Event) (id : ℕ)
    → All IsInOrder es
    → id < numbers 8
    → let s = happen_all es start in
      let final = happen_all (drain s) s in
      (pending final ≡ []) × (find (order_key id) final.db ≡ stored (lookup id s.orders))
find-drain es id in_order h =
    let s = happen_all es start in
    let final = happen_all (drain s) s in
    let (empty, same) = drain_writes-IsDrained s.write_ch s.sending s.orders s (refl, refl, refl) in
    let mirrored = happen_all-IsMirrored es start id in_order h refl in
    let later =
      happen_all-IsMirrored (drain s) s id (drain_writes-IsInOrder s.write_ch s.sending) h
        mirrored in
    (
      empty,
      sym (settled-empty final (order_key id) empty) ∙ later ∙ ap (λ m. stored (lookup id m)) same,
    )
