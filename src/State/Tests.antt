-- ===== src/State/Tests.antt =====
-- Orders of v2-tx-pipeline/state/state.go that are set and cancelled.
use onchain_exchange_homewor.Prelude.{ℕ, none, some, List, [], ◌∷◌, ◌≡◌, refl, lookup, arith}
use onchain_exchange_homewor.SparseTree.Types.{find}
use onchain_exchange_homewor.MerkleTree.Types.{Hash, bytes_eq}
use onchain_exchange_homewor.Models.Bytes.{put_be}
use onchain_exchange_homewor.State.{
  Order, order_key, marshal_order, State, set_order, cancel_order, send, write_task, write_tick,
  save_root, compute_root,
}
use onchain_exchange_homewor.State.Mirror.{
  pending, stored, Event, set_event, cancel_event, send_event, write_event, tick_event, happen_all,
  start,
}
use onchain_exchange_homewor.State.Drain.{drain, find-drain}

abbrev order_7 : Order
order_7 = record { id = 7; instrument_id = 1; side = 0; price = 100; qty = 5 }

abbrev in_turn : List Event
in_turn = set_event order_7 ∷ send_event 0 ∷ cancel_event 7 ∷ write_event ∷ []

find-drain_example :
    let s = happen_all in_turn start in
    let final = happen_all (drain s) s in
    (pending final ≡ []) × (find (order_key 7) final.db ≡ stored (lookup 7 s.orders))
find-drain_example =
    find-drain in_turn 7 (omega arith, (refl, (omega arith, (tt, tt)))) (omega arith)

-- Where the goroutine of the cancellation sends first, the order comes back into the database.
abbrev out_of_turn : State
out_of_turn =
    happen_all
      (set_event order_7
        ∷ cancel_event 7
        ∷ send_event 1
        ∷ send_event 0
        ∷ write_event
        ∷ write_event
        ∷ tick_event
        ∷ [])
      start

cancelled_stays :
    (pending out_of_turn ≡ [])
    × (lookup 7 out_of_turn.orders ≡ none)
    × (find (order_key 7) out_of_turn.db ≡ some (marshal_order order_7))
unfolding set_order cancel_order send write_task write_tick bytes_eq put_be
cancelled_stays = (refl, refl, refl)

-- An order that is set while a root is computed is not in that root and not marked for the next.
abbrev set_between : (List ℕ → Hash) → State
set_between blake3 = save_root (blake3 []) (set_order order_7 start)

change_forgotten : (blake3 : List ℕ → Hash) → compute_root blake3 (set_between blake3) ≡ none
unfolding set_order save_root compute_root
change_forgotten blake3 = refl
