-- ===== src/Models/Order/Fill.antt =====
-- What is left of an order, and what its hash depends on.
use onchain_exchange_homewor.Prelude.{◌+◌, ◌≤◌, ◌≡◌, true, ◌∙◌, sym, arith}
use mathlib.Core.Logic.{◌↔◌}
use onchain_exchange_homewor.Models.Bytes.{put_be-cancel, append-cancel, put_be-append}
use onchain_exchange_homewor.Models.Order.{Order, is_filled, remaining_quantity, hash_input}
use onchain_exchange_homewor.Models.Order.Codec.{IsOrder}

-- An order is filled exactly if nothing of it is left, and otherwise what is filled and what is
-- left are its quantity.
pub remaining_quantity-is_filled :
    (o : Order)
    → ((is_filled o ≡ true) ↔ (remaining_quantity o ≡ 0))
      × (o.filled ≤ o.quantity → o.filled + remaining_quantity o ≡ o.quantity)
unfolding is_filled remaining_quantity
remaining_quantity-is_filled o = ((λ e. ground arith, λ e. ground arith), λ h. ground arith)

-- Orders with equal IDs whose fields fit their types are hashed from the same bytes only if they
-- are equal.
pub hash_input-injective :
    (o o' : Order)
    → IsOrder o
    → IsOrder o'
    → o.order_id ≡ o'.order_id
    → hash_input o ≡ hash_input o'
    → o ≡ o'
unfolding hash_input
hash_input-injective o o' h h' same e =
    let (k, e₁) = append-cancel o.key o'.key (h.key ∙ sym h'.key) e in
    let (u, e₂) = put_be-append 8 h.user_id h'.user_id e₁ in
    let (s, e₃) = put_be-append 4 h.symbol h'.symbol e₂ in
    let (p, e₄) = put_be-append 8 h.price h'.price e₃ in
    let (q, e₅) = put_be-append 8 h.quantity h'.quantity e₄ in
    let (f, e₆) = put_be-append 8 h.filled h'.filled e₅ in
    let (d, e₇) = put_be-append 1 h.side h'.side e₆ in
    let (y, e₈) = put_be-append 1 h.order_type h'.order_type e₇ in
    let t = put_be-cancel 8 o.timestamp o'.timestamp h.timestamp h'.timestamp e₈ in cc
