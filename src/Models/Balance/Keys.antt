-- ===== src/Models/Balance/Keys.antt =====
-- Which balances have the same key, and what the hash of a balance depends on.
use std.Logic.{◌↔◌}
use onchain_exchange_homewor.Prelude.{ℕ, ◌%◌, ◌<◌, ◌≡◌, sym, ap, ◌∙◌, arith}
use onchain_exchange_homewor.Models.Bytes.{
  put_be, numbers, put_be-cancel, append-cancel, put_be-append,
}
use onchain_exchange_homewor.Models.Balance.{Balance, id_of, new_balance, hash_input}
use onchain_exchange_homewor.Models.Balance.Codec.{IsBalance}

-- Two balances that `NewBalance` makes for assets below 2 ^ 32 have the same key exactly if they are
-- of the same asset and their users differ by a multiple of 2 ^ 32.
pub new_balance-key :
    (u a u' a' available locked available' locked' : ℕ)
    → a < numbers 4
    → a' < numbers 4
    → ((new_balance u a available locked).key ≡ (new_balance u' a' available' locked').key)
      ↔ ((u % numbers 4 ≡ u' % numbers 4) × (a ≡ a'))
unfolding new_balance id_of
new_balance-key u a u' a' available locked available' locked' q q' = (apart, together)
  where
    apart :
        put_be 8 (id_of u a) ≡ put_be 8 (id_of u' a') → (u % numbers 4 ≡ u' % numbers 4) × (a ≡ a')
    apart e =
        let same : id_of u a ≡ id_of u' a' =
          put_be-cancel 8 (id_of u a) (id_of u' a') (omega arith) (omega arith) e in
        (omega (arith, same), omega (arith, same))

    together :
        (u % numbers 4 ≡ u' % numbers 4) × (a ≡ a') → put_be 8 (id_of u a) ≡ put_be 8 (id_of u' a')
    together (e, f) = ap (put_be 8) (omega (arith, e, f))

-- Balances whose fields fit their types are hashed from the same bytes only if they are equal.
pub hash_input-injective :
    (b b' : Balance) → IsBalance b → IsBalance b' → hash_input b ≡ hash_input b' → b ≡ b'
unfolding hash_input
hash_input-injective b b' h h' e =
    let (k, e₁) = append-cancel b.key b'.key (h.key ∙ sym h'.key) e in
    let (u, e₂) = put_be-append 8 h.user_id h'.user_id e₁ in
    let (a, e₃) = put_be-append 4 h.asset_id h'.asset_id e₂ in
    let (v, e₄) = put_be-append 8 h.available h'.available e₃ in
    let l = put_be-cancel 8 b.locked b'.locked h.locked h'.locked e₄ in cc
