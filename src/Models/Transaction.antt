-- ===== src/Models/Transaction.antt =====
-- mt-manager/models/transaction.go: a transaction, its key and what is hashed of it. `Type` is a
-- byte, `Timestamp` its bit pattern.
use onchain_exchange_homewor.Prelude.{ℕ, ◌<◌, ◌≡◌, sym, ap, ◌∙◌, List, ◌++◌, length}
use onchain_exchange_homewor.Models.Bytes.{
  put_be, numbers, length-put_be, put_be-cancel, append-cancel, put_be-append,
}

pub record Transaction : Type 0 where
  pub tx_id : ℕ
  pub user_id : ℕ
  pub asset_id : ℕ
  pub amount : ℕ
  pub tx_type : ℕ
  pub timestamp : ℕ
  pub key : List ℕ

-- `NewTransaction`
unfoldable pub new_transaction : ℕ → ℕ → ℕ → ℕ → ℕ → ℕ → Transaction
new_transaction tx_id user_id asset_id amount tx_type timestamp = record {
  tx_id = tx_id;
  user_id = user_id;
  asset_id = asset_id;
  amount = amount;
  tx_type = tx_type;
  timestamp = timestamp;
  key = put_be 8 tx_id;
}

-- The bytes that `Hash` writes to Blake3.
unfoldable pub hash_input : Transaction → List ℕ
hash_input t =
    t.key
    ++ (put_be 8 t.user_id
        ++ (put_be 4 t.asset_id
            ++ (put_be 8 t.amount ++ (put_be 1 t.tx_type ++ put_be 8 t.timestamp))))

-- The arguments of `NewTransaction` fit their Go types.
pub record IsTransaction (t : Transaction) : Type 0 where
  pub tx_id : t.tx_id < numbers 8
  pub user_id : t.user_id < numbers 8
  pub asset_id : t.asset_id < numbers 4
  pub amount : t.amount < numbers 8
  pub tx_type : t.tx_type < numbers 1
  pub timestamp : t.timestamp < numbers 8
  pub key : t.key ≡ put_be 8 t.tx_id

-- Two transactions with the keys that `NewTransaction` gives, whose fields fit their types, are
-- hashed from the same bytes only if they are equal.
pub hash_input-injective :
    (t t' : Transaction)
    → IsTransaction t
    → IsTransaction t'
    → hash_input t ≡ hash_input t'
    → t ≡ t'
unfolding hash_input
hash_input-injective t t' h h' e =
    let (k, e₁) = append-cancel t.key t'.key (length_key t h ∙ sym (length_key t' h')) e in
    let i = put_be-cancel 8 t.tx_id t'.tx_id h.tx_id h'.tx_id (sym h.key ∙ k ∙ h'.key) in
    let (u, e₂) = put_be-append 8 h.user_id h'.user_id e₁ in
    let (a, e₃) = put_be-append 4 h.asset_id h'.asset_id e₂ in
    let (m, e₄) = put_be-append 8 h.amount h'.amount e₃ in
    let (y, e₅) = put_be-append 1 h.tx_type h'.tx_type e₄ in
    let s = put_be-cancel 8 t.timestamp t'.timestamp h.timestamp h'.timestamp e₅ in cc
  where
    length_key : (t : Transaction) → IsTransaction t → length t.key ≡ 8
    length_key t h = ap length h.key ∙ length-put_be 8 t.tx_id
