-- ===== src/Models/Balance/Codec.antt =====
-- The encoding of balances loses nothing, and short data is refused.
use onchain_exchange_homewor.Prelude.{
  ℕ, ◌<◌, ◌≤◌, ◌≡◌, refl, some, none, inl, inr, ◌⊎◌, Bool-cases, List, ◌++◌, arith, length,
  length-append, ltb, take, All,
}
use mathlib.Core.List.{append_assoc}
use onchain_exchange_homewor.Models.Bytes.{
  IsByte, numbers, length-put_be, get_be-put_be, take-put_be, drop-put_be, take-append,
  rewrite_field, HasBytes,
}
use onchain_exchange_homewor.Models.Balance.{Balance, serialize, read_balance, deserialize}

-- The fields fit their Go types.
pub record IsBalance (b : Balance) : Type 0 where
  pub user_id : b.user_id < numbers 8
  pub asset_id : b.asset_id < numbers 4
  pub available : b.available < numbers 8
  pub locked : b.locked < numbers 8
  pub key : length b.key ≡ 8

length-serialize : (b : Balance) → IsBalance b → length (serialize b) ≡ 36
unfolding serialize
length-serialize b h = simp (length-append, length-put_be, h.key)

read_balance-serialize :
    (b : Balance) (extra : List ℕ) → IsBalance b → read_balance (serialize b ++ extra) ≡ b
unfolding serialize read_balance
read_balance-serialize b extra h = simp (
  append_assoc,
  take-put_be,
  drop-put_be,
  take-append b.key extra 8 h.key,
  get_be-put_be 8 b.user_id h.user_id,
  get_be-put_be 4 b.asset_id h.asset_id,
  get_be-put_be 8 b.available h.available,
  get_be-put_be 8 b.locked h.locked,
)

serialize-read_balance :
    (bytes : List ℕ) → HasBytes 36 bytes → serialize (read_balance bytes) ≡ take 36 bytes
unfolding serialize read_balance
serialize-read_balance bytes h =
    rewrite_field 8 28 bytes h
      λ h. rewrite_field 4 24 _ h λ h. rewrite_field 8 16 _ h λ h. rewrite_field 8 8 _ h λ _. refl

-- A balance whose fields fit their types is read back from its encoding, also with other bytes
-- behind it.
pub deserialize-serialize :
    (b : Balance) (extra : List ℕ) → IsBalance b → deserialize (serialize b ++ extra) ≡ some b
unfolding deserialize
deserialize-serialize b extra h = ground (
  arith,
  read_balance-serialize b extra h,
  length-append (serialize b) extra,
  length-serialize b h,
)

-- `Deserialize` fails exactly on less than 36 bytes, and whatever it reads is encoded as the first
-- 36 of the bytes that it was read from.
pub serialize-deserialize :
    (bytes : List ℕ)
    → All IsByte bytes
    → ((deserialize bytes ≡ none) × (length bytes < 36))
      ⊎ ((b : Balance) × (deserialize bytes ≡ some b)
          × (36 ≤ length bytes)
          × (serialize b ≡ take 36 bytes))
unfolding deserialize
serialize-deserialize bytes ok = elim (Bool-cases (ltb (length bytes) 36)) [
  | inl short ↦ inl (rw short, ground arith)
  | inr long ↦
      inr
        (read_balance bytes, rw long, ground arith, serialize-read_balance bytes (ok, ground arith))
]
