-- ===== src/Models/Order/Codec.antt =====
-- The encoding of orders loses nothing, and short data is refused.
use onchain_exchange_homewor.Prelude.{
  ℕ, ◌<◌, ◌≤◌, ◌≡◌, refl, some, none, inl, inr, ◌⊎◌, Bool-cases, List, ◌++◌, arith, length,
  length-append, ltb, take, All,
}
use mathlib.Core.List.{append_assoc}
use onchain_exchange_homewor.Models.Bytes.{
  IsByte, numbers, length-put_be, get_be-put_be, take-put_be, drop-put_be, take-append,
  rewrite_field, HasBytes,
}
use onchain_exchange_homewor.Models.Order.{Order, serialize, read_order, deserialize}

-- The fields fit their Go types.
pub record IsOrder (o : Order) : Type 0 where
  pub order_id : o.order_id < numbers 8
  pub user_id : o.user_id < numbers 8
  pub symbol : o.symbol < numbers 4
  pub price : o.price < numbers 8
  pub quantity : o.quantity < numbers 8
  pub filled : o.filled < numbers 8
  pub side : o.side < numbers 1
  pub order_type : o.order_type < numbers 1
  pub timestamp : o.timestamp < numbers 8
  pub key : length o.key ≡ 8

length-serialize : (o : Order) → IsOrder o → length (serialize o) ≡ 62
unfolding serialize
length-serialize o h = simp (length-append, length-put_be, h.key)

read_order-serialize :
    (o : Order) (extra : List ℕ) → IsOrder o → read_order (serialize o ++ extra) ≡ o
unfolding serialize read_order
read_order-serialize o extra h = simp (
  append_assoc,
  take-put_be,
  drop-put_be,
  get_be-put_be 8 o.order_id h.order_id,
  get_be-put_be 8 o.user_id h.user_id,
  get_be-put_be 4 o.symbol h.symbol,
  get_be-put_be 8 o.price h.price,
  get_be-put_be 8 o.quantity h.quantity,
  get_be-put_be 8 o.filled h.filled,
  get_be-put_be 1 o.side h.side,
  get_be-put_be 1 o.order_type h.order_type,
  get_be-put_be 8 o.timestamp h.timestamp,
  take-append o.key extra 8 h.key,
)

serialize-read_order :
    (bytes : List ℕ) → HasBytes 62 bytes → serialize (read_order bytes) ≡ take 62 bytes
unfolding serialize read_order
serialize-read_order bytes h = rewrite_field 8 54 bytes h λ h. rewrite_field 8 46 _ h λ h.
    rewrite_field 4 42 _ h λ h. rewrite_field 8 34 _ h λ h. rewrite_field 8 26 _ h λ h.
      rewrite_field 8 18 _ h
        λ h. rewrite_field 1 17 _ h λ h. rewrite_field 1 16 _ h λ h. rewrite_field 8 8 _ h λ h. refl

-- An order whose fields fit their types is read back from its encoding, also with other bytes
-- behind it.
pub deserialize-serialize :
    (o : Order) (extra : List ℕ) → IsOrder o → deserialize (serialize o ++ extra) ≡ some o
unfolding deserialize
deserialize-serialize o extra h =
    ground (
      arith,
      read_order-serialize o extra h,
      length-append (serialize o) extra,
      length-serialize o h,
    )

-- `Deserialize` fails exactly on less than 62 bytes, and whatever it reads is encoded as the
-- first 62 of the bytes that it was read from.
pub serialize-deserialize :
    (bytes : List ℕ)
    → All IsByte bytes
    → ((deserialize bytes ≡ none) × (length bytes < 62))
      ⊎ ((o : Order) × (deserialize bytes ≡ some o)
          × (62 ≤ length bytes)
          × (serialize o ≡ take 62 bytes))
unfolding deserialize
serialize-deserialize bytes ok = elim (Bool-cases (ltb (length bytes) 62)) [
  | inl short ↦ inl (rw short, ground arith)
  | inr long ↦
      inr (read_order bytes, rw long, ground arith, serialize-read_order bytes (ok, ground arith))
]
