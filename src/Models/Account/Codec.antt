-- ===== src/Models/Account/Codec.antt =====
-- The encoding of accounts loses nothing, and short data is refused.
use onchain_exchange_homewor.Prelude.{
  ℕ, ◌<◌, ◌≤◌, ◌≡◌, some, none, inl, inr, ◌⊎◌, Bool-cases, List, ◌++◌, arith, length, length-append,
  ltb, take, All,
}
use mathlib.Core.List.{append_assoc}
use onchain_exchange_homewor.Models.Bytes.{
  IsByte, numbers, length-put_be, get_be-put_be, take-put_be, drop-put_be, take-append, drop-append,
  rewrite_field, rewrite_bytes, one_field, HasBytes,
}
use onchain_exchange_homewor.Models.Account.{Account, serialize, read_account, deserialize}

-- The fields fit their Go types.
pub record IsAccount (a : Account) : Type 0 where
  pub public_key : length a.public_key ≡ 32
  pub uid : a.uid < numbers 8
  pub key : length a.key ≡ 8
  pub email_hash : a.email_hash < numbers 8
  pub status : a.status < numbers 1

length-serialize : (a : Account) → IsAccount a → length (serialize a) ≡ 57
unfolding serialize
length-serialize a h = simp (length-append, length-put_be, h.public_key, h.key)

read_account-serialize :
    (a : Account) (extra : List ℕ) → IsAccount a → read_account (serialize a ++ extra) ≡ a
unfolding serialize read_account
read_account-serialize a extra h = simp (
  append_assoc,
  take-put_be,
  drop-put_be,
  take-append a.public_key _ 32 h.public_key,
  drop-append a.public_key _ 32 h.public_key,
  get_be-put_be 8 a.uid h.uid,
  take-append a.key _ 8 h.key,
  drop-append a.key _ 8 h.key,
  get_be-put_be 8 a.email_hash h.email_hash,
  get_be-put_be 1 a.status h.status,
)

serialize-read_account :
    (bytes : List ℕ) → HasBytes 57 bytes → serialize (read_account bytes) ≡ take 57 bytes
unfolding serialize read_account
serialize-read_account bytes h = rewrite_bytes 32 25 bytes h λ h.
    rewrite_field 8 17 _ h
      λ h. rewrite_bytes 8 9 _ h λ h. rewrite_field 8 1 _ h λ h. one_field 1 _ h

-- A value whose fields fit their types is read back from its encoding, also with other bytes
-- behind it.
pub deserialize-serialize :
    (a : Account) (extra : List ℕ) → IsAccount a → deserialize (serialize a ++ extra) ≡ some a
unfolding deserialize
deserialize-serialize a extra h = ground (
  arith,
  read_account-serialize a extra h,
  length-append (serialize a) extra,
  length-serialize a h,
)

-- `Deserialize` fails exactly on less than 57 bytes, and whatever it reads is encoded as the
-- first 57 of the bytes that it was read from.
pub serialize-deserialize :
    (bytes : List ℕ)
    → All IsByte bytes
    → ((deserialize bytes ≡ none) × (length bytes < 57))
      ⊎ ((a : Account) × (deserialize bytes ≡ some a)
          × (57 ≤ length bytes)
          × (serialize a ≡ take 57 bytes))
unfolding deserialize
serialize-deserialize bytes ok = elim (Bool-cases (ltb (length bytes) 57)) [
  | inl short ↦ inl (rw short, ground arith)
  | inr long ↦
      inr
        (read_account bytes, rw long, ground arith, serialize-read_account bytes (ok, ground arith))
]
