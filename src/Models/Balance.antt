-- ===== src/Models/Balance.antt =====
-- mt-manager/models/balance.go: a balance, its ID and key, and its encoding in 36 bytes.
pub mod Codec
pub mod Keys
use onchain_exchange_homewor.Prelude.{
  ℕ, ◌+◌, ◌*◌, ◌%◌, Bool, Option, none, some, List, ◌++◌, ltb, leb, if◌then◌else◌, add64, u64_mod,
  length, take, drop,
}
use onchain_exchange_homewor.Models.Bytes.{put_be, get_be}

pub record Balance : Type 0 where
  pub user_id : ℕ
  pub asset_id : ℕ
  pub available : ℕ
  pub locked : ℕ
  pub key : List ℕ

-- `(userID << 32) | uint64(assetID)`: the shift clears the low bits, so the `|` is a sum.
unfoldable pub id_of : ℕ → ℕ → ℕ
id_of user_id asset_id = user_id * 0x100000000 % u64_mod + asset_id

-- `ID`
unfoldable pub balance_id : Balance → ℕ
balance_id b = id_of b.user_id b.asset_id

-- `NewBalance`
unfoldable pub new_balance : ℕ → ℕ → ℕ → ℕ → Balance
new_balance user_id asset_id available locked = record {
  user_id = user_id;
  asset_id = asset_id;
  available = available;
  locked = locked;
  key = put_be 8 (id_of user_id asset_id);
}

-- `TotalBalance`
unfoldable pub total_balance : Balance → ℕ
total_balance b = add64 b.available b.locked

-- `CanWithdraw`
unfoldable pub can_withdraw : Balance → ℕ → Bool
can_withdraw b amount = leb amount b.available

-- `Serialize`
unfoldable pub serialize : Balance → List ℕ
serialize b =
    put_be 8 b.user_id
    ++ (put_be 4 b.asset_id ++ (put_be 8 b.available ++ (put_be 8 b.locked ++ b.key)))

-- What `Deserialize` reads behind its check; each `drop` is a step of `offset`.
unfoldable pub read_balance : List ℕ → Balance
read_balance bytes =
    let at_asset = drop 8 bytes in
    let at_available = drop 4 at_asset in
    let at_locked = drop 8 at_available in
    let at_key = drop 8 at_locked in
    record {
      user_id = get_be 0 (take 8 bytes);
      asset_id = get_be 0 (take 4 at_asset);
      available = get_be 0 (take 8 at_available);
      locked = get_be 0 (take 8 at_locked);
      key = take 8 at_key;
    }

-- `Deserialize`; `none` is the error.
unfoldable pub deserialize : List ℕ → Option Balance
deserialize bytes = if ltb (length bytes) 36 then none else some (read_balance bytes)

-- The bytes that `Hash` writes to Blake3.
unfoldable pub hash_input : Balance → List ℕ
hash_input b =
    b.key
    ++ (put_be 8 b.user_id ++ (put_be 4 b.asset_id ++ (put_be 8 b.available ++ put_be 8 b.locked)))

-- `Hash`, for a hash function on bytes.
unfoldable pub hash : (List ℕ → List ℕ) → Balance → List ℕ
unfolding hash_input
hash blake3 b = blake3 (hash_input b)
