-- ===== src/Models/Account.antt =====
-- mt-manager/models/account.go: an account and its encoding in 57 bytes. `Status` is a byte.
pub mod Codec
use onchain_exchange_homewor.Prelude.{
  ℕ, Option, none, some, List, ◌++◌, ltb, if◌then◌else◌, length, take, drop,
}
use onchain_exchange_homewor.Models.Bytes.{put_be, get_be}
use Prim.Native.Nat.{bit_xor}

pub record Account : Type 0 where
  pub public_key : List ℕ
  pub uid : ℕ
  pub key : List ℕ
  pub email_hash : ℕ
  pub status : ℕ

-- `NewAccount`, with the public key that `rand.Read` gives.
unfoldable pub new_account : ℕ → ℕ → List ℕ → Account
new_account uid status random = record {
  public_key = random;
  uid = uid;
  key = put_be 8 uid;
  email_hash = bit_xor uid 0xCAFEBABE;
  status = status;
}

-- The bytes that `Hash` writes to Blake3.
unfoldable pub hash_input : Account → List ℕ
hash_input a = a.key ++ (put_be 8 a.email_hash ++ (put_be 1 a.status ++ a.public_key))

-- `Serialize`: `byte(x)` and an item of a `[]byte` are numbers of one byte.
unfoldable pub serialize : Account → List ℕ
serialize a =
    a.public_key ++ (put_be 8 a.uid ++ (a.key ++ (put_be 8 a.email_hash ++ (put_be 1 a.status))))

-- What `Deserialize` reads behind its check; each `drop` is a step of `offset`.
unfoldable pub read_account : List ℕ → Account
read_account bytes =
    let at_uid = drop 32 bytes in
    let at_key = drop 8 at_uid in
    let at_email_hash = drop 8 at_key in
    let at_status = drop 8 at_email_hash in
    record {
      public_key = take 32 bytes;
      uid = get_be 0 (take 8 at_uid);
      key = take 8 at_key;
      email_hash = get_be 0 (take 8 at_email_hash);
      status = get_be 0 (take 1 at_status);
    }

-- `Deserialize`; `none` is the error.
unfoldable pub deserialize : List ℕ → Option Account
deserialize bytes = if ltb (length bytes) 57 then none else some (read_account bytes)
