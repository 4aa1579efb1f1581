-- ===== src/Models/Order.antt =====
-- mt-manager/models/order.go: an order of a tree, its fill, and its encoding in 62 bytes. `Side`
-- and `Type` are bytes, of which the constants name the first; `Timestamp` is its bit pattern.
pub mod Codec
pub mod Fill
use onchain_exchange_homewor.Prelude.{
  ℕ, ◌-◌, Bool, Option, none, some, List, ◌++◌, ltb, leb, if◌then◌else◌, length, take, drop,
}
use onchain_exchange_homewor.Models.Bytes.{put_be, get_be}

pub record Order : Type 0 where
  pub order_id : ℕ
  pub user_id : ℕ
  pub symbol : ℕ
  pub price : ℕ
  pub quantity : ℕ
  pub filled : ℕ
  pub side : ℕ
  pub order_type : ℕ
  pub timestamp : ℕ
  pub key : List ℕ

-- `NewOrder`
unfoldable pub new_order : ℕ → ℕ → ℕ → ℕ → ℕ → ℕ → ℕ → Order
new_order order_id user_id symbol price quantity side order_type = record {
  order_id = order_id;
  user_id = user_id;
  symbol = symbol;
  price = price;
  quantity = quantity;
  filled = 0;
  side = side;
  order_type = order_type;
  timestamp = 0;
  key = put_be 8 order_id;
}

-- `IsFilled`
unfoldable pub is_filled : Order → Bool
is_filled o = leb o.quantity o.filled

-- `RemainingQuantity`
unfoldable pub remaining_quantity : Order → ℕ
remaining_quantity o = if leb o.quantity o.filled then 0 else o.quantity - o.filled

-- The bytes that `Hash` writes to Blake3.
unfoldable pub hash_input : Order → List ℕ
hash_input o =
    o.key
    ++ (put_be 8 o.user_id
        ++ (put_be 4 o.symbol
            ++ (put_be 8 o.price
                ++ (put_be 8 o.quantity
                    ++ (put_be 8 o.filled
                        ++ (put_be 1 o.side ++ (put_be 1 o.order_type ++ put_be 8 o.timestamp)))))))

-- `Serialize`: `byte(x)` and an item of a `[]byte` are numbers of one byte.
unfoldable pub serialize : Order → List ℕ
serialize o =
    put_be 8 o.order_id
    ++ (put_be 8 o.user_id
        ++ (put_be 4 o.symbol
            ++ (put_be 8 o.price
                ++ (put_be 8 o.quantity
                    ++ (put_be 8 o.filled
                        ++ (put_be 1 o.side
                            ++ (put_be 1 o.order_type ++ (put_be 8 o.timestamp ++ (o.key)))))))))

-- What `Deserialize` reads behind its check; each `drop` is a step of `offset`.
unfoldable pub read_order : List ℕ → Order
read_order bytes =
    let at_user_id = drop 8 bytes in
    let at_symbol = drop 8 at_user_id in
    let at_price = drop 4 at_symbol in
    let at_quantity = drop 8 at_price in
    let at_filled = drop 8 at_quantity in
    let at_side = drop 8 at_filled in
    let at_order_type = drop 1 at_side in
    let at_timestamp = drop 1 at_order_type in
    let at_key = drop 8 at_timestamp in
    record {
      order_id = get_be 0 (take 8 bytes);
      user_id = get_be 0 (take 8 at_user_id);
      symbol = get_be 0 (take 4 at_symbol);
      price = get_be 0 (take 8 at_price);
      quantity = get_be 0 (take 8 at_quantity);
      filled = get_be 0 (take 8 at_filled);
      side = get_be 0 (take 1 at_side);
      order_type = get_be 0 (take 1 at_order_type);
      timestamp = get_be 0 (take 8 at_timestamp);
      key = take 8 at_key;
    }

-- `Deserialize`; `none` is the error.
unfoldable pub deserialize : List ℕ → Option Order
deserialize bytes = if ltb (length bytes) 62 then none else some (read_order bytes)
