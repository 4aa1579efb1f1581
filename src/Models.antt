-- ===== src/Models.antt =====
-- The records of mt-manager/models: accounts, balances, orders and transactions, with their keys,
-- what is hashed of them and their encoding.
pub mod Bytes
pub mod Account
pub mod Balance
pub mod Order
pub mod Transaction
mod Tests
