-- ===== src/OrderBook.antt =====
-- The order book of verkle-orderbook/main.go.
pub mod Types
pub mod Orders
pub mod Prices
pub mod Matching
pub mod Entry
pub mod Cancel
pub mod Modify
pub mod History
pub mod Repair
pub mod Tree
pub mod Exact
mod Tests
