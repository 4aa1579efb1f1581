-- ===== src/OrderBook/Tests.antt =====
-- Inputs for the tests of the order book: a book with two asks at 100 and one at 101, and a buyer.
mod Books
mod Trading
mod Upkeep
