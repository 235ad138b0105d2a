-- ===== src/Prices.antt =====
-- The market prices of marketprice/: candles per second, minute, hour and day from the deals of the
-- matching engine, and the queries on them.
pub mod Kline
pub mod Feed
pub mod Query
pub mod Status
pub mod Month
pub mod Candle
pub mod Bounds
pub mod Deals
pub mod Windows
pub mod Rows
pub mod Charts
pub mod Today
pub mod Recent
pub mod Endless
pub mod Requests
pub mod Served
