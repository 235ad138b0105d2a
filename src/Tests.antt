-- ===== src/Tests.antt =====
-- The theorems at concrete inputs, and runs of the definitions.
mod Platforms
mod Balances
mod Markets
mod Recoveries
mod Orders
mod Depths
mod Wires
mod Candles
mod Buffers
mod Tables
mod Deals
mod Slices
