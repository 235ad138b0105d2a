-- ===== src/Balance.antt =====
-- The user balances of matchengine/me_balance.c: the asset dictionary, the balance dictionary, and
-- the operations on them. A function that returns a pointer into the dictionary returns the value;
-- `NULL` is `none`.
pub mod Defs
pub mod Errors
pub mod Funds
pub mod Moves
pub mod RoundTrip
pub mod Debit
