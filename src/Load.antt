-- ===== src/Load.antt =====
-- Replaying the operation log at the start (matchengine/me_load.c): `load_update_balance`,
-- `load_limit_order`, `load_market_order`, `load_cancel_order`, `load_oper` and `load_operlog`.
-- A row holds its id and the operation; rows that do not parse are left out.
pub mod Rows
pub mod Follows
pub mod Recovery
pub mod Updates
pub mod Pages
pub mod Slices
pub mod Restored
