-- ===== src/Server.antt =====
-- The requests that change the state (matchengine/me_server.c: `on_cmd_balance_update`,
-- `on_cmd_order_put_limit`, `on_cmd_order_put_market`, `on_cmd_order_cancel`), and the operation log
-- that they write (me_operlog.c, `append_operlog`). A request stands with its parameters read: the
-- integers as the C types hold them, and each decimal as `mpd_set_string` reads it. The queries read
-- the state only.
pub mod Requests
pub mod Depth
pub mod Levels
pub mod Queries
