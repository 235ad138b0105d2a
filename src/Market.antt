-- ===== src/Market.antt =====
-- The matching engine's market (matchengine/me_market.c), the history rows (me_history.c) and the
-- messages (me_message.c) that it emits.
pub mod Order
pub mod Book
pub mod Trade
pub mod Settle
pub mod Exchanged
pub mod Match
pub mod Entry
pub mod Facts
pub mod Loop
pub mod Sides
pub mod Invariant
pub mod Beside
pub mod Uncrossed
pub mod Withdrawn
pub mod Rest
pub mod Enter
pub mod Replay
pub mod Refuse
pub mod Codes
pub mod Sell
pub mod Cancel
pub mod Affordable
