-- ===== src/Lib.antt =====
-- ViaBTC's exchange server. The matching engine: the accounts of its users, the order book with its
-- four matching loops, the requests that change them, and the recovery from the operation log. The
-- market prices: candles made of the deals, and the queries on them. The formats and buffers by which
-- the services talk.
--
-- The engine (matchengine/) is one process and one thread. A request comes to `svr_on_recv_pkg`
-- (me_server.c), which calls the handler of its command; the handlers check the parameters, call
-- `market_put_limit_order`, `market_put_market_order` or `market_cancel_order` (me_market.c) or
-- `update_user_balance` (me_update.c), and append the request to the operation log (me_operlog.c).
-- Those change the balances (me_balance.c) and report deals, orders and changes of balances to the
-- history and to the message queues. After a restart, me_load.c replays the operation log.
--
-- marketprice/ is a process that reads the deals from the engine's message queue: `market_update`
-- (mp_message.c) puts each into the candles (mp_kline.c) of its second, minute, hour and day, and the
-- queries make longer candles of these. All services exchange packets (utils/ut_rpc.c), whose bytes go
-- through the buffers of network/nw_buf.c.
--
--   Platform.antt  The code that is not in the repository: libmpdec's decimals (one context, rounding
--                  down) and the clock, as a record of operations `Mpd`. `Laws` holds what the proofs
--                  use of the decimals: an amount is a whole number of the smallest unit, sums and
--                  differences below the precision are exact, a rescale to a precision that the
--                  number already has changes nothing, and products grow with their factors.
--   Dict.antt      The hash table of utils/ut_dict.c as its clients see it: an association list. The
--                  order of its entries is not that of the code; only sums are taken over it.
--   HashTable.antt The hash table itself: chains of entries in a table of 2 ^ k of them, which doubles
--                  its size twice when it holds four entries a chain, and clears lazily: `id_clear` marks
--                  the ids that are void, and `dict_find` drops the void entries of the chain that it
--                  walks. `view` is the map that a table stands for. A `dict_entry *` is the entry as a
--                  value; whether an allocation succeeds is an argument.
--   SkipList.antt  The bottom level of utils/ut_skiplist.c, walked by the client's comparison.
--   Balance.antt   matchengine/me_balance.c. `Ledger` is `dict_asset` and `dict_balance`. A balance
--                  function returns its result (`none` is `NULL`) and the ledger. `move` is the body
--                  that `balance_freeze` and `balance_unfreeze` share.
--   Market.antt    matchengine/me_market.c. `Order` and `Market` are the structs; `Engine` holds the
--                  globals: `order_id_start`, `deals_id_start`, the clock's readings, the ledger and
--                  the events that were reported. An order stands in the book as a value: `orders`
--                  and `users` hold ids. A `Quote` is what the head of a matching loop decides about
--                  a maker, `trade_ask` and `trade_bid` are the bodies of the loops, `execute` is the
--                  loop over one side of the book.
--   Update.antt    matchengine/me_update.c, with `dict_update`.
--   Server.antt    The four commands of matchengine/me_server.c that change state, after their JSON
--                  was found to have the right shape, their dispatch in `svr_on_recv_pkg`, the depth of
--                  a market, `get_depth`, and the queries on orders.
--   Load.antt      matchengine/me_load.c: the replay of the operation log, and the slices of orders and
--                  balances that matchengine/me_dump.c writes to a database. `exec` and `select` are the
--                  queries, parameters; a row holds the numbers that its texts stand for.
--   Prices.antt    marketprice/: Kline (mp_kline.c), Feed, Query, Status and Month (mp_message.c),
--                  Requests (mp_server.c).
--                  `MarketInfo` is the struct. `IsCandle` says what the candle of a list of deals is,
--                  without a word of the code; `Answers` says so for the rows of a query.
--   Wire.antt      utils/ut_pack.c (Pack, Varint, Push), utils/ut_rpc.c (Rpc) and utils/ut_crc32.c (Crc).
--                  An `Out` is a destination that advances; a source is the list of its bytes.
--   Net.antt       network/nw_buf.c: buffers, pools and lists of buffers.
--
-- `real` is the parameter of that name in the code: false in a replay, which reports nothing. A
-- result `err n` stands for the negative result `-n`; where the code returns `-__LINE__`, `n` is a line
-- of that return.
-- Ids wrap at 2 ^ 64. A `string` of C is a `String`, a character for a byte.
--
-- The loop that lowers the amount of a market bid until it is affordable has no bound in the code. It
-- takes fuel here, and a run that exhausts it is `hung`: the process never answers, and nothing is
-- logged. Each pass lowers the amount by one step of the stock's precision, so the steps of the first
-- quotient bound the passes. The loop over months of
-- `get_market_kline_month` has no bound of its own and takes fuel too; a run that exhausts it is `none`.
-- The loop over the rows of the other queries takes a round for each second of the span and one more, and
-- a list of buffers is written in as many rounds as there are bytes and one more: each round takes one at
-- least. The pages of a slice are read with fuel, a round for each row and one more. `dict_next_power` gets 30 rounds, which reach every size that it can answer; one that it cannot
-- is `none`. `dict_next` gets two rounds for each chain and two more, `dict_clear` one for each entry and
-- one more. The other loops are structural.
--
-- Not modelled: the services that only forward requests or write to databases (accesshttp/, accessws/,
-- readhistory/, alertcenter/), Redis and Kafka around the market prices, sockets and sessions, the
-- pointer of a read that failed half-way, times before 1970, memory exhaustion, the JSON text of
-- requests and replies, and the threads that write to MySQL and Kafka. The padding of `struct
-- update_key` in marketprice/mp_message.c is taken to be equal in equal keys. That of the struct in
-- matchengine/me_update.c is part of its key: `Updates.padding` is what the stack holds in its place, and
-- no function of the model sets it.
pub mod Prelude
pub mod Platform
pub mod Dict
pub mod HashTable
pub mod SkipList
pub mod Balance
pub mod Market
pub mod Update
pub mod Server
pub mod Load
pub mod Wire
pub mod Prices
pub mod Net
mod Tests
