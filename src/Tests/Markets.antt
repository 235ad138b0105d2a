-- ===== src/Tests/Markets.antt =====
-- Orders, matching and updates at concrete inputs.
use viabtc_server_mac.Prelude.{List, ℕ, ◌≡◌, refl, true, false, [], ◌∷◌, arith, ◌⊎◌, is_lt}
use viabtc_server_mac.Tests.Platforms.{whole, whole_laws}
use viabtc_server_mac.Dict.{find}
use viabtc_server_mac.Prelude.{some, none}
use viabtc_server_mac.Balance.Defs.{Ledger, AssetType, balance_key}
use viabtc_server_mac.Market.Order.{Order, Market, Engine, ok, err}
use viabtc_server_mac.Market.Entry.{market_put_limit_order, lacks_funds}
use viabtc_server_mac.Market.Invariant.{IsBook}
use viabtc_server_mac.Market.Enter.{market_put_limit_order-IsBook}
use viabtc_server_mac.Market.Refuse.{limit_short, market_put_limit_order_codes}
use viabtc_server_mac.Update.{Updates, update_key, update_key_eq, update_user_balance}
use viabtc_server_mac.Update.Once.{changed, update_user_balance_codes}
use viabtc_server_mac.Update.Day.{Step, timer, stack, update, run, update_once}

abbrev pub coin : AssetType
coin = record { prec_save = 8; prec_show = 8 }

-- User 1 has stock, user 2 money; user 2's bid of 3 at 20 rests in the book.
abbrev pub engine : Engine whole
engine = record {
  order_id_start = 7;
  deals_id_start = 0;
  ticks = 0;
  ledger = record {
    assets = ("BTC", coin) ∷ ("CNY", coin) ∷ [];
    balances =
        (balance_key 1 1 "BTC", 50)
        ∷ (balance_key 2 1 "CNY", 900)
        ∷ (balance_key 2 2 "CNY", 60)
        ∷ [];
  };
  log = [];
}

abbrev pub resting : Order whole
resting = record {
  id = 6;
  type = 1;
  side = 2;
  create_time = 0;
  update_time = 0;
  user_id = 2;
  market = "BTCCNY";
  source = "web";
  price = 20;
  amount = 3;
  taker_fee = 0;
  maker_fee = 0;
  left = 3;
  freeze = 60;
  deal_stock = 0;
  deal_money = 0;
  deal_fee = 0;
}

abbrev pub market : Market whole
market = record {
  name = "BTCCNY";
  stock = "BTC";
  money = "CNY";
  stock_prec = 0;
  money_prec = 0;
  fee_prec = 0;
  min_amount = 1;
  orders = 6 ∷ [];
  users = (2, 6 ∷ []) ∷ [];
  asks = [];
  bids = resting ∷ [];
  loose = [];
}

pub market-IsBook : IsBook whole whole_laws 7 market
market-IsBook = record {
  asks_live = tt;
  bids_live = (record { price_amount = tt; left_amount = tt; left_pos = omega arith }, tt);
  asks_of = tt;
  bids_of = (record { is_limit = refl; on_side = refl; id_le = omega arith }, tt);
  asks_sorted = tt;
  bids_sorted = (tt, tt);
  uncrossed = tt;
}

-- An ask of 10 at 15 meets the bid, deals 3, and rests with 7.
market_put_limit_order-IsBook_example :
    IsBook whole whole_laws 8
      (market_put_limit_order whole true engine market 1 1 10 15 0 0 "web").market
market_put_limit_order-IsBook_example =
    market_put_limit_order-IsBook whole whole_laws true engine market 1 1 10 15 0 0 "web"
      market-IsBook (omega arith) tt tt

market_put_limit_order_codes_example :
    let r = market_put_limit_order whole true engine market 1 1 60 15 0 0 "web" in
    ((limit_short whole engine market 1 1 60 15 ≡ true)
      × (r.ret ≡ err 1)
      × (r.engine ≡ engine)
      × (r.market ≡ market))
    ⊎ ((limit_short whole engine market 1 1 60 15 ≡ false)
        × (is_lt (whole.cmp 60 market.min_amount) ≡ true)
        × (r.ret ≡ err 2)
        × (r.engine ≡ engine)
        × (r.market ≡ market))
    ⊎ ((limit_short whole engine market 1 1 60 15 ≡ false)
        × (is_lt (whole.cmp 60 market.min_amount) ≡ false)
        × (r.ret ≡ ok))
market_put_limit_order_codes_example =
    market_put_limit_order_codes whole true engine market 1 1 60 15 0 0 "web"

limit_run : (market_put_limit_order whole true engine market 1 1 10 15 0 0 "web").market.bids ≡ []
unfolding market_put_limit_order lacks_funds viabtc_server_mac.Balance.Defs.balance_get
    viabtc_server_mac.Dict.find viabtc_server_mac.Market.Match.execute_limit_ask_order
    viabtc_server_mac.Market.Trade.limit_ask_quote viabtc_server_mac.Market.Trade.trade_ask
    viabtc_server_mac.Market.Trade.close viabtc_server_mac.Market.Trade.common_amount
    viabtc_server_mac.Market.Book.order_put viabtc_server_mac.Market.Book.contains
    viabtc_server_mac.Market.Book.release viabtc_server_mac.Market.Book.dict_delete
    viabtc_server_mac.SkipList.skiplist_insert viabtc_server_mac.Dict.put
    viabtc_server_mac.Market.Book.put_side
limit_run = refl

abbrev pub updates : Updates whole
updates = record { engine = engine; updates = []; padding = 0 }

-- The timer and another update come in between.
abbrev between : List (Step whole)
between = timer ∷ stack 9 ∷ update true 2 "BTC" "deposit" 6 30 "{}" ∷ stack 0 ∷ []

update_once_example :
    let s' =
      run whole (update_user_balance whole true updates 1 "BTC" "deposit" 5 30 "{}").1 between in
    update_user_balance whole false s' 1 "BTC" "deposit" 5 40 "" ≡ (err 1, s')
unfolding update_user_balance viabtc_server_mac.Dict.find viabtc_server_mac.Balance.Defs.balance_add
    viabtc_server_mac.Balance.Defs.get_asset_type viabtc_server_mac.Balance.Defs.balance_get
update_once_example =
    update_once whole true false updates 1 "BTC" "deposit" 5 30 40 "{}" "" between refl (refl, tt)
      refl

update_user_balance_codes_example :
    let (r, s') = update_user_balance whole true updates 1 "ETH" "deposit" 5 30 "{}" in
    let seen = find (update_key 0 1 "ETH" "deposit" 5) updates.updates in
    let balances = changed whole engine.ledger 1 "ETH" 30 in
    ((t : ℕ) × (seen ≡ some t) × (r ≡ err 1) × (s' ≡ updates))
    ⊎ ((seen ≡ none) × (balances.0 ≡ none) × (r ≡ err 2) × (s' ≡ updates))
    ⊎ ((v : ℕ) × (seen ≡ none)
        × (balances.0 ≡ some v)
        × (r ≡ ok)
        × (s'.engine.ledger ≡ balances.1)
        × (find (update_key 0 1 "ETH" "deposit" 5) s'.updates
            ≡ some (whole.current_timestamp engine.ticks)))
update_user_balance_codes_example =
    update_user_balance_codes whole true updates 1 "ETH" "deposit" 5 30 "{}"
