-- ===== src/Prices/Kline.antt =====
-- marketprice/mp_kline.c: the candle of a span of time. Memory is not modelled: a candle that the
-- code copies or frees is a value.
use viabtc_server_mac.Prelude.{is_gt, is_lt, nat_eq, if◌then◌else◌}
use viabtc_server_mac.Platform.{Mpd}

module _ (M : Mpd) where
  open M use {Decimal, mpd_zero, cmp, add, mul}

  -- `struct kline_info`
  pub record Kline : Type 0 where
    pub «open» : Decimal
    pub close : Decimal
    pub high : Decimal
    pub low : Decimal
    pub volume : Decimal
    pub deal : Decimal

  unfoldable pub kline_info_new : Decimal → Kline
  kline_info_new price = record {
    «open» = price;
    close = price;
    high = price;
    low = price;
    volume = mpd_zero;
    deal = mpd_zero;
  }

  -- The larger and the smaller of a price and what stands there.
  unfoldable pub raise : Decimal → Decimal → Decimal
  raise high price = if is_gt (cmp price high) then price else high

  unfoldable pub sink : Decimal → Decimal → Decimal
  sink low price = if is_lt (cmp price low) then price else low

  unfoldable pub kline_info_update : Kline → Decimal → Decimal → Kline
  unfolding raise sink
  kline_info_update k price amount = record k {
    close = price;
    high = raise k.high price;
    low = sink k.low price;
    volume = add k.volume amount;
    deal = add k.deal (mul price amount);
  }

  unfoldable pub kline_info_merge : Kline → Kline → Kline
  unfolding raise sink
  kline_info_merge k u = record k {
    close = u.close;
    high = raise k.high u.high;
    low = sink k.low u.low;
    volume = add k.volume u.volume;
    deal = add k.deal u.deal;
  }
