-- ===== src/Market/Exchanged.antt =====
-- One deal of the matching loops (me_market.c): what taker and maker have of the two assets after it.
use viabtc_server_mac.Prelude.{
  List, ◌&&◌, ℕ, ◌≡◌, refl, ap, ◌∙◌, Bool, some, String, is_gt, is_eq, false, true, Bool-cases, inl,
  inr, ◌==◌, nat_eq, string_eq, ◌+◌, ◌-◌, ◌≤◌, ◌<◌,
}
use viabtc_server_mac.Platform.{Mpd, Laws}
use viabtc_server_mac.Balance.Defs.{
  Ledger, AssetType, key_eq, get_asset_type, available_type, freeze_type,
}
use viabtc_server_mac.Balance.Moves.{Holds}
use viabtc_server_mac.Balance.Debit.{IsQuanta}
use viabtc_server_mac.Market.Order.{
  Order, Market, Engine, Event, note, append_order_history, push_order_message, event_finish,
  event_update,
}
use viabtc_server_mac.Market.Book.{release}
use viabtc_server_mac.Market.Trade.{close, begin_deal, trade_ask, trade_bid}
use viabtc_server_mac.Market.Settle.{
  settled, settle-ledger, settled_frame, settled-assets, settled_moves, same_asset, Holds-same,
  other_user,
}

module _ (M : Mpd) where
  note-ledger :
      (real : Bool) (events : List (Event M)) (e : Engine M)
      → (note M real events e).ledger ≡ e.ledger
  note-ledger true events e = refl
  note-ledger false events e = refl

  begin-ledger :
      (real : Bool) (events : List (Event M)) (e : Engine M)
      → (begin_deal M real events e).ledger ≡ e.ledger
  unfolding begin_deal
  begin-ledger true events e = refl
  begin-ledger false events e = refl

  -- A maker that the deal finishes has no frozen rest: nothing is given back to it.
  abbrev pub Spent : M.Decimal → M.Decimal → Type 0
  Spent left freeze = is_eq (M.cmp left M.mpd_zero) ≡ true → is_gt (M.cmp freeze M.mpd_zero) ≡ false

  release-ledger :
      (real : Bool) (e : Engine M) (m : Market M) (o : Order M)
      → is_gt (M.cmp o.freeze M.mpd_zero) ≡ false
      → (release M real e m o).engine.ledger ≡ e.ledger
  unfolding release
  release-ledger real e m o h =
      rw (h, release)
        (rw h (
          note-ledger (real && is_gt (M.cmp o.deal_stock M.mpd_zero)) (append_order_history M o)
            (record e { ledger = e.ledger })))

  close-ledger :
      (real : Bool) (e : Engine M) (m : Market M) (taker maker : Order M)
      → Spent maker.left maker.freeze
      → (close M real e m taker maker).engine.ledger ≡ e.ledger
  unfolding close release
  close-ledger real e m taker maker spent =
      elim (Bool-cases (is_eq (M.cmp maker.left M.mpd_zero))) [
        | inl finished ↦
            let told = note M real (push_order_message M event_finish maker m) e in
            rw (finished, close)
              (release-ledger real told m maker (spent finished)
                ∙ note-ledger real (push_order_message M event_finish maker m) e)
        | inr open_still ↦
            rw (open_still, close) (note-ledger real (push_order_message M event_update maker m) e)
      ]

  -- The ledger after a deal in which the taker sells.
  trade_ask-ledger :
      (real : Bool) (e : Engine M) (m : Market M) (taker maker : Order M) (amount : M.Decimal)
      → Spent (M.sub maker.left amount) (M.sub maker.freeze (M.mul maker.price amount))
      → let money = M.mul maker.price amount in
        (trade_ask M real e m taker maker amount).engine.ledger
        ≡ settled M
            (settled M e.ledger taker.user_id available_type m.stock amount m.money money
              (M.mul money taker.taker_fee))
            maker.user_id
            freeze_type
            m.money
            money
            m.stock
            amount
            (M.mul amount maker.maker_fee)
  unfolding trade_ask
  trade_ask-ledger real e m taker maker amount spent =
      let money = M.mul maker.price amount in
      let ask_fee = M.mul money taker.taker_fee in
      let bid_fee = M.mul amount maker.maker_fee in
      close-ledger real _ m _ _ spent
      ∙ settle-ledger M real _ freeze_type m.money money m.stock amount bid_fee maker.maker_fee
          maker.price amount _
      ∙ ap (λ s. settled M s maker.user_id freeze_type m.money money m.stock amount bid_fee)
          (settle-ledger M real _ available_type m.stock amount m.money money ask_fee
              taker.taker_fee maker.price amount _
            ∙ ap
                (λ s. settled M s taker.user_id available_type m.stock amount m.money money ask_fee)
                (begin-ledger real _ e))

  -- The ledger after a deal in which the taker buys.
  trade_bid-ledger :
      (by_money real : Bool) (e : Engine M) (m : Market M) (taker maker : Order M)
      (amount : M.Decimal)
      → Spent (M.sub maker.left amount) (M.sub maker.freeze amount)
      → let money = M.mul maker.price amount in
        (trade_bid M by_money real e m taker maker amount).engine.ledger
        ≡ settled M
            (settled M e.ledger taker.user_id available_type m.money money m.stock amount
              (M.mul amount taker.taker_fee))
            maker.user_id
            freeze_type
            m.stock
            amount
            m.money
            money
            (M.mul money maker.maker_fee)
  unfolding trade_bid
  trade_bid-ledger by_money real e m taker maker amount spent =
      let money = M.mul maker.price amount in
      let ask_fee = M.mul money maker.maker_fee in
      let bid_fee = M.mul amount taker.taker_fee in
      close-ledger real _ m _ _ spent
      ∙ settle-ledger M real _ freeze_type m.stock amount m.money money ask_fee maker.maker_fee
          maker.price amount _
      ∙ ap (λ s. settled M s maker.user_id freeze_type m.stock amount m.money money ask_fee)
          (settle-ledger M real _ available_type m.money money m.stock amount bid_fee
              taker.taker_fee maker.price amount _
            ∙ ap
                (λ s. settled M s taker.user_id available_type m.money money m.stock amount bid_fee)
                (begin-ledger real _ e))

module _ (M : Mpd) (L : Laws M) where
  -- The taker gives `n` quanta of `a` from its available balance, the maker gives `d` quanta of `b` that
  -- are frozen; each gets what the other gives, less a fee.
  deal_moves :
      (s : Ledger M) (u w : ℕ) (a b : String) (at bt : AssetType) (ua ub wa wb n d cu cw : ℕ)
      (given got taker_fee maker_fee : M.Decimal)
      → get_asset_type M s a ≡ some at
      → get_asset_type M s b ≡ some bt
      → (a == b) ≡ false
      → (b == a) ≡ false
      → (u == w) ≡ false
      → (w == u) ≡ false
      → Holds M L s u available_type a at.prec_save ua
      → Holds M L s u available_type b bt.prec_save ub
      → Holds M L s w freeze_type b bt.prec_save wb
      → Holds M L s w available_type a at.prec_save wa
      → IsQuanta M L at.prec_save n given
      → IsQuanta M L bt.prec_save d got
      → IsQuanta M L bt.prec_save cu taker_fee
      → IsQuanta M L at.prec_save cw maker_fee
      → (n ≤ ua) × (d ≤ wb) × (cu ≤ ub + d) × (cw ≤ wa + n)
      → (ua < L.capacity) × (wb < L.capacity) × (ub + d < L.capacity) × (wa + n < L.capacity)
      → let s' =
          settled M
            (settled M s u available_type a given b got taker_fee)
            w
            freeze_type
            b
            got
            a
            given
            maker_fee in
        Holds M L s' u available_type a at.prec_save (ua - n)
        × Holds M L s' u available_type b bt.prec_save (ub + d - cu)
        × Holds M L s' w freeze_type b bt.prec_save (wb - d)
        × Holds M L s' w available_type a at.prec_save (wa + n - cw)
  deal_moves s u w a b at bt ua ub wa wb n d cu cw given got taker_fee maker_fee ea eb ab ba uw wu
        hua hub hwb hwa ign igt itf imf (c1, c2, c3, c4) (k1, k2, k3, k4) =
      let s1 = settled M s u available_type a given b got taker_fee in
      let s2 = settled M s1 w freeze_type b got a given maker_fee in
      let (first_a, first_b) =
        settled_moves M L s u available_type a b at bt ua ub n d cu given got taker_fee ea eb ab ba
          hua hub ign igt itf c1 c3 k1 k3 in
      let kept = settled-assets M s u available_type a given b got taker_fee in
      let waiting_b =
        Holds-same M L s s1 w freeze_type b bt.prec_save wb
          (settled_frame M s u available_type a given b got taker_fee w freeze_type b
            (other_user w u freeze_type available_type b a wu)
            (other_user w u freeze_type available_type b b wu))
          hwb in
      let waiting_a =
        Holds-same M L s s1 w available_type a at.prec_save wa
          (settled_frame M s u available_type a given b got taker_fee w available_type a
            (other_user w u available_type available_type a a wu)
            (other_user w u available_type available_type a b wu))
          hwa in
      let (second_b, second_a) =
        settled_moves M L s1 w freeze_type b a bt at wb wa d n cw got given maker_fee
          (same_asset M s s1 b kept eb) (same_asset M s s1 a kept ea) ba ab waiting_b waiting_a igt
          ign imf c2 c4 k2 k4 in
      (
        Holds-same M L s1 s2 u available_type a at.prec_save (ua - n)
            (settled_frame M s1 w freeze_type b got a given maker_fee u available_type a
              (other_user u w available_type freeze_type a b uw)
              (other_user u w available_type available_type a a uw))
            first_a,
        Holds-same M L s1 s2 u available_type b bt.prec_save (ub + d - cu)
            (settled_frame M s1 w freeze_type b got a given maker_fee u available_type b
              (other_user u w available_type freeze_type b b uw)
              (other_user u w available_type available_type b a uw))
            first_b,
        second_b,
        second_a,
      )

  module _ (real : Bool) (e : Engine M) (m : Market M) (taker maker : Order M) (amount : M.Decimal)
      (stock money : AssetType) where
    -- A deal in which the taker sells: `n` quanta of the stock leave the taker's available balance and
    -- reach the maker's, less the maker's fee of `cm`; the money, `d` quanta, leaves the maker's frozen
    -- balance and reaches the taker's available one, less the taker's fee of `ct`. Conditions: the
    -- parties are different users, the two assets are known and different, the balances, the amount,
    -- the money and the fees are whole numbers of quanta that are covered and fit the decimals'
    -- precision, and a maker that is finished has no frozen rest.
    pub trade_ask_moves :
        (ts tm ms mm n d ct cm : ℕ)
        → get_asset_type M e.ledger m.stock ≡ some stock
        → get_asset_type M e.ledger m.money ≡ some money
        → (m.stock == m.money) ≡ false
        → (m.money == m.stock) ≡ false
        → (taker.user_id == maker.user_id) ≡ false
        → (maker.user_id == taker.user_id) ≡ false
        → Holds M L e.ledger taker.user_id available_type m.stock stock.prec_save ts
        → Holds M L e.ledger taker.user_id available_type m.money money.prec_save tm
        → Holds M L e.ledger maker.user_id freeze_type m.money money.prec_save mm
        → Holds M L e.ledger maker.user_id available_type m.stock stock.prec_save ms
        → IsQuanta M L stock.prec_save n amount
        → IsQuanta M L money.prec_save d (M.mul maker.price amount)
        → IsQuanta M L money.prec_save ct (M.mul (M.mul maker.price amount) taker.taker_fee)
        → IsQuanta M L stock.prec_save cm (M.mul amount maker.maker_fee)
        → (n ≤ ts) × (d ≤ mm) × (ct ≤ tm + d) × (cm ≤ ms + n)
        → (ts < L.capacity) × (mm < L.capacity) × (tm + d < L.capacity) × (ms + n < L.capacity)
        → Spent M (M.sub maker.left amount) (M.sub maker.freeze (M.mul maker.price amount))
        → let s = (trade_ask M real e m taker maker amount).engine.ledger in
          Holds M L s taker.user_id available_type m.stock stock.prec_save (ts - n)
          × Holds M L s taker.user_id available_type m.money money.prec_save (tm + d - ct)
          × Holds M L s maker.user_id freeze_type m.money money.prec_save (mm - d)
          × Holds M L s maker.user_id available_type m.stock stock.prec_save (ms + n - cm)
    trade_ask_moves ts tm ms mm n d ct cm es em sm ms' tw wt hts htm hmm hms qn qd qt qm covered
          fits spent =
        let paid = M.mul maker.price amount in
        rw (trade_ask-ledger M real e m taker maker amount spent) (
          deal_moves e.ledger taker.user_id maker.user_id m.stock m.money stock money ts tm ms mm n
            d ct cm amount paid (M.mul paid taker.taker_fee) (M.mul amount maker.maker_fee) es em sm
            ms' tw wt hts htm hmm hms qn qd qt qm covered fits)

    -- A deal in which the taker buys: `d` quanta of money leave the taker's available balance and reach
    -- the maker's, less the maker's fee of `cm`; the stock, `n` quanta, leaves the maker's frozen
    -- balance and reaches the taker's available one, less the taker's fee of `ct`. Conditions: the
    -- parties are different users, the two assets are known and different, the balances, the amount,
    -- the money and the fees are whole numbers of quanta that are covered and fit the decimals'
    -- precision, and a maker that is finished has no frozen rest.
    pub trade_bid_moves :
        (by_money : Bool) (ts tm ms mm n d ct cm : ℕ)
        → get_asset_type M e.ledger m.stock ≡ some stock
        → get_asset_type M e.ledger m.money ≡ some money
        → (m.stock == m.money) ≡ false
        → (m.money == m.stock) ≡ false
        → (taker.user_id == maker.user_id) ≡ false
        → (maker.user_id == taker.user_id) ≡ false
        → Holds M L e.ledger taker.user_id available_type m.money money.prec_save tm
        → Holds M L e.ledger taker.user_id available_type m.stock stock.prec_save ts
        → Holds M L e.ledger maker.user_id freeze_type m.stock stock.prec_save ms
        → Holds M L e.ledger maker.user_id available_type m.money money.prec_save mm
        → IsQuanta M L stock.prec_save n amount
        → IsQuanta M L money.prec_save d (M.mul maker.price amount)
        → IsQuanta M L stock.prec_save ct (M.mul amount taker.taker_fee)
        → IsQuanta M L money.prec_save cm (M.mul (M.mul maker.price amount) maker.maker_fee)
        → (d ≤ tm) × (n ≤ ms) × (ct ≤ ts + n) × (cm ≤ mm + d)
        → (tm < L.capacity) × (ms < L.capacity) × (ts + n < L.capacity) × (mm + d < L.capacity)
        → Spent M (M.sub maker.left amount) (M.sub maker.freeze amount)
        → let s = (trade_bid M by_money real e m taker maker amount).engine.ledger in
          Holds M L s taker.user_id available_type m.money money.prec_save (tm - d)
          × Holds M L s taker.user_id available_type m.stock stock.prec_save (ts + n - ct)
          × Holds M L s maker.user_id freeze_type m.stock stock.prec_save (ms - n)
          × Holds M L s maker.user_id available_type m.money money.prec_save (mm + d - cm)
    trade_bid_moves by_money ts tm ms mm n d ct cm es em sm ms' tw wt htm hts hms hmm qn qd qt qm
          covered fits spent =
        let paid = M.mul maker.price amount in
        rw (trade_bid-ledger M by_money real e m taker maker amount spent) (
          deal_moves e.ledger taker.user_id maker.user_id m.money m.stock money stock tm ts mm ms d
            n ct cm paid amount (M.mul amount taker.taker_fee) (M.mul paid maker.maker_fee) em es
            ms' sm tw wt htm hts hms hmm qd qn qt qm covered fits)
