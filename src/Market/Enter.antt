-- ===== src/Market/Enter.antt =====
-- A limit order enters the book (matchengine/me_market.c, `order_put` and
-- `market_put_limit_order`), and the book's invariant holds after it.
use viabtc_server_mac.Prelude.{
  ℕ, ◌≡◌, refl, Bool, true, false, arith, is_eq, is_lt, Bool-cases, inl, inr, ◌<◌, All, nat_eq,
  ◌==◌, ◌∙◌, subst, ◌+◌, ◌^◌, String,
}
use viabtc_server_mac.Platform.{Mpd, Laws}
use viabtc_server_mac.Market.Order.{
  event_put, push_order_message, note, Order, Market, Engine, side_ask, type_limit,
}
use viabtc_server_mac.Market.Book.{order_put}
use viabtc_server_mac.Market.Match.{Run, execute_limit_ask_order, execute_limit_bid_order}
use viabtc_server_mac.Market.Loop.{IsLive}
use viabtc_server_mac.Market.Invariant.{IsBook}
use viabtc_server_mac.Market.Beside.{
  AskRun, BidRun, IsBook-mono, execute_limit_ask-AskRun, execute_limit_bid-BidRun,
}
use viabtc_server_mac.Market.Entry.{
  lacks_funds, market_put_limit_order, finish_limit, new_order, numbered,
}
use viabtc_server_mac.Market.Rest.{order_put_ask-IsBook, order_put_bid-IsBook}

module _ (M : Mpd) (L : Laws M) where
  -- An order that is not used up is live.
  rest-IsLive :
      (o : Order M)
      → L.IsAmount o.left
      → L.IsAmount o.price
      → is_eq (M.cmp o.left M.mpd_zero) ≡ false
      → IsLive M L o
  rest-IsLive o h p z =
      let c = L.cmp_units o.left M.mpd_zero h L.zero_amount in
      record { price_amount = p; left_amount = h; left_pos = ground (arith, L.units-zero) }

  finish_limit_ask-IsBook :
      (real : Bool) (top : ℕ) (taker : Order M) (r : Run M)
      → AskRun M L top taker r
      → taker.type ≡ type_limit
      → (taker.side == side_ask) ≡ true
      → L.IsAmount taker.price
      → top < taker.id
      → IsBook M L taker.id (finish_limit M real r).market
  unfolding finish_limit
  finish_limit_ask-IsBook real top taker r a t s p h =
      elim (Bool-cases (is_eq (M.cmp r.taker.left M.mpd_zero))) [
        | inl z ↦ rw z (IsBook-mono M L top taker.id r.market (omega arith) a.book)
        | inr z ↦
            let k = a.same in
            let l = rest-IsLive r.taker a.left_amount (rw k.same_price p) z in
            let e = note M real (push_order_message M event_put r.taker r.market) r.engine in
            let g : All (λ b. L.units b.price < L.units r.taker.price) r.market.bids =
              elim a.exhausted [
                | inl w ↦ absurd (omega (arith, l.left_pos))
                | inr w ↦ rw k.same_price w
              ] in
            rw z (
              subst (λ i. IsBook M L i (order_put M e r.market r.taker).market) k.same_id
                (order_put_ask-IsBook M L e r.market top r.taker a.book (k.same_type ∙ t)
                  (rw k.same_side s) (rw k.same_id h) l g))
      ]

  finish_limit_bid-IsBook :
      (real : Bool) (top : ℕ) (taker : Order M) (r : Run M)
      → BidRun M L top taker r
      → taker.type ≡ type_limit
      → (taker.side == side_ask) ≡ false
      → L.IsAmount taker.price
      → top < taker.id
      → IsBook M L taker.id (finish_limit M real r).market
  unfolding finish_limit
  finish_limit_bid-IsBook real top taker r a t s p h =
      elim (Bool-cases (is_eq (M.cmp r.taker.left M.mpd_zero))) [
        | inl z ↦ rw z (IsBook-mono M L top taker.id r.market (omega arith) a.book)
        | inr z ↦
            let k = a.same in
            let l = rest-IsLive r.taker a.left_amount (rw k.same_price p) z in
            let e = note M real (push_order_message M event_put r.taker r.market) r.engine in
            let g : All (λ b. L.units r.taker.price < L.units b.price) r.market.asks =
              elim a.exhausted [
                | inl w ↦ absurd (omega (arith, l.left_pos))
                | inr w ↦ rw k.same_price w
              ] in
            rw z (
              subst (λ i. IsBook M L i (order_put M e r.market r.taker).market) k.same_id
                (order_put_bid-IsBook M L e r.market top r.taker a.book (k.same_type ∙ t)
                  (rw k.same_side s) (rw k.same_id h) l g))
      ]

  -- A limit order keeps the order book's invariant, whatever its fate: both sides stay sorted by
  -- price and then by id, every order in the book is live, and the highest bid stays below the lowest
  -- ask. Conditions: the invariant before, a price and an amount that are finite and not negative,
  -- and fewer than 2 ^ 64 - 1 ids given out.
  pub market_put_limit_order-IsBook :
      (real : Bool) (e : Engine M) (m : Market M) (user_id side : ℕ)
      (amount price taker_fee maker_fee : M.Decimal) (source : String)
      → IsBook M L e.order_id_start m
      → e.order_id_start + 1 < 2 ^ 64
      → L.IsAmount amount
      → L.IsAmount price
      → IsBook M L
          (e.order_id_start + 1)
          (market_put_limit_order M real e m user_id side amount price taker_fee maker_fee
            source).market
  unfolding market_put_limit_order new_order numbered
  market_put_limit_order-IsBook real e m user_id side amount price taker_fee maker_fee source b w h
        p =
      let taker = new_order M type_limit e m user_id side amount price taker_fee maker_fee source in
      let id : taker.id ≡ e.order_id_start + 1 = omega arith in
      let refused = IsBook-mono M L e.order_id_start (e.order_id_start + 1) m (omega arith) b in
      elim (Bool-cases (lacks_funds M e m user_id side amount price)) [
        | inl short ↦ rw short refused
        | inr enough ↦ elim (Bool-cases (is_lt (M.cmp amount m.min_amount))) [
          | inl small ↦ rw (enough, small) refused
          | inr fits ↦ elim (Bool-cases (side == side_ask)) [
            | inl s ↦
                let r = execute_limit_ask_order M real (numbered M e) m taker in
                rw (enough, fits, s)
                  (subst (λ i. IsBook M L i (finish_limit M real r).market) id
                    (finish_limit_ask-IsBook real e.order_id_start taker r
                      (execute_limit_ask-AskRun M L real (numbered M e) m e.order_id_start taker b h
                        p)
                      refl s p (omega arith)))
            | inr s ↦
                let r = execute_limit_bid_order M real (numbered M e) m taker in
                rw (enough, fits, s)
                  (subst (λ i. IsBook M L i (finish_limit M real r).market) id
                    (finish_limit_bid-IsBook real e.order_id_start taker r
                      (execute_limit_bid-BidRun M L real (numbered M e) m e.order_id_start taker b h
                        p)
                      refl s p (omega arith)))
          ]
        ]
      ]
