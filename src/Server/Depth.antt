-- ===== src/Server/Depth.antt =====
-- The depth of a market (`get_depth` of matchengine/me_server.c): the orders of a side, added up by
-- price.
use viabtc_server_mac.Prelude.{ℕ, zero, suc, List, [], ◌∷◌, is_eq, if◌then◌else◌}
use viabtc_server_mac.Platform.{Mpd}
use viabtc_server_mac.Market.Order.{Order, Market}

module _ (M : Mpd) where
  open M use {Decimal, cmp, add}

  -- From a price with an amount so far: the orders at that price are added, and the next one begins
  -- an entry, if there is room for `room` entries more.
  unfoldable pub depth_from : ℕ → Decimal → Decimal → List (Order M) → List (Decimal × Decimal)
  depth_from room price amount [] = (price, amount) ∷ []
  depth_from zero price amount (o ∷ os) =
      let more = depth_from zero price (add amount o.left) os in
      if is_eq (cmp price o.price) then more else (price, amount) ∷ []
  depth_from (suc room) price amount (o ∷ os) =
      let more = depth_from (suc room) price (add amount o.left) os in
      let later = depth_from room o.price o.left os in
      if is_eq (cmp price o.price) then more else (price, amount) ∷ later

  unfoldable pub depth_side : ℕ → List (Order M) → List (Decimal × Decimal)
  unfolding depth_from
  depth_side zero os = []
  depth_side (suc room) [] = []
  depth_side (suc room) (o ∷ os) = depth_from room o.price o.left os

  unfoldable pub get_depth : Market M → ℕ → List (Decimal × Decimal) × List (Decimal × Decimal)
  unfolding depth_side
  get_depth market limit = (depth_side limit market.asks, depth_side limit market.bids)
