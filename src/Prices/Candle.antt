-- ===== src/Prices/Candle.antt =====
-- What the candle of a list of deals has to be, for marketprice/mp_kline.c.
use viabtc_server_mac.Prelude.{◌≤◌, ◌≡◌, List, [], ◌∷◌, ◌++◌, All, nat_eq, string_eq}
use viabtc_server_mac.Platform.{Mpd, Laws}
use viabtc_server_mac.Prices.Kline.{Kline}
use viabtc_server_mac.Prices.Feed.{Deal}

-- A price is that of one of the deals.
abbrev pub IsSeen : (M : Mpd) → M.Decimal → List (Deal M) → Type 0
IsSeen M p ds =
    (front : List (Deal M)) × (d : Deal M) × (back : List (Deal M)) × (ds ≡ front ++ d ∷ back)
    × (d.price ≡ p)

-- A sum of the deals' amounts, each taken once, in some order of additions.
pub data IsSum (M : Mpd) (f : Deal M → M.Decimal) : List (Deal M) → M.Decimal → Type 0 where
  nothing : IsSum M f [] M.mpd_zero
  one : (d : Deal M) → IsSum M f (d ∷ []) (f d)
  both :
      {ds es : List (Deal M)} {a b : M.Decimal}
      → IsSum M f ds a
      → IsSum M f es b
      → IsSum M f (ds ++ es) (M.add a b)

module _ (M : Mpd) where
  abbrev pub money : Deal M → M.Decimal
  money d = M.mul d.price d.amount

module _ (M : Mpd) (L : Laws M) where
  -- The candle `k` of the deals `ds`, the oldest first.
  pub record IsCandle (ds : List (Deal M)) (k : Kline M) : Type 0 where
    pub first : Deal M
    pub rest : List (Deal M)
    pub starts : ds ≡ first ∷ rest
    pub first_amount : L.IsAmount first.price
    pub opened : k.«open» ≡ first.price
    pub front : List (Deal M)
    pub final : Deal M
    pub ends : ds ≡ front ++ final ∷ []
    pub closed : k.close ≡ final.price
    pub high_seen : IsSeen M k.high ds
    pub low_seen : IsSeen M k.low ds
    pub bounds :
        All (λ d. (L.units k.low ≤ L.units d.price) × (L.units d.price ≤ L.units k.high)) ds
    pub volume : IsSum M (λ d. d.amount) ds k.volume
    pub deal : IsSum M (money M) ds k.deal
    pub high_amount : L.IsAmount k.high
    pub low_amount : L.IsAmount k.low
