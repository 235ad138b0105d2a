-- ===== src/Tests/Depths.antt =====
-- The depth of a market and the pages of its orders at concrete inputs.
use viabtc_server_mac.Prelude.{◌≡◌, refl, [], ◌∷◌, ◌<◌, ◌≤◌, length, string_eq, nat_eq, arith}
use viabtc_server_mac.Tests.Platforms.{whole, whole_laws}
use viabtc_server_mac.Tests.Markets.{updates, market, resting, market-IsBook}
use viabtc_server_mac.Market.Order.{Market}
use viabtc_server_mac.Market.Loop.{Sorted}
use viabtc_server_mac.Server.Requests.{Exchange, get_market}
use viabtc_server_mac.Server.Queries.{side_of, book_pages, book_pages-side_of}
use viabtc_server_mac.Server.Depth.{get_depth}
use viabtc_server_mac.Server.Levels.{get_depth_levels}

get_depth_levels_example :
    Sorted (λ a b. whole_laws.units a.0 < whole_laws.units b.0) (get_depth whole market 5).0
    × Sorted (λ a b. whole_laws.units b.0 < whole_laws.units a.0) (get_depth whole market 5).1
    × (length (get_depth whole market 5).0 ≤ 5)
    × (length (get_depth whole market 5).1 ≤ 5)
get_depth_levels_example = get_depth_levels whole whole_laws 7 5 market market-IsBook

-- Two bids at 20 are one entry.
abbrev deep : Market whole
deep = record market {
  bids = resting ∷ record resting { id = 7 } ∷ record resting { id = 5; price = 19 } ∷ [];
}

depth_run : (get_depth whole deep 5).1 ≡ (20, 6) ∷ (19, 3) ∷ []
unfolding get_depth
depth_run = refl

depth_limit_run : (get_depth whole deep 1).1 ≡ (20, 6) ∷ []
unfolding get_depth
depth_limit_run = refl

abbrev deep_exchange : Exchange whole
deep_exchange = record {
  updates = updates;
  markets = ("BTCCNY", deep) ∷ [];
  operlog_id_start = 0;
  operlog = [];
}

-- Three bids in two pages of two.
book_pages-side_of_example : book_pages whole deep_exchange "BTCCNY" 2 2 2 0 ≡ side_of whole deep 2
unfolding get_market viabtc_server_mac.Dict.find viabtc_server_mac.Server.Requests.bad_side
book_pages-side_of_example =
    book_pages-side_of whole deep_exchange "BTCCNY" 2 2 deep 2 refl refl (omega arith) (omega arith)
