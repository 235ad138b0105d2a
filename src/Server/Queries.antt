-- ===== src/Server/Queries.antt =====
-- The queries on orders of matchengine/me_server.c: `on_cmd_order_query`, `on_cmd_order_book` and
-- `on_cmd_order_detail`. `offset` and `limit` are `size_t`; an error is its code.
use viabtc_server_mac.Prelude.{
  ℕ, zero, suc, ◌+◌, ◌*◌, ◌≤◌, ◌≡◌, refl, sym, ap, ◌∙◌, false, Option, none, some, List, [], ◌∷◌,
  ◌++◌, map, String, nat_eq, ◌==◌, ltb, if◌then◌else◌, length, take, drop, arith, Bool-cases, inl,
  inr, take-take-drop, drop_all, drop-drop,
}
use viabtc_server_mac.Platform.{Mpd}
use viabtc_server_mac.Market.Order.{Order, Market, side_ask}
use viabtc_server_mac.Market.Book.{market_get_order, market_get_order_list}
use viabtc_server_mac.Server.Requests.{Exchange, get_market, bad_side}

-- ORDER_BOOK_MAX_LEN and ORDER_LIST_MAX_LEN
abbrev pub max_len : ℕ
max_len = 101

module _ {A : Type 0} where
  -- The nodes that `skiplist_next` passes before the page.
  unfoldable pub skip : ℕ → List A → List A
  skip zero nodes = nodes
  skip (suc n) [] = []
  skip (suc n) (x ∷ nodes) = skip n nodes

  -- The nodes of the page.
  unfoldable pub collect : ℕ → ℕ → List A → List A
  collect index limit [] = []
  collect index limit (x ∷ nodes) =
      let rest = collect (suc index) limit nodes in if ltb index limit then x ∷ rest else []

  unfoldable pub page : ℕ → ℕ → List A → List A
  page offset limit nodes =
      if ltb offset (length nodes) then collect 0 limit (skip offset nodes) else []

-- A reply with a page.
pub record Page (A : Type 0) : Type 0 where
  pub limit : ℕ
  pub offset : ℕ
  pub total : ℕ
  pub records : List A

pub data QueryReply (A : Type 0) : Type 0 where
  refused : ℕ → QueryReply A
  answered : A → QueryReply A

abbrev pub page_of : {A : Type 0} → ℕ → ℕ → List A → Page A
page_of offset limit nodes = record {
  limit = limit;
  offset = offset;
  total = length nodes;
  records = page offset limit nodes;
}

module _ (M : Mpd) where
  -- The orders of a user, the newest first. The list holds ids, which stand for their orders.
  unfoldable pub on_cmd_order_query :
      Exchange M → ℕ → String → ℕ → ℕ → QueryReply (Page (Option (Order M)))
  on_cmd_order_query x user_id name offset limit = elim (get_market M x name) [
    | none ↦ refused 1
    | some m ↦ if ltb max_len limit then refused 1 else elim (market_get_order_list M m user_id) [
      | none ↦ answered (page_of offset limit [])
      | some ids ↦ answered (page_of offset limit (map (market_get_order M m) ids))
    ]
  ]

  abbrev pub side_of : Market M → ℕ → List (Order M)
  side_of m side = if side == side_ask then m.asks else m.bids

  unfoldable pub on_cmd_order_book : Exchange M → String → ℕ → ℕ → ℕ → QueryReply (Page (Order M))
  on_cmd_order_book x name side offset limit = elim (get_market M x name) [
    | none ↦ refused 1
    | some m ↦
        if bad_side M side
        then refused 1
        else if ltb max_len limit
        then refused 1
        else answered (page_of offset limit (side_of m side))
  ]

  -- `none` is the JSON `null`.
  unfoldable pub on_cmd_order_detail : Exchange M → String → ℕ → QueryReply (Option (Order M))
  on_cmd_order_detail x name id = elim (get_market M x name) [
    | none ↦ refused 1
    | some m ↦ answered (market_get_order M m id)
  ]

suc_mul : (n k : ℕ) → k + n * k ≡ suc n * k
suc_mul n k = grind arith

module _ {A : Type 0} where
  skip_lem : (n : ℕ) (xs : List A) → skip n xs ≡ drop n xs
  unfolding skip
  skip_lem zero xs = refl
  skip_lem (suc n) [] = refl
  skip_lem (suc n) (x ∷ xs) = skip_lem n xs

  take_none : (n : ℕ) → take {A = A} n [] ≡ []
  take_none zero = refl
  take_none (suc n) = refl

  collect_lem :
      (k index limit : ℕ) (xs : List A) → index + k ≡ limit → collect index limit xs ≡ take k xs
  unfolding collect
  collect_lem k index limit [] h = sym (take_none k)
  collect_lem zero index limit (x ∷ xs) h = ground arith
  collect_lem (suc k) index limit (x ∷ xs) h = ground (arith, collect_lem k (suc index) limit xs)

  -- A page has the nodes from `offset` on, at most `limit` of them.
  page_lem : (offset limit : ℕ) (xs : List A) → page offset limit xs ≡ take limit (drop offset xs)
  unfolding page
  page_lem offset limit xs = elim (Bool-cases (ltb offset (length xs))) [
    | inl e ↦ rw e (
        ap (λ t. collect 0 limit t) (skip_lem offset xs)
        ∙ collect_lem limit 0 limit (drop offset xs) (omega arith))
    | inr e ↦
        rw e (sym (ap (λ t. take limit t) (drop_all offset xs (ground arith)) ∙ take_none limit))
  ]

  take_all : (n : ℕ) (xs : List A) → length xs ≤ n → take n xs ≡ xs
  take_all zero [] h = refl
  take_all zero (x ∷ xs) h = absurd (omega arith)
  take_all (suc n) [] h = refl
  take_all (suc n) (x ∷ xs) h = ap (λ t. x ∷ t) (take_all n xs (omega arith))

  -- A page, and what comes behind it.
  page-take :
      (offset limit k : ℕ) (xs : List A)
      → page offset limit xs ++ take k (drop (offset + limit) xs)
        ≡ take (limit + k) (drop offset xs)
  page-take offset limit k xs =
      ap (λ t. t ++ take k (drop (offset + limit) xs)) (page_lem offset limit xs)
      ∙ ap (λ t. take limit (drop offset xs) ++ take k t)
          (sym (drop-drop offset limit (offset + limit) xs refl))
      ∙ take-take-drop limit k (limit + k) (drop offset xs) refl

-- The records of an answer.
abbrev pub records_of : {A : Type 0} → QueryReply (Page A) → List A
records_of (refused n) = []
records_of (answered p) = p.records

module _ (M : Mpd) (x : Exchange M) (name : String) (side limit : ℕ) where
  -- The records of `n` requests for a side of the book, each from where the one before ended.
  abbrev pub book_pages : ℕ → ℕ → List (Order M)
  book_pages zero offset = []
  book_pages (suc n) offset =
      records_of (on_cmd_order_book M x name side offset limit) ++ book_pages n (offset + limit)

  module _ (m : Market M) (found : get_market M x name ≡ some m)
      (good_side : bad_side M side ≡ false) (good_limit : limit ≤ max_len) where
    -- A valid request is answered with the length of the side and the page.
    order_book_lem :
        (offset : ℕ)
        → on_cmd_order_book M x name side offset limit
          ≡ answered (page_of offset limit (side_of M m side))
    unfolding on_cmd_order_book
    order_book_lem offset =
        let short : ltb max_len limit ≡ false = ground arith in
        rw (found, good_side, short, on_cmd_order_book) refl

    book_pages_lem :
        (n offset : ℕ) → book_pages n offset ≡ take (n * limit) (drop offset (side_of M m side))
    book_pages_lem zero offset =
        let nothing : 0 ≡ 0 * limit = omega arith in
        ap (λ k. take k (drop offset (side_of M m side))) nothing
    book_pages_lem (suc n) offset =
        let orders = side_of M m side in
        ap (λ a. records_of a ++ book_pages n (offset + limit)) (order_book_lem offset)
        ∙ ap (λ t. page offset limit orders ++ t) (book_pages_lem n (offset + limit))
        ∙ page-take offset limit (n * limit) orders
        ∙ ap (λ k. take k (drop offset orders)) (suc_mul n limit)

  -- Reading a side of the book page by page, `n` pages of `limit` orders one behind the other, gives the
  -- whole side in its order, where the market exists, the side is one of the two, `limit` is at most 101
  -- and `n * limit` orders are no fewer than the side has.
  pub book_pages-side_of :
      (m : Market M) (n : ℕ)
      → get_market M x name ≡ some m
      → bad_side M side ≡ false
      → limit ≤ max_len
      → length (side_of M m side) ≤ n * limit
      → book_pages n 0 ≡ side_of M m side
  book_pages-side_of m n found good_side good_limit enough =
      book_pages_lem m found good_side good_limit n 0
      ∙ take_all (n * limit) (side_of M m side) enough
