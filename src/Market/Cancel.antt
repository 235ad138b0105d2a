-- ===== src/Market/Cancel.antt =====
-- A cancelled order (`market_cancel_order` and `order_finish` of matchengine/me_market.c) and the book
-- that it leaves.
use viabtc_server_mac.Prelude.{
  ℕ, ◌≡◌, refl, Bool, false, none, some, List, [], ◌∷◌, arith, ◌==◌, nat_eq, All, All-map, Ordering,
  Bool-cases, inl, inr, ◌⊎◌, is_gt, if◌then◌else◌,
}
use viabtc_server_mac.Platform.{Mpd, Laws}
use viabtc_server_mac.SkipList.{skiplist_remove}
use viabtc_server_mac.Balance.Defs.{balance_unfreeze}
use viabtc_server_mac.Balance.Moves.{less, same, more, Ordering-cases}
use viabtc_server_mac.Market.Order.{
  Engine, Market, Order, note, push_order_message, event_finish, order_match_compare, side_ask,
}
use viabtc_server_mac.Market.Book.{
  order_finish, unlink, release, contains, dict_delete, market_get_order,
}
use viabtc_server_mac.Market.Entry.{market_cancel_order}
use viabtc_server_mac.Market.Facts.{release_sides}
use viabtc_server_mac.Market.Loop.{Sorted}
use viabtc_server_mac.Market.Invariant.{IsBook}

module _ {A : Type 0} (compare : A → A → Ordering) where
  remove-All :
      (P : A → Type 0) (v : A) (xs : List A) → All P xs → All P (skiplist_remove compare v xs)
  unfolding skiplist_remove
  remove-All P v [] h = tt
  remove-All P v (x ∷ xs) h = elim (Ordering-cases (compare x v)) [
    | less q ↦ rw (q, skiplist_remove) (h.0, remove-All P v xs h.1)
    | same q ↦ rw (q, skiplist_remove) h.1
    | more q ↦ rw (q, skiplist_remove) h
  ]

  remove-Sorted :
      (R : A → A → Type 0) (v : A) (xs : List A)
      → Sorted R xs
      → Sorted R (skiplist_remove compare v xs)
  unfolding skiplist_remove
  remove-Sorted R v [] h = tt
  remove-Sorted R v (x ∷ xs) h = elim (Ordering-cases (compare x v)) [
    | less q ↦ rw (q, skiplist_remove) (remove-All (R x) v xs h.0, remove-Sorted R v xs h.1)
    | same q ↦ rw (q, skiplist_remove) h.1
    | more q ↦ rw (q, skiplist_remove) h
  ]

pub contains-dict_delete : (i : ℕ) (l : List ℕ) → contains i (dict_delete i l) ≡ false
unfolding contains dict_delete
contains-dict_delete i [] = refl
contains-dict_delete i (j ∷ l) = ground (arith, contains-dict_delete i l)

module _ (M : Mpd) (L : Laws M) where
  unlink-IsBook :
      (top : ℕ) (m : Market M) (o : Order M) → IsBook M L top m → IsBook M L top (unlink M m o)
  unfolding unlink
  unlink-IsBook top m o b = elim (Bool-cases (o.side == side_ask)) [
    | inl s ↦ rw s (record {
      asks_live = remove-All (order_match_compare M) _ o m.asks b.asks_live;
      bids_live = b.bids_live;
      asks_of = remove-All (order_match_compare M) _ o m.asks b.asks_of;
      bids_of = b.bids_of;
      asks_sorted = remove-Sorted (order_match_compare M) _ o m.asks b.asks_sorted;
      bids_sorted = b.bids_sorted;
      uncrossed = remove-All (order_match_compare M) _ o m.asks b.uncrossed;
    })
    | inr s ↦ rw s (record {
      asks_live = b.asks_live;
      bids_live = remove-All (order_match_compare M) _ o m.bids b.bids_live;
      asks_of = b.asks_of;
      bids_of = remove-All (order_match_compare M) _ o m.bids b.bids_of;
      asks_sorted = b.asks_sorted;
      bids_sorted = remove-Sorted (order_match_compare M) _ o m.bids b.bids_sorted;
      uncrossed =
          All-map _ _ (λ a. remove-All (order_match_compare M) _ o m.bids) m.asks b.uncrossed;
    })
  ]

  same_sides-IsBook :
      (top : ℕ) (m n : Market M)
      → n.asks ≡ m.asks
      → n.bids ≡ m.bids
      → IsBook M L top m
      → IsBook M L top n
  same_sides-IsBook top m n a c b = record {
    asks_live = rw a b.asks_live;
    bids_live = rw c b.bids_live;
    asks_of = rw a b.asks_of;
    bids_of = rw c b.bids_of;
    asks_sorted = rw a b.asks_sorted;
    bids_sorted = rw c b.bids_sorted;
    uncrossed = rw (a, c) b.uncrossed;
  }

  -- Cancelling an order keeps the order book's invariant: both sides stay sorted by price and then by
  -- id, every order in the book is live, and the highest bid stays below the lowest ask. Condition:
  -- the invariant before.
  pub market_cancel_order-IsBook :
      (real : Bool) (top : ℕ) (e : Engine M) (m : Market M) (o : Order M)
      → IsBook M L top m
      → IsBook M L top (market_cancel_order M real e m o).market
  unfolding market_cancel_order order_finish
  market_cancel_order-IsBook real top e m o b =
      let e' = note M real (push_order_message M event_finish o m) e in
      let (a, c) = release_sides M real e' (unlink M m o) o in
      same_sides-IsBook top (unlink M m o) (release M real e' (unlink M m o) o).market a c
        (unlink-IsBook top m o b)

module _ (M : Mpd) where
  -- What an order has frozen, if anything, can be given back.
  abbrev pub IsReleasable : Engine M → Market M → Order M → Type 0
  IsReleasable e m o =
      (is_gt (M.cmp o.freeze M.mpd_zero) ≡ false)
      ⊎ ((v : M.Decimal) × ((balance_unfreeze M e.ledger o.user_id
              (if o.side == side_ask then m.stock else m.money) o.freeze).0
            ≡ some v))

  -- A cancelled order is gone: the market no longer finds its id. Condition: the frozen rest of the
  -- order is zero, or giving it back succeeds.
  pub cancelled_gone :
      (real : Bool) (e : Engine M) (m : Market M) (o : Order M)
      → IsReleasable e m o
      → market_get_order M (market_cancel_order M real e m o).market o.id ≡ none
  unfolding market_cancel_order order_finish release unlink market_get_order
  cancelled_gone real e m o (inl h) = ground (arith, contains-dict_delete o.id m.orders)
  cancelled_gone real e m o (inr (v, h)) = ground (arith, contains-dict_delete o.id m.orders)
