-- ===== src/Market/Withdrawn.antt =====
-- What cancelling an order of the book (`market_cancel_order` of matchengine/me_market.c) takes off the
-- book and gives back to its user.
use viabtc_server_mac.Prelude.{
  ℕ, ◌+◌, ◌-◌, ◌*◌, ◌≤◌, ◌<◌, ◌≡◌, refl, Bool, true, false, none, some, List, [], ◌∷◌, ◌++◌, arith,
  String, ◌==◌, nat_eq, All, Ordering, Bool-cases, Option-cases, inl, inr, ap, is_gt, if◌then◌else◌,
  ◌∙◌,
}
use viabtc_server_mac.Platform.{Mpd, Laws}
use viabtc_server_mac.SkipList.{skiplist_remove}
use viabtc_server_mac.Balance.Defs.{
  Ledger, AssetType, available_type, freeze_type, balance_get, balance_unfreeze, get_asset_type,
}
use viabtc_server_mac.Balance.Moves.{
  Holds, move-ne-none, balance_unfreeze_moves, mul_zero, mul_le, cmp_zero,
}
use viabtc_server_mac.Market.Order.{
  Engine, Event, Market, Order, note, push_order_message, event_finish, order_match_compare,
  side_ask,
}
use viabtc_server_mac.Market.Book.{order_finish, unlink, release, contains, dict_delete}
use viabtc_server_mac.Market.Entry.{market_cancel_order}
use viabtc_server_mac.Market.Facts.{release_sides}
use viabtc_server_mac.Market.Loop.{Sorted, IsLive}
use viabtc_server_mac.Market.Invariant.{IsBook, IsOf, AskBefore, BidBefore}
use viabtc_server_mac.Market.Cancel.{market_cancel_order-IsBook, contains-dict_delete}

remove_at :
    {A : Type 0} (compare : A → A → Ordering) (o : A) (front back : List A)
    → All (λ x. compare x o ≡ Ordering.lt) front
    → compare o o ≡ Ordering.eq
    → skiplist_remove compare o (front ++ o ∷ back) ≡ front ++ back
unfolding skiplist_remove
remove_at compare o [] back h e = rw (e, skiplist_remove) refl
remove_at compare o (x ∷ front) back h e =
    rw (h.0, skiplist_remove) (ap (λ xs. x ∷ xs) (remove_at compare o front back h.1 e))

contains-dict_delete_ne :
    (i k : ℕ) (l : List ℕ) → (i == k) ≡ false → contains i (dict_delete k l) ≡ contains i l
unfolding contains dict_delete
contains-dict_delete_ne i k [] h = refl
contains-dict_delete_ne i k (j ∷ l) h = ground (arith, contains-dict_delete_ne i k l h)

module _ (M : Mpd) (L : Laws M) where
  same_order : (o : Order M) → order_match_compare M o o ≡ Ordering.eq
  unfolding order_match_compare
  same_order o = ground arith

  ask_precedes :
      (top : ℕ) (x o : Order M)
      → IsOf M L true top x
      → IsOf M L true top o
      → IsLive M L x
      → IsLive M L o
      → AskBefore M L x o
      → (x.id == o.id) ≡ false
      → order_match_compare M x o ≡ Ordering.lt
  unfolding order_match_compare
  ask_precedes top x o i j k l b n =
      ground (arith, L.cmp_units x.price o.price k.price_amount l.price_amount)

  bid_precedes :
      (top : ℕ) (x o : Order M)
      → IsOf M L false top x
      → IsOf M L false top o
      → IsLive M L x
      → IsLive M L o
      → BidBefore M L x o
      → (x.id == o.id) ≡ false
      → order_match_compare M x o ≡ Ordering.lt
  unfolding order_match_compare
  bid_precedes top x o i j k l b n =
      ground (arith, L.cmp_units o.price x.price l.price_amount k.price_amount)

  module _ (Of Live : Order M → Type 0) (Before : Order M → Order M → Type 0) (o : Order M)
      (precedes : (x : Order M)
        → Of x
        → Of o
        → Live x
        → Live o
        → Before x o
        → (x.id == o.id) ≡ false
        → order_match_compare M x o ≡ Ordering.lt) where
    middle : (P : Order M → Type 0) (front back : List (Order M)) → All P (front ++ o ∷ back) → P o
    middle P [] back h = h.0
    middle P (x ∷ front) back h = middle P front back h.1

    All-precedes :
        (front back : List (Order M))
        → All Of (front ++ o ∷ back)
        → All Live (front ++ o ∷ back)
        → Sorted Before (front ++ o ∷ back)
        → All (λ x. (x.id == o.id) ≡ false) front
        → All (λ x. order_match_compare M x o ≡ Ordering.lt) front
    All-precedes [] back f l s u = tt
    All-precedes (x ∷ front) back f l s u = (
      precedes x f.0 (middle Of front back f.1) l.0 (middle Live front back l.1)
          (middle (Before x) front back s.0) u.0,
      All-precedes front back f.1 l.1 s.1 u.1,
    )

    side_without :
        (front back side : List (Order M))
        → side ≡ front ++ o ∷ back
        → All Of side
        → All Live side
        → Sorted Before side
        → All (λ x. (x.id == o.id) ≡ false) front
        → skiplist_remove (order_match_compare M) o side ≡ front ++ back
    side_without front back side e f l s u = rw e (
        remove_at (order_match_compare M) o front back
          (All-precedes front back (rw e at f) (rw e at l) (rw e at s) u) (same_order o))

  -- The asset that is frozen for an order.
  abbrev pub frozen_asset : Market M → Order M → String
  frozen_asset m o = if o.side == side_ask then m.stock else m.money

  -- The order's user has `f` quanta of an asset frozen, `n` of them for the order, and `b` available.
  pub record IsFrozen (s : Ledger M) (a : String) (o : Order M) (at : AssetType) (n f b : ℕ)
      : Type 0 where
    pub frozen : M.Decimal
    pub known : get_asset_type M s a ≡ some at
    pub entry : balance_get M s o.user_id freeze_type a ≡ some frozen
    pub frozen_all : Holds M L s o.user_id freeze_type a at.prec_save f
    pub available : Holds M L s o.user_id available_type a at.prec_save b
    pub amount : L.IsAmount o.freeze
    pub exact : L.units o.freeze ≡ n * L.quantum at.prec_save
    pub covered : n ≤ f
    pub fits : f + b < L.capacity

  unfreeze-ne-none :
      (s : Ledger M) (a : String) (o : Order M) (at : AssetType) (n f b : ℕ)
      → IsFrozen s a o at n f b
      → (balance_unfreeze M s o.user_id a o.freeze).0 ≡ none
      → ⊥
  unfolding balance_unfreeze
  unfreeze-ne-none s a o at n f b h =
      let v = rw h.entry at h.frozen_all in
      let c = L.cmp_units h.frozen o.freeze v.0 h.amount in
      let le = mul_le n f (L.quantum at.prec_save) h.covered in
      move-ne-none M s o.user_id freeze_type available_type a o.freeze h.frozen h.known
        (cmp_zero M L o.freeze h.amount) h.entry (ground (arith, v.1, h.exact))

  -- The balances when the funds of the order were given back.
  abbrev pub AreReturned : Ledger M → String → Order M → AssetType → ℕ → ℕ → ℕ → Type 0
  AreReturned s a o at n f b =
      Holds M L s o.user_id freeze_type a at.prec_save (f - n)
      × Holds M L s o.user_id available_type a at.prec_save (b + n)

  unfrozen-AreReturned :
      (s : Ledger M) (a : String) (o : Order M) (at : AssetType) (n f b : ℕ)
      → IsFrozen s a o at n f b
      → AreReturned (balance_unfreeze M s o.user_id a o.freeze).1 a o at n f b
  unfrozen-AreReturned s a o at n f b h =
      balance_unfreeze_moves M L s o.user_id a b f n o.freeze h.frozen h.known h.entry h.frozen_all
        h.available h.amount h.exact h.covered h.fits

  none_frozen :
      (s : Ledger M) (a : String) (o : Order M) (at : AssetType) (n f b : ℕ)
      → IsFrozen s a o at n f b
      → is_gt (M.cmp o.freeze M.mpd_zero) ≡ false
      → n ≡ 0
  none_frozen s a o at n f b h g =
      mul_zero n (L.quantum at.prec_save) (L.quantum_pos at.prec_save) (
        ground
          (arith, L.cmp_units o.freeze M.mpd_zero h.amount L.zero_amount, L.units-zero, h.exact))

  kept-AreReturned :
      (s : Ledger M) (a : String) (o : Order M) (at : AssetType) (n f b : ℕ)
      → IsFrozen s a o at n f b
      → n ≡ 0
      → AreReturned s a o at n f b
  kept-AreReturned s a o at n f b h z =
      let e : f - n ≡ f = omega arith in
      let g : b + n ≡ b = omega arith in rw (e, g) (h.frozen_all, h.available)

  -- What `release` leaves where the funds are given back, and where none are frozen.
  release_gives :
      (real : Bool) (e : Engine M) (m : Market M) (o : Order M) {v : M.Decimal}
      → is_gt (M.cmp o.freeze M.mpd_zero) ≡ true
      → (balance_unfreeze M e.ledger o.user_id (frozen_asset m o) o.freeze).0 ≡ some v
      → ((release M real e m o).market.orders ≡ dict_delete o.id m.orders)
        × ((release M real e m o).engine.ledger
            ≡ (balance_unfreeze M e.ledger o.user_id (frozen_asset m o) o.freeze).1)
  unfolding release
  release_gives real e m o g q = ground arith

  release_keeps :
      (real : Bool) (e : Engine M) (m : Market M) (o : Order M)
      → is_gt (M.cmp o.freeze M.mpd_zero) ≡ false
      → ((release M real e m o).market.orders ≡ dict_delete o.id m.orders)
        × ((release M real e m o).engine.ledger ≡ e.ledger)
  unfolding release
  release_keeps real e m o g = ground arith

  release_returns :
      (real : Bool) (e : Engine M) (m : Market M) (o : Order M) (at : AssetType) (n f b : ℕ)
      → IsFrozen e.ledger (frozen_asset m o) o at n f b
      → ((release M real e m o).market.orders ≡ dict_delete o.id m.orders)
        × AreReturned (release M real e m o).engine.ledger (frozen_asset m o) o at n f b
  release_returns real e m o at n f b h = elim (Bool-cases (is_gt (M.cmp o.freeze M.mpd_zero))) [
    | inl g ↦
        elim (Option-cases (balance_unfreeze M e.ledger o.user_id (frozen_asset m o) o.freeze).0) [
          | inl q ↦ absurd (unfreeze-ne-none e.ledger (frozen_asset m o) o at n f b h q)
          | inr (v, q) ↦
              let (d, l) = release_gives real e m o g q in
              (d, rw l (unfrozen-AreReturned e.ledger (frozen_asset m o) o at n f b h))
        ]
    | inr g ↦
        let (d, l) = release_keeps real e m o g in
        (
          d,
          rw l (
              kept-AreReturned e.ledger (frozen_asset m o) o at n f b h
                (none_frozen e.ledger (frozen_asset m o) o at n f b h g)),
        )
  ]

  -- Cancelling `o` has made `n` of `m`: the order is taken out of its side, and nothing else.
  pub record IsWithdrawn (top : ℕ) (o : Order M) (front back : List (Order M)) (m n : Market M)
      : Type 0 where
    pub book : IsBook M L top n
    pub asks : n.asks ≡ (if o.side == side_ask then front ++ back else m.asks)
    pub bids : n.bids ≡ (if o.side == side_ask then m.bids else front ++ back)
    pub gone : contains o.id n.orders ≡ false
    pub others : (i : ℕ) → (i == o.id) ≡ false → contains i n.orders ≡ contains i m.orders

  unlink_same :
      (m : Market M) (o : Order M)
      → ((unlink M m o).orders ≡ m.orders) × (frozen_asset (unlink M m o) o ≡ frozen_asset m o)
  unfolding unlink
  unlink_same m o = ground arith

  unlinked :
      (top : ℕ) (m : Market M) (o : Order M) (front back : List (Order M))
      → IsBook M L top m
      → (if o.side == side_ask then m.asks else m.bids) ≡ front ++ o ∷ back
      → All (λ x. (x.id == o.id) ≡ false) front
      → ((unlink M m o).asks ≡ (if o.side == side_ask then front ++ back else m.asks))
        × ((unlink M m o).bids ≡ (if o.side == side_ask then m.bids else front ++ back))
  unfolding unlink
  unlinked top m o front back b at u = elim (Bool-cases (o.side == side_ask)) [
    | inl s ↦ rw s (
      side_without (IsOf M L true top) (IsLive M L) (AskBefore M L) o
          (λ x f g l k p n. ask_precedes top x o f g l k p n) front back m.asks (rw s at at)
          b.asks_of b.asks_live b.asks_sorted u,
      refl,
    )
    | inr s ↦ rw s (
      refl,
      side_without (IsOf M L false top) (IsLive M L) (BidBefore M L) o
          (λ x f g l k p n. bid_precedes top x o f g l k p n) front back m.bids (rw s at at)
          b.bids_of b.bids_live b.bids_sorted u,
    )
  ]

  note-ledger :
      (real : Bool) (events : List (Event M)) (e : Engine M)
      → (note M real events e).ledger ≡ e.ledger
  note-ledger real events e = ground arith

  -- Cancelling an order that rests in the book takes that order off its side and leaves all others of
  -- both sides in their order, its id is no longer known and every other id as before, the book stays
  -- well formed, and exactly the `n` quanta that are frozen for the order go from the frozen balance
  -- of its user, in the stock for an ask and in the money for a bid, to the available one. Conditions:
  -- the book is well formed, no order in front of this one on its side has its id, the asset is known,
  -- the balances are whole numbers of quanta, the frozen one is on record and covers the order, and the
  -- sum of the two fits the decimals' precision.
  pub market_cancel_order-IsWithdrawn :
      (real : Bool) (top : ℕ) (e : Engine M) (m : Market M) (o : Order M)
      (front back : List (Order M)) (at : AssetType) (n f b : ℕ)
      → IsBook M L top m
      → (if o.side == side_ask then m.asks else m.bids) ≡ front ++ o ∷ back
      → All (λ x. (x.id == o.id) ≡ false) front
      → IsFrozen e.ledger (frozen_asset m o) o at n f b
      → let r = market_cancel_order M real e m o in
        IsWithdrawn top o front back m r.market
        × AreReturned r.engine.ledger (frozen_asset m o) o at n f b
  unfolding market_cancel_order order_finish
  market_cancel_order-IsWithdrawn real top e m o front back at n f b k a u h =
      let e' = note M real (push_order_message M event_finish o m) e in
      let (os, same) = unlink_same m o in
      let (xs, ys) = unlinked top m o front back k a u in
      let (p, q) = release_sides M real e' (unlink M m o) o in
      let (d, r) =
        release_returns real e' (unlink M m o) o at n f b
          (rw same (rw (note-ledger real (push_order_message M event_finish o m) e) h)) in
      (
        record {
          book = market_cancel_order-IsBook M L real top e m o k;
          asks = p ∙ xs;
          bids = q ∙ ys;
          gone = rw (d, os) (contains-dict_delete o.id m.orders);
          others = λ i j. rw (d, os) (contains-dict_delete_ne i o.id m.orders j);
        },
        rw (← same) r,
      )
