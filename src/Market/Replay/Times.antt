-- ===== src/Market/Replay/Times.antt =====
-- Orders and markets (matchengine/me_market.c) that differ in nothing but the times of the orders: no
-- function of the book looks at these.
use viabtc_server_mac.Prelude.{
  if◌then◌else◌, ℕ, ◌≡◌, refl, sym, ap, subst, Bool, true, false, Option, none, some, List, [], ◌∷◌,
  ◌++◌, arith, nat_eq, ◌==◌, Bool-cases, inl, inr,
}
use viabtc_server_mac.Platform.{Mpd}
use viabtc_server_mac.SkipList.{insert_from, skiplist_insert, skiplist_remove, onto}
use viabtc_server_mac.Balance.Moves.{less, same, more, Ordering-cases}
use viabtc_server_mac.Market.Order.{Order, Market, order_match_compare}
use viabtc_server_mac.Market.Book.{find_order}

module _ (M : Mpd) where
  -- An order, and a list of orders, with the same time everywhere.
  abbrev pub untimed : Order M → Order M
  untimed o = record o { create_time = M.current_timestamp 0; update_time = M.current_timestamp 0 }

  abbrev pub all_untimed : List (Order M) → List (Order M)
  all_untimed [] = []
  all_untimed (o ∷ os) = untimed o ∷ all_untimed os

  abbrev pub Alike : Order M → Order M → Type 0
  Alike a b = untimed a ≡ untimed b

  abbrev pub AllAlike : List (Order M) → List (Order M) → Type 0
  AllAlike xs ys = all_untimed xs ≡ all_untimed ys

  -- An order that is alike is the same with other times.
  pub retimed :
      (a b : Order M)
      → Alike a b
      → b ≡ record a { create_time = b.create_time; update_time = b.update_time }
  retimed a b h = ground arith

  pub record SameMarket (m n : Market M) : Type 0 where
    pub names : m.name ≡ n.name
    pub stocks : m.stock ≡ n.stock
    pub moneys : m.money ≡ n.money
    pub stock_precs : m.stock_prec ≡ n.stock_prec
    pub money_precs : m.money_prec ≡ n.money_prec
    pub fee_precs : m.fee_prec ≡ n.fee_prec
    pub min_amounts : m.min_amount ≡ n.min_amount
    pub ids : m.orders ≡ n.orders
    pub lists : m.users ≡ n.users
    pub asks_alike : AllAlike m.asks n.asks
    pub bids_alike : AllAlike m.bids n.bids
    pub loose_alike : AllAlike m.loose n.loose

  pub compare-Alike :
      (a b c d : Order M)
      → Alike a b
      → Alike c d
      → order_match_compare M b d ≡ order_match_compare M a c
  unfolding order_match_compare
  compare-Alike a b c d h k =
      subst (λ x. order_match_compare M x d ≡ order_match_compare M a c) (sym (retimed a b h))
        (subst
          (λ y.
            order_match_compare M
              (record a { create_time = b.create_time; update_time = b.update_time }) y
            ≡ order_match_compare M a c)
          (sym (retimed c d k)) refl)

  -- What `skiplist_insert` returns of alike lists.
  abbrev pub BothAlike : Option (List (Order M)) → Option (List (Order M)) → Type 0
  BothAlike none none = Unit {0}
  BothAlike (some xs) (some ys) = AllAlike xs ys
  BothAlike none (some ys) = ⊥
  BothAlike (some xs) none = ⊥

  onto-BothAlike :
      (a b : Order M) (xs ys : Option (List (Order M)))
      → Alike a b
      → BothAlike xs ys
      → BothAlike (onto a xs) (onto b ys)
  onto-BothAlike a b none none h k = tt
  onto-BothAlike a b (some xs) (some ys) h k = cc
  onto-BothAlike a b none (some ys) h k = k
  onto-BothAlike a b (some xs) none h k = k

  placed-BothAlike :
      (dup : Bool) (v w : Order M) (xs ys : List (Order M))
      → Alike v w
      → AllAlike xs ys
      → BothAlike (if dup then none else some (v ∷ xs)) (if dup then none else some (w ∷ ys))
  placed-BothAlike true v w xs ys h k = tt
  placed-BothAlike false v w xs ys h k = cc

  insert_from-BothAlike :
      (dup : Bool) (v w : Order M) (xs ys : List (Order M))
      → Alike v w
      → AllAlike xs ys
      → BothAlike
          (insert_from (order_match_compare M) dup v xs)
          (insert_from (order_match_compare M) dup w ys)
  unfolding insert_from
  insert_from-BothAlike dup v w [] [] h k = placed-BothAlike dup v w [] [] h refl
  insert_from-BothAlike dup v w [] (y ∷ ys) h k = absurd (cc k)
  insert_from-BothAlike dup v w (x ∷ xs) [] h k = absurd (cc k)
  insert_from-BothAlike dup v w (x ∷ xs) (y ∷ ys) h k =
      let a : Alike x y = cc k in
      let t : AllAlike xs ys = cc k in
      let c = compare-Alike x y v w a h in
      elim (Ordering-cases (order_match_compare M x v)) [
        | less q ↦
            rw (c, q, insert_from)
              (onto-BothAlike x y _ _ a (insert_from-BothAlike false v w xs ys h t))
        | same q ↦
            rw (c, q, insert_from)
              (onto-BothAlike x y _ _ a (insert_from-BothAlike true v w xs ys h t))
        | more q ↦ rw (c, q, insert_from) (placed-BothAlike dup v w (x ∷ xs) (y ∷ ys) h k)
      ]

  pub insert-BothAlike :
      (v w : Order M) (xs ys : List (Order M))
      → Alike v w
      → AllAlike xs ys
      → BothAlike
          (skiplist_insert (order_match_compare M) v xs)
          (skiplist_insert (order_match_compare M) w ys)
  unfolding skiplist_insert
  insert-BothAlike v w xs ys h k = insert_from-BothAlike false v w xs ys h k

  pub remove-AllAlike :
      (v w : Order M) (xs ys : List (Order M))
      → Alike v w
      → AllAlike xs ys
      → AllAlike
          (skiplist_remove (order_match_compare M) v xs)
          (skiplist_remove (order_match_compare M) w ys)
  unfolding skiplist_remove
  remove-AllAlike v w [] [] h k = refl
  remove-AllAlike v w [] (y ∷ ys) h k = absurd (cc k)
  remove-AllAlike v w (x ∷ xs) [] h k = absurd (cc k)
  remove-AllAlike v w (x ∷ xs) (y ∷ ys) h k =
      let a : Alike x y = cc k in
      let t : AllAlike xs ys = cc k in
      let c = compare-Alike x y v w a h in
      let r = remove-AllAlike v w xs ys h t in
      elim (Ordering-cases (order_match_compare M x v)) [
        | less q ↦ rw (c, q, skiplist_remove) (cc (a, r))
        | same q ↦ rw (c, q, skiplist_remove) t
        | more q ↦ rw (c, q, skiplist_remove) k
      ]

  -- What is found by an id in alike lists.
  abbrev pub FoundAlike : Option (Order M) → Option (Order M) → Type 0
  FoundAlike none none = Unit {0}
  FoundAlike (some a) (some b) = Alike a b
  FoundAlike none (some b) = ⊥
  FoundAlike (some a) none = ⊥

  pub find_order-FoundAlike :
      (i : ℕ) (xs ys : List (Order M))
      → AllAlike xs ys
      → FoundAlike (find_order M i xs) (find_order M i ys)
  unfolding find_order
  find_order-FoundAlike i [] [] k = tt
  find_order-FoundAlike i [] (y ∷ ys) k = absurd (cc k)
  find_order-FoundAlike i (x ∷ xs) [] k = absurd (cc k)
  find_order-FoundAlike i (x ∷ xs) (y ∷ ys) k =
      let a : Alike x y = cc k in
      let t : AllAlike xs ys = cc k in
      let same_id : y.id ≡ x.id = ap (λ o. o.id) (sym a) in
      elim (Bool-cases (i == x.id)) [
        | inl e ↦ let e' : (i == y.id) ≡ true = rw same_id e in rw (e, e') a
        | inr e ↦
            let e' : (i == y.id) ≡ false = rw same_id e in
            rw (e, e') (find_order-FoundAlike i xs ys t)
      ]

  pub append-AllAlike :
      (xs ys us vs : List (Order M))
      → AllAlike xs ys
      → AllAlike us vs
      → AllAlike (xs ++ us) (ys ++ vs)
  append-AllAlike [] [] us vs h k = k
  append-AllAlike [] (y ∷ ys) us vs h k = absurd (cc h)
  append-AllAlike (x ∷ xs) [] us vs h k = absurd (cc h)
  append-AllAlike (x ∷ xs) (y ∷ ys) us vs h k =
      let a : Alike x y = cc h in
      let t : AllAlike xs ys = cc h in let r = append-AllAlike xs ys us vs t k in cc (a, r)
