-- ===== src/Market/Sides.antt =====
-- The sides of the book under the matching loops and `skiplist_insert`: which properties of their
-- orders stay, and that they stay sorted.
use viabtc_server_mac.Prelude.{
  none, some, ◌≡◌, refl, Bool, true, false, Option, List, [], ◌∷◌, if◌then◌else◌, All, All-map,
  Ordering,
}
use viabtc_server_mac.Platform.{Mpd}
use viabtc_server_mac.SkipList.{insert_from, onto}
use viabtc_server_mac.Market.Order.{Order, Market, Engine}
use viabtc_server_mac.Market.Trade.{Traded, Quote, stop, deal, hang}
use viabtc_server_mac.Market.Match.{execute, keep}
use viabtc_server_mac.Market.Facts.{SameOrder-refl, SameOrder, MakerAfter}
use viabtc_server_mac.Market.Loop.{Sorted}
use viabtc_server_mac.Balance.Moves.{less, same, more, Ordering-cases}

-- How a quote was decided, with the equation kept.
pub data QuoteView (M : Mpd) (q : Quote M) : Type 0 where
  stops : q ≡ stop → QuoteView M q
  hangs : q ≡ hang → QuoteView M q
  deals : (a : M.Decimal) → q ≡ deal a → QuoteView M q

pub Quote-cases : (M : Mpd) (q : Quote M) → QuoteView M q
Quote-cases M stop = stops refl
Quote-cases M hang = hangs refl
Quote-cases M (deal a) = deals a refl

module _ (M : Mpd) (quote : Order M → Order M → Quote M)
    (trade : Engine M → Market M → Order M → Order M → M.Decimal → Traded M)
    (after : (e : Engine M) (m : Market M) (taker maker : Order M) (a : M.Decimal)
      → MakerAfter M maker a (trade e m taker maker a).maker) where
  keep-All :
      (P : Order M → Type 0)
      → ((a b : Order M) → SameOrder M a b → P b → P a)
      → (x : Order M) (a : M.Decimal) (o : Option (Order M)) (ys : List (Order M))
      → MakerAfter M x a o
      → P x
      → All P ys
      → All P (keep o ys)
  keep-All P stable x a none ys f h k = k
  keep-All P stable x a (some o) ys f h k = (stable o x f.2 h, k)

  -- What no deal changes holds of every maker that is left.
  pub execute-All :
      (P : Order M → Type 0)
      → ((a b : Order M) → SameOrder M a b → P b → P a)
      → (e : Engine M) (m : Market M) (taker : Order M) (xs : List (Order M)) → All P xs
      → All P (execute M quote trade e m taker xs).makers
  unfolding execute
  execute-All P stable e m taker [] h = tt
  execute-All P stable e m taker (x ∷ xs) h = elim (Quote-cases M (quote taker x)) [
    | stops q ↦ rw (q, execute) h
    | hangs q ↦ rw (q, execute) h
    | deals a q ↦
        let t = trade e m taker x a in
        rw (q, execute)
          (keep-All P stable x a t.maker (execute M quote trade t.engine t.market t.taker xs).makers
            (after e m taker x a) h.0 (execute-All P stable t.engine t.market t.taker xs h.1))
  ]

  module _ (R : Order M → Order M → Type 0)
      (stable : (a b c d : Order M) → SameOrder M a b → SameOrder M c d → R b d → R a c) where
    keep-Sorted :
        (x : Order M) (a : M.Decimal) (o : Option (Order M)) (ys : List (Order M))
        → MakerAfter M x a o
        → All (R x) ys
        → Sorted R ys
        → Sorted R (keep o ys)
    keep-Sorted x a none ys f h k = k
    keep-Sorted x a (some o) ys f h k =
        (All-map (R x) (R o) (λ y. stable o x y y f.2 (SameOrder-refl M y)) ys h, k)

    -- A side that is sorted by what no deal changes stays sorted.
    pub execute-Sorted :
        (e : Engine M) (m : Market M) (taker : Order M) (xs : List (Order M))
        → Sorted R xs
        → Sorted R (execute M quote trade e m taker xs).makers
    unfolding execute
    execute-Sorted e m taker [] h = tt
    execute-Sorted e m taker (x ∷ xs) h = elim (Quote-cases M (quote taker x)) [
      | stops q ↦ rw (q, execute) h
      | hangs q ↦ rw (q, execute) h
      | deals a q ↦
          let t = trade e m taker x a in
          let later =
            execute-All (R x) (λ y z s. stable x x y z (SameOrder-refl M x) s) t.engine t.market
              t.taker xs h.0 in
          rw (q, execute)
            (keep-Sorted x a t.maker (execute M quote trade t.engine t.market t.taker xs).makers
              (after e m taker x a) later (execute-Sorted t.engine t.market t.taker xs h.1))
    ]

-- A predicate on the list that an insertion returns.
abbrev pub Inserted : {A : Type 0} → (List A → Type 0) → Option (List A) → Type 0
Inserted P none = Unit
Inserted P (some ys) = P ys

onto-Inserted :
    {A : Type 0} (P Q : List A → Type 0) (x : A) (o : Option (List A))
    → ((ys : List A) → P ys → Q (x ∷ ys))
    → Inserted P o
    → Inserted Q (onto x o)
onto-Inserted P Q x none f h = tt
onto-Inserted P Q x (some ys) f h = f ys h

module _ {A : Type 0} (compare : A → A → Ordering) where
  -- What holds of a value and of every member of a list holds after the value is inserted.
  pub insert-All :
      (P : A → Type 0) (dup : Bool) (v : A) (xs : List A)
      → P v
      → All P xs
      → Inserted (All P) (insert_from compare dup v xs)
  unfolding insert_from
  insert-All P true v [] h k = tt
  insert-All P false v [] h k = (h, tt)
  insert-All P dup v (x ∷ xs) h k = elim (Ordering-cases (compare x v)) [
    | less q ↦
        rw (q, insert_from)
          (onto-Inserted (All P) (All P) x _ (λ ys all. (k.0, all)) (insert-All P false v xs h k.1))
    | same q ↦
        rw (q, insert_from)
          (onto-Inserted (All P) (All P) x _ (λ ys all. (k.0, all)) (insert-All P true v xs h k.1))
    | more q ↦ rw (q, insert_from) (here dup)
  ]
    where
      here : (d : Bool) → Inserted (All P) (if d then none else some (v ∷ x ∷ xs))
      here true = tt
      here false = (h, k)

  -- `compare` finds the place of `v` beside `x` in the order `R`.
  pub record IsPlaced (R : A → A → Type 0) (v x : A) : Type 0 where
    pub before : compare x v ≡ Ordering.lt → R x v
    pub behind : compare x v ≡ Ordering.gt → R v x
    pub other : compare x v ≡ Ordering.eq → ⊥

  module _ (R : A → A → Type 0) (trans : (a b c : A) → R a b → R b c → R a c) where
    -- A sorted list stays sorted.
    pub insert-Sorted :
        (dup : Bool) (v : A) (xs : List A)
        → All (IsPlaced R v) xs
        → Sorted R xs
        → Inserted (Sorted R) (insert_from compare dup v xs)
    unfolding insert_from
    insert-Sorted true v [] h k = tt
    insert-Sorted false v [] h k = (tt, tt)
    insert-Sorted dup v (x ∷ xs) h k = elim (Ordering-cases (compare x v)) [
      | less q ↦
          rw (q, insert_from)
            (both x (insert_from compare false v xs)
              (insert-All (R x) false v xs (h.0.before q) k.0) (insert-Sorted false v xs h.1 k.1))
      | same q ↦ absurd (h.0.other q)
      | more q ↦ rw (q, insert_from) (here dup (h.0.behind q))
    ]
      where
        both :
            (y : A) (o : Option (List A))
            → Inserted (All (R y)) o
            → Inserted (Sorted R) o
            → Inserted (Sorted R) (onto y o)
        both y none a s = tt
        both y (some ys) a s = (a, s)

        here : (d : Bool) → R v x → Inserted (Sorted R) (if d then none else some (v ∷ x ∷ xs))
        here true r = tt
        here false r = ((r, All-map (R x) (R v) (λ y. trans v x y r) xs k.0), k)
