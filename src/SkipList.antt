-- ===== src/SkipList.antt =====
-- What utils/ut_skiplist.c promises its clients on the bottom level: an ordered list that is walked
-- by the client's `compare`. The towers above the bottom level only shorten the walk.
use viabtc_server_mac.Prelude.{
  Bool, true, false, Option, none, some, List, [], ◌∷◌, Ordering, if◌then◌else◌,
}

-- The node that was passed, in front of the rest.
abbrev pub onto : {A : Type 0} → A → Option (List A) → Option (List A)
onto x none = none
onto x (some r) = some (x ∷ r)

module _ {A : Type 0} (compare : A → A → Ordering) where
  -- `skiplist_insert`, with whether the node before compared equal: it walks past every node that
  -- compares `<= 0`, and refuses where the last of them is equal.
  unfoldable pub insert_from : Bool → A → List A → Option (List A)
  insert_from dup v [] = if dup then none else some (v ∷ [])
  insert_from dup v (x ∷ xs) =
      let before = onto x (insert_from false v xs) in
      let equal = onto x (insert_from true v xs) in
      elim (compare x v) [
        | Ordering.gt ↦ if dup then none else some (v ∷ x ∷ xs)
        | Ordering.lt ↦ before
        | Ordering.eq ↦ equal
      ]

  unfoldable pub skiplist_insert : A → List A → Option (List A)
  unfolding insert_from
  skiplist_insert v xs = insert_from false v xs

  -- `skiplist_find` followed by `skiplist_delete` of the node that it returns.
  unfoldable pub skiplist_remove : A → List A → List A
  skiplist_remove v [] = []
  skiplist_remove v (x ∷ xs) =
      let later = x ∷ skiplist_remove v xs in
      elim (compare x v) [ Ordering.gt ↦ x ∷ xs | Ordering.lt ↦ later | Ordering.eq ↦ xs ]
