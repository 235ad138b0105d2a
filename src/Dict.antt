-- ===== src/Dict.antt =====
-- What utils/ut_dict.c promises its clients: a finite map with `dict_find`, `dict_add` (refused on a
-- key that is there), a write through the entry that `dict_find` returns, and `dict_delete`.
-- The entries stand in a list; no client depends on their order.
use viabtc_server_mac.Prelude.{
  ◌≡◌, refl, true, false, Option, none, some, List, [], ◌∷◌, arith, KeyType, ◌==◌, if◌then◌else◌,
}

abbrev pub Dict : Type 0 → Type 0 → Type 0
Dict K V = List (K × V)

pub beq_refl : {K : Type 0} ⦃e : KeyType K⦄ (k : K) → (k == k) ≡ true
beq_refl ⦃e⦄ k = (e.same_iff k k).1 refl

module _ {K V : Type 0} ⦃e : KeyType K⦄ where
  unfoldable pub find : K → Dict K V → Option V
  find k [] = none
  find k ((j, v) ∷ d) = if k == j then some v else find k d

  -- A new entry, or the value of an entry that is there replaced.
  unfoldable pub put : K → V → Dict K V → Dict K V
  put k v [] = (k, v) ∷ []
  put k v ((j, w) ∷ d) = if k == j then (j, v) ∷ d else (j, w) ∷ put k v d

  unfoldable pub delete : K → Dict K V → Dict K V
  delete k [] = []
  delete k ((j, w) ∷ d) = if k == j then delete k d else (j, w) ∷ delete k d

  pub find-put_self : (k : K) (v : V) (d : Dict K V) → find k (put k v d) ≡ some v
  unfolding find put
  find-put_self k v [] = ground (arith, beq_refl k)
  find-put_self k v ((j, w) ∷ d) = ground (arith, find-put_self k v d)

  pub find-put_ne :
      (j k : K) (v : V) (d : Dict K V) → (j == k) ≡ false → find j (put k v d) ≡ find j d
  unfolding find put
  find-put_ne j k v [] h = ground arith
  find-put_ne j k v ((i, w) ∷ d) h =
      ground (arith, find-put_ne j k v d h, (e.same_iff k i), (e.same_iff j k), (e.same_iff j i))

  pub find-delete_self : (k : K) (d : Dict K V) → find k (delete k d) ≡ none
  unfolding find delete
  find-delete_self k [] = refl
  find-delete_self k ((j, w) ∷ d) = ground (arith, find-delete_self k d)

  pub find-delete_ne : (j k : K) (d : Dict K V) → (j == k) ≡ false → find j (delete k d) ≡ find j d
  unfolding find delete
  find-delete_ne j k [] h = refl
  find-delete_ne j k ((i, w) ∷ d) h =
      ground (arith, find-delete_ne j k d h, (e.same_iff k i), (e.same_iff j k), (e.same_iff j i))

  -- A value that is there may be written again.
  pub put-find_self : (k : K) (v : V) (d : Dict K V) → find k d ≡ some v → put k v d ≡ d
  unfolding find put
  put-find_self k v [] h = cc
  put-find_self k v ((j, w) ∷ d) h = ground (arith, put-find_self k v d)
