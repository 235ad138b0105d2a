-- ===== src/HashTable/Steps.antt =====
-- Each operation of utils/ut_dict.c answers as an association list does.
use viabtc_server_mac.Prelude.{
  ℕ, ◌≡◌, refl, Bool, true, false, Option, none, some, arith, KeyType, ◌==◌, if◌then◌else◌, sym, ap,
  ◌∙◌, Bool-cases, Option-cases, inl, inr, subst, ◌≢◌, ℤ, pos, negsuc, ◌⊎◌,
}
use viabtc_server_mac.Dict
use viabtc_server_mac.Dict.{Dict}
use viabtc_server_mac.HashTable.Chain.{Entry}
use viabtc_server_mac.HashTable.Invariant.{IsTable, view}
use viabtc_server_mac.HashTable.Sweep.{
  dict_find-IsTable, view-dict_find, dict_find_frame, value-dict_find, dict_mark_clear-IsTable,
  view-dict_mark_clear,
}
use viabtc_server_mac.HashTable.Methods.{Updates, dict_delete-Updates, dict_delete_frame}
use viabtc_server_mac.HashTable.Add.{HasRoom, Near, Added, dict_add_lem, some-ne-none}
use viabtc_server_mac.HashTable.Replace.{Replaced, dict_replace_lem}
use viabtc_server_mac.HashTable.Run.{
  Command, lookup, insert, write, remove, clear, Answer, found, added, written, is_some, table_step,
  dict_step, Stands,
}
use viabtc_server_mac.HashTable.{
  Table, dict_find, dict_add, dict_replace, dict_delete, dict_mark_clear,
}

module _ {K V : Type 0} ⦃e : KeyType K⦄ where
  find-put :
      (k q : K) (v : V) (d : Dict K V)
      → Dict.find q (Dict.put k v d) ≡ (if q == k then some v else Dict.find q d)
  find-put k q v d = elim (Bool-cases (q == k)) [
    | inl same ↦
        let is_k : q ≡ k = (e.same_iff q k).0 same in
        rw same
          (subst (λ j. Dict.find j (Dict.put k v d) ≡ some v) (sym is_k) (Dict.find-put_self k v d))
    | inr other ↦ rw other (Dict.find-put_ne q k v d other)
  ]

  find-delete :
      (k q : K) (d : Dict K V)
      → Dict.find q (Dict.delete k d) ≡ (if q == k then none else Dict.find q d)
  find-delete k q d = elim (Bool-cases (q == k)) [
    | inl same ↦
        let is_k : q ≡ k = (e.same_iff q k).0 same in
        rw same
          (subst (λ j. Dict.find j (Dict.delete k d) ≡ none) (sym is_k) (Dict.find-delete_self k d))
    | inr other ↦ rw other (Dict.find-delete_ne q k d other)
  ]

module _ {K V : Type 0} ⦃e : KeyType K⦄ (hash : K → ℕ) (t : Table K V) (d : Dict K V)
    (stands : Stands hash t d) (room : HasRoom t) where
  standing : IsTable hash t
  unfolding Stands
  standing = stands.0

  seen_in : (q : K) → view hash t q ≡ Dict.find q d
  unfolding Stands
  seen_in = stands.1

  -- One step of the table answers as the list does, and stands for the list after it.
  unfoldable pub Follows : Command K V → Type 0
  Follows c =
      (s : Table K V) × (table_step hash t c ≡ some ((dict_step d c).0, s))
      × Stands hash s (dict_step d c).1
      × Near t s

  lookup-Follows : (k : K) → Follows (lookup k)
  unfolding Follows Stands table_step dict_step
  lookup-Follows k =
      let (good, sees) = stands in
      let (size_is, mask_is, start_is, clear_is, used_le) = dict_find_frame hash t good k in
      (
        (dict_find hash t k).1,
        ap (λ o. some (found o, (dict_find hash t k).1)) (value-dict_find hash t good k ∙ sees k),
        (dict_find-IsTable hash t good k, λ q. view-dict_find hash t good k q ∙ sees q),
        (omega arith, omega arith),
      )

  remove-Follows : (k : K) → Follows (remove k)
  unfolding Follows Stands table_step dict_step
  remove-Follows k =
      let (good, sees) = stands in
      let (kept, updated) = dict_delete-Updates hash t good k in
      let (used_le, start_is) = dict_delete_frame hash t good k in
      (
        (dict_delete hash t k).1,
        refl,
        (
          kept,
          λ q. updated q ∙ ap (λ o. if q == k then none else o) (sees q) ∙ sym (find-delete k q d),
        ),
        (omega arith, omega arith),
      )

  mark_clear-Near : Near t (dict_mark_clear t)
  unfolding dict_mark_clear
  mark_clear-Near = (omega arith, omega arith)

  clear-Follows : Follows clear
  unfolding Follows Stands table_step dict_step Dict.find
  clear-Follows =
      let (good, sees) = stands in
      (
        dict_mark_clear t,
        refl,
        (dict_mark_clear-IsTable hash t good room.1, λ q. view-dict_mark_clear hash t good q),
        mark_clear-Near,
      )

  -- A step that is followed, by what the list does.
  followed :
      (c : Command K V) (answer : Answer V) (d' : Dict K V) (s : Table K V)
      → dict_step d c ≡ (answer, d')
      → table_step hash t c ≡ some (answer, s)
      → Stands hash s d'
      → Near t s
      → Follows c
  unfolding Follows
  followed c answer d' s list table st near = (
    s,
    table ∙ ap (λ (o : Answer V × Dict K V). some (o.0, s)) (sym list),
    subst (λ (o : Answer V × Dict K V). Stands hash s o.1) (sym list) st,
    near,
  )

  module _ (k : K) (v : V) where
    -- The map with `k` at `v`, as a table and as a list.
    Updates-Stands : (s : Table K V) → Updates hash t k (some v) s → Stands hash s (Dict.put k v d)
    unfolding Stands
    Updates-Stands s (good, sees) = (
      good,
      λ q. sees q ∙ ap (λ o. if q == k then some v else o) (stands.1 q) ∙ sym (find-put k q v d),
    )

    accepted_lem :
        (r : Option (Entry K V)) (s : Table K V)
        → Added hash t k v (r, s)
        → r ≢ none
        → (is_some r ≡ true) × Stands hash s (Dict.put k v d)
    accepted_lem none s out h = absurd (h refl)
    accepted_lem (some x) s (is_val, out) h = (refl, Updates-Stands s out)

    refused_lem :
        (r : Option (Entry K V)) (s : Table K V)
        → Added hash t k v (r, s)
        → r ≡ none
        → (is_some r ≡ false) × Stands hash s d
    unfolding Stands
    refused_lem none s (good, same) h = (refl, (good, λ q. same q ∙ stands.1 q))
    refused_lem (some x) s out h = cc

    written_lem :
        (code : ℤ) (s : Table K V)
        → Replaced hash t k v (code, s)
        → code ≢ negsuc 0
        → (((code ≡ pos 0) × (view hash t k ≢ none)) ⊎ ((code ≡ pos 1) × (view hash t k ≡ none)))
          × Stands hash s (Dict.put k v d)
    written_lem (negsuc n) s (z, absent, good, same) h = absurd (h (ap negsuc z))
    written_lem (pos n) s (inl (z, there), out) h = (inl (ap pos z, there), Updates-Stands s out)
    written_lem (pos n) s (inr (z, absent), out) h = (inr (ap pos z, absent), Updates-Stands s out)

    insert_new : Dict.find k d ≡ none → dict_step d (insert k v) ≡ (added true, Dict.put k v d)
    unfolding dict_step
    insert_new h = rw (h, dict_step) refl

    insert_old : (w : V) → Dict.find k d ≡ some w → dict_step d (insert k v) ≡ (added false, d)
    unfolding dict_step
    insert_old w h = rw (h, dict_step) refl

    write_new : Dict.find k d ≡ none → dict_step d (write k v) ≡ (written (pos 1), Dict.put k v d)
    unfolding dict_step
    write_new h = rw (h, dict_step) refl

    write_old :
        (w : V)
        → Dict.find k d ≡ some w
        → dict_step d (write k v) ≡ (written (pos 0), Dict.put k v d)
    unfolding dict_step
    write_old w h = rw (h, dict_step) refl

    table_insert :
        (r : Option (Entry K V)) (s : Table K V) (b : Bool)
        → dict_add hash true true t k v ≡ some (r, s)
        → is_some r ≡ b
        → table_step hash t (insert k v) ≡ some (added b, s)
    unfolding table_step
    table_insert r s b g h = rw g (ap (λ o. some (added o, s)) h)

    table_write :
        (code code' : ℤ) (s : Table K V)
        → dict_replace hash true true t k v ≡ some (code, s)
        → code ≡ code'
        → table_step hash t (write k v) ≡ some (written code', s)
    unfolding table_step
    table_write code code' s g h = rw g (ap (λ o. some (written o, s)) h)

    insert-Follows : Follows (insert k v)
    insert-Follows =
        let (r, s, g, outcome, near, refused, accepted) =
          dict_add_lem hash t standing k v true true room in
        elim (Option-cases (Dict.find k d)) [
          | inl absent ↦
              let (is_new, st) =
                accepted_lem r s outcome (accepted (seen_in k ∙ absent) refl refl) in
              followed (insert k v) (added true) (Dict.put k v d) s (insert_new absent)
                (table_insert r s true g is_new) st near
          | inr (w, present) ↦
              let (is_old, st) =
                refused_lem r s outcome
                  (refused (λ z. some-ne-none (sym present ∙ sym (seen_in k) ∙ z))) in
              followed (insert k v) (added false) d s (insert_old w present)
                (table_insert r s false g is_old) st near
        ]

    write-Follows : Follows (write k v)
    write-Follows =
        let (code, s, g, outcome, near, succeeds) =
          dict_replace_lem hash t standing k v true true room in
        let (which, st) = written_lem code s outcome (succeeds refl refl) in
        elim (Option-cases (Dict.find k d)) [
          | inl absent ↦ elim which [
            | inl (zero_is, there) ↦ absurd (there (seen_in k ∙ absent))
            | inr (one_is, gone) ↦
                followed (write k v) (written (pos 1)) (Dict.put k v d) s (write_new absent)
                  (table_write code (pos 1) s g one_is) st near
          ]
          | inr (w, present) ↦ elim which [
            | inl (zero_is, there) ↦
                followed (write k v) (written (pos 0)) (Dict.put k v d) s (write_old w present)
                  (table_write code (pos 0) s g zero_is) st near
            | inr (one_is, gone) ↦ absurd (some-ne-none (sym present ∙ sym (seen_in k) ∙ gone))
          ]
        ]

  pub Command-Follows : (c : Command K V) → Follows c
  Command-Follows (lookup k) = lookup-Follows k
  Command-Follows (insert k v) = insert-Follows k v
  Command-Follows (write k v) = write-Follows k v
  Command-Follows (remove k) = remove-Follows k
  Command-Follows clear = clear-Follows
