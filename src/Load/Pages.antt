-- ===== src/Load/Pages.antt =====
-- The loop of `load_orders` and of `load_balance` (matchengine/me_load.c): the rows of a slice are
-- selected page after page, by the last id that was seen.
-- `select last limit` is the result of `SELECT … WHERE id > last ORDER BY id LIMIT limit`, `none` where
-- the query fails. `visit` is the loop's body for a row, with the early return of a row that it refuses.
use viabtc_server_mac.Prelude.{
  ℕ, zero, suc, ◌+◌, ◌≤◌, ◌<◌, ◌≡◌, refl, sym, ap, ◌∙◌, subst, true, false, Option, none, some,
  List, [], ◌∷◌, ◌++◌, ltb, if◌then◌else◌, take, drop, length, arith, Bool-cases, inl, inr, ◌⊎◌,
  length-take, length-append, take-append-drop, drop_all,
}
use mathlib.Core.List.{append_assoc}
use viabtc_server_mac.Market.Order.{Ret, ok, err}

module _ {Row S : Type 0} (id : Row → ℕ) (visit : S → Row → Ret × S) where
  -- The inner loop: what it returns, `last_id` and the state.
  unfoldable pub visit_rows : ℕ → S → List Row → Ret × ℕ × S
  visit_rows last s [] = (ok, last, s)
  visit_rows last s (r ∷ rows) =
      let (ret, s') = visit s r in
      let rest = visit_rows (id r) s' rows in elim ret [ ok ↦ rest | err n ↦ (err n, id r, s') ]

  -- `while (true)`; `line` is the line of the return after a query that fails. `none`: the fuel ran out.
  unfoldable pub load_pages : ℕ → ℕ → (ℕ → ℕ → Option (List Row)) → ℕ → ℕ → S → Option (Ret × S)
  load_pages zero limit select line last s = none
  load_pages (suc fuel) limit select line last s = elim (select last limit) [
    | none ↦ some (err line, s)
    | some rows ↦
        let (ret, last', s') = visit_rows last s rows in
        let next = load_pages fuel limit select line last' s' in
        elim ret [
          | err n ↦ some (err n, s')
          | ok ↦ if ltb (length rows) limit then some (ok, s') else next
        ]
  ]

-- What a page is selected from: the rows behind the last id.
module _ {Row : Type 0} (id : Row → ℕ) where
  abbrev pub after : ℕ → List Row → List Row
  after last [] = []
  after last (r ∷ rows) = let rest = after last rows in if ltb last (id r) then r ∷ rest else rest

  -- The ids rise, from above `lo`.
  abbrev pub Rising : ℕ → List Row → Type 0
  Rising lo [] = Unit
  Rising lo (r ∷ rows) = (lo < id r) × Rising (id r) rows

  -- The id of the last row.
  abbrev pub last_of : ℕ → List Row → ℕ
  last_of lo [] = lo
  last_of lo (r ∷ rows) = last_of (id r) rows

  last_of-le : (lo : ℕ) (rows : List Row) → Rising lo rows → lo ≤ last_of lo rows
  last_of-le lo [] h = omega arith
  last_of-le lo (r ∷ rows) h = omega (arith, last_of-le (id r) rows h.1)

  Rising-front : (lo : ℕ) (front rest : List Row) → Rising lo (front ++ rest) → Rising lo front
  Rising-front lo [] rest h = tt
  Rising-front lo (r ∷ front) rest h = (h.0, Rising-front (id r) front rest h.1)

  after_all : (last lo : ℕ) (rows : List Row) → last ≤ lo → Rising lo rows → after last rows ≡ rows
  after_all last lo [] le h = refl
  after_all last lo (r ∷ rows) le h = ground (arith, after_all last (id r) rows (omega arith) h.1)

  after-last_of :
      (lo : ℕ) (front rest : List Row)
      → Rising lo (front ++ rest)
      → after (last_of lo front) (front ++ rest) ≡ rest
  after-last_of lo [] rest h = after_all lo lo rest (omega arith) h
  after-last_of lo (r ∷ front) rest h =
      let passed = last_of-le (id r) front (Rising-front (id r) front rest h.1) in
      ground (arith, after-last_of (id r) front rest h.1)

  last_of-append : (lo : ℕ) (a b : List Row) → last_of lo (a ++ b) ≡ last_of (last_of lo a) b
  last_of-append lo [] b = refl
  last_of-append lo (r ∷ a) b = last_of-append (id r) a b

Ret-cases : (r : Ret) → (r ≡ ok) ⊎ ((n : ℕ) × (r ≡ err n))
Ret-cases ok = inl refl
Ret-cases (err n) = inr (n, refl)

module _ {Row S : Type 0} (id : Row → ℕ) (visit : S → Row → Ret × S) where
  -- More rows, after a visit that may have been refused.
  abbrev then_rows : Ret × ℕ × S → List Row → Ret × ℕ × S
  then_rows (ok, last, s) rows = visit_rows id visit last s rows
  then_rows (err n, last, s) rows = (err n, last, s)

  -- A row that is not refused.
  pub visit_rows_step :
      (last : ℕ) (s s' : S) (r : Row) (rows : List Row)
      → visit s r ≡ (ok, s')
      → visit_rows id visit last s (r ∷ rows) ≡ visit_rows id visit (id r) s' rows
  unfolding visit_rows
  visit_rows_step last s s' r rows e =
      let fine : (visit s r).0 ≡ ok = ap (λ (v : Ret × S). v.0) e in
      rw (fine, visit_rows) (ap (λ (v : Ret × S). visit_rows id visit (id r) v.1 rows) e)

  visit_rows-append :
      (last : ℕ) (s : S) (a b : List Row)
      → visit_rows id visit last s (a ++ b) ≡ then_rows (visit_rows id visit last s a) b
  unfolding visit_rows
  visit_rows-append last s [] b = refl
  visit_rows-append last s (r ∷ a) b = elim (Ret-cases (visit s r).0) [
    | inl e ↦ rw (e, visit_rows) (visit_rows-append (id r) (visit s r).1 a b)
    | inr (n, e) ↦ rw (e, visit_rows) refl
  ]

  -- A visit that refuses no row ends with the last row's id.
  visit_rows-last :
      (last : ℕ) (s : S) (rows : List Row)
      → (visit_rows id visit last s rows).0 ≡ ok
      → (visit_rows id visit last s rows).1 ≡ last_of id last rows
  unfolding visit_rows
  visit_rows-last last s [] h = refl
  visit_rows-last last s (r ∷ rows) h = elim (Ret-cases (visit s r).0) [
    | inl e ↦
        rw (e, visit_rows) (visit_rows-last (id r) (visit s r).1 rows (rw (e, visit_rows) at h))
    | inr (n, e) ↦ let bad : err n ≡ ok = rw (e, visit_rows) at h in cc
  ]

  -- The result and the state of a visit.
  abbrev pub outcome : Ret × ℕ × S → Ret × S
  outcome (ret, last, s) = (ret, s)

  module _ (limit : ℕ) (some_rows : 0 < limit) (select : ℕ → ℕ → Option (List Row)) (line : ℕ)
      (table : List Row) (rising : Rising id 0 table)
      (answers : (last : ℕ) → select last limit ≡ some (take limit (after id last table))) where
    -- One page, then the others.
    load_pages-step :
        (fuel last : ℕ) (s : S) (rows : List Row)
        → select last limit ≡ some rows
        → load_pages id visit (suc fuel) limit select line last s
          ≡ elim (visit_rows id visit last s rows).0 [
            | err n ↦ some (err n, (visit_rows id visit last s rows).2)
            | ok ↦
                if ltb (length rows) limit
                then some (ok, (visit_rows id visit last s rows).2)
                else load_pages id visit fuel limit select line
                    (visit_rows id visit last s rows).1
                    (visit_rows id visit last s rows).2
          ]
    unfolding load_pages
    load_pages-step fuel last s rows e = rw (e, load_pages) refl

    -- What follows a page, by how its visit ended.
    page_case :
        (fuel : ℕ) (v : Ret × ℕ × S) (page more : List Row)
        → (ltb (length page) limit ≡ true → more ≡ [])
        → (ltb (length page) limit ≡ false
            → v.0 ≡ ok
            → load_pages id visit fuel limit select line v.1 v.2
              ≡ some (outcome (visit_rows id visit v.1 v.2 more)))
        → ◌≡◌ {A = Option (Ret × S)}
            (elim v.0 [
              | err n ↦ some (err n, v.2)
              | ok ↦
                  if ltb (length page) limit
                  then some (ok, v.2)
                  else load_pages id visit fuel limit select line v.1 v.2
            ])
            (some (outcome (then_rows v more)))
    unfolding visit_rows
    page_case fuel (err n, last, s) page more short full = refl
    page_case fuel (ok, last, s) page more short full =
        elim (Bool-cases (ltb (length page) limit)) [
          | inl e ↦ rw (e, short e) refl
          | inr e ↦ rw e (full e refl)
        ]

    page_rest :
        (rest : List Row) → length (take limit rest) + length (drop limit rest) ≡ length rest
    page_rest rest =
        sym (length-append (take limit rest) (drop limit rest))
        ∙ ap length (take-append-drop limit rest)

    last_page :
        (rest : List Row) → ltb (length (take limit rest)) limit ≡ true → drop limit rest ≡ []
    last_page rest h = elim (Bool-cases (ltb (length rest) limit)) [
      | inl e ↦ drop_all limit rest (ground arith)
      | inr e ↦ let full = length-take limit rest (ground arith) in absurd (ground arith)
    ]

    pages_lem :
        (fuel : ℕ) (front rest : List Row) (s : S)
        → front ++ rest ≡ table
        → length rest < fuel
        → load_pages id visit fuel limit select line (last_of id 0 front) s
          ≡ some (outcome (visit_rows id visit (last_of id 0 front) s rest))
    pages_lem zero front rest s whole enough = absurd (omega arith)
    pages_lem (suc fuel) front rest s whole enough =
        let last = last_of id 0 front in
        let page = take limit rest in
        let more = drop limit rest in
        let v = visit_rows id visit last s page in
        let behind : after id last table ≡ rest =
          subst (λ t. after id last t ≡ rest) whole
            (after-last_of id 0 front rest (subst (Rising id 0) (sym whole) rising)) in
        let selected : select last limit ≡ some page =
          answers last ∙ ap (λ t. some (take limit t)) behind in
        let joined : visit_rows id visit last s rest ≡ then_rows v more =
          ap (λ t. visit_rows id visit last s t) (sym (take-append-drop limit rest))
          ∙ visit_rows-append last s page more in
        load_pages-step fuel last s page selected
        ∙ page_case fuel v page more (last_page rest) (λ full is_ok.
          let here : v.1 ≡ last_of id 0 (front ++ page) =
            visit_rows-last last s page is_ok ∙ sym (last_of-append id 0 front page) in
          subst
            (λ l.
              load_pages id visit fuel limit select line l v.2
              ≡ some (outcome (visit_rows id visit l v.2 more)))
            (sym here)
            (pages_lem fuel (front ++ page) more v.2
              (append_assoc front page more
                ∙ ap (λ t. front ++ t) (take-append-drop limit rest)
                ∙ whole)
              (ground (arith, page_rest rest))))
        ∙ ap (λ o. some (outcome o)) (sym joined)

  -- Where the ids of a table rise from above 0 and a query answers with the first `limit` rows behind the
  -- last id, the loop ends within one round more than there are rows, and returns and leaves what a single
  -- visit of all rows in order does: no row is left out or visited twice.
  pub load_pages-visit_rows :
      (limit : ℕ) (select : ℕ → ℕ → Option (List Row)) (line : ℕ) (table : List Row) (fuel : ℕ)
      (s : S)
      → 0 < limit
      → Rising id 0 table
      → ((last : ℕ) → select last limit ≡ some (take limit (after id last table)))
      → length table < fuel
      → load_pages id visit fuel limit select line 0 s
        ≡ some (outcome (visit_rows id visit 0 s table))
  load_pages-visit_rows limit select line table fuel s pos rising answers enough =
      pages_lem limit pos select line table rising answers fuel [] table s refl enough
