-- ===== src/Update/Once.antt =====
-- Balance updates (matchengine/me_update.c) leave behind: the key of one that succeeds, nothing of one that is refused.
use viabtc_server_mac.Prelude.{
  ◌⊎◌, ℕ, ◌≡◌, Bool, Option, none, some, String, refl, arith, Option-cases, Bool-cases, inl, inr,
  is_lt, if◌then◌else◌,
}
use viabtc_server_mac.Platform.{Mpd}
use viabtc_server_mac.Dict.{find, find-put_self}
use viabtc_server_mac.Balance.Defs.{Ledger, balance_add, balance_sub, available_type}
use viabtc_server_mac.Balance.Errors.{add-KeepsOnNull, sub-KeepsOnNull}
use viabtc_server_mac.Market.Order.{ok, err}
use viabtc_server_mac.Update.{Updates, update_key, update_key_eq, update_user_balance, apply_change}

module _ (M : Mpd) where
  -- An update with a key that is remembered is refused with -1 and changes nothing.
  pub repeated_lem :
      (real : Bool) (s : Updates M) (u : ℕ) (a b : String) (i : ℕ) (x : M.Decimal) (d : String)
      {t : M.Time}
      → find (update_key s.padding u a b i) s.updates ≡ some t
      → update_user_balance M real s u a b i x d ≡ (err 1, s)
  unfolding update_user_balance
  repeated_lem real s u a b i x d h = ground arith

  -- What an update that succeeds remembers.
  pub remembered :
      (real : Bool) (s : Updates M) (u : ℕ) (a b : String) (i : ℕ) (x : M.Decimal) (d : String)
      → (update_user_balance M real s u a b i x d).0 ≡ ok
      → find (update_key s.padding u a b i) (update_user_balance M real s u a b i x d).1.updates
        ≡ some (M.current_timestamp s.engine.ticks)
  unfolding update_user_balance
  remembered real s u a b i x d h = ground (
    arith,
    find-put_self (update_key s.padding u a b i) (M.current_timestamp s.engine.ticks) s.updates,
  )

  apply_change-KeepsOnNull :
      (l : Ledger M) (u : ℕ) (a : String) (x : M.Decimal)
      → (apply_change M l u a x).0 ≡ none
      → (apply_change M l u a x).1 ≡ l
  unfolding apply_change
  apply_change-KeepsOnNull l u a x h = elim (Bool-cases (is_lt (M.cmp x M.mpd_zero))) [
    | inl e ↦ rw e (sub-KeepsOnNull M l u available_type a (M.abs x) (rw e at h))
    | inr e ↦ rw e (add-KeepsOnNull M l u available_type a (M.abs x) (rw e at h))
  ]

  -- What the change does to the available balance: a negative one is subtracted, another is added.
  abbrev pub changed : Ledger M → ℕ → String → M.Decimal → Option M.Decimal × Ledger M
  changed l u a x =
      if is_lt (M.cmp x M.mpd_zero)
      then balance_sub M l u available_type a (M.abs x)
      else balance_add M l u available_type a (M.abs x)

  apply_change_lem :
      (l : Ledger M) (u : ℕ) (a : String) (x : M.Decimal) → changed l u a x ≡ apply_change M l u a x
  unfolding apply_change
  apply_change_lem l u a x = refl

  -- The result code of a balance update, on every branch: -1 exactly if its key is remembered; else -2
  -- exactly if the balance function that the sign of the change chooses returns NULL; else 0. A
  -- refused update changes nothing, the balances included; one that succeeds leaves the balances of
  -- that function and remembers its key, with the time of the first reading of the clock.
  pub update_user_balance_codes :
      (real : Bool) (s : Updates M) (u : ℕ) (a b : String) (i : ℕ) (x : M.Decimal) (d : String)
      → let (r, s') = update_user_balance M real s u a b i x d in
        let seen = find (update_key s.padding u a b i) s.updates in
        let balances = changed s.engine.ledger u a x in
        ((t : M.Time) × (seen ≡ some t) × (r ≡ err 1) × (s' ≡ s))
        ⊎ ((seen ≡ none) × (balances.0 ≡ none) × (r ≡ err 2) × (s' ≡ s))
        ⊎ ((v : M.Decimal) × (seen ≡ none)
            × (balances.0 ≡ some v)
            × (r ≡ ok)
            × (s'.engine.ledger ≡ balances.1)
            × (find (update_key s.padding u a b i) s'.updates
                ≡ some (M.current_timestamp s.engine.ticks)))
  unfolding update_user_balance
  update_user_balance_codes real s u a b i x d =
      rw (apply_change_lem s.engine.ledger u a x)
        (elim (Option-cases (find (update_key s.padding u a b i) s.updates)) [
          | inr (t, e) ↦ inl (t, e, ground arith, ground arith)
          | inl e ↦ elim (Option-cases (apply_change M s.engine.ledger u a x).0) [
            | inl n ↦ inr (
                inl (
                  e,
                  n,
                  ground arith,
                  ground (arith, apply_change-KeepsOnNull s.engine.ledger u a x),
                ))
            | inr (v, n) ↦ inr (
                inr (
                  v,
                  e,
                  n,
                  ground arith,
                  ground arith,
                  ground (
                    arith,
                    find-put_self (update_key s.padding u a b i)
                        (M.current_timestamp s.engine.ticks) s.updates,
                  ),
                ))
          ]
        ])
