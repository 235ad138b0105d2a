-- ===== src/Update/Day.antt =====
-- Balance updates (matchengine/me_update.c) between two runs of the timer that forgets the old ones.
use viabtc_server_mac.Prelude.{
  ℕ, ◌≡◌, Bool, false, some, List, [], ◌∷◌, String, arith, ◌==◌, Bool-cases, inl, inr,
}
use viabtc_server_mac.Platform.{Mpd}
use viabtc_server_mac.Dict.{Dict, find, find-put_ne}
use viabtc_server_mac.Market.Order.{ok, err}
use viabtc_server_mac.Update.{
  Updates, UpdateKey, update_key, update_key_eq, update_key_beq_iff, update_user_balance, on_timer,
  drop_expired,
}
use viabtc_server_mac.Update.Once.{repeated_lem, remembered}

module _ (M : Mpd) where
  -- What changes the table of updates: the timer, and a request. What else runs may change what the
  -- stack holds in the place of the key's padding.
  pub data Step : Type 0 where
    timer : Step
    stack : ℕ → Step
    update : Bool → ℕ → String → String → ℕ → M.Decimal → String → Step

  abbrev pub after : Updates M → Step → Updates M
  after s timer = on_timer M s
  after s (stack p) = record s { padding = p }
  after s (update real u a b i x d) = (update_user_balance M real s u a b i x d).1

  abbrev pub run : Updates M → List Step → Updates M
  run s [] = s
  run s (o ∷ os) = run (after s o) os

  -- Every timer of the steps runs within a day of `t`.
  abbrev pub IsWithinDay : M.Time → Updates M → List Step → Type 0
  IsWithinDay t s [] = Unit
  IsWithinDay t s (timer ∷ os) =
      (M.day_before t (M.current_timestamp s.engine.ticks) ≡ false)
      × IsWithinDay t (on_timer M s) os
  IsWithinDay t s (stack p ∷ os) = IsWithinDay t (record s { padding = p }) os
  IsWithinDay t s (update real u a b i x d ∷ os) =
      IsWithinDay t (update_user_balance M real s u a b i x d).1 os

  find-drop_expired :
      (now t : M.Time) (k : UpdateKey) (d : Dict UpdateKey M.Time)
      → M.day_before t now ≡ false
      → find k d ≡ some t
      → find k (drop_expired M now d) ≡ some t
  unfolding drop_expired find
  find-drop_expired now t k [] n h = h
  find-drop_expired now t k ((j, w) ∷ d) n h = ground (arith, find-drop_expired now t k d n)

  find-update :
      (s : Updates M) (k : UpdateKey) (t : M.Time) (real : Bool) (u : ℕ) (a b : String) (i : ℕ)
      (x : M.Decimal) (d : String)
      → find k s.updates ≡ some t
      → find k (update_user_balance M real s u a b i x d).1.updates ≡ some t
  unfolding update_user_balance
  find-update s k t real u a b i x d h = elim (Bool-cases (k == update_key s.padding u a b i)) [
    | inl e ↦ ground (arith, (update_key_beq_iff k (update_key s.padding u a b i)).0 e)
    | inr e ↦ ground (
      arith,
      find-put_ne k (update_key s.padding u a b i) (M.current_timestamp s.engine.ticks) s.updates e,
    )
  ]

  find-run :
      (s : Updates M) (k : UpdateKey) (t : M.Time) (os : List Step)
      → IsWithinDay t s os
      → find k s.updates ≡ some t
      → find k (run s os).updates ≡ some t
  unfolding on_timer
  find-run s k t [] w h = h
  find-run s k t (timer ∷ os) w h =
      find-run (on_timer M s) k t os w.1
        (find-drop_expired (M.current_timestamp s.engine.ticks) t k s.updates w.0 h)
  find-run s k t (stack p ∷ os) w h = find-run (record s { padding = p }) k t os w h
  find-run s k t (update real u a b i x d ∷ os) w h =
      find-run (update_user_balance M real s u a b i x d).1 k t os w
        (find-update s k t real u a b i x d h)

  -- An update that has succeeded is refused with -1 when it comes again within a day, whatever its
  -- change and detail, and the second call changes nothing. In between there may be any updates, with
  -- any results, any runs of the timer, and any changes of the stack. Conditions: each run of the timer
  -- finds the time of the first update at most a day ago, and at both calls the stack holds the same in
  -- the place of the key's padding, which the code compares but does not set.
  pub update_once :
      (real again : Bool) (s : Updates M) (u : ℕ) (a b : String) (i : ℕ) (x y : M.Decimal)
      (d e : String) (os : List Step)
      → (update_user_balance M real s u a b i x d).0 ≡ ok
      → IsWithinDay
          (M.current_timestamp s.engine.ticks)
          (update_user_balance M real s u a b i x d).1
          os
      → (run (update_user_balance M real s u a b i x d).1 os).padding ≡ s.padding
      → let s' = run (update_user_balance M real s u a b i x d).1 os in
        update_user_balance M again s' u a b i y e ≡ (err 1, s')
  update_once real again s u a b i x y d e os h w same =
      repeated_lem M again (run (update_user_balance M real s u a b i x d).1 os) u a b i y e
        {t = M.current_timestamp s.engine.ticks}
        (rw same (
          find-run (update_user_balance M real s u a b i x d).1 (update_key s.padding u a b i)
            (M.current_timestamp s.engine.ticks) os w (remembered M real s u a b i x d h)))
