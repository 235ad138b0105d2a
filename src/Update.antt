-- ===== src/Update.antt =====
-- The updates of user balances (matchengine/me_update.c): each is made once, by its key.
pub mod Once
pub mod Day
use viabtc_server_mac.Prelude.{
  ℕ, suc, ◌≡◌, ◌↔◌, Bool, true, false, Option, none, some, List, [], ◌∷◌, String, arith, KeyType,
  nat_eq, string_eq, ◌==◌, is_lt, ◌&&◌, if◌then◌else◌, ◌++◌,
}
use text.Mathlib.TextEquality.{eq_iff}
use viabtc_server_mac.Prelude.Strings.{truncate}
use viabtc_server_mac.Platform.{Mpd}
use viabtc_server_mac.Dict.{Dict, find, put}
use viabtc_server_mac.Balance.Defs.{Ledger, balance_add, balance_sub, available_type}
use viabtc_server_mac.Market.Order.{
  Engine, Event, Ret, ok, err, note, request, balance_message, append_user_balance_history,
}

-- `padding` is what stands in the four bytes that the compiler leaves free in front of `business_id`.
pub record UpdateKey : Type 0 where
  pub padding : ℕ
  pub user_id : ℕ
  pub asset : String
  pub business : String
  pub business_id : ℕ

-- `update_dict_key_compare`, over all the bytes of the key.
abbrev pub update_key_beq : UpdateKey → UpdateKey → Bool
update_key_beq a b =
    a.user_id == b.user_id
    && a.asset == b.asset
    && a.business == b.business
    && a.business_id == b.business_id
    && a.padding == b.padding

pub update_key_beq_iff : (a b : UpdateKey) → (update_key_beq a b ≡ true) ↔ (a ≡ b)
update_key_beq_iff a b = ground (arith, eq_iff a.asset b.asset, eq_iff a.business b.business)

instance abbrev pub update_key_eq : KeyType UpdateKey
update_key_eq = record { same = update_key_beq; same_iff = update_key_beq_iff }

-- The key of an update, a local variable: the texts have room for 16 and 32 bytes, and the padding is
-- not set, so it is what the stack held there.
abbrev pub update_key : ℕ → ℕ → String → String → ℕ → UpdateKey
update_key padding user_id asset business business_id = record {
  padding = padding;
  user_id = user_id;
  asset = truncate 16 asset;
  business = truncate 32 business;
  business_id = business_id;
}

module _ (M : Mpd) where
  open M use {Decimal, Time, mpd_zero, cmp, abs}

  -- `dict_update` beside the engine's globals. `padding` is what the stack holds in the place of the
  -- key's padding; the functions here leave it alone, and any other may change it.
  pub record Updates : Type 0 where
    pub engine : Engine M
    pub updates : Dict UpdateKey Time
    pub padding : ℕ

  unfoldable pub drop_expired : Time → Dict UpdateKey Time → Dict UpdateKey Time
  drop_expired now [] = []
  drop_expired now ((k, t) ∷ d) =
      let rest = drop_expired now d in if M.day_before t now then rest else (k, t) ∷ rest

  -- `on_timer`, once a minute: what is older than a day is forgotten.
  unfoldable pub on_timer : Updates → Updates
  unfolding drop_expired
  on_timer u = record u {
    engine = record (u.engine) { ticks = suc u.engine.ticks };
    updates = drop_expired (M.current_timestamp u.engine.ticks) u.updates;
  }

  -- The balance function that the sign of the change chooses.
  unfoldable pub apply_change : Ledger M → ℕ → String → Decimal → Option Decimal × Ledger M
  apply_change s user_id asset change =
      if is_lt (cmp change mpd_zero)
      then balance_sub M s user_id available_type asset (abs change)
      else balance_add M s user_id available_type asset (abs change)

  unfoldable pub update_user_balance :
      Bool → Updates → ℕ → String → String → ℕ → Decimal → String → Ret × Updates
  unfolding apply_change
  update_user_balance real u user_id asset business business_id change detail =
      let key = update_key u.padding user_id asset business business_id in
      elim (find key u.updates) [
        | some _ ↦ (err 1, u)
        | none ↦
            let (result, ledger) = apply_change u.engine.ledger user_id asset change in
            elim result [
              | none ↦ (err 2, record u { engine = record (u.engine) { ledger = ledger } })
              | some _ ↦
                  let e = record (u.engine) { ledger = ledger; ticks = suc u.engine.ticks } in
                  let now = M.current_timestamp e.ticks in
                  let event =
                    append_user_balance_history M ledger now user_id asset business change
                      (request detail business_id) in
                  (
                    ok,
                    record u {
                      engine =
                          if real
                          then record e {
                            ticks = suc e.ticks;
                            log =
                                balance_message now user_id asset business change ∷ event ++ e.log;
                          }
                          else e;
                      updates = put key (M.current_timestamp u.engine.ticks) u.updates;
                    },
                  )
            ]
      ]
