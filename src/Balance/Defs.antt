-- ===== src/Balance/Defs.antt =====
-- The state and the operations of matchengine/me_balance.c, in the order of the source.
-- `prec_save` and `prec_show` are not negative; `none` stands for the -1 of an unknown asset.
-- Asset names are at most 15 bytes long (me_config.c checks it), so `strncpy` keeps them whole.
use viabtc_server_mac.Prelude.{
  ℕ, ◌≡◌, ◌↔◌, Bool, true, false, ◌&&◌, Option, none, some, List, [], ◌∷◌, String, arith, KeyType,
  nat_eq, string_eq, ◌==◌, is_lt, is_eq, if◌then◌else◌, ◌+◌, Ordering,
}
use viabtc_server_mac.Platform.{Mpd}
use viabtc_server_mac.Dict.{Dict, find, put, delete}
use text.Mathlib.TextEquality.{eq_iff}

pub record AssetType : Type 0 where
  pub prec_save : ℕ
  pub prec_show : ℕ

-- BALANCE_TYPE_AVAILABLE and BALANCE_TYPE_FREEZE
abbrev pub available_type : ℕ
available_type = 1

abbrev pub freeze_type : ℕ
freeze_type = 2

pub record BalanceKey : Type 0 where
  pub user_id : ℕ
  pub kind : ℕ
  pub asset : String

-- `balance_dict_key_compare`
abbrev pub key_beq : BalanceKey → BalanceKey → Bool
key_beq a b = a.user_id == b.user_id && a.kind == b.kind && a.asset == b.asset

pub key_beq_iff : (a b : BalanceKey) → (key_beq a b ≡ true) ↔ (a ≡ b)
key_beq_iff a b = ground (arith, eq_iff a.asset b.asset)

instance abbrev pub key_eq : KeyType BalanceKey
key_eq = record { same = key_beq; same_iff = key_beq_iff }

abbrev pub balance_key : ℕ → ℕ → String → BalanceKey
balance_key user_id kind asset = record { user_id = user_id; kind = kind; asset = asset }

module _ (M : Mpd) where
  open M use {Decimal, mpd_zero, cmp, add, sub, rescale}

  -- `dict_asset` and `dict_balance`
  pub record Ledger : Type 0 where
    pub assets : Dict String AssetType
    pub balances : Dict BalanceKey Decimal

  -- What a call returns, and the state after it.
  abbrev pub Outcome : Type 0
  Outcome = Option Decimal × Ledger

  unfoldable pub get_asset_type : Ledger → String → Option AssetType
  get_asset_type s asset = find asset s.assets

  unfoldable pub asset_exist : Ledger → String → Bool
  asset_exist s asset = elim (get_asset_type s asset) [ none ↦ false | some _ ↦ true ]

  unfoldable pub asset_prec : Ledger → String → Option ℕ
  asset_prec s asset = elim (get_asset_type s asset) [ none ↦ none | some at ↦ some at.prec_save ]

  unfoldable pub asset_prec_show : Ledger → String → Option ℕ
  asset_prec_show s asset = elim (get_asset_type s asset) [
    | none ↦ none
    | some at ↦ some at.prec_show
  ]

  unfoldable pub balance_get : Ledger → ℕ → ℕ → String → Option Decimal
  balance_get s user_id kind asset = find (balance_key user_id kind asset) s.balances

  -- A write through the entry of a key.
  unfoldable pub store : Ledger → ℕ → ℕ → String → Decimal → Ledger
  store s user_id kind asset v = record s {
    balances = put (balance_key user_id kind asset) v s.balances;
  }

  unfoldable pub balance_del : Ledger → ℕ → ℕ → String → Ledger
  balance_del s user_id kind asset = record s {
    balances = delete (balance_key user_id kind asset) s.balances;
  }

  -- An entry that is there is overwritten, another is added: the value is the same.
  unfoldable pub balance_set : Ledger → ℕ → ℕ → String → Decimal → Outcome
  balance_set s user_id kind asset amount = elim (get_asset_type s asset) [
    | none ↦ (none, s)
    | some at ↦ elim (cmp amount mpd_zero) [
      | Ordering.lt ↦ (none, s)
      | Ordering.eq ↦ (some mpd_zero, balance_del s user_id kind asset)
      | Ordering.gt ↦ (
        some (rescale amount at.prec_save),
        store s user_id kind asset (rescale amount at.prec_save),
      )
    ]
  ]

  unfoldable pub balance_add : Ledger → ℕ → ℕ → String → Decimal → Outcome
  balance_add s user_id kind asset amount = elim (get_asset_type s asset) [
    | none ↦ (none, s)
    | some at ↦
        if is_lt (cmp amount mpd_zero) then (none, s) else elim (balance_get s user_id kind asset) [
          | none ↦ balance_set s user_id kind asset amount
          | some v ↦ (
            some (rescale (add v amount) at.prec_save),
            store s user_id kind asset (rescale (add v amount) at.prec_save),
          )
        ]
  ]

  -- A balance that falls to `v`: the entry of a zero is deleted, another is rescaled.
  unfoldable pub lower : Ledger → ℕ → ℕ → String → ℕ → Decimal → Outcome
  lower s user_id kind asset prec v =
      if is_eq (cmp v mpd_zero)
      then (some mpd_zero, balance_del s user_id kind asset)
      else (some (rescale v prec), store s user_id kind asset (rescale v prec))

  unfoldable pub balance_sub : Ledger → ℕ → ℕ → String → Decimal → Outcome
  balance_sub s user_id kind asset amount = elim (get_asset_type s asset) [
    | none ↦ (none, s)
    | some at ↦
        if is_lt (cmp amount mpd_zero) then (none, s) else elim (balance_get s user_id kind asset) [
          | none ↦ (none, s)
          | some v ↦
              if is_lt (cmp v amount)
              then (none, s)
              else lower s user_id kind asset at.prec_save (sub v amount)
        ]
  ]

  -- Both directions between the two balances of a user: the amount is added to `to` first, and then
  -- taken from the balance of `from` that was read before.
  unfoldable pub move : Ledger → ℕ → ℕ → ℕ → String → Decimal → Outcome
  move s user_id from to asset amount = elim (get_asset_type s asset) [
    | none ↦ (none, s)
    | some at ↦
        if is_lt (cmp amount mpd_zero) then (none, s) else elim (balance_get s user_id from asset) [
          | none ↦ (none, s)
          | some v ↦
              if is_lt (cmp v amount)
              then (none, s)
              else let (added, s') = balance_add s user_id to asset amount in
                elim added [
                  | none ↦ (none, s')
                  | some _ ↦ lower s' user_id from asset at.prec_save (sub v amount)
                ]
        ]
  ]

  unfoldable pub balance_freeze : Ledger → ℕ → String → Decimal → Outcome
  balance_freeze s user_id asset amount = move s user_id available_type freeze_type asset amount

  unfoldable pub balance_unfreeze : Ledger → ℕ → String → Decimal → Outcome
  balance_unfreeze s user_id asset amount = move s user_id freeze_type available_type asset amount

  -- `balance` with a balance added that may be missing.
  abbrev pub add_found : Decimal → Option Decimal → Decimal
  add_found acc none = acc
  add_found acc (some v) = add acc v

  unfoldable pub balance_total : Ledger → ℕ → String → Decimal
  balance_total s user_id asset =
      add_found (add_found mpd_zero (balance_get s user_id available_type asset))
        (balance_get s user_id freeze_type asset)

  -- The sums and counts of `balance_status`.
  pub record Status : Type 0 where
    pub total : Decimal
    pub available_count : ℕ
    pub available : Decimal
    pub freeze_count : ℕ
    pub freeze : Decimal

  unfoldable pub count_entry : String → Status → BalanceKey × Decimal → Status
  count_entry asset t (key, v) =
      if key.asset == asset
      then (if key.kind == available_type
          then record t {
            total = add t.total v;
            available_count = t.available_count + 1;
            available = add t.available v;
          }
          else record t {
            total = add t.total v;
            freeze_count = t.freeze_count + 1;
            freeze = add t.freeze v;
          })
      else t

  unfoldable pub count_entries : String → Status → List (BalanceKey × Decimal) → Status
  unfolding count_entry
  count_entries asset t [] = t
  count_entries asset t (e ∷ es) = count_entries asset (count_entry asset t e) es

  unfoldable pub balance_status : Ledger → String → Status
  unfolding count_entries
  balance_status s asset =
      count_entries asset
        (record {
          total = mpd_zero;
          available_count = 0;
          available = mpd_zero;
          freeze_count = 0;
          freeze = mpd_zero;
        })
        s.balances
