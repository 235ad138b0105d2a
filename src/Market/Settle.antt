-- ===== src/Market/Settle.antt =====
-- The funds that a deal moves (me_market.c): the balances of both parties, in whole quanta.
use viabtc_server_mac.Prelude.{
  ℕ, ◌≡◌, refl, sym, ◌∙◌, subst, Bool, some, String, arith, is_gt, false, true, Bool-cases, inl,
  inr, ◌==◌, nat_eq, string_eq, ◌+◌, ◌-◌, ◌≤◌, ◌<◌, if◌then◌else◌,
}
use viabtc_server_mac.Platform.{Mpd, Laws}
use viabtc_server_mac.Balance.Defs.{
  Ledger, AssetType, balance_key, key_eq, get_asset_type, balance_get, balance_add, balance_sub,
  available_type,
}
use viabtc_server_mac.Balance.Funds.{change_frame}
use viabtc_server_mac.Balance.Moves.{IsHeld, Holds, add-Holds, mul_zero}
use viabtc_server_mac.Balance.Debit.{IsQuanta, sub-Holds, sub-assets, add-assets}
use viabtc_server_mac.Market.Order.{Order, Engine}
use viabtc_server_mac.Market.Trade.{settle}

module _ (M : Mpd) where
  -- What `settle` does to the ledger.
  pub settled : Ledger M → ℕ → ℕ → String → M.Decimal → String → M.Decimal → M.Decimal → Ledger M
  settled s u kind give given get got fee =
      let paid = (balance_sub M s u kind give given).1 in
      let received = (balance_add M paid u available_type get got).1 in
      if is_gt (M.cmp fee M.mpd_zero)
      then (balance_sub M received u available_type get fee).1
      else received

  pub settle-ledger :
      (real : Bool) (o : Order M) (kind : ℕ) (give : String) (given : M.Decimal) (get : String)
      (got fee rate price amount : M.Decimal) (e : Engine M)
      → (settle M real o kind give given get got fee rate price amount e).ledger
        ≡ settled e.ledger o.user_id kind give given get got fee
  unfolding settle settled
  settle-ledger true o kind give given get got fee rate price amount e =
      elim (Bool-cases (is_gt (M.cmp fee M.mpd_zero))) [ inl q ↦ rw q refl | inr q ↦ rw q refl ]
  settle-ledger false o kind give given get got fee rate price amount e =
      elim (Bool-cases (is_gt (M.cmp fee M.mpd_zero))) [ inl q ↦ rw q refl | inr q ↦ rw q refl ]

  -- The balances of other keys stay.
  pub settled_frame :
      (s : Ledger M) (u kind : ℕ) (give : String) (given : M.Decimal) (get : String)
      (got fee : M.Decimal) (v l : ℕ) (b : String)
      → (balance_key v l b == balance_key u kind give) ≡ false
      → (balance_key v l b == balance_key u available_type get) ≡ false
      → balance_get M (settled s u kind give given get got fee) v l b ≡ balance_get M s v l b
  unfolding settled
  settled_frame s u kind give given get got fee v l b h k =
      let paid = (balance_sub M s u kind give given).1 in
      let received = (balance_add M paid u available_type get got).1 in
      let both =
        (change_frame M paid u available_type get got v l b k).0
        ∙ (change_frame M s u kind give given v l b h).1 in
      elim (Bool-cases (is_gt (M.cmp fee M.mpd_zero))) [
        | inl q ↦ rw q ((change_frame M received u available_type get fee v l b k).1 ∙ both)
        | inr q ↦ rw q both
      ]

  pub settled-assets :
      (s : Ledger M) (u kind : ℕ) (give : String) (given : M.Decimal) (get : String)
      (got fee : M.Decimal)
      → (settled s u kind give given get got fee).assets ≡ s.assets
  unfolding settled
  settled-assets s u kind give given get got fee =
      let paid = (balance_sub M s u kind give given).1 in
      let received = (balance_add M paid u available_type get got).1 in
      let both = add-assets M paid u available_type get got ∙ sub-assets M s u kind give given in
      elim (Bool-cases (is_gt (M.cmp fee M.mpd_zero))) [
        | inl q ↦ rw q (sub-assets M received u available_type get fee ∙ both)
        | inr q ↦ rw q both
      ]

  -- The precision of an asset does not change with the balances.
  pub same_asset :
      (s t : Ledger M) (a : String) {at : AssetType}
      → t.assets ≡ s.assets
      → get_asset_type M s a ≡ some at
      → get_asset_type M t a ≡ some at
  unfolding get_asset_type
  same_asset s t a h k = rw h k

-- The keys of two assets differ.
pub other_asset :
    (u v k l : ℕ) (a b : String)
    → (a == b) ≡ false
    → (balance_key u k a == balance_key v l b) ≡ false
other_asset u v k l a b h = ground arith

-- The keys of two users differ.
pub other_user :
    (u v k l : ℕ) (a b : String)
    → (u == v) ≡ false
    → (balance_key u k a == balance_key v l b) ≡ false
other_user u v k l a b h = ground arith

module _ (M : Mpd) (L : Laws M) where
  pub Holds-same :
      (s t : Ledger M) (u k : ℕ) (a : String) (p n : ℕ)
      → balance_get M t u k a ≡ balance_get M s u k a
      → Holds M L s u k a p n
      → Holds M L t u k a p n
  Holds-same s t u k a p n same h = subst (λ o. IsHeld M L p o n) (sym same) h

  -- A fee that is not above zero is none.
  no_fee :
      (p c : ℕ) (fee : M.Decimal)
      → IsQuanta M L p c fee
      → is_gt (M.cmp fee M.mpd_zero) ≡ false
      → c ≡ 0
  no_fee p c fee (h, e) q =
      let o = L.cmp_units fee M.mpd_zero h L.zero_amount in
      let z : L.units fee ≡ 0 = ground (arith, L.units-zero) in
      mul_zero c (L.quantum p) (L.quantum_pos p) (sym e ∙ z)

  -- One party: `n` quanta are given, `g` are got, and `c` of these are the fee.
  pub settled_moves :
      (s : Ledger M) (u kind : ℕ) (give get : String) (from to : AssetType) (b f n g c : ℕ)
      (given got fee : M.Decimal)
      → get_asset_type M s give ≡ some from
      → get_asset_type M s get ≡ some to
      → (give == get) ≡ false
      → (get == give) ≡ false
      → Holds M L s u kind give from.prec_save b
      → Holds M L s u available_type get to.prec_save f
      → IsQuanta M L from.prec_save n given
      → IsQuanta M L to.prec_save g got
      → IsQuanta M L to.prec_save c fee
      → n ≤ b
      → c ≤ f + g
      → b < L.capacity
      → f + g < L.capacity
      → Holds M L (settled M s u kind give given get got fee) u kind give from.prec_save (b - n)
        × Holds M L
            (settled M s u kind give given get got fee)
            u
            available_type
            get
            to.prec_save
            (f + g - c)
  unfolding settled
  settled_moves s u kind give get from to b f n g c given got fee asset_from asset_to apart apart'
        hb hf is_given is_got is_fee le fee_le small big =
      let paid = (balance_sub M s u kind give given).1 in
      let received = (balance_add M paid u available_type get got).1 in
      let charged = (balance_sub M received u available_type get fee).1 in
      let paid_asset = same_asset M s paid get (sub-assets M s u kind give given) asset_to in
      let received_asset =
        same_asset M paid received get (add-assets M paid u available_type get got) paid_asset in
      let gave =
        sub-Holds M L s u kind give from.prec_save b n given asset_from refl hb is_given le small in
      let waits =
        Holds-same s paid u available_type get to.prec_save f
          (change_frame M s u kind give given u available_type get
            (other_asset u u available_type kind get give apart')).1
          hf in
      let holds =
        add-Holds M L paid u available_type get to.prec_save f g got paid_asset refl waits is_got.0
          is_got.1 big in
      let different = other_asset u u kind available_type give get apart in
      let given_kept =
        Holds-same paid received u kind give from.prec_save (b - n)
          (change_frame M paid u available_type get got u kind give different).0 gave in
      elim (Bool-cases (is_gt (M.cmp fee M.mpd_zero))) [
        | inl q ↦ rw q (
          Holds-same received charged u kind give from.prec_save (b - n)
              (change_frame M received u available_type get fee u kind give different).1 given_kept,
          sub-Holds M L received u available_type get to.prec_save (f + g) c fee received_asset refl
              holds is_fee fee_le big,
        )
        | inr q ↦
            let none_is : c ≡ 0 = no_fee to.prec_save c fee is_fee q in
            let all : f + g - c ≡ f + g = omega arith in rw (q, all) (given_kept, holds)
      ]
