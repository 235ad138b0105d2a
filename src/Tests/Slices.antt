-- ===== src/Tests/Slices.antt =====
-- Slices of balances, dumped and loaded.
use viabtc_server_mac.Prelude.{
  ℕ, ◌≡◌, refl, Bool, true, some, Option, List, [], ◌∷◌, ◌++◌, take, arith, nat_eq,
}
use viabtc_server_mac.Tests.Platforms.{whole}
use viabtc_server_mac.Tests.Deals.{accounts}
use viabtc_server_mac.Balance.Defs.{Ledger}
use viabtc_server_mac.Load.Pages.{load_pages, visit_rows, after, outcome, load_pages-visit_rows}
use viabtc_server_mac.Load.Slices.{BalanceRow, dump_balance_dict, load_balance_row}
use viabtc_server_mac.Load.Restored.{numbered}

abbrev exec : List (BalanceRow whole) → List (BalanceRow whole) → Bool × List (BalanceRow whole)
exec rows db = (true, db ++ rows)

abbrev table : List (ℕ × BalanceRow whole)
table = numbered 0 (dump_balance_dict whole exec accounts []).1

abbrev select : ℕ → ℕ → Option (List (ℕ × BalanceRow whole))
select last limit = some (take limit (after (λ r. r.0) last table))

-- A ledger before its balances are loaded.
abbrev no_balances : Ledger whole
no_balances = record accounts { balances = [] }

abbrev row : ℕ → BalanceRow whole
row v = record { user_id = v; asset = "BTC"; kind = 1; balance = v }

-- Five rows with gaps between their ids, two to a page.
abbrev rows : List (ℕ × BalanceRow whole)
rows = (2, row 10) ∷ (3, row 20) ∷ (7, row 30) ∷ (8, row 40) ∷ (11, row 50) ∷ []

load_pages-visit_rows_example :
    load_pages
      (λ r. r.0)
      (load_balance_row whole)
      6
      2
      (λ last limit. some (take limit (after (λ r. r.0) last rows)))
      103
      0
      no_balances
    ≡ some (
        outcome
          (λ r. r.0)
          (load_balance_row whole)
          (visit_rows (λ r. r.0) (load_balance_row whole) 0 no_balances rows))
load_pages-visit_rows_example =
    load_pages-visit_rows (λ r. r.0) (load_balance_row whole) 2
      (λ last limit. some (take limit (after (λ r. r.0) last rows))) 103 rows 6 no_balances
      (omega arith) (omega arith) (λ last. refl) (omega arith)
