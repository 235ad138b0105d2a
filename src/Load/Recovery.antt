-- ===== src/Load/Recovery.antt =====
-- Recovery (matchengine/me_server.c, me_operlog.c, me_load.c): replaying the operation log of orders
-- gives back the state that served them.
use viabtc_server_mac.Prelude.{All, ℕ, ◌≡◌, refl, Bool, some, List, [], ◌∷◌, nat_eq, string_eq}
use viabtc_server_mac.Platform.{Mpd}
use viabtc_server_mac.Dict.{beq_refl}
use viabtc_server_mac.Market.Order.{ok, next_id}
use viabtc_server_mac.Server.Requests.{
  serve_all, Exchange, Oper, serve, Response, result, error, silence,
}
use viabtc_server_mac.Load.Rows.{load_operlog}
use viabtc_server_mac.Load.Follows.{SameExchange, Follows, IsOrderOper, serve-Follows}

module _ (M : Mpd) where
  -- The log with rows added, the newest first.
  abbrev pub log_rows :
      List (ℕ × M.Time × Oper M) → List (ℕ × M.Time × Oper M) → List (ℕ × M.Time × Oper M)
  log_rows [] log = log
  log_rows (r ∷ rs) log = log_rows rs (r ∷ log)

  -- What the replay reads of the rows: not the times.
  abbrev pub columns : List (ℕ × M.Time × Oper M) → List (ℕ × Oper M)
  columns [] = []
  columns ((i, _, op) ∷ rs) = (i, op) ∷ columns rs

  -- Replaying `rows` on `y` succeeds and ends in the state `x'`.
  pub record Recovers (fuel : ℕ) (x x' y : Exchange M) : Type 0 where
    pub rows : List (ℕ × M.Time × Oper M)
    pub recovered : Exchange M
    pub logged : x'.operlog ≡ log_rows rows x.operlog
    pub replayed :
        load_operlog M fuel y x.operlog_id_start (columns rows)
        ≡ some (ok, x'.operlog_id_start, recovered)
    pub same : SameExchange M x' recovered

  step-Recovers :
      (fuel : ℕ) (x y : Exchange M) (op : Oper M) (ops : List (Bool × Oper M))
      (z : Response M × Exchange M)
      → SameExchange M x y
      → Follows M fuel x y op z
      → ((y' : Exchange M)
          → SameExchange M z.1 y'
          → Recovers fuel z.1 (serve_all M fuel z.1 ops) y')
      → Recovers fuel x
          (elim z.0 as (λ _. Exchange M) [ silence ↦ z.1 | _ ↦ serve_all M fuel z.1 ops ])
          y
  unfolding load_operlog
  step-Recovers fuel x y op ops (result o, x') h (y', l, s, (t, g), i) rest =
      let r = rest y' s in
      record {
        rows = (next_id x.operlog_id_start, t, op) ∷ r.rows;
        recovered = r.recovered;
        logged = rw (← g) r.logged;
        replayed = rw (beq_refl (next_id x.operlog_id_start), l, load_operlog, ← i) r.replayed;
        same = r.same;
      }
  step-Recovers fuel x y op ops (error n, x') h (s, g, i) rest =
      let r = rest y s in
      record {
        rows = r.rows;
        recovered = r.recovered;
        logged = rw (← g) r.logged;
        replayed = rw (← i) r.replayed;
        same = r.same;
      }
  step-Recovers fuel x y op ops (silence, x') h (s, g, i) rest = record {
    rows = [];
    recovered = y;
    logged = g;
    replayed = rw i refl;
    same = s;
  }

  -- Recovery: a process that serves any requests on orders, and one that replays the operation log of
  -- the first from the same state, end in the same state: the same balances, books, ids and updates.
  -- No row is refused. States are the same here whatever the clock says and whatever times their orders
  -- have, and may differ in their logs. Condition: no request is a balance update.
  pub serve_all-Recovers :
      (fuel : ℕ) (x y : Exchange M) (ops : List (Bool × Oper M))
      → All (λ o. IsOrderOper M o.1) ops
      → SameExchange M x y
      → Recovers fuel x (serve_all M fuel x ops) y
  unfolding serve_all load_operlog
  serve_all-Recovers fuel x y [] o h = record {
    rows = [];
    recovered = y;
    logged = refl;
    replayed = refl;
    same = h;
  }
  serve_all-Recovers fuel x y ((blocked, op) ∷ ops) o h =
      step-Recovers fuel x y op ops (serve M fuel x (blocked, op)) h
        (serve-Follows M fuel x y blocked op o.0 h)
        (λ y' s. serve_all-Recovers fuel (serve M fuel x (blocked, op)).1 y' ops o.1 s)
