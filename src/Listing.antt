-- ===== src/Listing.antt =====
-- `_list_alerts`, `api_open_alerts` and `api_all_alerts` of app.py. The texts that `serialize` makes
-- of the times are left out.
pub mod Order
pub mod Ties
pub mod Slices
pub mod Page
pub mod Pages
pub mod Reading
use soc_dashboard.Common.{
  ℕ, ◌+◌, ◌-◌, ◌*◌, ◌^◌, String, Bool, true, not, ◌&&◌, ◌||◌, Option, none, some, List, [], ◌∷◌,
  ◌==◌, nat_eq, text_eq, ltb, leb, length, take, drop, filter, map, Dict, lookup, if◌then◌else◌,
}
use soc_dashboard.Values.{Result, ok, err, database_error}
use soc_dashboard.Crypto.{decrypt_alert}
use soc_dashboard.Db.{Alert, Db}
use soc_dashboard.Db.Session
use soc_dashboard.Db.Session.{Tx}
use soc_dashboard.World.{Env, App, pure, lift, ◌>>=◌, ◌>>◌, in_db, Response, success}
use soc_dashboard.Pagination.{parse_pagination, total_pages}
use soc_dashboard.Filters.{Clause, equals, status, alert_filters, satisfies_all, can_send_all}

-- SELECT count(*) AS c FROM alerts WHERE …
unfoldable pub count_where : Env → List Clause → ℕ → Db → Result ℕ × Db
count_where env clauses now d =
    if can_send_all env clauses
    then (ok (length (filter (satisfies_all env clauses) d.tables.alerts)), d)
    else (err database_error, d)

-- SELECT * FROM alerts WHERE … ORDER BY … LIMIT … OFFSET …: an offset is a bigint.
unfoldable pub select_page : Env → List Clause → ℕ → ℕ → ℕ → Db → Result (List Alert) × Db
select_page env clauses limit offset now d =
    if can_send_all env clauses && ltb offset (2 ^ 63)
    then (
      ok (
          take limit (
            drop offset
              (env.sort_rows limit offset (filter (satisfies_all env clauses) d.tables.alerts)))),
      d,
    )
    else (err database_error, d)

pub record Listing : Type 0 where
  pub alerts : List Alert
  pub page : ℕ
  pub per_page : ℕ
  pub total : ℕ
  pub total_pages : ℕ

unfoldable pub page_tx : Env → List Clause → ℕ → ℕ → Tx (ℕ × List Alert)
page_tx env clauses page per_page s =
    Session.◌>>=◌ (Session.execute (count_where env clauses))
      (λ total.
        Session.◌>>=◌ (Session.execute (select_page env clauses per_page ((page - 1) * per_page)))
          (λ rows. Session.pure (total, rows)))
      s

-- The envelope that `_list_alerts` returns.
abbrev pub envelope : Env → ℕ → ℕ → ℕ × List Alert → Listing
envelope env page per_page found = record {
  alerts = map (decrypt_alert env.fernet) found.1;
  page = page;
  per_page = per_page;
  total = found.0;
  total_pages = total_pages found.0 per_page;
}

-- `_list_alerts`
unfoldable pub list_alerts : Env → List Clause → ℕ → ℕ → App Listing
list_alerts env clauses page per_page = do
  found ← in_db (page_tx env clauses page per_page)
  pure (envelope env page per_page found)

unfoldable pub list_view : Env → List Clause → Dict String → App (Response Listing)
list_view env extra args = do
  (page, per_page) ← lift (parse_pagination env args)
  clauses ← lift (alert_filters env extra args)
  listing ← list_alerts env clauses page per_page
  pure (success 200 listing)

-- The endpoints; `login_required` stands around them.
unfoldable pub api_open_alerts : Env → Dict String → App (Response Listing)
api_open_alerts env args = list_view env (equals status "open" ∷ []) args

unfoldable pub api_all_alerts : Env → Dict String → App (Response Listing)
api_all_alerts env args = list_view env [] args
