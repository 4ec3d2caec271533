-- ===== src/Listing/Reading.antt =====
-- The lists change nothing in the database.
use soc_dashboard.Common.{ℕ, List, ◌≡◌, refl, Bool-cases, inl, inr, ◌&&◌, ltb, ◌^◌, Dict, String}
use soc_dashboard.Db.{Db}
use soc_dashboard.World.{Env}
use soc_dashboard.World.Frame.{Keeps, keeps_rules}
use soc_dashboard.World.Reads.{ReadsOnly, read_rules, SameDb, SameDb-frame, Reads-in_db}
use soc_dashboard.Filters.{Clause, can_send_all}
use soc_dashboard.Listing.{count_where, select_page, page_tx, list_alerts, list_view}

count_where-same :
    (env : Env) (clauses : List Clause) (now : ℕ) (d : Db) → (count_where env clauses now d).1 ≡ d
unfolding count_where
count_where-same env clauses now d = elim (Bool-cases (can_send_all env clauses)) [
  | inl e ↦ rw e refl
  | inr e ↦ rw e refl
]

select_page-same :
    (env : Env) (clauses : List Clause) (limit offset now : ℕ) (d : Db)
    → (select_page env clauses limit offset now d).1 ≡ d
unfolding select_page
select_page-same env clauses limit offset now d =
    elim (Bool-cases (can_send_all env clauses && ltb offset (2 ^ 63))) [
      | inl e ↦ rw e refl
      | inr e ↦ rw e refl
    ]

page_tx-ReadsOnly :
    (env : Env) (clauses : List Clause) (page per_page : ℕ)
    → ReadsOnly (page_tx env clauses page per_page)
unfolding page_tx
page_tx-ReadsOnly env clauses page per_page =
    search (read_rules, count_where-same, select_page-same) depth 8

pub list_view-SameDb :
    (env : Env) (extra : List Clause) (args : Dict String) → Keeps SameDb (list_view env extra args)
unfolding list_view list_alerts
list_view-SameDb env extra args =
    search (keeps_rules, SameDb-frame, Reads-in_db, page_tx-ReadsOnly) depth 14
