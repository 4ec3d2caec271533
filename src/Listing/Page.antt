-- ===== src/Listing/Page.antt =====
-- One page of a list, where no call to the database fails.
use soc_dashboard.Common.{
  ℕ, ◌-◌, ◌*◌, ◌^◌, ◌≡◌, refl, ap, ◌∙◌, true, List, [], ltb, length, take, drop, filter,
}
use soc_dashboard.Values.{ok}
use soc_dashboard.Db.{Alert, Db}
use soc_dashboard.Db.Quiet.{quiet_session, execute-ok, with_conn-ok, then-ok}
use soc_dashboard.World.{World, Env, pure, in_db}
use soc_dashboard.World.Frame.{bind-cong}
use soc_dashboard.Filters.{Clause, satisfies_all, can_send_all}
use soc_dashboard.Listing.{count_where, select_page, page_tx, list_alerts, envelope}
use soc_dashboard.Listing.Order.{sort_by_insertion}

-- The same world, where no call to an outside service fails.
abbrev pub quiet : World → World
quiet w = record w { session = record w.session { faults = [] } }

-- The rows that a list is about, and the same sorted.
abbrev pub wanted : Env → List Clause → World → List Alert
wanted env clauses w = filter (satisfies_all env clauses) w.session.db.tables.alerts

abbrev pub listed : Env → List Clause → World → List Alert
listed env clauses w = sort_by_insertion (wanted env clauses w)

-- Each query of a page gives the rows in this order.
abbrev pub Agrees : Env → List Clause → World → Type 0
Agrees env clauses w =
    (limit offset : ℕ) → env.sort_rows limit offset (wanted env clauses w) ≡ listed env clauses w

module _ (env : Env) (clauses : List Clause) (c : can_send_all env clauses ≡ true) where
  count_at :
      (now : ℕ) (d : Db)
      → count_where env clauses now d
        ≡ (ok (length (filter (satisfies_all env clauses) d.tables.alerts)), d)
  unfolding count_where
  count_at now d = rw c refl

  select_at :
      (limit offset now : ℕ) (d : Db)
      → ltb offset (2 ^ 63) ≡ true
      → select_page env clauses limit offset now d ≡ (
        ok (
            take limit (
              drop offset
                (env.sort_rows limit offset (filter (satisfies_all env clauses) d.tables.alerts)))),
        d,
      )
  unfolding select_page
  select_at limit offset now d o = rw (c, o) refl

  page_tx_at :
      (page per_page now : ℕ) (d : Db)
      → ltb ((page - 1) * per_page) (2 ^ 63) ≡ true
      → page_tx env clauses page per_page (quiet_session d now) ≡ (
        ok (
          length (filter (satisfies_all env clauses) d.tables.alerts),
          take per_page (
              drop ((page - 1) * per_page) (
                env.sort_rows per_page
                  ((page - 1) * per_page)
                  (filter (satisfies_all env clauses) d.tables.alerts))),
        ),
        quiet_session d now,
      )
  unfolding page_tx
  page_tx_at page per_page now d o =
      let s = quiet_session d now in
      then-ok _ _ s s _ (execute-ok d d now _ (count_where env clauses) (count_at now d))
      ∙ then-ok _ _ s s _ (
          execute-ok d d now _ (select_page env clauses per_page ((page - 1) * per_page))
            (select_at per_page ((page - 1) * per_page) now d o))

-- The rows that satisfy the predicates: their number, and a page of them.
abbrev found_at : Env → List Clause → ℕ → ℕ → World → ℕ × List Alert
found_at env clauses page per_page w = (
  length (filter (satisfies_all env clauses) w.session.db.tables.alerts),
  take per_page (
      drop ((page - 1) * per_page)
        (env.sort_rows per_page ((page - 1) * per_page) (wanted env clauses w))),
)

-- The same in the one order.
abbrev pub listed_at : Env → List Clause → ℕ → ℕ → World → ℕ × List Alert
listed_at env clauses page per_page w = (
  length (wanted env clauses w),
  take per_page (drop ((page - 1) * per_page) (listed env clauses w)),
)

-- One page, where no call to the database fails.
pub list_alerts_at :
    (env : Env) (clauses : List Clause) (page per_page : ℕ) (w : World)
    → can_send_all env clauses ≡ true
    → ltb ((page - 1) * per_page) (2 ^ 63) ≡ true
    → Agrees env clauses w
    → list_alerts env clauses page per_page (quiet w)
      ≡ (ok (envelope env page per_page (listed_at env clauses page per_page w)), quiet w)
unfolding list_alerts in_db
list_alerts_at env clauses page per_page w c o agrees =
    let d = w.session.db in
    let now = w.session.now in
    let run =
      with_conn-ok d d now _ (page_tx env clauses page per_page)
        (page_tx_at env clauses c page per_page now d o) in
    bind-cong (in_db (page_tx env clauses page per_page))
      (pure (found_at env clauses page per_page w))
      (λ found. pure (envelope env page per_page found)) (quiet w) (quiet w)
      (ap (λ o. (o.0, record (quiet w) { session = o.1 })) run)
    ∙ ap
        (λ rows. (
          ok (
              envelope env page per_page
                (length (wanted env clauses w), take per_page (drop ((page - 1) * per_page) rows))),
          quiet w,
        ))
        (agrees per_page ((page - 1) * per_page))
