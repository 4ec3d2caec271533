-- ===== src/Listing/Pages.antt =====
-- The pages of a list, taken together.
use soc_dashboard.Common.{
  ℕ, zero, suc, ◌+◌, ◌-◌, ◌*◌, ◌^◌, ◌≤◌, ◌<◌, ◌≡◌, refl, ap, sym, ◌∙◌, true, List, [], ◌∷◌, ◌++◌,
  Option, ltb, length, take, drop, filter, map, All, arith, lt→ltb,
}
use soc_dashboard.Values.{ok}
use soc_dashboard.Crypto.{Cipher, decrypt_alert}
use soc_dashboard.Db.{Alert}
use soc_dashboard.World.{World, Env, App, pure, ◌>>=◌}
use soc_dashboard.World.Frame.{bind-cong}
use soc_dashboard.Pagination.{total_pages}
use soc_dashboard.Pagination.Bounds.{total_pages_lem}
use soc_dashboard.Filters.{Clause, satisfies_all, can_send_all}
use soc_dashboard.Listing.{Listing, list_alerts}
use soc_dashboard.Listing.Slices.{take-all, slices, filter-true}
use soc_dashboard.Listing.Order.{
  IsSorted, IsOrdering, Before, sort_by_insertion, sort_by_insertion-IsOrdering,
}
use soc_dashboard.Listing.Ties.{IsUntied, untied_lem}
use soc_dashboard.Listing.Page.{quiet, wanted, listed, Agrees, list_alerts_at}

abbrev gather : App Listing → App (List Alert) → App (List Alert)
gather m k = do listing ← m; rest ← k; pure (listing.alerts ++ rest)

-- The alerts of `n` pages from page `first + 1` on, each asked for in its turn.
unfoldable pub collect : Env → List Clause → ℕ → ℕ → ℕ → App (List Alert)
collect env clauses per_page zero first = pure []
collect env clauses per_page (suc n) first =
    gather (list_alerts env clauses (first + 1) per_page)
      (collect env clauses per_page n (first + 1))

gather-ok :
    (m : App Listing) (k : App (List Alert)) (w : World) (l : Listing) (rest : List Alert)
    → m w ≡ (ok l, w)
    → k w ≡ (ok rest, w)
    → gather m k w ≡ (ok (l.alerts ++ rest), w)
gather-ok m k w l rest e e' =
    bind-cong m (pure l) (λ listing. k >>= λ more. pure (listing.alerts ++ more)) w w e
    ∙ bind-cong k (pure rest) (λ more. pure (l.alerts ++ more)) w w e'

room : (first n k : ℕ) → (first + suc n) * k ≤ 2 ^ 63 → (first + 1 + n) * k ≤ 2 ^ 63
room first n k h = let e : (first + 1 + n) * k ≡ (first + suc n) * k = grind arith in omega arith

bound : (first n k : ℕ) → 1 ≤ k → (first + suc n) * k ≤ 2 ^ 63 → (first + 1 - 1) * k < 2 ^ 63
bound first n k p h =
    let e : (first + suc n) * k ≡ first * k + (n * k + k) = grind arith in
    let e' : (first + 1 - 1) * k ≡ first * k = ap (λ j. j * k) (omega arith) in omega arith

collect_at :
    (env : Env) (clauses : List Clause) (per_page n first : ℕ) (w : World)
    → can_send_all env clauses ≡ true
    → 1 ≤ per_page
    → (first + n) * per_page ≤ 2 ^ 63
    → Agrees env clauses w
    → collect env clauses per_page n first (quiet w) ≡ (
      ok (
          map
            (decrypt_alert env.fernet)
            (take (n * per_page) (drop (first * per_page) (listed env clauses w)))),
      quiet w,
    )
unfolding collect
collect_at env clauses per_page zero first w c p h agrees =
    let e : 0 * per_page ≡ 0 = omega arith in rw e refl
collect_at env clauses per_page (suc n) first w c p h agrees =
    let o : ltb ((first + 1 - 1) * per_page) (2 ^ 63) ≡ true =
      lt→ltb _ _ (bound first n per_page p h) in
    let h' : (first + 1 + n) * per_page ≤ 2 ^ 63 = room first n per_page h in
    gather-ok (list_alerts env clauses (first + 1) per_page)
      (collect env clauses per_page n (first + 1)) (quiet w) _ _
      (list_alerts_at env clauses (first + 1) per_page w c o agrees)
      (collect_at env clauses per_page n (first + 1) w c p h' agrees)
    ∙ ap (λ rows. (ok rows, quiet w))
        (let e : first + 1 - 1 ≡ first = omega arith in
          rw e (slices (decrypt_alert env.fernet) per_page first n (listed env clauses w)))

length-sort :
    (sort : List Alert → List Alert) (rows : List Alert)
    → IsOrdering sort
    → length (sort rows) ≡ length rows
length-sort sort rows order =
    ap length (sym (filter-true (sort rows)))
    ∙ order.same_rows (λ _. true) rows
    ∙ ap length (filter-true rows)

Before-decrypt_alert :
    (fernet : Option Cipher) (a : Alert) (rows : List Alert)
    → All (Before a) rows
    → All (Before (decrypt_alert fernet a)) (map (decrypt_alert fernet) rows)
unfolding decrypt_alert
Before-decrypt_alert fernet a [] h = tt
Before-decrypt_alert fernet a (b ∷ rows) h = (h.0, Before-decrypt_alert fernet a rows h.1)

IsSorted-decrypt_alert :
    (fernet : Option Cipher) (rows : List Alert)
    → IsSorted rows
    → IsSorted (map (decrypt_alert fernet) rows)
IsSorted-decrypt_alert fernet [] h = tt
IsSorted-decrypt_alert fernet (a ∷ rows) h =
    (Before-decrypt_alert fernet a rows h.0, IsSorted-decrypt_alert fernet rows h.1)

-- Where the database's sort of each page is one (the same rows, by severity and then the newest
-- first), no two rows that satisfy the predicates have the same severity and the same time, no call
-- to the database fails, and it takes the predicates' values, then all the pages of a list, asked
-- for one after the other while nothing else happens, are together exactly the rows that satisfy
-- the predicates, decrypted, in the order of an insertion sort by these keys; nothing in the world
-- changes by it. The page size is at least 1, and the number of rows leaves room for an offset.
pub all_pages_lem :
    (env : Env) (clauses : List Clause) (per_page : ℕ) (w : World)
    → ((limit offset : ℕ) → IsOrdering (env.sort_rows limit offset))
    → IsUntied (wanted env clauses w)
    → can_send_all env clauses ≡ true
    → 1 ≤ per_page
    → length (filter (satisfies_all env clauses) w.session.db.tables.alerts) + per_page ≤ 2 ^ 63
    → (collect env clauses per_page
          (total_pages
            (length (filter (satisfies_all env clauses) w.session.db.tables.alerts))
            per_page)
          0
          (quiet w)
        ≡ (ok (map (decrypt_alert env.fernet) (listed env clauses w)), quiet w))
      × IsSorted (map (decrypt_alert env.fernet) (listed env clauses w))
all_pages_lem env clauses per_page w order untied c p h =
    let rows = filter (satisfies_all env clauses) w.session.db.tables.alerts in
    let n = total_pages (length rows) per_page in
    let (enough, least) = total_pages_lem (length rows) per_page p in
    let short : length (listed env clauses w) ≤ n * per_page =
      omega (arith, length-sort sort_by_insertion rows sort_by_insertion-IsOrdering) in
    let agrees : Agrees env clauses w =
      λ limit offset. untied_lem (env.sort_rows limit offset) rows (order limit offset) untied in
    let z : 0 * per_page ≡ 0 = omega arith in
    let fits : (0 + n) * per_page ≤ 2 ^ 63 = omega arith in
    (
      collect_at env clauses per_page n 0 w c p fits agrees
          ∙ ap (λ xs. (ok (map (decrypt_alert env.fernet) xs), quiet w))
              (ap (λ k. take (n * per_page) (drop k (listed env clauses w))) z
                ∙ take-all (n * per_page) (listed env clauses w) short),
      IsSorted-decrypt_alert env.fernet (listed env clauses w)
          (sort_by_insertion-IsOrdering.in_order rows),
    )
