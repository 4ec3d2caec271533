-- ===== src/Audit/Pages.antt =====
-- The pages of the audit log.
use soc_dashboard.Common.{
  ℕ, ◌-◌, ◌*◌, ◌^◌, ◌≤◌, ◌≡◌, refl, sym, ap, subst, ◌∙◌, ℤ, pos, negsuc, String, Option, none, some,
  List, [], ◌∷◌, length, length-map, length-take, take, drop, map, arith, ltb, contains, text_eq,
  eq_iff, lookup, int_of, Dict, Bool-cases, Option-cases, ◌⊎◌, inl, inr,
}
use soc_dashboard.Values.{Exn, Result, ok, err, ok-injective, err-ok, Result-cases, http}
use soc_dashboard.Db.{AuditEntry, Db}
use soc_dashboard.Db.Session.{Session, spend}
use soc_dashboard.Db.Ensures.{Ensures, Ensures-execute_then, Ensures-pure}
use soc_dashboard.Db.Atomicity.{with_conn-cases}
use soc_dashboard.World.{
  Env, World, App, Response, success, pure, ◌>>=◌, respond, in_db, to_response,
}
use soc_dashboard.World.Failure.{IsFailure, error_response-IsFailure}
use soc_dashboard.World.Frame.{bind-ok, bind-err}
use soc_dashboard.Access.{User, require_role}
use soc_dashboard.Audit.{
  LogOrder, LogPage, page_arg, at_least_one, search_text, searched, select_log, log_tx, log_view,
  show_entry, audit_log_page,
}

select_log_size :
    (order : LogOrder) (search : String) (offset now : ℕ) (d : Db) (rows : List AuditEntry)
    → (select_log order search 50 offset now d).0 ≡ ok rows
    → length rows ≤ 50
unfolding select_log
select_log_size order search offset now d rows e = elim (Bool-cases (ltb offset (2 ^ 63))) [
  | inr big ↦ absurd (err-ok (rw big at e))
  | inl small ↦
      let all = drop offset (order.newest_first (searched order search d.tables.audit_log)) in
      let same : take 50 all ≡ rows = ok-injective (rw small at e) in
      subst (λ l. length l ≤ 50) same (omega (arith, length-take 50 all))
]

module _ (order : LogOrder) (search : String) (page : ℕ) where
  rows_Ensures :
      (s : Session) → Ensures (log_tx order search page) s (λ found s'. length found.0 ≤ 50)
  unfolding log_tx
  rows_Ensures s = Ensures-execute_then _ s _ _ (λ rows e. Ensures-execute_then _ _ _ _ (λ total f.
      Ensures-pure _ _ _ (select_log_size order search ((page - 1) * 50) s.now s.db rows e)))

  page_size :
      (w : World) (found : List AuditEntry × ℕ)
      → (in_db (log_tx order search page) w).0 ≡ ok found
      → length found.0 ≤ 50
  unfolding in_db
  page_size w found e = elim (with_conn-cases (log_tx order search page) w.session) [
    | inl back ↦
        let clash : err back.error ≡ ok found = sym back.raised ∙ e in absurd (err-ok clash)
    | inr done ↦ (rows_Ensures (spend w.session)).at found (done.ran ∙ sym done.returned ∙ e)
  ]

at_least_one_lem : (o : Option ℤ) (n : ℕ) → at_least_one o ≡ ok n → 1 ≤ n
at_least_one_lem none n e = absurd (err-ok e)
at_least_one_lem (some (pos m)) n e = omega (arith, ok-injective e)
at_least_one_lem (some (negsuc m)) n e = omega (arith, ok-injective e)

page_arg_lem : (env : Env) (args : Dict String) (n : ℕ) → page_arg env args ≡ ok n → 1 ≤ n
unfolding page_arg
page_arg_lem env args n e = elim (Option-cases (lookup "page" args)) [
  | inl h ↦ let one : ok 1 ≡ ok n = (rw (page_arg, h) at e) in omega (arith, ok-injective one)
  | inr (s, h) ↦ at_least_one_lem (int_of env.decimal_of s) n (rw (page_arg, h) at e)
]

-- A page of the log: the entries are few, and it is none before the first.
abbrev pub IsPage : LogPage → Type 0
IsPage p = (length p.entries ≤ 50) × (1 ≤ p.page)

-- How a view ends: it raises, or answers 200 with a page.
abbrev PageEnds : Result (Response LogPage) × World → Type 0
PageEnds (r, w') = ((e : Exn) × (r ≡ err e)) ⊎ ((p : LogPage) × (r ≡ ok (success 200 p)) × IsPage p)

abbrev shown : Env → Dict String → ℕ → List AuditEntry × ℕ → App (Response LogPage)
shown env args page found = pure (
    success 200 (record {
      entries = map (show_entry env.fernet) found.0;
      page = page;
      per_page = 50;
      total = found.1;
      search = search_text (lookup "q" args);
    }))

found-PageEnds :
    (env : Env) (order : LogOrder) (args : Dict String) (page : ℕ) (w : World)
    → 1 ≤ page
    → PageEnds
        ((in_db (log_tx order (search_text (lookup "q" args)) page) >>= shown env args page) w)
found-PageEnds env order args page w h =
    let search = search_text (lookup "q" args) in
    let read = in_db (log_tx order search page) in
    elim (Result-cases (read w).0) [
      | inr (x, e) ↦ inl (x, ap (λ r. r.0) (bind-err read (shown env args page) w x e))
      | inl (found, e) ↦ inr (
        _,
        ap (λ r. r.0) (bind-ok read (shown env args page) w found e),
        (
          omega (
            arith,
            page_size order search page w found e,
            length-map (show_entry env.fernet) found.0,
          ),
          h,
        ),
      )
    ]

log_view-PageEnds :
    (env : Env) (order : LogOrder) (args : Dict String) (user : User) (w : World)
    → PageEnds (log_view env order args user w)
unfolding log_view
log_view-PageEnds env order args user w = elim (Result-cases (page_arg env args)) [
  | inr (x, e) ↦ rw e (inl (x, refl))
  | inl (page, e) ↦ rw e (found-PageEnds env order args page w (page_arg_lem env args page e))
]

answer-PageEnds :
    (r : Result (Response LogPage)) (w' : World)
    → PageEnds (r, w')
    → IsFailure (to_response r) ⊎ ((p : LogPage) × (to_response r ≡ success 200 p) × IsPage p)
unfolding to_response
answer-PageEnds (err e) w' h = inl (error_response-IsFailure e)
answer-PageEnds (ok x) w' (inl (e, raised)) = absurd (cc)
answer-PageEnds (ok x) w' (inr (p, e, h)) = inr (p, ok-injective e, h)

-- Whatever the request, the state and the failing calls: a request for the audit log is answered by
-- an error, or it was made by an admin and is answered 200 with at most 50 entries, as a page whose
-- number is at least 1.
pub audit_log_page_lem :
    (env : Env) (order : LogOrder) (who : Option User) (args : Dict String) (w : World)
    → IsFailure (respond (audit_log_page env order who args) w).0
      ⊎ ((user : User) × (who ≡ some user)
          × (user.role ≡ "admin")
          × ((p : LogPage) × ((respond (audit_log_page env order who args) w).0 ≡ success 200 p)
              × IsPage p))
unfolding audit_log_page require_role to_response
audit_log_page_lem env order none args w =
    inl (error_response-IsFailure (http 401 env.unauthorized_description))
audit_log_page_lem env order (some user) args w =
    elim (Bool-cases (contains ("admin" ∷ []) user.role)) [
      | inr barred ↦ rw barred (inl (error_response-IsFailure (http 403 "insufficient role")))
      | inl allowed ↦
          let admin : user.role ≡ "admin" = ground (arith, allowed, eq_iff user.role "admin") in
          rw allowed
            (elim (answer-PageEnds _ (log_view env order args user w).1
              (log_view-PageEnds env order args user w)) [
                | inl h ↦ inl h
                | inr (p, e, h) ↦ inr (user, refl, admin, (p, e, h))
              ])
    ]
