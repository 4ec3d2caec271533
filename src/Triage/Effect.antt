-- ===== src/Triage/Effect.antt =====
-- What one call of the classify endpoint can leave in the tables, whichever outside call fails.
use soc_dashboard.Common.{
  ℕ, String, ◌≡◌, ◌≢◌, refl, ap, ◌∙◌, sym, ◌⊎◌, inl, inr, Option, some, arith, true, eq_iff,
  Option-cases, Bool-cases, subst, contains, text_eq, lookup, Dict,
}
use soc_dashboard.Values.{
  Exn, http, Result, ok, err, Result-cases, ok-injective, Value, str, Json, as_body, get,
}
use soc_dashboard.Crypto.{decrypt_alert}
use soc_dashboard.Db.{Alert}
use soc_dashboard.Db.Statements.{statuses, close_row}
use soc_dashboard.Db.Atomicity.{with_conn-cases}
use soc_dashboard.World.{
  Env, World, App, lift, pure, ◌>>=◌, ◌>>◌, in_db, Response, success, respond, to_response,
  sse_publish,
}
use soc_dashboard.World.Frame.{bind-ok, bind-err}
use soc_dashboard.Db.Session.{spend}
use soc_dashboard.World.Publishing.{db-sse_publish}
use soc_dashboard.Access.{User, require_role}
use soc_dashboard.Requests.{Verdict, verdict, action_to_status, read_analyst}
use soc_dashboard.Changes.{classify_tx}
use soc_dashboard.Changes.Effects.{Triaged, classify_tx-Ensures}
use soc_dashboard.Triage.{triage_roles, classify_view, api_classify, status_change}
use soc_dashboard.World.Failure.{IsFailure, error_response-IsFailure}

lookup-action_to_status :
    (s t : String)
    → lookup s action_to_status ≡ some t
    → (t ≡ "true_positive") ⊎ ((t ≡ "false_positive") ⊎ (t ≡ "escalated"))
unfolding lookup
lookup-action_to_status s t h = ground arith

abbrev pub IsClosing : String → Type 0
IsClosing t = (t ≢ "open") × (contains statuses t ≡ true)

IsClosing-listed :
    (t : String)
    → (t ≡ "true_positive") ⊎ ((t ≡ "false_positive") ⊎ (t ≡ "escalated"))
    → IsClosing t
IsClosing-listed t (inl e) = rw e ((λ p. ground (arith, eq_iff "true_positive" "open")), refl)
IsClosing-listed t (inr (inl e)) =
    rw e ((λ p. ground (arith, eq_iff "false_positive" "open")), refl)
IsClosing-listed t (inr (inr e)) = rw e ((λ p. ground (arith, eq_iff "escalated" "open")), refl)

-- A verdict is one of the three closed states.
pub verdict-IsClosing : (action : Value) (v : Verdict) → verdict action ≡ ok v → IsClosing v.status
unfolding verdict
verdict-IsClosing (str s) v h = elim (Option-cases (lookup s action_to_status)) [
  | inl missing ↦ absurd (ground arith)
  | inr (t, e) ↦ IsClosing-listed v.status (lookup-action_to_status s v.status (ground arith))
]
verdict-IsClosing _ v h = absurd (ground arith)

-- A call that closed its alert.
pub record Classified (env : Env) (user : User) (alert_id : ℕ) (json : Option Json) (w w' : World)
    : Type 0 where
  pub role : contains triage_roles user.role ≡ true
  pub body : Dict Value
  pub parsed : as_body json ≡ ok body
  pub analyst : String
  pub named : read_analyst body ≡ ok analyst
  pub verdict_of : Verdict
  pub chosen : verdict (get "action" body) ≡ ok verdict_of
  pub alert : Alert
  pub triaged :
      Triaged user alert_id analyst verdict_of w.session.now alert w.session.db w'.session.db

module _ (env : Env) (user : User) (alert_id : ℕ) (json : Option Json) (w : World) where
  -- How a call ends, before the error handlers.
  abbrev Ends : Result (Response Alert) × World → Type 0
  Ends (r, w') =
      ((w'.session.db.tables ≡ w.session.db.tables) × ((e : Exn) × (r ≡ err e)))
      ⊎ ((c : Classified env user alert_id json w w') × ((r
              ≡ ok (
                  success 200
                    (decrypt_alert env.fernet (close_row c.verdict_of.status c.analyst c.alert))))
            ⊎ ((e : Exn) × (r ≡ err e))))

  publish_end :
      (body : Dict Value) (analyst : String) (v : Verdict) (r : Result Alert) (w' : World)
      → as_body json ≡ ok body
      → read_analyst body ≡ ok analyst
      → verdict (get "action" body) ≡ ok v
      → contains triage_roles user.role ≡ true
      → ((w'.session.db.tables ≡ w.session.db.tables) × ((e : Exn) × (r ≡ err e)))
        ⊎ ((alert : Alert) × Triaged user alert_id analyst v w.session.now alert w.session.db
              w'.session.db
            × (r ≡ ok (decrypt_alert env.fernet (close_row v.status analyst alert))))
      → Ends (
          (lift r >>= λ updated.
          sse_publish env (status_change alert_id updated v) >> pure (success 200 updated))
            w')
  publish_end body analyst v (err e) w' a b c d (inl (same, raised)) = inl (same, (e, refl))
  publish_end body analyst v (ok x) w' a b c d (inl (same, (e, raised))) = absurd (cc)
  publish_end body analyst v (err e) w' a b c d (inr (alert, done, shown)) = absurd (cc)
  publish_end body analyst v (ok x) w' a b c d (inr (alert, done, shown)) =
      let event = status_change alert_id x v in
      let finish : Unit {0} → App (Response Alert) = λ _. pure (success 200 x) in
      let kept =
        subst (λ db. Triaged user alert_id analyst v w.session.now alert w.session.db db)
          (sym (db-sse_publish env event w')) done in
      let closed : Classified env user alert_id json w (sse_publish env event w').1 = record {
        role = d;
        body = body;
        parsed = a;
        analyst = analyst;
        named = b;
        verdict_of = v;
        chosen = c;
        alert = alert;
        triaged = kept;
      } in
      elim (Result-cases (sse_publish env event w').0) [
        | inl (u, e) ↦
            rw (bind-ok (sse_publish env event) finish w' u e)
              (inr (closed, inl (ap (λ r. ok (success 200 r)) (ok-injective shown))))
        | inr (y, e) ↦
            rw (bind-err (sse_publish env event) finish w' y e) (inr (closed, inr (y, refl)))
      ]

  -- The transaction, as a block of the handler.
  in_db-classify_tx :
      (analyst : String) (v : Verdict)
      → let (r, w') = in_db (classify_tx env user alert_id analyst v) w in
        ((w'.session.db.tables ≡ w.session.db.tables) × ((e : Exn) × (r ≡ err e)))
        ⊎ ((alert : Alert) × Triaged user alert_id analyst v w.session.now alert w.session.db
              w'.session.db
            × (r ≡ ok (decrypt_alert env.fernet (close_row v.status analyst alert))))
  unfolding in_db
  in_db-classify_tx analyst v =
      elim (with_conn-cases (classify_tx env user alert_id analyst v) w.session) [
        | inl back ↦ inl (back.tables, (back.error, back.raised))
        | inr done ↦
            let (alert, triaged, shown) =
              (classify_tx-Ensures env user alert_id analyst v (spend w.session)).at done.value
                done.ran in
            inr (
              alert,
              subst (λ db. Triaged user alert_id analyst v w.session.now alert w.session.db db)
                  (sym done.db) triaged,
              done.returned ∙ ap ok shown,
            )
      ]

  classify_view-Ends :
      contains triage_roles user.role ≡ true → Ends (classify_view env alert_id json user w)
  unfolding classify_view
  classify_view-Ends allowed = elim (Result-cases (as_body json)) [
    | inr (x, e) ↦ rw e (inl (refl, (x, refl)))
    | inl (body, e) ↦ elim (Result-cases (read_analyst body)) [
      | inr (x, e') ↦ rw (e, e') (inl (refl, (x, refl)))
      | inl (analyst, e') ↦ elim (Result-cases (verdict (get "action" body))) [
        | inr (x, f) ↦ rw (e, e', f) (inl (refl, (x, refl)))
        | inl (v, f) ↦
            rw (e, e', f)
              (publish_end body analyst v _ _ e e' f allowed (in_db-classify_tx analyst v))
      ]
    ]
  ]

answer :
    (env : Env) (user : User) (alert_id : ℕ) (json : Option Json) (w : World)
    (r : Result (Response Alert)) (w' : World)
    → Ends env user alert_id json w (r, w')
    → ((w'.session.db.tables ≡ w.session.db.tables) × IsFailure (to_response r))
      ⊎ ((c : Classified env user alert_id json w w') × ((to_response r
              ≡ success 200
                  (decrypt_alert env.fernet (close_row c.verdict_of.status c.analyst c.alert)))
            ⊎ IsFailure (to_response r)))
unfolding to_response
answer env user alert_id json w (err e) w' (inl (same, raised)) =
    inl (same, error_response-IsFailure e)
answer env user alert_id json w (ok x) w' (inl (same, (e, raised))) = absurd (cc)
answer env user alert_id json w (err e) w' (inr (c, ends)) =
    inr (c, inr (error_response-IsFailure e))
answer env user alert_id json w (ok x) w' (inr (c, inl e)) = inr (c, inl (ok-injective e))
answer env user alert_id json w (ok x) w' (inr (c, inr (e, raised))) = absurd (cc)

-- Whatever the request and the state, and whichever calls to the database and Redis fail, a call
-- by a signed-in user either leaves every table as it was and answers with an error, or was made
-- by an analyst or an admin, and found the alert open; then the alert has the verdict's status and
-- the analyst's name, one action and one audit entry from "open" to that status are appended, the
-- embeddings and the accounts are as before, and the answer is 200 with the closed row
-- decrypted, or an error.
pub api_classify-effect :
    (env : Env) (user : User) (alert_id : ℕ) (json : Option Json) (w : World)
    → let (reply, w') = respond (api_classify env (some user) alert_id json) w in
      ((w'.session.db.tables ≡ w.session.db.tables) × IsFailure reply)
      ⊎ ((c : Classified env user alert_id json w w') × ((reply
              ≡ success 200
                  (decrypt_alert env.fernet (close_row c.verdict_of.status c.analyst c.alert)))
            ⊎ IsFailure reply))
unfolding api_classify require_role to_response
api_classify-effect env user alert_id json w = elim (Bool-cases (contains triage_roles user.role)) [
  | inr barred ↦ rw barred (inl (refl, error_response-IsFailure (http 403 "insufficient role")))
  | inl allowed ↦
      rw allowed
        (answer env user alert_id json w _ _ (classify_view-Ends env user alert_id json w allowed))
]
