-- ===== src/Ingest/Stored.antt =====
-- What one call of the ingest endpoint can leave in the tables, whichever outside call fails.
use soc_dashboard.Common.{
  String, ◌≡◌, ◌≢◌, refl, ap, ◌∙◌, ◌⊎◌, inl, inr, Option, some, arith, [], ◌∷◌, ◌++◌, Dict, true,
  false, eq_iff, Option-cases,
}
use soc_dashboard.Values.{Exn, Result, ok, err, Result-cases, Value, Json, as_body}
use soc_dashboard.Crypto.{decrypt_alert}
use soc_dashboard.Db.{Alert, Db}
use soc_dashboard.Db.Session
use soc_dashboard.Db.Session.{Session, execute}
use soc_dashboard.Db.Statements.{NewAlert, new_row, insert_row}
use soc_dashboard.Db.Atomicity.{with_conn-cases}
use soc_dashboard.World.{
  Env, World, lift, pure, ◌>>=◌, in_db, Response, success, respond, to_response,
}
use soc_dashboard.World.Failure.{IsFailure, error_response-IsFailure}
use soc_dashboard.Validation.{
  Payload, compare_digest, valid_api_key, parse_ingest_payload, ingest_values,
}
use soc_dashboard.Validation.Accepted.{IsReadFrom, IsComplete, parse_ingest_payload_iff}
use soc_dashboard.Ingest.Built.{IsBuilt, ingest_values-IsBuilt}
use soc_dashboard.Ingest.{insert_tx, insert_alert, announce, ingest_request, api_ingest_alert}
use soc_dashboard.Ingest.Announced.{announce-CoreKept, announce-Yields}

-- The row that an insert makes of its values.
abbrev pub created_row : NewAlert → Session → Alert
created_row n s = new_row n s.db.sequences.alerts_id s.now

-- One row was appended to the alerts; the actions, the audit log and the accounts are unchanged.
pub record Appended (row : Alert) (d d' : Db) : Type 0 where
  pub alerts : d'.tables.alerts ≡ d.tables.alerts ++ row ∷ []
  pub analyst_actions : d'.tables.analyst_actions ≡ d.tables.analyst_actions
  pub audit_log : d'.tables.audit_log ≡ d.tables.audit_log
  pub users : d'.tables.users ≡ d.tables.users

insert_tx-ok :
    (env : Env) (body : Dict Value) (p : Payload) (s : Session) (row : Alert)
    → (insert_tx env body p s).0 ≡ ok row
    → (n : NewAlert) × (ingest_values env body p ≡ ok n)
      × (row ≡ created_row n s)
      × Appended row s.db (insert_tx env body p s).1.db
unfolding insert_tx execute insert_row Session.◌>>=◌
insert_tx-ok env body p s row h = elim (Result-cases (ingest_values env body p)) [
  | inl (n, e) ↦ (n, e, ground arith, ground arith)
  | inr (x, e) ↦ absurd (ground arith)
]

-- The end of `_insert_alert`, from the state before it.
pub record Stored (env : Env) (body : Dict Value) (p : Payload) (w : World) (w' : World)
    : Type 0 where
  pub values : NewAlert
  pub built : ingest_values env body p ≡ ok values
  pub appended : Appended (created_row values w.session) w.session.db w'.session.db

-- Either it raised with the tables unchanged, or one row is stored; then the row, decrypted, is
-- what came back, or something after the commit raised.
abbrev pub Inserts : Env → Dict Value → Payload → World → Result Alert × World → Type 0
Inserts env body p w (r, w') =
    (((e : Exn) × (r ≡ err e)) × (w'.session.db.tables ≡ w.session.db.tables))
    ⊎ ((st : Stored env body p w w') × ((r
            ≡ ok (decrypt_alert env.fernet (created_row st.values w.session)))
          ⊎ ((e : Exn) × (r ≡ err e))))

-- The first block alone.
abbrev FirstBlock : Env → Dict Value → Payload → World → Result Alert × World → Type 0
FirstBlock env body p w (r, w') =
    (((e : Exn) × (r ≡ err e)) × (w'.session.db.tables ≡ w.session.db.tables))
    ⊎ ((st : Stored env body p w w') × (r ≡ ok (created_row st.values w.session)))

module _ (env : Env) (body : Dict Value) (p : Payload) (w : World) where
  in_db-FirstBlock : FirstBlock env body p w (in_db (insert_tx env body p) w)
  unfolding in_db
  in_db-FirstBlock = elim (with_conn-cases (insert_tx env body p) w.session) [
    | inl back ↦ inl ((back.error, back.raised), back.tables)
    | inr done ↦
        let (n, built, made, added) = insert_tx-ok env body p _ done.value done.ran in
        inr (
          record { values = n; built = built; appended = rw (done.db, ← made) added },
          rw (← made) done.returned,
        )
  ]

  announce-Inserts :
      (r : Result Alert) (w' : World)
      → FirstBlock env body p w (r, w')
      → Inserts env body p w ((lift r >>= announce env body p) w')
  announce-Inserts (err e) w' (inl (raised, same)) = inl ((e, refl), same)
  announce-Inserts (err e) w' (inr (st, made)) = absurd (cc)
  announce-Inserts (ok a) w' (inl ((e, raised), same)) = absurd (cc)
  announce-Inserts (ok a) w' (inr (st, made)) =
      let kept = (announce-CoreKept env body p a).at w' in
      let same : a ≡ created_row st.values w.session = ground (arith, made) in
      inr (
        record { values = st.values; built = st.built; appended = ground (arith, kept.alerts) },
        elim (Result-cases (announce env body p a w').0) [
          | inl (row, e) ↦ inl (
              e
              ∙ ap ok
                  ((announce-Yields env body p a).at w' row e ∙ ap (decrypt_alert env.fernet) same))
          | inr (x, e) ↦ inr (x, e)
        ],
      )

  pub insert_alert-Inserts : Inserts env body p w (insert_alert env body p w)
  unfolding insert_alert
  insert_alert-Inserts = announce-Inserts _ _ in_db-FirstBlock

-- A call that stored its row.
pub record Ingested (env : Env) (provided : String) (json : Option Json) (w w' : World)
    : Type 0 where
  pub key : env.api_key ≡ some provided
  pub key_set : provided ≢ ""
  pub body : Dict Value
  pub parsed : as_body json ≡ ok body
  pub payload : Payload
  pub read : IsReadFrom env body payload
  pub complete : IsComplete payload
  pub stored : Stored env body payload w w'
  pub made : IsBuilt env body payload (created_row stored.values w.session)

valid_api_key-eq-true :
    (env : Env) (provided : String)
    → valid_api_key env provided ≡ ok true
    → (env.api_key ≡ some provided) × (provided ≢ "")
unfolding valid_api_key compare_digest
valid_api_key-eq-true env provided h = elim (Option-cases env.api_key) [
  | inl unset ↦ ground arith
  | inr (key, e) ↦ ground (arith, eq_iff key "", eq_iff provided key, eq_iff provided "")
]

-- What the two stages of the endpoint did to the tables, and what they answer.
abbrev pub Answers : Env → String → Option Json → World → Result (Response Alert) × World → Type 0
Answers env provided json w (r, w') =
    ((w'.session.db.tables ≡ w.session.db.tables)
      × (((e : Exn) × (r ≡ err e)) ⊎ ((reply : Response Alert) × (r ≡ ok reply) × IsFailure reply)))
    ⊎ ((i : Ingested env provided json w w') × ((r
            ≡ ok (success 201 (decrypt_alert env.fernet (created_row i.stored.values w.session))))
          ⊎ ((e : Exn) × (r ≡ err e))))

module _ (env : Env) (provided : String) (json : Option Json) (w : World) where
  answer_insert :
      (body : Dict Value) (p : Payload) (r : Result Alert) (w' : World)
      → env.api_key ≡ some provided
      → provided ≢ ""
      → as_body json ≡ ok body
      → IsReadFrom env body p
      → IsComplete p
      → Inserts env body p w (r, w')
      → Answers env provided json w ((lift r >>= λ row. pure (success 201 row)) w')
  answer_insert body p (err e) w' k s b q c (inl (raised, same)) = inl (same, inl (e, refl))
  answer_insert body p (ok a) w' k s b q c (inl ((e, raised), same)) = absurd (cc)
  answer_insert body p (ok a) w' k s b q c (inr (st, ends)) = inr (
    record {
      key = k;
      key_set = s;
      body = body;
      parsed = b;
      payload = p;
      read = q;
      complete = c;
      stored = st;
      made = ingest_values-IsBuilt env body p st.values _ _ st.built;
    },
    ground arith,
  )
  answer_insert body p (err e) w' k s b q c (inr (st, ends)) = inr (
    record {
      key = k;
      key_set = s;
      body = body;
      parsed = b;
      payload = p;
      read = q;
      complete = c;
      stored = st;
      made = ingest_values-IsBuilt env body p st.values _ _ st.built;
    },
    inr (e, refl),
  )

  answer_request :
      env.api_key ≡ some provided
      → provided ≢ ""
      → Answers env provided json w (ingest_request env json w)
  unfolding ingest_request
  answer_request k s = elim (Result-cases (as_body json)) [
    | inr (x, e) ↦ rw e (inl (refl, inl (x, refl)))
    | inl (body, e) ↦ elim (Result-cases (parse_ingest_payload env body)) [
      | inr (x, e') ↦ rw (e, e') (inl (refl, inl (x, refl)))
      | inl (p, e') ↦
          rw (e, e')
            (answer_insert body p _ _ k s e ((parse_ingest_payload_iff env body p).0 e').0
              ((parse_ingest_payload_iff env body p).0 e').1 (insert_alert-Inserts env body p w))
    ]
  ]

  api_ingest_alert-Answers : Answers env provided json w (api_ingest_alert env provided json w)
  unfolding api_ingest_alert
  api_ingest_alert-Answers = elim (Result-cases (valid_api_key env provided)) [
    | inr (x, e) ↦ rw e (inl (refl, inl (x, refl)))
    | inl (true, e) ↦ let (k, s) = valid_api_key-eq-true env provided e in rw e (answer_request k s)
    | inl (false, e) ↦ rw e (inl (refl, inr (_, refl, (401, "missing or invalid X-API-Key", refl))))
  ]

  answer :
      (r : Result (Response Alert)) (w' : World)
      → Answers env provided json w (r, w')
      → let reply = (respond (λ _. (r, w')) w).0 in
        ((w'.session.db.tables ≡ w.session.db.tables) × IsFailure reply)
        ⊎ ((i : Ingested env provided json w w') × ((reply
                ≡ success 201 (decrypt_alert env.fernet (created_row i.stored.values w.session)))
              ⊎ IsFailure reply))
  unfolding to_response
  answer (err e) w' (inl (same, ends)) = inl (same, error_response-IsFailure e)
  answer (ok reply) w' (inl (same, inl (e, raised))) = absurd (cc)
  answer (ok reply) w' (inl (same, inr (reply', e, failed))) =
      inl (same, (failed.0, failed.1, ground arith))
  answer (err e) w' (inr (i, ends)) = inr (i, inr (error_response-IsFailure e))
  answer (ok reply) w' (inr (i, inl e)) = inr (i, inl (ground arith))
  answer (ok reply) w' (inr (i, inr (e, raised))) = absurd (cc)

-- Whatever the key, the JSON and the state, and whichever calls to the database, the embedding
-- model and Redis fail: either the tables are as before and the answer is an error, or the
-- request carried the configured API key, its body was complete, and exactly one row was appended
-- to the alerts, open, with each column as the body's field of that name says (stripped, in upper
-- case or encrypted where it should be), while the actions, the audit log and the accounts are as
-- before; then the answer is 201 with that row decrypted, or an error.
pub api_ingest_alert-effect :
    (env : Env) (provided : String) (json : Option Json) (w : World)
    → let (reply, w') = respond (api_ingest_alert env provided json) w in
      ((w'.session.db.tables ≡ w.session.db.tables) × IsFailure reply)
      ⊎ ((i : Ingested env provided json w w') × ((reply
              ≡ success 201 (decrypt_alert env.fernet (created_row i.stored.values w.session)))
            ⊎ IsFailure reply))
api_ingest_alert-effect env provided json w =
    answer env provided json w _ _ (api_ingest_alert-Answers env provided json w)
