-- ===== src/Triage/Notes.antt =====
-- What one call of the note endpoint can leave in the tables, whichever outside call fails.
use soc_dashboard.Common.{
  ℕ, String, Dict, ◌≡◌, refl, ap, sym, subst, ◌⊎◌, inl, inr, Option, some, true, contains, text_eq,
  Bool-cases,
}
use soc_dashboard.Values.{
  Exn, http, Result, ok, err, Result-cases, ok-injective, Value, Json, as_body,
}
use soc_dashboard.Db.{Alert, AuditEntry}
use soc_dashboard.Db.Session.{spend}
use soc_dashboard.Db.Atomicity.{with_conn-cases}
use soc_dashboard.World.{
  Env, World, lift, pure, ◌>>=◌, in_db, Response, success, respond, to_response,
}
use soc_dashboard.World.Failure.{IsFailure, error_response-IsFailure}
use soc_dashboard.Access.{User, require_role}
use soc_dashboard.Requests.{read_note}
use soc_dashboard.Changes.{note_tx}
use soc_dashboard.Changes.Notes.{Noted, note_tx-Ensures}
use soc_dashboard.Triage.{note_view, triage_roles, api_add_note}

-- A call that wrote its note.
pub record Annotated (env : Env) (user : User) (alert_id : ℕ) (json : Option Json) (w w' : World)
    : Type 0 where
  pub role : contains triage_roles user.role ≡ true
  pub body : Dict Value
  pub parsed : as_body json ≡ ok body
  pub note : String
  pub given : read_note body ≡ ok note
  pub alert : Alert
  pub entry : AuditEntry
  pub noted : Noted env user alert_id note w.session.now alert entry w.session.db w'.session.db

module _ (env : Env) (user : User) (alert_id : ℕ) (json : Option Json) (w : World) where
  -- How a call ends, before the error handlers.
  abbrev NoteEnds : Result (Response (ℕ × ℕ)) × World → Type 0
  NoteEnds (r, w') =
      ((w'.session.db.tables ≡ w.session.db.tables) × ((e : Exn) × (r ≡ err e)))
      ⊎ ((a : Annotated env user alert_id json w w') × (r
            ≡ ok (success 201 (a.entry.id, a.entry.created_at))))

  abbrev NoteWritten : String → Result AuditEntry × World → Type 0
  NoteWritten note (r, w') =
      ((w'.session.db.tables ≡ w.session.db.tables) × ((e : Exn) × (r ≡ err e)))
      ⊎ ((alert : Alert) × (entry : AuditEntry) × Noted env user alert_id note w.session.now alert
            entry w.session.db w'.session.db
          × (r ≡ ok entry))

  in_db-note_tx : (note : String) → NoteWritten note (in_db (note_tx env user alert_id note) w)
  unfolding in_db
  in_db-note_tx note = elim (with_conn-cases (note_tx env user alert_id note) w.session) [
    | inl back ↦ inl (back.tables, (back.error, back.raised))
    | inr done ↦
        let (alert, noted) =
          (note_tx-Ensures env user alert_id note (spend w.session)).at done.value done.ran in
        inr (
          alert,
          done.value,
          subst (λ db. Noted env user alert_id note w.session.now alert done.value w.session.db db)
              (sym done.db) noted,
          done.returned,
        )
  ]

  answer_note :
      (body : Dict Value) (note : String) (r : Result AuditEntry) (w' : World)
      → contains triage_roles user.role ≡ true
      → as_body json ≡ ok body
      → read_note body ≡ ok note
      → NoteWritten note (r, w')
      → NoteEnds ((lift r >>= λ entry. pure (success 201 (entry.id, entry.created_at))) w')
  answer_note body note (err e) w' a b c (inl (same, raised)) = inl (same, (e, refl))
  answer_note body note (ok x) w' a b c (inl (same, (e, raised))) = absurd (cc)
  answer_note body note (err e) w' a b c (inr (alert, entry, noted, shown)) = absurd (cc)
  answer_note body note (ok x) w' a b c (inr (alert, entry, noted, shown)) = inr (
    record {
      role = a;
      body = body;
      parsed = b;
      note = note;
      given = c;
      alert = alert;
      entry = entry;
      noted = noted;
    },
    ap (λ (e : AuditEntry). ok (success 201 (e.id, e.created_at))) (ok-injective shown),
  )

  note_view-NoteEnds :
      contains triage_roles user.role ≡ true → NoteEnds (note_view env alert_id json user w)
  unfolding note_view
  note_view-NoteEnds allowed = elim (Result-cases (as_body json)) [
    | inr (x, e) ↦ rw e (inl (refl, (x, refl)))
    | inl (body, e) ↦ elim (Result-cases (read_note body)) [
      | inr (x, f) ↦ rw (e, f) (inl (refl, (x, refl)))
      | inl (note, f) ↦ rw (e, f) (answer_note body note _ _ allowed e f (in_db-note_tx note))
    ]
  ]

  note_response :
      (r : Result (Response (ℕ × ℕ))) (w' : World)
      → NoteEnds (r, w')
      → ((w'.session.db.tables ≡ w.session.db.tables) × IsFailure (to_response r))
        ⊎ ((a : Annotated env user alert_id json w w') × (to_response r
              ≡ success 201 (a.entry.id, a.entry.created_at)))
  unfolding to_response
  note_response (err e) w' (inl (same, raised)) = inl (same, error_response-IsFailure e)
  note_response (ok x) w' (inl (same, (e, raised))) = absurd (cc)
  note_response (err e) w' (inr (a, shown)) = absurd (cc)
  note_response (ok x) w' (inr (a, shown)) = inr (a, ok-injective shown)

-- Whatever the request and the state, and whichever calls to the database fail, a note call by a
-- signed-in user either leaves every table as it was and answers with an error, or was made by an
-- analyst or an admin, on an alert that is there and with a note that is not blank; then one audit
-- entry with the note encrypted and the alert's status on both sides is appended, nothing else in
-- the tables has changed, and the answer is 201 with the entry's id and time.
pub api_add_note-effect :
    (env : Env) (user : User) (alert_id : ℕ) (json : Option Json) (w : World)
    → let (reply, w') = respond (api_add_note env (some user) alert_id json) w in
      ((w'.session.db.tables ≡ w.session.db.tables) × IsFailure reply)
      ⊎ ((a : Annotated env user alert_id json w w') × (reply
            ≡ success 201 (a.entry.id, a.entry.created_at)))
unfolding api_add_note require_role to_response
api_add_note-effect env user alert_id json w = elim (Bool-cases (contains triage_roles user.role)) [
  | inr barred ↦ rw barred (inl (refl, error_response-IsFailure (http 403 "insufficient role")))
  | inl allowed ↦ rw allowed (
      note_response env user alert_id json w _ _
        (note_view-NoteEnds env user alert_id json w allowed))
]
