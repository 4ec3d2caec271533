-- ===== src/System/History.antt =====
-- The actions of an alert against its status: an open alert has none, a closed one has the one that
-- closed it.
use soc_dashboard.Common.{
  ℕ, ◌≡◌, ◌≢◌, refl, ap, sym, ◌∙◌, String, true, false, ◌⊎◌, inl, inr, some, List, [], ◌∷◌, ◌++◌,
  All, All-append, All-imp, arith, ◌==◌, nat_eq, text_eq, filter, lookup, Bool-cases, append-nil,
  if◌then◌else◌,
}
use soc_dashboard.Db.{Alert, AnalystAction, Tables}
use soc_dashboard.Db.Statements.{has_alert, find_alert, update_rows, close_row}
use soc_dashboard.Requests.{action_to_status}
use soc_dashboard.System.Sound.{DistinctIds}

unfoldable pub actions_of : ℕ → List AnalystAction → List AnalystAction
actions_of key rows = filter (λ r. r.alert_id == key) rows

-- The action by which an analyst closed an alert.
pub record Closes (r : AnalystAction) (a : Alert) : Type 0 where
  pub status_of : lookup r.action action_to_status ≡ some a.status
  pub analyst : a.assigned_to ≡ some r.analyst_name

abbrev pub Recorded : List AnalystAction → Alert → Type 0
Recorded rows a =
    ((a.status ≡ "open") × (actions_of a.id rows ≡ []))
    ⊎ ((a.status ≢ "open") × ((r : AnalystAction) × (actions_of a.id rows ≡ r ∷ []) × Closes r a))

pub record IsRecorded (t : Tables) : Type 0 where
  pub every : All (Recorded t.analyst_actions) t.alerts

pub actions_of-append :
    (key : ℕ) (rows : List AnalystAction) (r : AnalystAction)
    → actions_of key (rows ++ r ∷ [])
      ≡ actions_of key rows ++ (if r.alert_id == key then r ∷ [] else [])
unfolding actions_of
actions_of-append key [] r = refl
actions_of-append key (x ∷ rows) r = elim (Bool-cases (x.alert_id == key)) [
  | inl e ↦ rw e (ap (λ l. x ∷ l) (actions_of-append key rows r))
  | inr e ↦ rw e (actions_of-append key rows r)
]

-- A text or a test that is had by one id and not by another tells the two apart.
apart :
    (key id : ℕ) (alerts : List Alert)
    → has_alert key alerts ≡ false
    → has_alert id alerts ≡ true
    → (id == key) ≡ false
apart key id alerts h k = elim (Bool-cases (id == key)) [
  | inr e ↦ e
  | inl e ↦
      let same : id ≡ key = ground arith in
      let clash : true ≡ false = sym k ∙ ap (λ n. has_alert n alerts) same ∙ h in absurd (cc)
]

-- An alert that is not there has no actions.
pub no_actions :
    (key : ℕ) (alerts : List Alert) (rows : List AnalystAction)
    → has_alert key alerts ≡ false
    → All (λ r. has_alert r.alert_id alerts ≡ true) rows
    → actions_of key rows ≡ []
unfolding actions_of
no_actions key alerts [] h k = refl
no_actions key alerts (r ∷ rows) h k =
    rw (apart key r.alert_id alerts h k.0) (no_actions key alerts rows h k.1)

-- The filter of the actions by the alerts that are left keeps the actions of those.
pub actions_of-left :
    (key : ℕ) (left : List Alert) (rows : List AnalystAction)
    → has_alert key left ≡ true
    → actions_of key (filter (λ r. has_alert r.alert_id left) rows) ≡ actions_of key rows
unfolding actions_of
actions_of-left key left [] h = refl
actions_of-left key left (r ∷ rows) h = elim (Bool-cases (has_alert r.alert_id left)) [
  | inr e ↦ rw (e, apart_back e) (actions_of-left key left rows h)
  | inl e ↦ rw e (elim (Bool-cases (r.alert_id == key)) [
    | inl k ↦ rw k (ap (λ l. r ∷ l) (actions_of-left key left rows h))
    | inr k ↦ rw k (actions_of-left key left rows h)
  ])
]
  where
    apart_back : has_alert r.alert_id left ≡ false → (r.alert_id == key) ≡ false
    apart_back e = let f = apart r.alert_id key left e h in ground arith

absent_row :
    (key : ℕ) (alert : Alert) (rows : List Alert)
    → has_alert key rows ≡ false
    → All (λ a. a.id ≡ key → a ≡ alert) rows
unfolding has_alert
absent_row key alert [] h = tt
absent_row key alert (a ∷ rows) h =
    ((λ e. absurd (ground arith)), absent_row key alert rows (ground arith))

-- With distinct ids, the row that a lookup finds is the only one with its id.
pub only_row :
    (key : ℕ) (alert : Alert) (rows : List Alert)
    → DistinctIds rows
    → find_alert key rows ≡ some alert
    → All (λ a. a.id ≡ key → a ≡ alert) rows
unfolding find_alert
only_row key alert [] d f = tt
only_row key alert (a ∷ rows) d f = elim (Bool-cases (a.id == key)) [
  | inl e ↦
      let same : a.id ≡ key = ground arith in
      ((λ k. ground arith), absent_row key alert rows (sym (ap (λ n. has_alert n rows) same) ∙ d.0))
  | inr e ↦ ((λ k. absurd (ground arith)), only_row key alert rows d.1 (ground arith))
]

-- A new alert is open, and without actions.
pub appended-IsRecorded :
    (t : Tables) (row : Alert)
    → IsRecorded t
    → row.status ≡ "open"
    → actions_of row.id t.analyst_actions ≡ []
    → All (Recorded t.analyst_actions) (t.alerts ++ row ∷ [])
appended-IsRecorded t row r o e = All-append _ t.alerts (row ∷ []) r.every (inl (o, e), tt)

-- Closing the alert `key`, with the action `r` on it.
pub closed-IsRecorded :
    (key : ℕ) (alert : Alert) (status analyst : String) (r : AnalystAction)
    (rows : List AnalystAction) (alerts : List Alert)
    → All (λ a. a.id ≡ key → a ≡ alert) alerts
    → alert.status ≡ "open"
    → status ≢ "open"
    → r.alert_id ≡ key
    → r.analyst_name ≡ analyst
    → lookup r.action action_to_status ≡ some status
    → All (Recorded rows) alerts
    → All (Recorded (rows ++ r ∷ [])) (update_rows key (close_row status analyst) alerts)
unfolding update_rows
closed-IsRecorded key alert status analyst r rows [] only was ne k n l h = tt
closed-IsRecorded key alert status analyst r rows (a ∷ alerts) only was ne k n l h =
    elim (Bool-cases (a.id == key)) [
      | inl e ↦
          let same : a.id ≡ key = ground arith in
          let hit : (r.alert_id == a.id) ≡ true = ground arith in
          let was_open : a.status ≡ "open" = ap (λ (x : Alert). x.status) (only.0 same) ∙ was in
          let none_yet : actions_of a.id rows ≡ [] = elim h.0 [
            | inl (o, e0) ↦ e0
            | inr (c, closing) ↦ absurd (c was_open)
          ] in
          rw e (
            inr (
              ne,
              (
                r,
                rw (actions_of-append a.id rows r, hit, none_yet) refl,
                record { status_of = l; analyst = ap some (sym n) },
              ),
            ),
            closed-IsRecorded key alert status analyst r rows alerts only.1 was ne k n l h.1,
          )
      | inr e ↦
          let miss : (r.alert_id == a.id) ≡ false = ground arith in
          let same : actions_of a.id (rows ++ r ∷ []) ≡ actions_of a.id rows =
            rw (actions_of-append a.id rows r, miss) (append-nil _) in
          rw e (
            elim h.0 [
              | inl (o, e0) ↦ inl (o, same ∙ e0)
              | inr (c, (x, e0, closing)) ↦ inr (c, (x, same ∙ e0, closing))
            ],
            closed-IsRecorded key alert status analyst r rows alerts only.1 was ne k n l h.1,
          )
    ]

-- The actions of the alerts that stay are kept.
pub kept-IsRecorded :
    (left : List Alert) (rows : List AnalystAction) (alerts : List Alert)
    → All (λ a. has_alert a.id left ≡ true) alerts
    → All (Recorded rows) alerts
    → All (Recorded (filter (λ r. has_alert r.alert_id left) rows)) alerts
kept-IsRecorded left rows [] here h = tt
kept-IsRecorded left rows (a ∷ alerts) here h =
    let same = actions_of-left a.id left rows here.0 in
    (
      elim h.0 [
        | inl (o, e) ↦ inl (o, same ∙ e)
        | inr (c, (x, e, closing)) ↦ inr (c, (x, same ∙ e, closing))
      ],
      kept-IsRecorded left rows alerts here.1 h.1,
    )

-- Every alert of a list is in it.
pub All-has_alert : (alerts : List Alert) → All (λ a. has_alert a.id alerts ≡ true) alerts
unfolding has_alert
All-has_alert [] = tt
All-has_alert (a ∷ alerts) = (
  ground arith,
  All-imp (λ b. has_alert b.id alerts ≡ true) (λ b. has_alert b.id (a ∷ alerts) ≡ true) alerts
      (λ b h. ground arith) (All-has_alert alerts),
)
