-- ===== src/Seed/Rows.antt =====
-- The rows that a round of `main` of seed.py stores, against those that are there.
use soc_dashboard.Common.{
  ℕ, ◌+◌, ◌-◌, ◌*◌, ◌≤◌, ◌<◌, ◌≡◌, refl, ap, ◌∙◌, String, true, false, ◌⊎◌, inl, inr, some, List,
  [], ◌∷◌, ◌++◌, append-nil, All, All-append, arith, ◌==◌, nat_eq, text_eq, contains,
}
use soc_dashboard.Db.{Alert, AnalystAction, Db}
use soc_dashboard.Db.Statements.{has_alert, severities}
use soc_dashboard.Seed.Alerts.{minute}
use soc_dashboard.Seed.Ranges.{ages, responses}
use soc_dashboard.System.Sound.{fresh_id, has_alert-append}
use soc_dashboard.System.Statements.{Sound, inserted-Sound}
use soc_dashboard.System.History.{actions_of, Closes, actions_of-append, no_actions}

-- The age that an open alert is given.
pub record IsAged (now : ℕ) (severity : String) (created_at : ℕ) : Type 0 where
  pub age : ℕ
  pub created : created_at ≡ now - age * minute
  pub least : (ages severity).0 ≤ age
  pub most : age ≤ (ages severity).1

-- The action that comes with a closed alert.
pub record IsAnswered (rows : List AnalystAction) (a : Alert) : Type 0 where
  pub row : AnalystAction
  pub only : actions_of a.id rows ≡ row ∷ []
  pub closes : Closes row a
  pub seconds : ℕ
  pub response : row.response_time_seconds ≡ some seconds
  pub most : seconds ≤ (responses a.severity).1

-- A stored alert: open, without actions and of a drawn age, or closed and answered.
abbrev pub Stored : ℕ → List AnalystAction → Alert → Type 0
Stored now rows a =
    (((a.status == "open") ≡ true)
      × (actions_of a.id rows ≡ [])
      × IsAged now a.severity a.created_at)
    ⊎ (((a.status == "open") ≡ false) × IsAnswered rows a)

-- The database while the loop runs.
pub record IsLoading (now : ℕ) (d : Db) : Type 0 where
  pub sound : Sound d
  pub stored : All (Stored now d.tables.analyst_actions) d.tables.alerts
  pub allowed : All (λ a. contains severities a.severity ≡ true) d.tables.alerts

-- An action on another alert changes nothing for this one.
Stored-other :
    (now : ℕ) (rows : List AnalystAction) (r : AnalystAction) (a : Alert)
    → (r.alert_id == a.id) ≡ false
    → Stored now rows a
    → Stored now (rows ++ r ∷ []) a
Stored-other now rows r a miss h =
    let same : actions_of a.id (rows ++ r ∷ []) ≡ actions_of a.id rows =
      rw (actions_of-append a.id rows r, miss) (append-nil _) in
    elim h [
      | inl (o, e, aged) ↦ inl (o, same ∙ e, aged)
      | inr (c, x) ↦ inr (
        c,
        record {
          row = x.row;
          only = same ∙ x.only;
          closes = x.closes;
          seconds = x.seconds;
          response = x.response;
          most = x.most;
        },
      )
    ]

abbrev pub with_alert : Alert → Db → Db
with_alert row d = record {
  tables = record d.tables { alerts = d.tables.alerts ++ row ∷ [] };
  sequences = record d.sequences { alerts_id = d.sequences.alerts_id + 1 };
}

abbrev pub with_action : AnalystAction → Db → Db
with_action r d = record {
  tables = record d.tables { analyst_actions = d.tables.analyst_actions ++ r ∷ [] };
  sequences = record d.sequences { analyst_actions_id = d.sequences.analyst_actions_id + 1 };
}

-- Those of smaller ids.
still :
    (now : ℕ) (rows : List AnalystAction) (r : AnalystAction) (key : ℕ) (alerts : List Alert)
    → r.alert_id ≡ key
    → All (λ a. a.id < key) alerts
    → All (Stored now rows) alerts
    → All (Stored now (rows ++ r ∷ [])) alerts
still now rows r key [] e below h = tt
still now rows r key (a ∷ alerts) e below h = (
  Stored-other now rows r a (ground (arith, e, below.0)) h.0,
  still now rows r key alerts e below.1 h.1,
)

module _ (now : ℕ) (d : Db) (h : IsLoading now d) (row : Alert)
    (own : row.id ≡ d.sequences.alerts_id) where
  none_yet : actions_of row.id d.tables.analyst_actions ≡ []
  none_yet =
      no_actions row.id d.tables.alerts d.tables.analyst_actions
        (ap (λ n. has_alert n d.tables.alerts) own
          ∙ fresh_id d.sequences.alerts_id d.tables.alerts h.sound.below)
        h.sound.of_alerts.0

  pub IsLoading-open :
      (row.status == "open") ≡ true
      → contains severities row.severity ≡ true
      → IsAged now row.severity row.created_at
      → IsLoading now (with_alert row d)
  IsLoading-open was ok aged = record {
    sound = inserted-Sound d h.sound row own;
    stored =
        All-append (Stored now d.tables.analyst_actions) d.tables.alerts (row ∷ []) h.stored
          (inl (was, none_yet, aged), tt);
    allowed = All-append _ d.tables.alerts (row ∷ []) h.allowed (ok, tt);
  }

  pub has_new : has_alert row.id (d.tables.alerts ++ row ∷ []) ≡ true
  unfolding has_alert
  has_new = ground (arith, has_alert-append row.id d.tables.alerts (row ∷ []))

  pub IsLoading-closed :
      (r : AnalystAction) (seconds : ℕ)
      → (row.status == "open") ≡ false
      → contains severities row.severity ≡ true
      → r.alert_id ≡ row.id
      → Closes r row
      → r.response_time_seconds ≡ some seconds
      → seconds ≤ (responses row.severity).1
      → IsLoading now (with_action r (with_alert row d))
  IsLoading-closed r seconds was ok of closes response most =
      let s1 = inserted-Sound d h.sound row own in
      let hit : (r.alert_id == row.id) ≡ true = ground (arith, of) in
      let key : r.alert_id ≡ d.sequences.alerts_id = of ∙ own in
      record {
        sound = record {
          below = s1.below;
          distinct = s1.distinct;
          of_alerts = (
            All-append _ d.tables.analyst_actions (r ∷ []) s1.of_alerts.0
                (ap (λ n. has_alert n (d.tables.alerts ++ row ∷ [])) of ∙ has_new, tt),
            s1.of_alerts.1,
            s1.of_alerts.2,
          );
          of_users = s1.of_users;
        };
        stored =
            All-append (Stored now (d.tables.analyst_actions ++ r ∷ [])) d.tables.alerts (row ∷ [])
              (still now d.tables.analyst_actions r d.sequences.alerts_id d.tables.alerts key
                h.sound.below h.stored)
              (
                inr (
                  was,
                  record {
                    row = r;
                    only =
                        rw (actions_of-append row.id d.tables.analyst_actions r, hit, none_yet)
                          refl;
                    closes = closes;
                    seconds = seconds;
                    response = response;
                    most = most;
                  },
                ),
                tt,
              );
        allowed = All-append _ d.tables.alerts (row ∷ []) h.allowed (ok, tt);
      }
