-- ===== src/System/Records.antt =====
-- Every step keeps the actions in accord with the alerts' states.
use soc_dashboard.Common.{
  ℕ, ◌≡◌, ◌≢◌, refl, ap, ◌∙◌, String, false, inl, inr, some, arith, nat_eq, text_eq, filter, lookup,
  Option-cases, not,
}
use soc_dashboard.Values.{ok, Value, str}
use soc_dashboard.Db.{Alert, Tables, Db}
use soc_dashboard.Db.Statements.{has_alert}
use soc_dashboard.World.{World}
use soc_dashboard.Access.{User}
use soc_dashboard.Requests.{Verdict, verdict, action_to_status}
use soc_dashboard.Changes.Effects.{Triaged}
use soc_dashboard.Ingest.Stored.{Appended}
use soc_dashboard.Retention.{purged, is_old}
use soc_dashboard.System.Sound.{fresh_id, All-filter_imp}
use soc_dashboard.System.Statements.{Sound}
use soc_dashboard.System.History.{
  IsRecorded, no_actions, only_row, appended-IsRecorded, closed-IsRecorded, kept-IsRecorded,
  All-has_alert,
}

-- Only the alerts and the actions matter.
pub same-IsRecorded :
    (t t' : Tables)
    → t'.alerts ≡ t.alerts
    → t'.analyst_actions ≡ t.analyst_actions
    → IsRecorded t
    → IsRecorded t'
same-IsRecorded t t' a b r = record { every = rw (a, b) r.every }

pub Appended-IsRecorded :
    (d d' : Db) (row : Alert)
    → Sound d
    → IsRecorded d.tables
    → row.id ≡ d.sequences.alerts_id
    → row.status ≡ "open"
    → Appended row d d'
    → IsRecorded d'.tables
Appended-IsRecorded d d' row s r i o h =
    let fresh : has_alert row.id d.tables.alerts ≡ false =
      ap (λ n. has_alert n d.tables.alerts) i
      ∙ fresh_id d.sequences.alerts_id d.tables.alerts s.below in
    record {
      every =
          rw (h.alerts, h.analyst_actions)
            (appended-IsRecorded d.tables row r o
              (no_actions row.id d.tables.alerts d.tables.analyst_actions fresh s.of_alerts.0));
    }

pub Triaged-IsRecorded :
    (user : User) (alert_id now : ℕ) (analyst : String) (v : Verdict) (alert : Alert) (d d' : Db)
    → Sound d
    → IsRecorded d.tables
    → v.status ≢ "open"
    → lookup v.action action_to_status ≡ some v.status
    → Triaged user alert_id analyst v now alert d d'
    → IsRecorded d'.tables
Triaged-IsRecorded user alert_id now analyst v alert d d' s r ne l h = record {
  every =
      rw (h.alerts, h.analyst_actions)
        (closed-IsRecorded alert_id alert v.status analyst _ d.tables.analyst_actions
          d.tables.alerts (only_row alert_id alert d.tables.alerts s.distinct h.found) h.was_open ne
          refl refl l r.every);
}

-- The verdict's status is the one that its action leads to.
pub verdict_status :
    (action : Value) (v : Verdict)
    → verdict action ≡ ok v
    → lookup v.action action_to_status ≡ some v.status
unfolding verdict
verdict_status (str s) v h = elim (Option-cases (lookup s action_to_status)) [
  | inl missing ↦ absurd (ground arith)
  | inr (t, e) ↦ ground arith
]
verdict_status _ v h = absurd (ground arith)

pub purged-IsRecorded : (days now : ℕ) (t : Tables) → IsRecorded t → IsRecorded (purged days now t)
purged-IsRecorded days now t r =
    let left = filter (λ a. not (is_old days now a)) t.alerts in
    record {
      every =
          kept-IsRecorded left t.analyst_actions left (All-has_alert left)
            (All-filter_imp _ _ t.alerts r.every);
    }

-- What a piece of code keeps, from a sound database.
abbrev pub RecordKept : World → World → Type 0
RecordKept w w' =
    Sound w.session.db → IsRecorded w.session.db.tables → IsRecorded w'.session.db.tables
