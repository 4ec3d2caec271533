-- ===== src/Changes/Closing.antt =====
-- The second half of a classify call, on a database where it can be carried out.
use soc_dashboard.Common.{
  ℕ, ◌+◌, ◌<◌, ◌≡◌, refl, ◌∙◌, ◌^◌, true, none, some, List, [], ◌∷◌, ◌++◌, arith, nat_eq, text_eq,
  ltb, lt→ltb, contains,
}
use soc_dashboard.Values.{ok}
use soc_dashboard.Db.{Alert, AnalystAction, AuditEntry, Db}
use soc_dashboard.Db.Session.{Session}
use soc_dashboard.Db.Settles.{Settles, Settles-pure, Settles-execute_then, Settles-lift_then}
use soc_dashboard.Db.Statements.{
  find_alert, has_alert, has_user, update_rows, close_row, statuses, update_alert, insert_action,
  insert_audit, response_seconds,
}
use soc_dashboard.World.{Env, bind_text}
use soc_dashboard.Changes.{close_tx}
use soc_dashboard.Changes.Effects.{find_alert-update_rows, action_row, audit_row}
use soc_dashboard.System.Sound.{has_alert-update_rows}
use soc_dashboard.Changes.Race.{Call}

found_has :
    (key : ℕ) (rows : List Alert) (a : Alert)
    → find_alert key rows ≡ some a
    → has_alert key rows ≡ true
unfolding find_alert has_alert
found_has key [] a h = absurd (cc)
found_has key (r ∷ rows) a h = ground (arith, found_has key rows a)

-- The second half of a call can be carried out on this database.
pub record IsReady (env : Env) (alert_id : ℕ) (c : Call) (created now : ℕ) (row : Alert) (d : Db)
    : Type 0 where
  pub found : find_alert alert_id d.tables.alerts ≡ some row
  pub sendable : env.accepts c.analyst ≡ true
  pub status_in : contains statuses c.verdict.status ≡ true
  pub in_range : response_seconds now created < 2 ^ 31
  pub known : has_user c.user.id d.tables.users ≡ true

-- What it then leaves.
pub record HasClosed (alert_id : ℕ) (c : Call) (a : Alert) (now : ℕ) (d d' : Db) : Type 0 where
  pub alerts :
      d'.tables.alerts ≡ update_rows alert_id (close_row c.verdict.status c.analyst) d.tables.alerts
  pub analyst_actions :
      d'.tables.analyst_actions
      ≡ d.tables.analyst_actions
        ++ action_row d.sequences.analyst_actions_id alert_id c.analyst c.verdict a now ∷ []
  pub users : d'.tables.users ≡ d.tables.users

module _ (env : Env) (alert_id : ℕ) (c : Call) (a row : Alert) (s : Session)
    (h : IsReady env alert_id c a.created_at s.now row s.db) where
  abbrev change : Alert → Alert
  change = close_row c.verdict.status c.analyst

  abbrev d1 : Db
  d1 = record s.db {
    tables = record s.db.tables { alerts = update_rows alert_id change s.db.tables.alerts };
  }

  abbrev acted : AnalystAction
  acted = action_row s.db.sequences.analyst_actions_id alert_id c.analyst c.verdict a s.now

  abbrev d2 : Db
  d2 = record {
    tables = record d1.tables { analyst_actions = s.db.tables.analyst_actions ++ acted ∷ [] };
    sequences = record s.db.sequences {
      analyst_actions_id = s.db.sequences.analyst_actions_id + 1;
    };
  }

  updated_ok :
      update_alert c.verdict.status c.analyst alert_id s.now s.db ≡ (ok (some (change row)), d1)
  unfolding update_alert
  updated_ok =
      rw
        (
          h.status_in,
          find_alert-update_rows alert_id c.verdict.status c.analyst s.db.tables.alerts row h.found,
        )
        refl

  still_has : has_alert alert_id (update_rows alert_id change s.db.tables.alerts) ≡ true
  still_has =
      has_alert-update_rows alert_id alert_id change s.db.tables.alerts (λ b. refl)
      ∙ found_has alert_id s.db.tables.alerts row h.found

  acted_ok : insert_action alert_id c.analyst c.verdict.action a.created_at s.now d1 ≡ (ok tt, d2)
  unfolding insert_action
  acted_ok =
      let small : ltb (response_seconds s.now a.created_at) (2 ^ 31) ≡ true =
        lt→ltb _ _ h.in_range in
      rw (still_has, small) refl

  abbrev logged : AuditEntry
  logged =
      audit_row d2.sequences.audit_log_id alert_id c.user c.verdict.action a.status c.verdict.status
        none s.now

  abbrev d3 : Db
  d3 = record {
    tables = record d2.tables { audit_log = s.db.tables.audit_log ++ logged ∷ [] };
    sequences = record d2.sequences { audit_log_id = d2.sequences.audit_log_id + 1 };
  }

  logged_ok :
      insert_audit alert_id c.user.id c.user.username c.verdict.action a.status c.verdict.status
        none s.now d2
      ≡ (ok logged, d3)
  unfolding insert_audit
  logged_ok = rw (still_has, h.known) refl

  pub Settles-close_tx :
      Settles
        (close_tx env c.user alert_id c.analyst c.verdict a)
        s
        (λ shown s'. HasClosed alert_id c a s.now s.db s'.db × (s'.now ≡ s.now))
  unfolding close_tx bind_text
  Settles-close_tx = Settles-lift_then _ _ s _ c.analyst (rw h.sendable refl) (
      Settles-execute_then _ _ s _ (some (change row)) d1 updated_ok (
        Settles-lift_then _ _ _ _ (change row) refl (
          Settles-execute_then _ _ _ _ tt d2 acted_ok (
            Settles-execute_then _ _ _ _ logged d3 logged_ok (
              Settles-pure _ _ _
                (record { alerts = refl; analyst_actions = refl; users = refl }, refl))))))
