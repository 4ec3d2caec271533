-- ===== src/Triage/Once.antt =====
-- A closed alert stays closed.
use soc_dashboard.Common.{ℕ, ◌≡◌, ◌≢◌, Option, some, inl, inr, sym, ◌∙◌, ap}
use mathlib.Core.Option.{some-injective}
use soc_dashboard.Values.{Json}
use soc_dashboard.Db.{Alert, Db}
use soc_dashboard.Db.Statements.{find_alert, close_row}
use soc_dashboard.World.{Env, World, success, respond}
use soc_dashboard.World.Failure.{IsFailure}
use soc_dashboard.Access.{User}
use soc_dashboard.Changes.Effects.{find_alert-update_rows}
use soc_dashboard.Triage.{api_classify}
use soc_dashboard.Triage.Effect.{Classified, verdict-IsClosing, api_classify-effect}

-- The alert is there, and an analyst has closed it.
abbrev pub IsClosed : ℕ → Db → Type 0
IsClosed alert_id d =
    (a : Alert) × (find_alert alert_id d.tables.alerts ≡ some a) × (a.status ≢ "open")

pub Classified-IsClosed :
    {env : Env} {user : User} {alert_id : ℕ} {json : Option Json} {w w' : World}
    → Classified env user alert_id json w w'
    → IsClosed alert_id w'.session.db
Classified-IsClosed {w = w} {w' = w'} c = (
  close_row c.verdict_of.status c.analyst c.alert,
  ap (find_alert _) c.triaged.alerts
      ∙ find_alert-update_rows _ c.verdict_of.status c.analyst w.session.db.tables.alerts c.alert
          c.triaged.found,
  (verdict-IsClosing _ c.verdict_of c.chosen).0,
)

-- On a closed alert every call of the endpoint fails and changes no table.
pub api_classify_of_IsClosed :
    (env : Env) (user : User) (alert_id : ℕ) (json : Option Json) (w : World)
    → IsClosed alert_id w.session.db
    → let (reply, w') = respond (api_classify env (some user) alert_id json) w in
      (w'.session.db.tables ≡ w.session.db.tables) × IsFailure reply
api_classify_of_IsClosed env user alert_id json w (a, found, closed) =
    elim (api_classify-effect env user alert_id json w) [
      | inl kept ↦ kept
      | inr (c, ends) ↦ absurd (
          closed (
            ap (λ (r : Alert). r.status) (some-injective a c.alert (sym found ∙ c.triaged.found))
            ∙ c.triaged.was_open))
    ]

-- After a call by a signed-in user that was answered 200, the next call on the same alert, by
-- whichever signed-in user and with whatever body, is answered by an error and changes no table.
pub api_classify_once :
    (env env' : Env) (user user' : User) (alert_id : ℕ) (json json' : Option Json) (shown : Alert)
    (w : World)
    → (respond (api_classify env (some user) alert_id json) w).0 ≡ success 200 shown
    → let w' = (respond (api_classify env (some user) alert_id json) w).1 in
      let (reply, w'') = respond (api_classify env' (some user') alert_id json') w' in
      (w''.session.db.tables ≡ w'.session.db.tables) × IsFailure reply
api_classify_once env env' user user' alert_id json json' shown w h =
    elim (api_classify-effect env user alert_id json w) [
      | inl (same, (code, message, failed)) ↦ absurd (cc)
      | inr (c, ends) ↦ api_classify_of_IsClosed env' user' alert_id json' _ (Classified-IsClosed c)
    ]
