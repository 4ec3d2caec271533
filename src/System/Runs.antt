-- ===== src/System/Runs.antt =====
-- Soundness over any sequence of steps.
use soc_dashboard.Common.{
  ℕ, String, ℤ, pos, negsuc, ◌≡◌, Bool, true, false, Bool-cases, inl, inr, ◌==◌, nat_eq,
}
use soc_dashboard.Values.{Result, ok, err, Result-cases}
use soc_dashboard.Db.{Db}
use soc_dashboard.Db.Session.{Session, spend, fails}
use soc_dashboard.World.{World, Env}
use soc_dashboard.Manage.{Docker, local_tx, add_user, create_in_local, create_user}
use soc_dashboard.Retention.{purge_old_alerts, commit_deleted, leave_committed, delete_old}
use soc_dashboard.Listing.{api_open_alerts, api_all_alerts}
use soc_dashboard.System.{
  Step, ingest, consume, classify, add_note, open_alerts, all_alerts, create_account, purge,
  connect, disconnect, send, elapse, Reach, here, next,
}
use soc_dashboard.System.Sound.{IsSound}
use soc_dashboard.System.Statements.{Grows, Grows-refl}
use soc_dashboard.System.Writes.{select_user-Grows, insert_user-Grows, delete_old-Grows}
use soc_dashboard.System.Growth.{
  TxGrows, tx_rules, TxGrows-execute, with_conn-Grows, rollback-Grows, DbGrows,
}
use soc_dashboard.System.Handlers.{
  api_ingest_alert-DbGrows, handle-DbGrows, api_classify-DbGrows, api_add_note-DbGrows,
}
use soc_dashboard.Listing.Reading.{list_view-SameDb}

add_user-TxGrows :
    (username pw_hash role : String) (found : Bool) → TxGrows (add_user username pw_hash role found)
unfolding add_user
add_user-TxGrows username pw_hash role true = search tx_rules depth 4
add_user-TxGrows username pw_hash role false = search (tx_rules, insert_user-Grows) depth 8

local_tx-TxGrows : (username pw_hash role : String) → TxGrows (local_tx username pw_hash role)
unfolding local_tx
local_tx-TxGrows username pw_hash role =
    search (tx_rules, select_user-Grows, add_user-TxGrows) depth 8

create_user-Grows :
    (hashpw : String → Result String) (docker : Docker) (username password role : String)
    (s : Session)
    → Grows s.db (create_user hashpw docker username password role s).1.db
unfolding create_user create_in_local
create_user-Grows hashpw docker username password role s = elim (Result-cases (hashpw password)) [
  | inl (h, e) ↦
      rw (create_user, e)
        (with_conn-Grows (local_tx username h role) s (local_tx-TxGrows username h role))
  | inr (x, e) ↦ rw (create_user, e) (Grows-refl s.db)
]

commit-Grows :
    (s : Session) (r : Result ℕ) (s' : Session)
    → Grows s.db s'.db
    → Grows s.db (commit_deleted s (r, s')).1.db
unfolding commit_deleted leave_committed
commit-Grows s (err e) s' g = rollback-Grows s s' g
commit-Grows s (ok n) s' g = elim (Bool-cases (fails s'.faults)) [
  | inl lost ↦ rw lost (rollback-Grows s (spend s') g)
  | inr fine ↦ rw fine (elim (Bool-cases (fails (spend s').faults)) [
    | inl lost ↦ rw lost g
    | inr fine' ↦ rw fine' g
  ])
]

purge-Grows : (days : ℤ) (s : Session) → Grows s.db (purge_old_alerts days s).1.db
unfolding purge_old_alerts
purge-Grows (negsuc n) s = Grows-refl s.db
purge-Grows (pos days) s = elim (Bool-cases (days == 0)) [
  | inl e ↦ rw e (Grows-refl s.db)
  | inr e ↦ rw e (elim (Bool-cases (fails s.faults)) [
    | inl lost ↦ rw lost (Grows-refl s.db)
    | inr fine ↦ rw fine (
        commit-Grows s _ _
          ((TxGrows-execute (delete_old days) (delete_old-Grows days)).at (spend s)))
  ])
]

same-Grows : (d d' : Db) → d' ≡ d → Grows d d'
same-Grows d d' h = rw h (Grows-refl d)

pub Step-Grows : {env : Env} {w w' : World} → Step env w w' → DbGrows w w'
unfolding api_open_alerts api_all_alerts
Step-Grows {env = env} {w = w} (ingest provided json) =
    (api_ingest_alert-DbGrows env provided json).at w
Step-Grows {env = env} {w = w} (consume message) = (handle-DbGrows env message).at w
Step-Grows {env = env} {w = w} (classify who alert_id json) =
    (api_classify-DbGrows env who alert_id json).at w
Step-Grows {env = env} {w = w} (add_note who alert_id json) =
    (api_add_note-DbGrows env who alert_id json).at w
Step-Grows {env = env} {w = w} (open_alerts args) =
    same-Grows w.session.db _ ((list_view-SameDb env _ args).at w)
Step-Grows {env = env} {w = w} (all_alerts args) =
    same-Grows w.session.db _ ((list_view-SameDb env _ args).at w)
Step-Grows {w = w} (create_account hashpw docker username password role) =
    create_user-Grows hashpw docker username password role w.session
Step-Grows {w = w} (purge days) = purge-Grows days w.session
Step-Grows {w = w} connect = Grows-refl w.session.db
Step-Grows {w = w} (disconnect q) = Grows-refl w.session.db
Step-Grows {w = w} (send q) = Grows-refl w.session.db
Step-Grows {w = w} (elapse faults now le) = Grows-refl w.session.db

-- From a sound database, whatever calls are made in whatever order, and whichever outside calls
-- fail on the way: alert ids stay distinct and below the next one to be given out; every action,
-- audit entry and embedding is of a stored alert, and every audit entry of a stored account.
pub Reach-IsSound :
    {env : Env} {start w : World}
    → Reach env start w
    → IsSound start.session.db.tables start.session.db.sequences
    → IsSound w.session.db.tables w.session.db.sequences
Reach-IsSound here s = s
Reach-IsSound (next r step) s = (Step-Grows step).kept (Reach-IsSound r s)
