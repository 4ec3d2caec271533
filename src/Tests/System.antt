-- ===== src/Tests/System.antt =====
-- Witnesses for the theorems over sequences of calls.
use soc_dashboard.Common.{refl, some, arith, inl, pos}
use soc_dashboard.World.{World, respond}
use soc_dashboard.Db.Statements.{has_alert}
use soc_dashboard.Triage.{api_classify}
use soc_dashboard.Retention.{purge_old_alerts}
use soc_dashboard.System.{Reach, here, next, classify, purge}
use soc_dashboard.System.Sound.{IsSound}
use soc_dashboard.System.History.{IsRecorded, actions_of}
use soc_dashboard.System.Runs.{Reach-IsSound}
use soc_dashboard.System.Accord.{Reach-IsRecorded}
use soc_dashboard.Tests.Fixtures.{env, analyst, classify_json, world}

-- The first alert is classified, then the old ones are purged.
abbrev triaged : World
triaged = (respond (api_classify env (some analyst) 1 classify_json) world).1

abbrev emptied : World
emptied = record triaged { session = (purge_old_alerts (pos 30) triaged.session).1 }

calls : Reach env world emptied
calls = next (next here (classify (some analyst) 1 classify_json)) (purge (pos 30))

world-IsSound : IsSound world.session.db.tables world.session.db.sequences
unfolding has_alert
world-IsSound = record {
  below = (ground arith, (ground arith, tt));
  distinct = (refl, (refl, tt));
  of_alerts = (tt, tt, tt);
  of_users = tt;
}

world-IsRecorded : IsRecorded world.session.db.tables
unfolding actions_of
world-IsRecorded = record { every = (inl (refl, refl), (inl (refl, refl), tt)) }

Reach-IsSound_example : IsSound emptied.session.db.tables emptied.session.db.sequences
Reach-IsSound_example = Reach-IsSound calls world-IsSound

Reach-IsRecorded_example : IsRecorded emptied.session.db.tables
Reach-IsRecorded_example = Reach-IsRecorded calls world-IsSound world-IsRecorded
