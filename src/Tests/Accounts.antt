-- ===== src/Tests/Accounts.antt =====
-- Witnesses for the user-management command and the retention purge.
use soc_dashboard.Common.{String, refl, pos}
use soc_dashboard.Values.{Result, ok}
use soc_dashboard.Db.Session.{Session}
use soc_dashboard.Manage.{Docker}
use soc_dashboard.Retention.{purge_old_alerts}
use soc_dashboard.Retention.Integrity.{IsIntact, PurgeEnds, purge_old_alerts_lem}
use soc_dashboard.Tests.Fixtures.{world, db}

-- No container runs, and every hash is the same text.
abbrev docker : Docker
docker = record { probe = ok (1, ""); exec = λ u p r. ok 0 }

abbrev hashpw : String → Result String
hashpw password = ok "hashed"

-- Thirty days after the first alert, and before that time of the second.
abbrev month_later : Session
month_later = record world.session { now = 2_592_000_000_015 }

purge_old_alerts_lem_example :
    let (r, s') = purge_old_alerts (pos 30) month_later in
    IsIntact s'.db.tables × PurgeEnds 30 month_later (r, s')
purge_old_alerts_lem_example = purge_old_alerts_lem 30 month_later refl (tt, tt, tt)
