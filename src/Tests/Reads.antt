-- ===== src/Tests/Reads.antt =====
-- Witnesses for the lists, the SLA metrics and the Navigator layer.
use soc_dashboard.Common.{
  ℕ, ◌+◌, ◌*◌, ◌<◌, ◌≤◌, ◌≡◌, ◌↔◌, refl, none, some, false, List, [], ◌∷◌, ◌==◌, ◌&&◌, nat_eq,
  text_eq, Dict, String, filter, length, map, All, arith, if◌then◌else◌,
}
use soc_dashboard.Values.{ok, err, http}
use soc_dashboard.Crypto.{decrypt_alert}
use soc_dashboard.Db.{Alert}
use soc_dashboard.Pagination.{parse_pagination, total_pages}
use soc_dashboard.Pagination.Bounds.{Asks, parse_pagination_iff, total_pages_lem}
use soc_dashboard.Filters.{
  Clause, equals, status, severity, source, assigned_to, alert_filters, arg_text, replace_z,
  satisfies_all, can_send_all,
}
use soc_dashboard.Filters.Meaning.{asks, asks_since, alert_filters_lem}
use soc_dashboard.Listing.Order.{severity_case, IsSorted, sort_by_insertion-IsOrdering}
use soc_dashboard.Listing.Page.{quiet, wanted, listed}
use soc_dashboard.Listing.Pages.{collect, all_pages_lem}
use soc_dashboard.Listing.Ties.{IsUntied}
use soc_dashboard.Sla.{SlaRow, compute_sla}
use soc_dashboard.Sla.Metrics.{has_target, is_late, count_of, compute_sla_lem}
use soc_dashboard.Navigator.{Group, navigator_layer}
use soc_dashboard.Navigator.Score.{total_count, score_in, greatest, IsBacked, navigator_layer_lem}
use soc_dashboard.Tests.Fixtures.{env, world}

abbrev args : Dict String
args = ("page", "2") ∷ ("severity", "HIGH") ∷ []

parse_pagination_iff_example : (parse_pagination env args ≡ ok (2, 100)) ↔ (
    Asks env "page" 1 args 2 × Asks env "per_page" 100 args 100 × (1 ≤ 2) × (1 ≤ 100) × (100 ≤ 500))
parse_pagination_iff_example = parse_pagination_iff env args 2 100

total_pages_lem_example : (7 ≤ total_pages 7 3 * 3) × (total_pages 7 3 * 3 < 7 + 3)
total_pages_lem_example = total_pages_lem 7 3 (omega arith)

abbrev open_only : List Clause
open_only = equals status "open" ∷ []

alert_filters_lem_example :
    ((cs : List Clause) (a : Alert)
      → alert_filters env open_only args ≡ ok cs
      → satisfies_all env cs a ≡ (
          satisfies_all env open_only a
          && asks "severity" severity args a
          && asks "source" source args a
          && asks "assigned_to" assigned_to args a
          && asks_since env args a))
    × ((arg_text "created_after" args == "") ≡ false
        → env.is_iso (replace_z (arg_text "created_after" args)) ≡ false
        → alert_filters env open_only args
          ≡ err (http 400 "created_after must be an ISO 8601 datetime"))
alert_filters_lem_example = alert_filters_lem env open_only args

world-IsUntied : IsUntied (wanted env open_only world)
unfolding satisfies_all severity_case
world-IsUntied a = ground arith

all_pages_lem_example :
    (collect env open_only 1
        (total_pages
          (length (filter (satisfies_all env open_only) world.session.db.tables.alerts))
          1)
        0
        (quiet world)
      ≡ (ok (map (decrypt_alert none) (listed env open_only world)), quiet world))
    × IsSorted (map (decrypt_alert none) (listed env open_only world))
unfolding can_send_all satisfies_all
all_pages_lem_example =
    all_pages_lem env open_only 1 world (λ limit offset. sort_by_insertion-IsOrdering)
      world-IsUntied refl (omega arith) (omega arith)

abbrev rows : List SlaRow
rows =
    (record { severity = "HIGH"; resp = some 4000; created_at = 0 })
    ∷ (record { severity = "LOW"; resp = none; created_at = 0 })
    ∷ []

abbrev tenths : ℕ → ℕ → ℕ
tenths part whole = 500

compute_sla_lem_example :
    ((compute_sla tenths 9 rows).considered ≡ length (filter has_target rows))
    × ((compute_sla tenths 9 rows).breaches ≡ length (filter (is_late 9) rows))
    × (count_of "HIGH" (compute_sla tenths 9 rows).by_severity
        ≡ length (filter (λ r. is_late 9 r && r.severity == "HIGH") rows))
    × ((compute_sla tenths 9 rows).breach_rate ≡ (
        if length (filter has_target rows) == 0
        then 0
        else tenths (length (filter (is_late 9) rows)) (length (filter has_target rows))))
compute_sla_lem_example = compute_sla_lem tenths 9 rows "HIGH"

abbrev groups : List Group
groups =
    (record { category = "malware"; severity = "LOW"; c = 4 })
    ∷ (record { category = "malware"; severity = "HIGH"; c = 1 })
    ∷ (record { category = "other"; severity = "HIGH"; c = 2 })
    ∷ []

navigator_layer_lem_example :
    ((navigator_layer groups).total ≡ total_count groups)
    × (score_in "T1059" (navigator_layer groups).techniques ≡ greatest "T1059" groups)
    × All IsBacked (navigator_layer groups).techniques
navigator_layer_lem_example = navigator_layer_lem groups "T1059"
