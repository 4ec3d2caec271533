-- ===== src/Stats.antt =====
-- `api_stats` of app.py. What PostgreSQL's aggregates leave open is an argument, `Aggregates`.
pub mod Groups
pub mod Report
use soc_dashboard.Common.{
  ℕ, ◌+◌, ◌-◌, ◌*◌, ◌≤◌, String, Bool, true, false, not, ◌&&◌, Option, none, some, List, [], ◌∷◌,
  length, map, filter, leb, ltb, ◌==◌, nat_eq, text_eq, Dict, insert, if◌then◌else◌,
}
use soc_dashboard.Values.{Result, ok}
use soc_dashboard.Db.{Alert, AnalystAction, Tables, Db}
use soc_dashboard.Db.Session
use soc_dashboard.Db.Session.{Tx, execute}
use soc_dashboard.Sla.{SlaRow, SlaMetrics, Rate, rate_of, compute_sla}
use soc_dashboard.World.{App, pure, ◌>>=◌, in_db, Response, success, World}

-- A row of the per-analyst, per-day query, after `serialize`.
pub record DayAverage : Type 0 where
  pub analyst : String
  pub date : String
  pub avg_seconds : ℕ
  pub count : ℕ

pub record Aggregates : Type 0 where
  -- `SELECT x, count(*) … GROUP BY x`, from the column to the rows in whatever order
  pub group_by : List (Option String) → List (Option String × ℕ)
  -- `SELECT DISTINCT … WHERE … IS NOT NULL ORDER BY …`
  pub distinct : List (Option String) → List String
  -- the averages by analyst and by the session time zone's date, in order
  pub day_averages : List AnalystAction → List DayAverage

-- SELECT count(*) FROM alerts WHERE …
unfoldable pub count_alerts : (Alert → Bool) → ℕ → Db → Result ℕ × Db
count_alerts p now d = (ok (length (filter p d.tables.alerts)), d)

abbrev pub is_open : Alert → Bool
is_open a = a.status == "open"

-- SELECT …, count(*) FROM alerts GROUP BY …
unfoldable pub group_alerts :
    Aggregates → (Alert → Option String) → ℕ → Db → Result (List (Option String × ℕ)) × Db
group_alerts agg column now d = (ok (agg.group_by (map column d.tables.alerts)), d)

-- SELECT count(*) FILTER (WHERE status = 'escalated'), count(*) FILTER (WHERE status <> 'open') …
unfoldable pub count_triaged : ℕ → Db → Result (ℕ × ℕ) × Db
count_triaged now d = (
  ok (
    length (filter (λ a. a.status == "escalated") d.tables.alerts),
    length (filter (λ a. not (is_open a)) d.tables.alerts),
  ),
  d,
)

unfoldable pub select_assignees : Aggregates → ℕ → Db → Result (List String) × Db
select_assignees agg now d = (ok (agg.distinct (map (λ a. a.assigned_to) d.tables.alerts)), d)

abbrev has_response : Option ℕ → Bool
has_response none = false
has_response (some _) = true

-- `response_time_seconds IS NOT NULL AND acted_at >= now() - interval '7 days'`
unfoldable pub is_recent : ℕ → AnalystAction → Bool
is_recent now r =
    has_response r.response_time_seconds && leb (now - 7 * 24 * 60 * 60 * 1_000_000) r.acted_at

unfoldable pub select_day_averages : Aggregates → ℕ → Db → Result (List DayAverage) × Db
select_day_averages agg now d =
    (ok (agg.day_averages (filter (is_recent now) d.tables.analyst_actions)), d)

-- min(…), which skips NULL
abbrev pub least : Option ℕ → Option ℕ → Option ℕ
least none n = n
least (some m) none = some m
least (some m) (some n) = if leb m n then some m else some n

-- min(response_time_seconds) of an alert's actions; NULL where there is none
unfoldable pub min_response : ℕ → List AnalystAction → Option ℕ
min_response key [] = none
min_response key (r ∷ rows) =
    let rest = min_response key rows in
    if r.alert_id == key then least r.response_time_seconds rest else rest

abbrev pub sla_row : List AnalystAction → Alert → SlaRow
sla_row actions a = record {
  severity = a.severity;
  resp = min_response a.id actions;
  created_at = a.created_at;
}

abbrev pub sla_rows : Tables → List SlaRow
sla_rows t = map (sla_row t.analyst_actions) t.alerts

-- SELECT … FROM alerts a LEFT JOIN (…) m ON m.alert_id = a.id
unfoldable pub select_sla_rows : ℕ → Db → Result (List SlaRow) × Db
select_sla_rows now d = (ok (sla_rows d.tables), d)

-- `coalesce(x, 'unknown')`
abbrev pub coalesce : Option String → String
coalesce none = "unknown"
coalesce (some s) = s

-- `{r[…]: r["c"] for r in rows}`: a later row replaces an earlier one of the same key.
unfoldable pub fill_dict : Dict ℕ → List (Option String × ℕ) → Dict ℕ
fill_dict d [] = d
fill_dict d ((k, n) ∷ rows) = fill_dict (insert (coalesce k) n d) rows

abbrev pub dict_of : List (Option String × ℕ) → Dict ℕ
dict_of rows = fill_dict [] rows

pub record Escalation : Type 0 where
  pub escalated : ℕ
  pub triaged : ℕ
  -- in tenths of a percent
  pub rate : ℕ

pub record Counts : Type 0 where
  pub total : ℕ
  pub open_count : ℕ
  pub closed : ℕ
  pub by_category : Dict ℕ
  pub by_severity : Dict ℕ
  pub by_source : Dict ℕ
  pub escalation : Escalation
  pub assignees : List String
  pub mttr_by_analyst : List DayAverage
  pub rows : List SlaRow

-- The `with` block: the queries, one after the other.
unfoldable pub stats_tx : Rate → Aggregates → Tx Counts
stats_tx rate agg = Session.◌>>=◌ (execute (count_alerts (λ a. true))) λ total.
    Session.◌>>=◌ (execute (count_alerts is_open)) λ open_count.
      Session.◌>>=◌ (execute (group_alerts agg (λ a. some a.category))) λ categories.
        Session.◌>>=◌ (execute (group_alerts agg (λ a. some a.severity))) λ severities.
          Session.◌>>=◌ (execute (group_alerts agg (λ a. a.source))) λ sources.
            Session.◌>>=◌ (execute count_triaged) λ counts.
              Session.◌>>=◌ (execute (select_assignees agg)) λ assignees.
                Session.◌>>=◌ (execute (select_day_averages agg)) λ averages.
                  Session.◌>>=◌ (execute select_sla_rows) λ rows. Session.pure (record {
                    total = total;
                    open_count = open_count;
                    closed = total - open_count;
                    by_category = dict_of categories;
                    by_severity = dict_of severities;
                    by_source = dict_of sources;
                    escalation = record {
                      escalated = counts.0;
                      triaged = counts.1;
                      rate = rate_of rate counts.0 counts.1;
                    };
                    assignees = assignees;
                    mttr_by_analyst = averages;
                    rows = rows;
                  })

pub record Stats : Type 0 where
  pub counts : Counts
  pub sla : SlaMetrics

-- What follows the `with` block, at a time.
abbrev pub report : Rate → ℕ → Counts → App (Response Stats)
report rate now counts =
    pure (success 200 (record { counts = counts; sla = compute_sla rate now counts.rows }))

-- `api_stats`; `login_required` stands around it. No time passes within a call.
unfoldable pub api_stats : Rate → Aggregates → App (Response Stats)
api_stats rate agg w = (in_db (stats_tx rate agg) >>= report rate w.session.now) w
