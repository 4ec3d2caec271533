-- ===== src/Stats/Report.antt =====
-- The answer of `api_stats` against the tables.
use soc_dashboard.Common.{
  ℕ, suc, ◌-◌, ◌≡◌, ◌≢◌, refl, sym, ap, ◌∙◌, String, Bool, true, false, not, ◌⊎◌, inl, inr, some,
  List, [], ◌∷◌, map, length, filter, arith, ◌==◌, nat_eq, text_eq, Bool-cases,
}
use soc_dashboard.Values.{Exn, Result, ok, err}
use soc_dashboard.Db.{Alert, Tables, Db}
use soc_dashboard.Db.Session.{Session, with_conn, spend}
use soc_dashboard.Db.Settles.{Settles, Settles-pure, Settles-execute_then, Settles-with_conn}
use soc_dashboard.Retention.Integrity.{length-filter-not}
use soc_dashboard.Sla.{Rate, rate_of, compute_sla}
use soc_dashboard.Sla.Metrics.{count_of}
use soc_dashboard.World.Frame.{bind-cong}
use soc_dashboard.World.{World, pure, raise, success, respond, in_db, to_response}
use soc_dashboard.World.Reads.{ReadsOnly, read_rules, with_conn-same}
use soc_dashboard.World.Failure.{IsFailure, error_response-IsFailure}
use soc_dashboard.Stats.{
  Aggregates, Counts, is_open, is_recent, sla_rows, stats_tx, report, api_stats, count_alerts,
  group_alerts, count_triaged, select_assignees, select_day_averages, select_sla_rows, dict_of,
}
use soc_dashboard.Stats.Groups.{IsGrouping, is_null, is_text, count_of-dict_of}

-- The counts, of the tables.
pub record IsCount (rate : Rate) (agg : Aggregates) (now : ℕ) (t : Tables) (c : Counts)
    : Type 0 where
  pub total : c.total ≡ length t.alerts
  pub open_count : c.open_count ≡ length (filter is_open t.alerts)
  pub closed : c.closed ≡ length (filter (λ a. not (is_open a)) t.alerts)
  pub by_category :
      (s : String) → count_of s c.by_category ≡ length (filter (λ a. a.category == s) t.alerts)
  pub by_severity :
      (s : String) → count_of s c.by_severity ≡ length (filter (λ a. a.severity == s) t.alerts)
  pub by_source :
      (s : String)
      → s ≢ "unknown"
      → count_of s c.by_source ≡ length (filter (λ a. is_text s a.source) t.alerts)
  pub escalated : c.escalation.escalated ≡ length (filter (λ a. a.status == "escalated") t.alerts)
  pub triaged : c.escalation.triaged ≡ c.closed
  pub share : c.escalation.rate ≡ rate_of rate c.escalation.escalated c.escalation.triaged
  pub averages : c.mttr_by_analyst ≡ agg.day_averages (filter (is_recent now) t.analyst_actions)
  pub rows : c.rows ≡ sla_rows t

pub filter-map :
    {A B : Type 0} (p : B → Bool) (f : A → B) (xs : List A)
    → length (filter p (map f xs)) ≡ length (filter (λ x. p (f x)) xs)
filter-map p f [] = refl
filter-map p f (x ∷ xs) = elim (Bool-cases (p (f x))) [
  | inl e ↦ rw e (ap suc (filter-map p f xs))
  | inr e ↦ rw e (filter-map p f xs)
]

filter_none : {A : Type 0} (xs : List A) → length (filter (λ x. false) xs) ≡ 0
filter_none [] = refl
filter_none (x ∷ xs) = filter_none xs

filter_all : {A : Type 0} (xs : List A) → filter (λ x. true) xs ≡ xs
filter_all [] = refl
filter_all (x ∷ xs) = ap (λ l. x ∷ l) (filter_all xs)

filter-not :
    {A : Type 0} (p : A → Bool) (xs : List A)
    → length xs - length (filter p xs) ≡ length (filter (λ x. not (p x)) xs)
filter-not p xs = omega (arith, length-filter-not p xs)

stats_tx-ReadsOnly : (rate : Rate) (agg : Aggregates) → ReadsOnly (stats_tx rate agg)
unfolding stats_tx count_alerts group_alerts count_triaged select_assignees select_day_averages
    select_sla_rows
stats_tx-ReadsOnly rate agg = search (read_rules, λ (now : ℕ) (d : Db). refl {a = d}) depth 24

module _ (rate : Rate) (agg : Aggregates) (h : IsGrouping agg.group_by) where
  by_text :
      (column : Alert → String) (s : String) (alerts : List Alert)
      → count_of s (dict_of (agg.group_by (map (λ a. some (column a)) alerts)))
        ≡ length (filter (λ a. column a == s) alerts)
  by_text column s alerts =
      let keys = map (λ a. some (column a)) alerts in
      count_of-dict_of agg.group_by h s keys
        (inr (filter-map is_null (λ a. some (column a)) alerts ∙ filter_none alerts))
      ∙ filter-map (is_text s) (λ a. some (column a)) alerts

  Settles-stats_tx :
      (s : Session)
      → Settles
          (stats_tx rate agg)
          s
          (λ c s'. (s'.db ≡ s.db) × IsCount rate agg s.now s.db.tables c)
  unfolding stats_tx count_alerts group_alerts count_triaged select_assignees select_day_averages
      select_sla_rows
  Settles-stats_tx s =
      let d = s.db in
      Settles-execute_then _ _ s _ _ d refl (
        Settles-execute_then _ _ _ _ _ d refl (
          Settles-execute_then _ _ _ _ _ d refl (
            Settles-execute_then _ _ _ _ _ d refl (
              Settles-execute_then _ _ _ _ _ d refl (
                Settles-execute_then _ _ _ _ _ d refl (
                  Settles-execute_then _ _ _ _ _ d refl (
                    Settles-execute_then _ _ _ _ _ d refl (
                      Settles-execute_then _ _ _ _ _ d refl (
                        Settles-pure _ _ _ (
                          refl,
                          record {
                            total = ap length (filter_all d.tables.alerts);
                            open_count = refl;
                            closed =
                                ap
                                  (λ (l : List Alert).
                                    length l - length (filter is_open d.tables.alerts))
                                  (filter_all d.tables.alerts)
                                ∙ filter-not is_open d.tables.alerts;
                            by_category = λ k. by_text (λ a. a.category) k d.tables.alerts;
                            by_severity = λ k. by_text (λ a. a.severity) k d.tables.alerts;
                            by_source = λ k ne.
                                count_of-dict_of agg.group_by h k _ (inl ne)
                                ∙ filter-map (is_text k) (λ a. a.source) d.tables.alerts;
                            escalated = refl;
                            triaged = sym (
                                ap
                                  (λ (l : List Alert).
                                    length l - length (filter is_open d.tables.alerts))
                                  (filter_all d.tables.alerts)
                                ∙ filter-not is_open d.tables.alerts);
                            share = refl;
                            averages = refl;
                            rows = refl;
                          },
                        ))))))))))

  answer-ok :
      (w : World) (c : Counts) (s : Session)
      → with_conn (stats_tx rate agg) w.session ≡ (ok c, s)
      → api_stats rate agg w ≡ (
        ok (success 200 (record { counts = c; sla = compute_sla rate w.session.now c.rows })),
        record w { session = s },
      )
  unfolding api_stats in_db
  answer-ok w c s e =
      bind-cong (in_db (stats_tx rate agg)) (pure c) (report rate w.session.now) w
        (record w { session = s }) (ap (λ o. (o.0, record w { session = o.1 })) e)

  answer-err :
      (w : World) (e : Exn) (s : Session)
      → with_conn (stats_tx rate agg) w.session ≡ (err e, s)
      → api_stats rate agg w ≡ (err e, record w { session = s })
  unfolding api_stats in_db
  answer-err w x s e =
      bind-cong (in_db (stats_tx rate agg)) (raise x) (report rate w.session.now) w
        (record w { session = s }) (ap (λ o. (o.0, record w { session = o.1 })) e)

  -- Where the database groups as SQL says: a statistics call changes no table; it is answered by an
  -- error only if a call failed, and else by 200 with the counts of the alerts by status, category,
  -- severity and source (but for the source 'unknown'), and with the SLA metrics of all alerts.
  pub api_stats_lem :
      (w : World)
      → ((respond (api_stats rate agg) w).1.session.db ≡ w.session.db)
        × (((c : Counts) × ((respond (api_stats rate agg) w).0
                ≡ success 200 (record {
                  counts = c;
                  sla = compute_sla rate w.session.now (sla_rows w.session.db.tables);
                }))
              × IsCount rate agg w.session.now w.session.db.tables c)
            ⊎ (IsFailure (respond (api_stats rate agg) w).0 × (w.session.faults ≢ [])))
  unfolding to_response
  api_stats_lem w =
      elim (Settles-with_conn (stats_tx rate agg) w.session
        (λ c d. (d ≡ w.session.db) × IsCount rate agg w.session.now w.session.db.tables c)
        (Settles-stats_tx (spend w.session))).at [
          | inl (c, s', done, calm, (same, counted)) ↦ rw (answer-ok w c s' done) (
            same,
            inl (
              c,
              ap
                  (λ rows.
                    success 200 (record { counts = c; sla = compute_sla rate w.session.now rows }))
                  counted.rows,
              counted,
            ),
          )
          | inr (e, s', raised, faulty) ↦ (
            rw (answer-err w e s' raised) (
                sym (ap (λ (o : Result Counts × Session). o.1.db) raised)
                ∙ with_conn-same (stats_tx rate agg) w.session (stats_tx-ReadsOnly rate agg)),
            inr (rw (answer-err w e s' raised) (error_response-IsFailure e), faulty),
          )
        ]
