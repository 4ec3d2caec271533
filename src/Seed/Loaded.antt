-- ===== src/Seed/Loaded.antt =====
-- The loop of `main` of seed.py: each round stores one alert, with its action where it is closed.
use soc_dashboard.Common.{
  ℕ, ◌^◌, ◌<◌, ◌≡◌, refl, ap, ◌∙◌, String, true, false, not, Option, some, none, List, [], ◌∷◌,
  ◌++◌, map, arith, ◌==◌, nat_eq, text_eq, contains, ltb,
}
use soc_dashboard.Values.{ok}
use soc_dashboard.Db.{Alert, Db}
use soc_dashboard.Db.Session.{Session, Tx, pure, ◌>>=◌}
use soc_dashboard.Db.Settles.{
  Settles, Settles-pure, Settles-bind, Settles-execute_then, Settles-lift_then,
}
use soc_dashboard.Db.Statements.{has_alert, check_alert, severities, statuses}
use soc_dashboard.Seed.Constants.{analysts}
use soc_dashboard.Seed.Random.{Stream, Draw}
use soc_dashboard.Seed.Alerts.{Draft}
use soc_dashboard.Seed.Main.{
  drawn_at, seeded_row, insert_seeded, insert_seeded_action, seed_action, seed_closed, seed_open,
  status_for, action_pool,
}
use soc_dashboard.Seed.Yields.{Yields, Yields-randint, Yields-choice, All-unit}
use soc_dashboard.Seed.Ranges.{in_time, IsAction, pool_actions, responses}
use soc_dashboard.Seed.Rows.{
  IsAged, IsLoading, with_alert, with_action, IsLoading-open, IsLoading-closed, has_new,
}
use soc_dashboard.Seed.Refreshed.{Kind}

abbrev pub row_kind : Alert → Kind
row_kind a = (a.category, a.severity, not (a.status == "open"))

-- From one database to another, rows of these kinds are stored.
pub record Loads (now : ℕ) (d : Db) (kinds : List Kind) (d' : Db) : Type 0 where
  pub loading : IsLoading now d'
  pub kinds_of : map row_kind d'.tables.alerts ≡ map row_kind d.tables.alerts ++ kinds
  pub users : d'.tables.users ≡ d.tables.users
  pub audit_log : d'.tables.audit_log ≡ d.tables.audit_log
  pub alert_embeddings : d'.tables.alert_embeddings ≡ d.tables.alert_embeddings

map-append : {A B : Type 0} (f : A → B) (xs ys : List A) → map f (xs ++ ys) ≡ map f xs ++ map f ys
map-append f [] ys = refl
map-append f (x ∷ xs) ys = ap (λ l. f x ∷ l) (map-append f xs ys)

-- A draw that returns, before the rest of a block.
Settles-drawn_then :
    {A B : Type 0} (draw : Draw A) (P : A → Type 0) (c : ℕ) (f : A × ℕ → Tx B) (s : Session)
    (Q : B → Session → Type 0)
    → Yields draw P
    → ((a : A) (c' : ℕ) → P a → Settles (f (a, c')) s Q)
    → Settles (drawn_at draw c >>= f) s Q
unfolding ◌>>=◌
Settles-drawn_then draw P c f s Q h k =
    let (a, c', e, p) = h.at c in
    rw (drawn_at, e)
      (Settles-bind (pure (a, c')) f s (λ b s'. (b ≡ (a, c')) × (s' ≡ s)) Q
        (Settles-pure (a, c') s _ (refl, refl)) (λ b s' e'. rw (e'.0, e'.1) (k a c' p)))

insert_seeded-ok :
    (a : Draft) (status : String) (analyst : Option String) (now : ℕ) (d : Db)
    → contains severities a.severity ≡ true
    → contains statuses status ≡ true
    → insert_seeded a status analyst now d
      ≡ (ok d.sequences.alerts_id, with_alert (seeded_row a status analyst d.sequences.alerts_id) d)
unfolding insert_seeded check_alert
insert_seeded-ok a status analyst now d h k = rw (h, k) refl

insert_seeded_action-ok :
    (alert_id : ℕ) (analyst action : String) (acted_at response now : ℕ) (d : Db)
    → has_alert alert_id d.tables.alerts ≡ true
    → response < 2 ^ 31
    → insert_seeded_action alert_id analyst action acted_at response now d ≡ (
      ok tt,
      with_action
          (record {
            id = d.sequences.analyst_actions_id;
            alert_id = alert_id;
            analyst_name = analyst;
            action = action;
            acted_at = acted_at;
            response_time_seconds = some response;
          })
          d,
    )
unfolding insert_seeded_action
insert_seeded_action-ok alert_id analyst action acted_at response now d h k =
    let small : ltb response (2 ^ 31) ≡ true = ground arith in rw (h, small) refl

module _ (stream : Stream) (now : ℕ) where
  pub Settles-open :
      (a : Draft) (c : ℕ) (s : Session)
      → IsLoading now s.db
      → contains severities a.severity ≡ true
      → IsAged now a.severity a.created_at
      → Settles
          (seed_open stream a c)
          s
          (λ c' s'. Loads now s.db ((a.category, a.severity, false) ∷ []) s'.db)
  unfolding seed_open
  Settles-open a c s h allowed aged =
      let row = seeded_row a "open" none s.db.sequences.alerts_id in
      Settles-execute_then _ _ s _ _ _ (insert_seeded-ok a "open" none s.now s.db allowed refl) (
        Settles-pure c _ _ (record {
          loading = IsLoading-open now s.db h row refl refl allowed aged;
          kinds_of = map-append row_kind s.db.tables.alerts (row ∷ []);
          users = refl;
          audit_log = refl;
          alert_embeddings = refl;
        }))

  pub Settles-closed :
      (a : Draft) (c : ℕ) (s : Session)
      → IsLoading now s.db
      → contains severities a.severity ≡ true
      → Settles
          (seed_closed stream a c)
          s
          (λ c' s'. Loads now s.db ((a.category, a.severity, true) ∷ []) s'.db)
  unfolding seed_closed seed_action
  Settles-closed a c s h allowed =
      let t = in_time a.severity allowed in
      let key = s.db.sequences.alerts_id in
      Settles-drawn_then _ IsAction c _ s _
        (Yields-choice stream action_pool IsAction (omega arith) pool_actions)
        λ action c1 act. Settles-lift_then _ _ s _ act.status (ap status_for act.status_of) (
          Settles-drawn_then _ (λ x. Unit {0}) c1 _ s _
            (Yields-choice stream analysts _ (omega arith) (All-unit analysts))
            λ analyst c2 u.
              let row = seeded_row a act.status (some analyst) key in
              Settles-execute_then _ _ s _ _ _
                (insert_seeded-ok a act.status (some analyst) s.now s.db allowed act.allowed)
                (Settles-drawn_then _ _ c2 _ _ _
                  (Yields-randint stream (responses a.severity).0 (responses a.severity).1
                    t.responses_range)
                  λ response c3 k.
                    Settles-execute_then _ _ _ _ _ _
                      (insert_seeded_action-ok key analyst action _ response s.now
                        (with_alert row s.db) (has_new now s.db h row refl)
                        (omega (arith, k.1, t.small)))
                      (Settles-pure c3 _ _ (record {
                        loading =
                            IsLoading-closed now s.db h row refl _ response act.closed allowed refl
                              (record { status_of = act.same_status; analyst = refl }) refl k.1;
                        kinds_of =
                            map-append row_kind s.db.tables.alerts (row ∷ [])
                            ∙ ap
                                (λ b.
                                  map row_kind s.db.tables.alerts
                                  ++ (a.category, a.severity, not b) ∷ [])
                                act.closed;
                        users = refl;
                        audit_log = refl;
                        alert_embeddings = refl;
                      }))))
