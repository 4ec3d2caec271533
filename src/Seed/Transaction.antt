-- ===== src/Seed/Transaction.antt =====
-- The transaction of seed.py: it raises and restores, or it stores all rows.
use soc_dashboard.Common.{
  ℕ, ◌+◌, ◌≡◌, ◌≢◌, refl, ap, sym, ◌∙◌, true, false, ◌⊎◌, inl, inr, List, [], ◌∷◌, ◌++◌, map,
  append_assoc, append-nil, nat_eq, text_eq, contains, Bool-cases,
}
use soc_dashboard.Values.{Exn, Result, ok, err, database_error}
use soc_dashboard.Db.{Db}
use soc_dashboard.Db.Session.{Session, Tx, fails, spend, later}
use soc_dashboard.Db.Settles.{
  Settles, Settles-pure, Settles-bind, Settles-execute_then, failing, Settles-imp,
}
use soc_dashboard.Seed.Random.{Stream}
use soc_dashboard.Seed.Alerts.{Draft}
use soc_dashboard.Seed.Main.{
  truncate, seed_rows, seed_tx, seed_open, seed_closed, undo, finish, store,
}
use soc_dashboard.Seed.Rows.{IsLoading}
use soc_dashboard.Seed.Refreshed.{Kind, draft_kinds, AllReady}
use soc_dashboard.Seed.Loaded.{row_kind, Loads, Settles-open, Settles-closed}

Loads-trans :
    (now : ℕ) (d e f : Db) (ks ls : List Kind)
    → Loads now d ks e
    → Loads now e ls f
    → Loads now d (ks ++ ls) f
Loads-trans now d e f ks ls h k = record {
  loading = k.loading;
  kinds_of =
      k.kinds_of ∙ ap (λ l. l ++ ls) h.kinds_of ∙ append_assoc (map row_kind d.tables.alerts) ks ls;
  users = k.users ∙ h.users;
  audit_log = k.audit_log ∙ h.audit_log;
  alert_embeddings = k.alert_embeddings ∙ h.alert_embeddings;
}

module _ (stream : Stream) (now : ℕ) (closed : List ℕ) where
  Settles-rows :
      (i : ℕ) (alerts : List Draft) (c : ℕ) (s : Session)
      → IsLoading now s.db
      → AllReady now closed i alerts
      → Settles
          (seed_rows stream closed i alerts c)
          s
          (λ u s'. Loads now s.db (draft_kinds closed i alerts) s'.db)
  unfolding seed_rows
  Settles-rows i [] c s h ready = Settles-pure tt s _ (record {
    loading = h;
    kinds_of = sym (append-nil _);
    users = refl;
    audit_log = refl;
    alert_embeddings = refl;
  })
  Settles-rows i (a ∷ rest) c s h ready =
      let round : Settles
          (elim (contains closed i) [
            | true ↦ seed_closed stream a c
            | false ↦ seed_open stream a c
          ])
          s (λ c' s'. Loads now s.db ((a.category, a.severity, contains closed i) ∷ []) s'.db) =
        elim (Bool-cases (contains closed i)) [
          | inl e ↦ rw e (Settles-closed stream now a c s h ready.0.allowed)
          | inr e ↦ rw e (Settles-open stream now a c s h ready.0.allowed (ready.0.aged e))
        ] in
      Settles-bind _ _ s _ _ round λ c' s' l.
        Settles-imp _ s' _ _ (Settles-rows (i + 1) rest c' s' l.loading ready.1)
          (λ u t k. Loads-trans now s.db s'.db t.db _ _ l k)

  Settles-tx :
      (alerts : List Draft) (c : ℕ) (s : Session)
      → AllReady now closed 0 alerts
      → Settles
          (seed_tx stream closed alerts c)
          s
          (λ u s'. Loads now (truncate s.now s.db).1 (draft_kinds closed 0 alerts) s'.db)
  unfolding seed_tx truncate
  Settles-tx alerts c s ready =
      let d = (truncate s.now s.db).1 in
      Settles-execute_then truncate _ s _ tt d refl (
        Settles-rows 0 alerts c _
          (record {
            sound = record { below = tt; distinct = tt; of_alerts = (tt, tt, tt); of_users = tt };
            stored = tt;
            allowed = tt;
          })
          ready)

-- How a block with its own commit and rollback ends: with the tables and the sequences as they were
-- and an exception, where a call failed, or committed.
abbrev pub Ends : Session → (Db → Type 0) → Result (Unit {0}) × Session → Type 0
Ends s Q (r, s') =
    (((e : Exn) × (r ≡ err e)) × (s'.db ≡ s.db) × (s.faults ≢ [])) ⊎ ((r ≡ ok tt) × Q s'.db)

undo-Ends : (s t : Session) (Q : Db → Type 0) (e : Exn) → s.faults ≢ [] → Ends s Q (undo s.db e t)
unfolding undo
undo-Ends s t Q e faulty = elim (Bool-cases (fails t.faults)) [
  | inl lost ↦ rw lost (inl ((database_error, refl), refl, faulty))
  | inr fine ↦ rw fine (inl ((e, refl), refl, faulty))
]

faulty_later : (s : Session) → (spend s).faults ≢ [] → s.faults ≢ []
faulty_later s h e = h (ap later e)

finish-Ends :
    (s : Session) (m : Tx (Unit {0})) (Q : Db → Type 0)
    → Settles m (spend s) (λ a s'. Q s'.db)
    → Ends s Q (finish s.db (m (spend s)))
unfolding finish
finish-Ends s m Q h = elim h.at [
  | inr (e, s', raised, faulty) ↦ rw raised (undo-Ends s s' Q e (faulty_later s faulty))
  | inl (a, s', done, calm, q) ↦ rw done (elim (Bool-cases (fails s'.faults)) [
    | inl lost ↦
        rw lost (undo-Ends s (spend s') Q database_error (λ e. failing s' lost (calm (ap later e))))
    | inr fine ↦ rw fine (inr (refl, q))
  ])
]

pub store-Ends :
    (stream : Stream) (closed : List ℕ) (alerts : List Draft) (c : ℕ) (s : Session)
    → AllReady s.now closed 0 alerts
    → Ends s
        (Loads s.now (truncate s.now s.db).1 (draft_kinds closed 0 alerts))
        (store stream closed alerts c s)
unfolding store
store-Ends stream closed alerts c s ready = elim (Bool-cases (fails s.faults)) [
  | inl lost ↦ rw lost (inl ((database_error, refl), refl, failing s lost))
  | inr fine ↦ rw fine (
      finish-Ends s (seed_tx stream closed alerts c) _
        (Settles-tx stream s.now closed alerts c (spend s) ready))
]
