-- ===== src/Seed/Replaced.antt =====
-- The database after `main` of seed.py.
use soc_dashboard.Common.{
  ℕ, suc, ◌+◌, ◌≡◌, refl, ap, sym, ◌∙◌, String, Bool, true, false, not, inl, inr, some, List, [],
  ◌∷◌, length, length-map, filter, All, All-imp, arith, ◌==◌, nat_eq, text_eq, eq_iff, contains,
}
use soc_dashboard.Values.{Result}
use soc_dashboard.Db.{Alert, Tables, Db}
use soc_dashboard.Db.Session.{Session}
use soc_dashboard.Db.Statements.{severities}
use soc_dashboard.Seed.Random.{Stream, range_from}
use soc_dashboard.Seed.Alerts.{Draft}
use soc_dashboard.Seed.Main.{truncate, store, main}
use soc_dashboard.Seed.Addresses.{IsFair}
use soc_dashboard.Seed.Counts.{count, length-filter}
use soc_dashboard.Seed.Distribution.{IsDemo, count-map}
use soc_dashboard.Seed.Rows.{Stored}
use soc_dashboard.Seed.Refreshed.{Kind, draft_kinds, IsPrepared, Yields-prepare}
use soc_dashboard.Seed.Loaded.{row_kind, Loads}
use soc_dashboard.System.Sound.{IsSound}
use soc_dashboard.System.History.{IsRecorded, Recorded}
use soc_dashboard.Seed.Transaction.{Ends, store-Ends}

-- The tables after a seeding: 50 alerts with the numbers that seed.py documents, and no other rows
-- but those of the accounts; sound and recorded, as `System` has it.
pub record IsSeeded (built_at now : ℕ) (d d' : Db) : Type 0 where
  pub sound : IsSound d'.tables d'.sequences
  pub recorded : IsRecorded d'.tables
  pub size : length d'.tables.alerts ≡ 50
  pub closed : length (filter (λ a. not (a.status == "open")) d'.tables.alerts) ≡ 30
  pub drafts : List Draft
  pub demo : IsDemo built_at drafts
  pub by_category :
      (category : String)
      → length (filter (λ a. a.category == category) d'.tables.alerts)
        ≡ length (filter (λ a. a.category == category) drafts)
  pub by_severity :
      (severity : String)
      → length (filter (λ a. a.severity == severity) d'.tables.alerts)
        ≡ length (filter (λ a. a.severity == severity) drafts)
  pub allowed : All (λ a. contains severities a.severity ≡ true) d'.tables.alerts
  pub stored : All (Stored now d'.tables.analyst_actions) d'.tables.alerts
  pub users : d'.tables.users ≡ d.tables.users
  pub audit_log : d'.tables.audit_log ≡ []
  pub alert_embeddings : d'.tables.alert_embeddings ≡ []

Stored-Recorded :
    (now : ℕ) (t : Tables) (a : Alert)
    → Stored now t.analyst_actions a
    → Recorded t.analyst_actions a
Stored-Recorded now t a (inl (o, e, aged)) = inl ((eq_iff a.status "open").0 o, e)
Stored-Recorded now t a (inr (c, x)) = inr (
  λ e. let clash : true ≡ false = sym ((eq_iff a.status "open").1 e) ∙ c in absurd (cc),
  (x.row, x.only, x.closes),
)

kinds-length :
    (closed : List ℕ) (i : ℕ) (ds : List Draft) → length (draft_kinds closed i ds) ≡ length ds
kinds-length closed i [] = refl
kinds-length closed i (a ∷ ds) = ap suc (kinds-length closed (i + 1) ds)

kinds-category :
    (c : String) (closed : List ℕ) (i : ℕ) (ds : List Draft)
    → count (λ (k : Kind). k.0 == c) (draft_kinds closed i ds) ≡ count (λ d. d.category == c) ds
kinds-category c closed i [] = refl
kinds-category c closed i (a ∷ ds) = omega (arith, kinds-category c closed (i + 1) ds)

kinds-severity :
    (c : String) (closed : List ℕ) (i : ℕ) (ds : List Draft)
    → count (λ (k : Kind). k.1 == c) (draft_kinds closed i ds) ≡ count (λ d. d.severity == c) ds
kinds-severity c closed i [] = refl
kinds-severity c closed i (a ∷ ds) = omega (arith, kinds-severity c closed (i + 1) ds)

kinds-closed :
    (closed : List ℕ) (i : ℕ) (ds : List Draft)
    → count (λ (k : Kind). k.2) (draft_kinds closed i ds)
      ≡ count (contains closed) (range_from i (length ds))
kinds-closed closed i [] = refl
kinds-closed closed i (a ∷ ds) = omega (arith, kinds-closed closed (i + 1) ds)

-- The stored rows, counted by their kinds.
stored-count :
    (now : ℕ) (d d' : Db) (kinds : List Kind) (p : Kind → Bool)
    → Loads now (truncate now d).1 kinds d'
    → length (filter (λ a. p (row_kind a)) d'.tables.alerts) ≡ count p kinds
unfolding truncate
stored-count now d d' kinds p l =
    length-filter (λ a. p (row_kind a)) d'.tables.alerts
    ∙ sym (count-map p row_kind d'.tables.alerts)
    ∙ ap (count p) l.kinds_of

module _ (built_at now : ℕ) (closed : List ℕ) (alerts : List Draft) (d d' : Db)
    (h : IsPrepared built_at now closed alerts)
    (l : Loads now (truncate now d).1 (draft_kinds closed 0 alerts) d') where
  of_kind :
      (p : Kind → Bool)
      → length (filter (λ a. p (row_kind a)) d'.tables.alerts)
        ≡ count p (draft_kinds closed 0 h.built)
  of_kind p =
      stored-count now d d' (draft_kinds closed 0 alerts) p l ∙ ap (count p) h.refreshed.kinds

  loaded-IsSeeded : IsSeeded built_at now d d'
  unfolding truncate
  loaded-IsSeeded = record {
    sound = l.loading.sound;
    recorded = record {
      every =
          All-imp (Stored now d'.tables.analyst_actions) (Recorded d'.tables.analyst_actions)
            d'.tables.alerts (λ a k. Stored-Recorded now d'.tables a k) l.loading.stored;
    };
    size =
        sym (length-map row_kind d'.tables.alerts)
        ∙ ap length (l.kinds_of ∙ h.refreshed.kinds)
        ∙ kinds-length closed 0 h.built
        ∙ h.demo.size;
    closed =
        of_kind (λ k. k.2)
        ∙ kinds-closed closed 0 h.built
        ∙ ap (λ n. count (contains closed) (range_from 0 n)) h.demo.size
        ∙ h.picked;
    drafts = h.built;
    demo = h.demo;
    by_category = λ c.
        of_kind (λ k. k.0 == c)
        ∙ kinds-category c closed 0 h.built
        ∙ sym (length-filter (λ a. a.category == c) h.built);
    by_severity = λ c.
        of_kind (λ k. k.1 == c)
        ∙ kinds-severity c closed 0 h.built
        ∙ sym (length-filter (λ a. a.severity == c) h.built);
    allowed = l.loading.allowed;
    stored = l.loading.stored;
    users = l.users;
    audit_log = l.audit_log;
    alert_embeddings = l.alert_embeddings;
  }

Ends-imp :
    (s : Session) (P Q : Db → Type 0) (o : Result (Unit {0}) × Session)
    → Ends s P o
    → ((d : Db) → P d → Q d)
    → Ends s Q o
Ends-imp s P Q o (inl h) k = inl h
Ends-imp s P Q o (inr (e, p)) k = inr (e, k _ p)

-- Where reserved first octets do not come `fuel` times in a row, `main` reaches its end. Either a
-- call failed; then it raises, and the tables and the sequences are as they were. Or it has
-- committed 50 alerts, 30 of them closed, with the documented numbers of categories and of
-- severities, and the accounts as they were; alert ids are distinct, every closed alert has
-- exactly one action, whose verdict gives its status, and no open alert has one.
pub main_lem :
    (stream : Stream) (fuel built_at : ℕ) (s : Session)
    → IsFair stream fuel
    → (o : Result (Unit {0}) × Session) × (main stream fuel built_at s ≡ some o)
      × Ends s (IsSeeded built_at s.now s.db) o
unfolding main
main_lem stream fuel built_at s fair =
    let ((closed, alerts), c, e, h) = (Yields-prepare stream fuel built_at s.now fair).at 0 in
    (
      store stream closed alerts c s,
      rw (main, e) refl,
      Ends-imp s _ _ (store stream closed alerts c s)
          (store-Ends stream closed alerts c s h.refreshed.ready)
          (λ d' l. loaded-IsSeeded built_at s.now closed alerts s.db d' h l),
    )
