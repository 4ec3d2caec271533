-- ===== src/System/Statements.antt =====
-- Each statement keeps the stored rows sound, whether it writes or is refused.
use soc_dashboard.Common.{
  ℕ, ◌+◌, ◌≤◌, ◌<◌, ◌≡◌, refl, ap, ◌∙◌, String, true, List, [], ◌∷◌, ◌++◌, All, All-append, All-imp,
  arith, nat_eq, text_eq, contains, Bool-cases, inl, inr,
}
use soc_dashboard.Db.{Alert, Tables, Sequences, Db}
use soc_dashboard.Db.Statements.{
  has_alert, update_rows, close_row, NewAlert, new_row, insert_row, check_alert, select_alert,
  update_alert, statuses,
}
use soc_dashboard.System.Sound.{
  OfAlerts, IsSound, has_alert-append, has_alert-update_rows, fresh_id, DistinctIds-append,
  DistinctIds-update_rows,
}

abbrev pub Sound : Db → Type 0
Sound d = IsSound d.tables d.sequences

-- The ids go on, and soundness stays.
pub record Grows (d d' : Db) : Type 0 where
  pub later : d.sequences.alerts_id ≤ d'.sequences.alerts_id
  pub kept : Sound d → Sound d'

pub Grows-refl : (d : Db) → Grows d d
Grows-refl d = record { later = omega arith; kept = λ s. s }

pub Grows-trans : (d e f : Db) → Grows d e → Grows e f → Grows d f
Grows-trans d e f g h = record {
  later = omega (arith, g.later, h.later);
  kept = λ s. h.kept (g.kept s);
}

-- The rows are the old ones, and ids may be lost.
pub Sound-later :
    (t : Tables) (q r : Sequences) → q.alerts_id ≤ r.alerts_id → IsSound t q → IsSound t r
Sound-later t q r h s = record {
  below =
      All-imp (λ a. a.id < q.alerts_id) (λ a. a.id < r.alerts_id) t.alerts (λ a k. omega arith)
        s.below;
  distinct = s.distinct;
  of_alerts = s.of_alerts;
  of_users = s.of_users;
}

-- The rows that refer to alerts go on to do so, when no alert is lost.
OfAlerts-more :
    (xs ys : List Alert) (t : Tables)
    → ((key : ℕ) → has_alert key xs ≡ true → has_alert key ys ≡ true)
    → OfAlerts xs t
    → OfAlerts ys t
OfAlerts-more xs ys t h o = (
  All-imp _ _ t.analyst_actions (λ r k. h r.alert_id k) o.0,
  All-imp _ _ t.audit_log (λ r k. h r.alert_id k) o.1,
  All-imp _ _ t.alert_embeddings (λ r k. h r.alert_id k) o.2,
)

module _ (d : Db) (s : Sound d) where
  pub inserted-Sound :
      (row : Alert)
      → row.id ≡ d.sequences.alerts_id
      → Sound (record {
        tables = record d.tables { alerts = d.tables.alerts ++ row ∷ [] };
        sequences = record d.sequences { alerts_id = d.sequences.alerts_id + 1 };
      })
  inserted-Sound row own = record {
    below =
        All-append _ d.tables.alerts (row ∷ [])
          (All-imp (λ a. a.id < d.sequences.alerts_id) (λ a. a.id < d.sequences.alerts_id + 1)
            d.tables.alerts (λ a k. omega arith) s.below)
          (omega (arith, own), tt);
    distinct = DistinctIds-append d.tables.alerts row s.distinct (
        ap (λ n. has_alert n d.tables.alerts) own
        ∙ fresh_id d.sequences.alerts_id d.tables.alerts s.below);
    of_alerts =
        OfAlerts-more d.tables.alerts (d.tables.alerts ++ row ∷ []) d.tables
          (λ key k. ground (arith, has_alert-append key d.tables.alerts (row ∷ []))) s.of_alerts;
    of_users = s.of_users;
  }

pub insert_row-Grows : (n : NewAlert) (now : ℕ) (d : Db) → Grows d (insert_row n now d).1
unfolding insert_row
insert_row-Grows n now d = elim (Bool-cases (check_alert (new_row n d.sequences.alerts_id now))) [
  | inl e ↦ rw e (record {
    later = omega arith;
    kept = λ s. inserted-Sound d s (new_row n d.sequences.alerts_id now) refl;
  })
  | inr e ↦
      rw e (record { later = omega arith; kept = λ s. Sound-later _ d.sequences _ (omega arith) s })
]

pub select_alert-Grows : (key now : ℕ) (d : Db) → Grows d (select_alert key now d).1
unfolding select_alert
select_alert-Grows key now d = Grows-refl d

below-update_rows :
    (bound id : ℕ) (change : Alert → Alert) (rows : List Alert)
    → ((a : Alert) → (change a).id ≡ a.id)
    → All (λ a. a.id < bound) rows
    → All (λ a. a.id < bound) (update_rows id change rows)
unfolding update_rows
below-update_rows bound id change [] h k = tt
below-update_rows bound id change (a ∷ rows) h k =
    (ground (arith, h a, k.0), below-update_rows bound id change rows h k.1)

pub update_alert-Grows :
    (status analyst : String) (key now : ℕ) (d : Db)
    → Grows d (update_alert status analyst key now d).1
unfolding update_alert
update_alert-Grows status analyst key now d = elim (Bool-cases (contains statuses status)) [
  | inr e ↦ rw e (Grows-refl d)
  | inl e ↦
      let change = close_row status analyst in
      rw e (record {
        later = omega arith;
        kept = λ s. record {
          below =
              below-update_rows d.sequences.alerts_id key change d.tables.alerts (λ a. refl)
                s.below;
          distinct = DistinctIds-update_rows key change d.tables.alerts (λ a. refl) s.distinct;
          of_alerts =
              OfAlerts-more d.tables.alerts (update_rows key change d.tables.alerts) d.tables
                (λ k h. has_alert-update_rows k key change d.tables.alerts (λ a. refl) ∙ h)
                s.of_alerts;
          of_users = s.of_users;
        };
      })
]
