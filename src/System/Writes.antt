-- ===== src/System/Writes.antt =====
-- The statements that write rows about alerts, and those on accounts, keep the stored rows sound.
use soc_dashboard.Common.{
  ℕ, ◌≡◌, ◌∙◌, ◌^◌, ◌*◌, String, Bool, true, not, ◌||◌, ◌&&◌, Option, List, [], ◌∷◌, All,
  All-append, All-imp, arith, ◌==◌, nat_eq, text_eq, ltb, leb, Bool-cases, inl, inr,
}
use soc_dashboard.Db.{Alert, AlertEmbedding, Tables, Sequences, Db}
use soc_dashboard.Db.Statements.{
  has_alert, has_user, insert_action, response_seconds, insert_audit, put_embedding,
  upsert_embedding,
}
use soc_dashboard.Manage.{find_user, select_user, insert_user, text_length}
use soc_dashboard.Retention.{purged, delete_old, microseconds_per_day}
use soc_dashboard.Retention.Integrity.{purged-IsIntact}
use soc_dashboard.System.Sound.{IsSound, has_user-append, DistinctIds-filter, All-filter_imp}
use soc_dashboard.System.Statements.{Grows, Grows-refl, Sound-later}

pub insert_action-Grows :
    (alert_id : ℕ) (analyst action : String) (created now : ℕ) (d : Db)
    → Grows d (insert_action alert_id analyst action created now d).1
unfolding insert_action
insert_action-Grows alert_id analyst action created now d =
    elim (Bool-cases
      (has_alert alert_id d.tables.alerts && ltb (response_seconds now created) (2 ^ 31))) [
        | inr e ↦ rw e (record {
          later = omega arith;
          kept = λ s. Sound-later _ d.sequences _ (omega arith) s;
        })
        | inl e ↦ rw e (record {
          later = omega arith;
          kept = λ s. record {
            below = s.below;
            distinct = s.distinct;
            of_alerts = (
              All-append _ d.tables.analyst_actions _ s.of_alerts.0 (ground (arith, e), tt),
              s.of_alerts.1,
              s.of_alerts.2,
            );
            of_users = s.of_users;
          };
        })
      ]

pub insert_audit-Grows :
    (alert_id user_id : ℕ) (username action from to : String) (text : Option String) (now : ℕ)
    (d : Db)
    → Grows d (insert_audit alert_id user_id username action from to text now d).1
unfolding insert_audit
insert_audit-Grows alert_id user_id username action from to text now d =
    elim (Bool-cases (has_alert alert_id d.tables.alerts && has_user user_id d.tables.users)) [
      | inr e ↦
          rw e (record {
            later = omega arith;
            kept = λ s. Sound-later _ d.sequences _ (omega arith) s;
          })
      | inl e ↦ rw e (record {
        later = omega arith;
        kept = λ s. record {
          below = s.below;
          distinct = s.distinct;
          of_alerts = (
            s.of_alerts.0,
            All-append _ d.tables.audit_log _ s.of_alerts.1 (ground (arith, e), tt),
            s.of_alerts.2,
          );
          of_users = All-append _ d.tables.audit_log _ s.of_users (ground (arith, e), tt);
        };
      })
    ]

of-put_embedding :
    (key : ℕ) (vec : String) (alerts : List Alert) (rows : List AlertEmbedding)
    → has_alert key alerts ≡ true
    → All (λ r. has_alert r.alert_id alerts ≡ true) rows
    → All (λ r. has_alert r.alert_id alerts ≡ true) (put_embedding key vec rows)
unfolding put_embedding
of-put_embedding key vec alerts [] h k = (h, tt)
of-put_embedding key vec alerts (r ∷ rows) h k = elim (Bool-cases (r.alert_id == key)) [
  | inl e ↦ rw e (k.0, k.1)
  | inr e ↦ rw e (k.0, of-put_embedding key vec alerts rows h k.1)
]

pub upsert_embedding-Grows :
    (is_vector : String → Bool) (key : ℕ) (vec : String) (now : ℕ) (d : Db)
    → Grows d (upsert_embedding is_vector key vec now d).1
unfolding upsert_embedding
upsert_embedding-Grows is_vector key vec now d =
    elim (Bool-cases (is_vector vec && has_alert key d.tables.alerts)) [
      | inr e ↦ rw e (Grows-refl d)
      | inl e ↦ rw e (record {
        later = omega arith;
        kept = λ s. record {
          below = s.below;
          distinct = s.distinct;
          of_alerts = (
            s.of_alerts.0,
            s.of_alerts.1,
            of-put_embedding key vec d.tables.alerts d.tables.alert_embeddings (ground (arith, e))
                s.of_alerts.2,
          );
          of_users = s.of_users;
        };
      })
    ]

pub select_user-Grows :
    (username : String) (now : ℕ) (d : Db) → Grows d (select_user username now d).1
unfolding select_user
select_user-Grows username now d = Grows-refl d

pub insert_user-Grows :
    (username pw_hash role : String) (now : ℕ) (d : Db)
    → Grows d (insert_user username pw_hash role now d).1
unfolding insert_user
insert_user-Grows username pw_hash role now d =
    elim (Bool-cases (
      not (find_user username d.tables.users)
      && leb (text_length username) 64
      && leb (text_length role) 16)) [
        | inr e ↦ rw e (record {
          later = omega arith;
          kept = λ s. Sound-later _ d.sequences _ (omega arith) s;
        })
        | inl e ↦ rw e (record {
          later = omega arith;
          kept = λ s. record {
            below = s.below;
            distinct = s.distinct;
            of_alerts = s.of_alerts;
            of_users =
                All-imp _ _ d.tables.audit_log
                  (λ r k. has_user-append r.user_id d.tables.users _ ∙ ground (arith, k))
                  s.of_users;
          };
        })
      ]

pub purged-IsSound :
    (days now : ℕ) (t : Tables) (q : Sequences) → IsSound t q → IsSound (purged days now t) q
purged-IsSound days now t q s = record {
  below = All-filter_imp _ _ t.alerts s.below;
  distinct = DistinctIds-filter _ t.alerts s.distinct;
  of_alerts = purged-IsIntact days now t;
  of_users = All-filter_imp _ _ t.audit_log s.of_users;
}

pub delete_old-Grows : (days now : ℕ) (d : Db) → Grows d (delete_old days now d).1
unfolding delete_old
delete_old-Grows days now d =
    elim (Bool-cases (ltb now (days * microseconds_per_day) || not (ltb days (2 ^ 31)))) [
      | inl e ↦ rw e (Grows-refl d)
      | inr e ↦ rw e (record {
        later = omega arith;
        kept = λ s. purged-IsSound days now d.tables d.sequences s;
      })
    ]
