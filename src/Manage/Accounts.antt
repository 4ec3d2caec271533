-- ===== src/Manage/Accounts.antt =====
-- The accounts after a call of `create_user`, and its return code.
use soc_dashboard.Common.{
  ℕ, String, Bool, true, false, ◌≡◌, refl, ap, inl, inr, [], ◌∷◌, ◌++◌, arith, strip, ◌≢◌, ◌⊎◌,
  nat_eq, text_eq,
}
use soc_dashboard.Values.{Result, ok, err, ok-injective}
use soc_dashboard.Db.{Db}
use soc_dashboard.Db.Session.{Session, spend}
use soc_dashboard.Db.Atomicity.{with_conn-cases}
use soc_dashboard.Db.Ensures.{Ensures, Ensures-execute_then, Ensures-pure}
use soc_dashboard.Manage.{
  Outcome, created, failed, duplicate, find_user, select_user, insert_user, add_user, local_tx,
  create_in_local, Docker,
}

-- The account was not there, and its row is appended; nothing else has changed.
pub record Added (username pw_hash role : String) (d d' : Db) : Type 0 where
  pub absent : find_user username d.tables.users ≡ false
  pub tables : d'.tables ≡ record d.tables {
    users =
        d.tables.users
        ++ (record {
          id = d.sequences.users_id;
          username = username;
          password_hash = pw_hash;
          role = role;
        })
          ∷ [];
  }

-- What each outcome says of the local database.
abbrev pub Told : String → String → String → Db → Db → Outcome → Type 0
Told username pw_hash role d d' created = Added username pw_hash role d d'
Told username pw_hash role d d' failed = d'.tables ≡ d.tables
Told username pw_hash role d d' duplicate =
    (find_user username d.tables.users ≡ true) × (d'.tables ≡ d.tables)

module _ (username pw_hash role : String) (s : Session) where
  abbrev LocalEnd : Outcome → Session → Type 0
  LocalEnd outcome s' = Told username pw_hash role s.db s'.db outcome

  add_absent :
      (u : Unit {0})
      → find_user username s.db.tables.users ≡ false
      → (insert_user username pw_hash role s.now s.db).0 ≡ ok u
      → Added username pw_hash role s.db (insert_user username pw_hash role s.now s.db).1
  unfolding insert_user
  add_absent u absent e = ground arith

  add_user-Ensures :
      (found : Bool) (s' : Session)
      → s'.db ≡ s.db
      → s'.now ≡ s.now
      → find_user username s.db.tables.users ≡ found
      → Ensures (add_user username pw_hash role found) s' LocalEnd
  unfolding add_user
  add_user-Ensures true s' e n h = Ensures-pure _ _ _ (h, ap (λ (d : Db). d.tables) e)
  add_user-Ensures false s' e n h =
      Ensures-execute_then _ s' _ _
        (λ u e1. Ensures-pure _ _ _ (rw (e, n) (add_absent u h (rw (e, n) at e1))))

  local_tx-Ensures : Ensures (local_tx username pw_hash role) s LocalEnd
  unfolding local_tx select_user
  local_tx-Ensures =
      Ensures-execute_then _ s _ _ (λ found e. add_user-Ensures found _ refl refl (ok-injective e))

pub Told-create_in_local :
    (username pw_hash role : String) (s : Session)
    → let (outcome, s') = create_in_local username pw_hash role s in
      Told username pw_hash role s.db s'.db outcome
unfolding create_in_local
Told-create_in_local username pw_hash role s =
    elim (with_conn-cases (local_tx username pw_hash role) s) [
      | inl back ↦ rw back.raised back.tables
      | inr done ↦
          rw (done.returned, done.db)
            ((local_tx-Ensures username pw_hash role (spend s)).at done.value done.ran)
    ]

-- 0 if the account is new locally or the container reports success, 1 if it was there locally, 2
-- otherwise
abbrev pub code_of : Outcome → Bool → ℕ
code_of _ true = 0
code_of created false = 0
code_of duplicate false = 1
code_of failed false = 2

-- What came of the container: it is not there (the inspection fails or says so) or its command
-- reports a failure; its command reports success; or `docker` cannot be run.
abbrev pub DockerEnd : Docker → String → String → String → Result Bool → Type 0
DockerEnd docker username password role (ok true) =
    (out : String) × (docker.probe ≡ ok (0, out))
    × (strip out ≡ "true")
    × (docker.exec username password role ≡ ok 0)
DockerEnd docker username password role (ok false) =
    (code : ℕ) × (out : String) × (docker.probe ≡ ok (code, out))
    × ((code ≢ 0)
        ⊎ (strip out ≢ "true")
        ⊎ ((c : ℕ) × (docker.exec username password role ≡ ok c) × (c ≢ 0)))
DockerEnd docker username password role (err e) =
    (docker.probe ≡ err e)
    ⊎ ((out : String) × (docker.probe ≡ ok (0, out))
        × (strip out ≡ "true")
        × (docker.exec username password role ≡ err e))

-- The code of an outcome where the container was asked, or the exception of asking it.
abbrev pub ends_with : Outcome → Result Bool → Result ℕ
ends_with outcome (ok b) = ok (code_of outcome b)
ends_with outcome (err e) = err e
