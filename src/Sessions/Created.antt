-- ===== src/Sessions/Created.antt =====
-- Signing in with an account that the management command created.
use soc_dashboard.Common.{
  ℕ, ◌<◌, ◌≡◌, refl, ap, subst, ◌∙◌, String, true, false, Option, some, List, [], ◌∷◌, ◌++◌, All,
  arith, nat_eq, text_eq, eq_iff, strip, inl, inr,
}
use soc_dashboard.Values.{ok}
use soc_dashboard.Db.{UserRow, Tables}
use soc_dashboard.Db.Session.{Session, execute, spend}
use soc_dashboard.Db.Settles.{Settles-execute, Settles-lift_then, Settles-with_conn}
use soc_dashboard.World.{Env, World, App, pure, lift, ◌>>=◌, in_db, bind_text}
use soc_dashboard.World.Frame.{bind-ok}
use soc_dashboard.Manage.{created, find_user, create_in_local}
use soc_dashboard.Manage.Accounts.{Added, Told, Told-create_in_local}
use soc_dashboard.Sessions.{
  find_id, select_id, find_name, select_name, user_of, load_user, Page, redirect, CheckPw, text_or,
  matches, answer, account_tx, login,
}

find_name-append :
    (username : String) (rows : List UserRow) (u : UserRow)
    → find_user username rows ≡ false
    → u.username ≡ username
    → find_name username (rows ++ u ∷ []) ≡ some u
unfolding find_user find_name
find_name-append username [] u h e = ground (arith, eq_iff u.username username)
find_name-append username (x ∷ rows) u h e = ground (arith, find_name-append username rows u)

find_id-append :
    (key : ℕ) (rows : List UserRow) (u : UserRow)
    → All (λ x. x.id < key) rows
    → u.id ≡ key
    → find_id key (rows ++ u ∷ []) ≡ some u
unfolding find_id
find_id-append key [] u h e = ground arith
find_id-append key (x ∷ rows) u h e = ground (arith, find_id-append key rows u h.1 e, h.0)

module _ (env : Env) (w : World) (calm : w.session.faults ≡ []) where
  account_found :
      (username : String) (u : UserRow)
      → env.accepts username ≡ true
      → find_name username w.session.db.tables.users ≡ some u
      → (in_db (account_tx env username) w).0 ≡ ok (some u)
  unfolding account_tx bind_text select_name in_db
  account_found username u sendable found =
      let settles =
        Settles-with_conn (account_tx env username) w.session (λ o d. o ≡ some u)
          (Settles-lift_then _ _ (spend w.session) _ username (rw sendable refl) (
            Settles-execute (select_name username) (spend w.session) _ (some u) w.session.db
              (ap (λ o. (ok o, w.session.db)) found) refl)) in
      elim settles.at [
        | inl (o, s', e, kept, found') ↦ ap (λ r. r.0) e ∙ ap ok found'
        | inr (x, s', e, faulty) ↦ absurd (faulty calm)
      ]

  id_found :
      (key : ℕ) (u : UserRow)
      → find_id key w.session.db.tables.users ≡ some u
      → (in_db (execute (select_id key)) w).0 ≡ ok (some u)
  unfolding select_id in_db
  id_found key u found =
      let settles =
        Settles-with_conn (execute (select_id key)) w.session (λ o d. o ≡ some u)
          (Settles-execute (select_id key) (spend w.session) _ (some u) w.session.db
            (ap (λ o. (ok o, w.session.db)) found) refl) in
      elim settles.at [
        | inl (o, s', e, kept, found') ↦ ap (λ r. r.0) e ∙ ap ok found'
        | inr (x, s', e, faulty) ↦ absurd (faulty calm)
      ]

-- An account that was created signs in with the password that its hash was made of, and is loaded
-- again from the session with its name and role: where no call fails, the accounts are those after
-- the creation, all earlier ids are below the new one, the driver can send the name, and the name
-- has no spaces around it.
pub created_signs_in :
    (env : Env) (checkpw : CheckPw) (username password pw_hash role : String) (goal : Option String)
    (signed_in : Option ℕ) (s : Session) (w : World)
    → (create_in_local username pw_hash role s).0 ≡ created
    → w.session.db.tables.users ≡ (create_in_local username pw_hash role s).1.db.tables.users
    → w.session.faults ≡ []
    → All (λ x. x.id < s.db.sequences.users_id) s.db.tables.users
    → env.accepts username ≡ true
    → strip (text_or "" (some username)) ≡ username
    → checkpw (text_or "" (some password)) pw_hash ≡ ok true
    → ((login env checkpw (some username) (some password) goal signed_in w).0
        ≡ ok (redirect (text_or "/" goal), some s.db.sequences.users_id))
      × ((load_user s.db.sequences.users_id w).0
          ≡ ok (some (record { id = s.db.sequences.users_id; username = username; role = role })))
unfolding login load_user
created_signs_in env checkpw username password pw_hash role goal signed_in s w made users calm below
      sendable plain same =
    let told : Added username pw_hash role s.db (create_in_local username pw_hash role s).1.db =
      subst (Told username pw_hash role s.db (create_in_local username pw_hash role s).1.db) made
        (Told-create_in_local username pw_hash role s) in
    let key = s.db.sequences.users_id in
    let u : UserRow = record {
      id = key;
      username = username;
      password_hash = pw_hash;
      role = role;
    } in
    let rows : w.session.db.tables.users ≡ s.db.tables.users ++ u ∷ [] =
      users ∙ ap (λ (t : Tables). t.users) told.tables in
    let found : find_name username w.session.db.tables.users ≡ some u =
      ap (find_name username) rows
      ∙ find_name-append username s.db.tables.users u told.absent refl in
    let known : find_id key w.session.db.tables.users ≡ some u =
      ap (find_id key) rows ∙ find_id-append key s.db.tables.users u below refl in
    let name = strip (text_or "" (some username)) in
    let read : (in_db (account_tx env name) w).0 ≡ ok (some u) =
      ap (λ n. (in_db (account_tx env n) w).0) plain
      ∙ account_found env w calm username u sendable found in
    let tail : Option UserRow → App (Page × Option ℕ) = λ row.
      lift (matches checkpw (text_or "" (some password)) row) >>= λ matched.
      pure (answer goal signed_in row matched) in
    (
      ap (λ r. r.0) (bind-ok (in_db (account_tx env name)) tail w (some u) read) ∙ (rw same refl),
      ap (λ r. r.0)
          (bind-ok (in_db (execute (select_id key))) (λ row. pure (user_of row)) w (some u)
            (id_found env w calm key u known)),
    )
