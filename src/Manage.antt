-- ===== src/Manage.antt =====
-- `create_user` of manage.py, with what it does in the local database and in the web container.
pub mod Accounts
use soc_dashboard.Common.{
  ℕ, suc, ◌+◌, String, Bool, true, false, not, ◌&&◌, ◌||◌, Option, none, some, List, [], ◌∷◌, ◌++◌,
  ◌==◌, nat_eq, text_eq, leb, strip, if◌then◌else◌,
}
use soc_dashboard.Values.{Result, ok, err, database_error}
use soc_dashboard.Db.{Db, UserRow}
use soc_dashboard.Db.Session.{Session, Tx, execute, pure, ◌>>=◌, ◌>>◌, with_conn}

-- What the helpers return beside a message: True, False or None.
pub data Outcome : Type 0 where
  created failed duplicate : Outcome

-- SELECT 1 FROM users WHERE username = …
unfoldable pub find_user : String → List UserRow → Bool
find_user username [] = false
find_user username (u ∷ rest) = u.username == username || find_user username rest

unfoldable pub select_user : String → ℕ → Db → Result Bool × Db
select_user username now d = (ok (find_user username d.tables.users), d)

unfoldable pub text_length : String → ℕ
text_length String.[] = 0
text_length (String.◌∷◌ _ s) = suc (text_length s)

-- INSERT INTO users …, with UNIQUE (username), VARCHAR(64) and VARCHAR(16).
unfoldable pub insert_user : String → String → String → ℕ → Db → Result (Unit {0}) × Db
insert_user username pw_hash role now d =
    let drawn = record d.sequences { users_id = d.sequences.users_id + 1 } in
    let row : UserRow = record {
      id = d.sequences.users_id;
      username = username;
      password_hash = pw_hash;
      role = role;
    } in
    if not (find_user username d.tables.users)
      && leb (text_length username) 64
      && leb (text_length role) 16
    then (
      ok tt,
      record { tables = record d.tables { users = d.tables.users ++ row ∷ [] }; sequences = drawn },
    )
    else (err database_error, record d { sequences = drawn })

unfoldable pub add_user : String → String → String → Bool → Tx Outcome
add_user username pw_hash role true = pure duplicate
add_user username pw_hash role false = do execute (insert_user username pw_hash role); pure created

unfoldable pub local_tx : String → String → String → Tx Outcome
local_tx username pw_hash role = do
  found ← execute (select_user username)
  add_user username pw_hash role found

abbrev pub or_failed : Result Outcome → Outcome
or_failed (ok outcome) = outcome
or_failed (err _) = failed

-- `_create_in_local`: every psycopg2 error, the failing connect included, is False.
unfoldable pub create_in_local : String → String → String → Session → Outcome × Session
create_in_local username pw_hash role s =
    let (r, s') = with_conn (local_tx username pw_hash role) s in (or_failed r, s')

-- The two `subprocess.run` calls of `_create_in_docker`, each of which raises where there is no
-- `docker` to run.
pub record Docker : Type 0 where
  -- the return code and the output
  pub probe : Result (ℕ × String)
  -- the return code, from the user's name, the password and the role
  pub exec : String → String → String → Result ℕ

abbrev pub exited_zero : Result ℕ → Result Bool
exited_zero (err e) = err e
exited_zero (ok code) = ok (code == 0)

abbrev pub if_running : Result ℕ → Result (ℕ × String) → Result Bool
if_running exec (err e) = err e
if_running exec (ok (code, stdout)) =
    if code == 0 && strip stdout == "true" then exited_zero exec else ok false

-- `_create_in_docker`
unfoldable pub create_in_docker : Docker → String → String → String → Result Bool
create_in_docker docker username password role =
    if_running (docker.exec username password role) docker.probe

abbrev pub is_created : Outcome → Bool
is_created created = true
is_created _ = false

abbrev pub is_duplicate : Outcome → Bool
is_duplicate duplicate = true
is_duplicate _ = false

unfoldable pub return_code : Outcome → Bool → ℕ
return_code outcome in_docker =
    if is_created outcome || in_docker then 0 else if is_duplicate outcome then 1 else 2

abbrev pub code_after : Outcome → Result Bool → Result ℕ
code_after outcome (err e) = err e
code_after outcome (ok in_docker) = ok (return_code outcome in_docker)

-- `create_user`: bcrypt's hash, which may raise, comes first.
unfoldable pub create_user :
    (String → Result String) → Docker → String → String → String → Session → Result ℕ × Session
create_user hashpw docker username password role s = elim (hashpw password) [
  | err e ↦ (err e, s)
  | ok pw_hash ↦
      let (outcome, s') = create_in_local username pw_hash role s in
      (code_after outcome (create_in_docker docker username password role), s')
]
