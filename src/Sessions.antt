-- ===== src/Sessions.antt =====
-- Who is signed in: `load_user`, `login` and `logout` of app.py. Flask-Login keeps the user's id in
-- the browser's session, which is passed along here; bcrypt's `checkpw` is an argument.
pub mod Created
pub mod SignIn
use soc_dashboard.Common.{
  ℕ, String, Bool, true, false, Option, none, some, List, [], ◌∷◌, ◌==◌, nat_eq, text_eq, strip,
  if◌then◌else◌,
}
use soc_dashboard.Values.{Result, ok, err}
use soc_dashboard.Db.{UserRow, Db}
use soc_dashboard.Db.Session
use soc_dashboard.Db.Session.{Tx, execute}
use soc_dashboard.World.{Env, World, App, pure, raise, lift, ◌>>=◌, in_db, bind_text}
use soc_dashboard.Access.{User}

-- SELECT id, username, role FROM users WHERE id = …
unfoldable pub find_id : ℕ → List UserRow → Option UserRow
find_id key [] = none
find_id key (u ∷ rest) = if u.id == key then some u else find_id key rest

unfoldable pub select_id : ℕ → ℕ → Db → Result (Option UserRow) × Db
select_id key now d = (ok (find_id key d.tables.users), d)

-- SELECT id, username, role, password_hash FROM users WHERE username = …
unfoldable pub find_name : String → List UserRow → Option UserRow
find_name username [] = none
find_name username (u ∷ rest) = if u.username == username then some u else find_name username rest

unfoldable pub select_name : String → ℕ → Db → Result (Option UserRow) × Db
select_name username now d = (ok (find_name username d.tables.users), d)

abbrev pub as_user : UserRow → User
as_user u = record { id = u.id; username = u.username; role = u.role }

abbrev pub user_of : Option UserRow → Option User
user_of none = none
user_of (some u) = some (as_user u)

-- `load_user`, at the id that the session holds
unfoldable pub load_user : ℕ → App (Option User)
load_user key = do row ← in_db (execute (select_id key)); pure (user_of row)

-- What a browser is sent.
pub data Page : Type 0 where
  redirect : String → Page
  login_page : ℕ → Page

-- `checkpw(password, hash)`, which raises where the hash is none
abbrev pub CheckPw : Type 0
CheckPw = String → String → Result Bool

-- `v or other`, of a text that may be missing
abbrev pub text_or : String → Option String → String
text_or other none = other
text_or other (some s) = if s == "" then other else s

-- `row and bcrypt.checkpw(…)`
abbrev pub matches : CheckPw → String → Option UserRow → Result Bool
matches checkpw password none = ok false
matches checkpw password (some u) = checkpw password u.password_hash

-- The page, and the session's user id after it.
abbrev pub answer : Option String → Option ℕ → Option UserRow → Bool → Page × Option ℕ
answer goal signed_in (some u) true = (redirect (text_or "/" goal), some u.id)
answer goal signed_in _ _ = (login_page 401, signed_in)

unfoldable pub account_tx : Env → String → Tx (Option UserRow)
account_tx env username =
    Session.◌>>=◌ (Session.lift (bind_text env username)) λ name. execute (select_name name)

-- `login`, for a POST: the form's fields, the argument `next`, and the session before.
unfoldable pub login :
    Env → CheckPw → Option String → Option String → Option String → Option ℕ → App (Page × Option ℕ)
login env checkpw username password goal signed_in = do
  row ← in_db (account_tx env (strip (text_or "" username)))
  same ← lift (matches checkpw (text_or "" password) row)
  pure (answer goal signed_in row same)

-- `logout`
unfoldable pub logout : Option ℕ → Page × Option ℕ
logout signed_in = (redirect "/login", none)
