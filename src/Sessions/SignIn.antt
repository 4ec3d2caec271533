-- ===== src/Sessions/SignIn.antt =====
-- Signing in, against the accounts.
use soc_dashboard.Common.{
  ℕ, ◌≡◌, refl, sym, ap, subst, ◌∙◌, String, Bool, true, false, Option, none, some, List, arith,
  nat_eq, text_eq, strip, inl, inr, ◌⊎◌,
}
use soc_dashboard.Values.{ok, err, ok-injective, err-ok, Result-cases}
use soc_dashboard.Db.{UserRow, Db}
use soc_dashboard.Db.Session.{spend}
use soc_dashboard.Db.Ensures.{Ensures, Ensures-execute, Ensures-lift_then}
use soc_dashboard.Db.Atomicity.{with_conn-cases}
use soc_dashboard.World.{Env, World, App, pure, lift, ◌>>=◌, in_db, bind_text}
use soc_dashboard.World.Frame.{bind-ok, bind-err}
use soc_dashboard.World.Reads.{ReadsOnly, read_rules, SameDb, SameDb-frame, Reads-in_db}
use soc_dashboard.World.Frame.{Keeps, keeps_rules}
use soc_dashboard.Sessions.{
  find_name, select_name, Page, redirect, login_page, CheckPw, text_or, matches, answer, account_tx,
  login,
}

select_name-same : (username : String) (now : ℕ) (d : Db) → (select_name username now d).1 ≡ d
unfolding select_name
select_name-same username now d = refl

account_tx-ReadsOnly : (env : Env) (username : String) → ReadsOnly (account_tx env username)
unfolding account_tx
account_tx-ReadsOnly env username = search (read_rules, select_name-same) depth 6

login-SameDb :
    (env : Env) (checkpw : CheckPw) (username password goal : Option String) (signed_in : Option ℕ)
    → Keeps SameDb (login env checkpw username password goal signed_in)
unfolding login
login-SameDb env checkpw username password goal signed_in =
    search (keeps_rules, SameDb-frame, Reads-in_db, account_tx-ReadsOnly) depth 10

module _ (env : Env) (username : String) (w : World) where
  row_Ensures :
      Ensures
        (account_tx env username)
        (spend w.session)
        (λ o s'. o ≡ find_name username w.session.db.tables.users)
  unfolding account_tx bind_text select_name
  row_Ensures = Ensures-lift_then _ _ _ _ (λ name e. Ensures-execute _ _ _ (λ o f.
      sym (ok-injective f) ∙ ap (λ n. find_name n w.session.db.tables.users) (ground arith)))

  row_read :
      (o : Option UserRow)
      → (in_db (account_tx env username) w).0 ≡ ok o
      → o ≡ find_name username w.session.db.tables.users
  unfolding in_db
  row_read o e = elim (with_conn-cases (account_tx env username) w.session) [
    | inl back ↦ let clash : err back.error ≡ ok o = sym back.raised ∙ e in absurd (err-ok clash)
    | inr done ↦ row_Ensures.at o (done.ran ∙ sym done.returned ∙ e)
  ]

-- What a login that was answered has found.
abbrev pub LoggedIn :
    CheckPw → String → String → Option String → Option ℕ → List UserRow → Page × Option ℕ → Type 0
LoggedIn checkpw username password goal signed_in users (page, now_in) =
    ((u : UserRow) × (find_name username users ≡ some u)
      × (checkpw password u.password_hash ≡ ok true)
      × (page ≡ redirect (text_or "/" goal))
      × (now_in ≡ some u.id))
    ⊎ ((page ≡ login_page 401)
        × (now_in ≡ signed_in)
        × ((find_name username users ≡ none)
            ⊎ ((u : UserRow) × (find_name username users ≡ some u)
                × (checkpw password u.password_hash ≡ ok false))))

answer-LoggedIn :
    (checkpw : CheckPw) (username password : String) (goal : Option String) (signed_in : Option ℕ)
    (users : List UserRow) (o : Option UserRow) (same : Bool)
    → o ≡ find_name username users
    → matches checkpw password o ≡ ok same
    → LoggedIn checkpw username password goal signed_in users (answer goal signed_in o same)
answer-LoggedIn checkpw username password goal signed_in users none true e h =
    inr (refl, refl, inl (sym e))
answer-LoggedIn checkpw username password goal signed_in users none false e h =
    inr (refl, refl, inl (sym e))
answer-LoggedIn checkpw username password goal signed_in users (some u) true e h =
    inl (u, sym e, h, refl, refl)
answer-LoggedIn checkpw username password goal signed_in users (some u) false e h =
    inr (refl, refl, inr (u, sym e, h))

answered :
    (env : Env) (checkpw : CheckPw) (username password goal : Option String) (signed_in : Option ℕ)
    (w : World) (a : Page × Option ℕ)
    → (login env checkpw username password goal signed_in w).0 ≡ ok a
    → LoggedIn checkpw
        (strip (text_or "" username))
        (text_or "" password)
        goal
        signed_in
        w.session.db.tables.users
        a
unfolding login
answered env checkpw username password goal signed_in w a e =
    let name = strip (text_or "" username) in
    let tail : Option UserRow → App (Page × Option ℕ) = λ row.
      lift (matches checkpw (text_or "" password) row) >>= λ same.
      pure (answer goal signed_in row same) in
    elim (Result-cases (in_db (account_tx env name) w).0) [
      | inr (x, raised) ↦
          let clash : err x ≡ ok a =
            sym (ap (λ r. r.0) (bind-err (in_db (account_tx env name)) tail w x raised)) ∙ e in
          absurd (err-ok clash)
      | inl (o, read) ↦
          let rest : (tail o (in_db (account_tx env name) w).1).0 ≡ ok a =
            sym (ap (λ r. r.0) (bind-ok (in_db (account_tx env name)) tail w o read)) ∙ e in
          elim (Result-cases (matches checkpw (text_or "" password) o)) [
            | inr (x, refused) ↦
                let clash : err x ≡ ok a = (rw refused at rest) in absurd (err-ok clash)
            | inl (same, matched) ↦
                let shown : ok (answer goal signed_in o same) ≡ ok a = (rw matched at rest) in
                subst
                  (LoggedIn checkpw name (text_or "" password) goal signed_in
                    w.session.db.tables.users)
                  (ok-injective shown)
                  (answer-LoggedIn checkpw name (text_or "" password) goal signed_in _ o same
                    (row_read env name w o read) matched)
          ]
    ]

-- Whatever the form, the session, the database and the failing calls: a login changes no table, and
-- where it is answered it either found the account of the stripped username with a hash that the
-- password matches, and then signs its user in and redirects; or there is no such account, or its
-- hash does not match, and then it answers 401 and leaves the session as it was.
pub login_lem :
    (env : Env) (checkpw : CheckPw) (username password goal : Option String) (signed_in : Option ℕ)
    (w : World)
    → let (r, w') = login env checkpw username password goal signed_in w in
      (w'.session.db ≡ w.session.db)
      × ((a : Page × Option ℕ)
          → r ≡ ok a
          → LoggedIn checkpw
              (strip (text_or "" username))
              (text_or "" password)
              goal
              signed_in
              w.session.db.tables.users
              a)
login_lem env checkpw username password goal signed_in w = (
  (login-SameDb env checkpw username password goal signed_in).at w,
  λ a e. answered env checkpw username password goal signed_in w a e,
)
