-- ===== src/Tests/Sessions.antt =====
-- Witnesses for signing in.
use soc_dashboard.Common.{ℕ, Option, some, none, ◌≡◌, refl, ◌==◌, text_eq, strip, arith}
use soc_dashboard.Values.{ok}
use soc_dashboard.Db.Session
use soc_dashboard.Db.Session.{with_conn, leave, execute}
use soc_dashboard.World.{World}
use soc_dashboard.Manage.{
  create_in_local, local_tx, add_user, select_user, find_user, insert_user, text_length,
}
use soc_dashboard.Sessions.{Page, redirect, CheckPw, text_or, load_user, login}
use soc_dashboard.Sessions.SignIn.{LoggedIn, login_lem}
use soc_dashboard.Sessions.Created.{created_signs_in}
use soc_dashboard.Tests.Fixtures.{env, world}

abbrev checkpw : CheckPw
checkpw password pw_hash = ok (pw_hash == "hashed")

login_lem_example :
    let (r, w') = login env checkpw (some " ana ") (some "x") none none world in
    (w'.session.db ≡ world.session.db)
    × ((a : Page × Option ℕ)
        → r ≡ ok a
        → LoggedIn checkpw
            (strip (text_or "" (some " ana ")))
            (text_or "" (some "x"))
            none
            none
            world.session.db.tables.users
            a)
login_lem_example = login_lem env checkpw (some " ana ") (some "x") none none world

abbrev with_bob : World
with_bob = record world { session = (create_in_local "bob" "hashed" "viewer" world.session).1 }

created_signs_in_example :
    ((login env checkpw (some "bob") (some "secret") none none with_bob).0
      ≡ ok (redirect (text_or "/" none), some world.session.db.sequences.users_id))
    × ((load_user world.session.db.sequences.users_id with_bob).0
        ≡ ok (
            some (record {
              id = world.session.db.sequences.users_id;
              username = "bob";
              role = "viewer";
            })))
unfolding create_in_local with_conn leave execute local_tx add_user select_user find_user
    insert_user text_length Session.◌>>=◌ strip
created_signs_in_example =
    created_signs_in env checkpw "bob" "secret" "hashed" "viewer" none none world.session with_bob
      refl refl refl (omega arith, tt) refl refl refl
