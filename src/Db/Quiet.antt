-- ===== src/Db/Quiet.antt =====
-- Runs on the database in which no call fails.
use soc_dashboard.Common.{ℕ, [], ◌≡◌, refl, ap}
use soc_dashboard.Values.{Result, ok}
use soc_dashboard.Db.{Db}
use soc_dashboard.Db.Session.{Session, Tx, execute, lift, ◌>>=◌, leave, with_conn}

abbrev pub quiet_session : Db → ℕ → Session
quiet_session d now = record { db = d; faults = []; now = now }

module _ {A : Type 0} (d d' : Db) (now : ℕ) (a : A) where
  pub execute-ok :
      (statement : ℕ → Db → Result A × Db)
      → statement now d ≡ (ok a, d')
      → execute statement (quiet_session d now) ≡ (ok a, quiet_session d' now)
  unfolding execute
  execute-ok statement e = rw e refl

  pub with_conn-ok :
      (body : Tx A)
      → body (quiet_session d now) ≡ (ok a, quiet_session d' now)
      → with_conn body (quiet_session d now) ≡ (ok a, quiet_session d' now)
  unfolding with_conn leave
  with_conn-ok body e = rw e refl

pub then-ok :
    {A B : Type 0} (m : Tx A) (f : A → Tx B) (s s' : Session) (a : A)
    → m s ≡ (ok a, s')
    → (m >>= f) s ≡ f a s'
unfolding ◌>>=◌
then-ok m f s s' a e = ap (λ o. (lift o.0 >>= f) o.1) e
