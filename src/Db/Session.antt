-- ===== src/Db/Session.antt =====
-- A psycopg2 connection. Every call to a service outside the process may fail: the environment
-- decides by a list, one entry for each call (connect, execute, commit, a Redis publish); past its
-- end nothing fails.
use soc_dashboard.Common.{ℕ, Bool, false, List, [], ◌∷◌, if◌then◌else◌}
use soc_dashboard.Values.{Result, ok, err, database_error}
use soc_dashboard.Db.{Db}

pub record Session : Type 0 where
  pub db : Db
  pub faults : List Bool
  pub now : ℕ

abbrev pub fails : List Bool → Bool
fails [] = false
fails (f ∷ _) = f

abbrev pub later : List Bool → List Bool
later [] = []
later (_ ∷ fs) = fs

-- The next outside call has been made.
abbrev pub spend : Session → Session
spend s = record s { faults = later s.faults }

-- What runs on an open cursor.
abbrev pub Tx : Type 0 → Type 0
Tx A = Session → Result A × Session

module _ {A : Type 0} where
  abbrev pub pure : A → Tx A
  pure a s = (ok a, s)

  abbrev pub lift : Result A → Tx A
  lift r s = (r, s)

infixl 5 ◌>>=◌ ◌>>◌
unfoldable pub ◌>>=◌ : {A B : Type 0} → Tx A → (A → Tx B) → Tx B
◌>>=◌ m f s = let (r, s') = m s in elim r [ ok a ↦ f a s' | err e ↦ (err e, s') ]

abbrev pub ◌>>◌ : {A B : Type 0} → Tx A → Tx B → Tx B
m >> k = m >>= λ _. k

-- `cur.execute(…)`, and the fetch of its rows.
unfoldable pub execute : {A : Type 0} → (ℕ → Db → Result A × Db) → Tx A
execute statement s =
    if fails s.faults
    then (err database_error, spend s)
    else let (r, d) = statement s.now s.db in (r, record (spend s) { db = d })

-- The tables go back to what they were; the sequences do not.
unfoldable pub rollback : Session → Session → Session
rollback before after = record after { db = record after.db { tables = before.db.tables } }

-- The end of a `with` block: commit, or roll back and raise again.
unfoldable pub leave : {A : Type 0} → Session → Result A × Session → Result A × Session
unfolding rollback
leave before (err e, after) = (err e, rollback before after)
leave before (ok a, after) =
    if fails after.faults
    then (err database_error, rollback before (spend after))
    else (ok a, spend after)

-- `with get_conn() as conn, conn.cursor() as cur: …`
unfoldable pub with_conn : {A : Type 0} → Tx A → Tx A
unfolding leave
with_conn body s =
    if fails s.faults then (err database_error, spend s) else leave s (body (spend s))
