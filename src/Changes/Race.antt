-- ===== src/Changes/Race.antt =====
-- Two classify calls on one alert at the same time. A call reads in a SELECT that locks nothing, so
-- the other may read before it writes; from the UPDATE on it holds the row's lock until it commits,
-- so the second half of one call is not interleaved with that of the other.
use soc_dashboard.Common.{ℕ, String, nat_eq, text_eq}
use soc_dashboard.Values.{Exn, Result, ok, err}
use soc_dashboard.Db.{Alert}
use soc_dashboard.Db.Session.{Session, leave}
use soc_dashboard.World.{Env}
use soc_dashboard.Access.{User}
use soc_dashboard.Requests.{Verdict}
use soc_dashboard.Changes.{look_tx, close_tx}

-- A call whose request was accepted.
pub record Call : Type 0 where
  pub user : User
  pub analyst : String
  pub verdict : Verdict

-- Where a call is: it has read the row, committed, or raised.
pub data Stage : Type 0 where
  begun : Stage
  has_read : Alert → Stage
  has_closed : Alert → Stage
  has_raised : Exn → Stage

pub record Race : Type 0 where
  pub session : Session
  pub first : Stage
  pub second : Stage

abbrev pub race : Session → Stage → Stage → Race
race s t u = record { session = s; first = t; second = u }

abbrev pub read_stage : Result Alert → Stage
read_stage (ok a) = has_read a
read_stage (err e) = has_raised e

abbrev pub close_stage : Result Alert → Stage
close_stage (ok a) = has_closed a
close_stage (err e) = has_raised e

-- The second half of a call with its commit.
abbrev pub close_turn : Env → ℕ → Call → Alert → Session → Result Alert × Session
close_turn env alert_id c a s = leave s (close_tx env c.user alert_id c.analyst c.verdict a s)

-- One call goes on.
pub data Turn (env : Env) (alert_id : ℕ) (p q : Call) : Race → Race → Type 0 where
  first_reads :
      (s : Session) (t : Stage)
      → Turn env alert_id p q (race s begun t) (record {
        session = (look_tx alert_id s).1;
        first = read_stage (look_tx alert_id s).0;
        second = t;
      })
  second_reads :
      (s : Session) (t : Stage)
      → Turn env alert_id p q (race s t begun) (record {
        session = (look_tx alert_id s).1;
        first = t;
        second = read_stage (look_tx alert_id s).0;
      })
  first_closes :
      (s : Session) (a : Alert) (t : Stage)
      → Turn env alert_id p q (race s (has_read a) t) (record {
        session = (close_turn env alert_id p a s).1;
        first = close_stage (close_turn env alert_id p a s).0;
        second = t;
      })
  second_closes :
      (s : Session) (a : Alert) (t : Stage)
      → Turn env alert_id p q (race s t (has_read a)) (record {
        session = (close_turn env alert_id q a s).1;
        first = t;
        second = close_stage (close_turn env alert_id q a s).0;
      })

pub data Turns (env : Env) (alert_id : ℕ) (p q : Call) (start : Race) : Race → Type 0 where
  no_turn : Turns env alert_id p q start start
  then_turn :
      {r r' : Race}
      → Turns env alert_id p q start r
      → Turn env alert_id p q r r'
      → Turns env alert_id p q start r'
