-- ===== src/System/Growth.antt =====
-- Blocks of statements keep the stored rows sound, one rule for each way to build a block; a failed
-- block restores the rows and not the sequences.
use soc_dashboard.Common.{ℕ, Bool-cases, inl, inr}
use soc_dashboard.Values.{Result, ok, err}
use soc_dashboard.Db.{Db}
use soc_dashboard.Db.Session.{
  Session, Tx, pure, lift, ◌>>=◌, execute, rollback, leave, with_conn, spend, fails,
}
use soc_dashboard.World.{World, in_db}
use soc_dashboard.World.Frame.{IsFrame, Keeps}
use soc_dashboard.System.Statements.{Grows, Grows-refl, Grows-trans, Sound-later}

pub record TxGrows {A : Type 0} (m : Tx A) : Type 0 where
  pub at : (s : Session) → Grows s.db (m s).1.db

pub rollback-Grows : (s s' : Session) → Grows s.db s'.db → Grows s.db (rollback s s').db
unfolding rollback
rollback-Grows s s' g = record {
  later = g.later;
  kept = λ k. Sound-later s.db.tables s.db.sequences s'.db.sequences g.later k;
}

module _ {A : Type 0} where
  pub TxGrows-pure : (a : A) → TxGrows (pure a)
  TxGrows-pure a = record { at = λ s. Grows-refl s.db }

  pub TxGrows-lift : (r : Result A) → TxGrows (lift r)
  TxGrows-lift r = record { at = λ s. Grows-refl s.db }

  pub TxGrows-execute :
      (statement : ℕ → Db → Result A × Db)
      → ((now : ℕ) (d : Db) → Grows d (statement now d).1)
      → TxGrows (execute statement)
  unfolding execute
  TxGrows-execute statement h = record {
    at = λ s. elim (Bool-cases (fails s.faults)) [
      | inl lost ↦ rw lost (Grows-refl s.db)
      | inr fine ↦ rw fine (h s.now s.db)
    ];
  }

  go_on_tx :
      {B : Type 0} (f : B → Tx A) (r : Result B) (s : Session)
      → ((b : B) → TxGrows (f b))
      → Grows s.db ((lift r >>= f) s).1.db
  unfolding ◌>>=◌
  go_on_tx f (ok b) s h = (h b).at s
  go_on_tx f (err e) s h = Grows-refl s.db

  pub TxGrows-bind :
      {B : Type 0} (m : Tx B) (f : B → Tx A)
      → TxGrows m
      → ((b : B) → TxGrows (f b))
      → TxGrows (m >>= f)
  unfolding ◌>>=◌
  TxGrows-bind m f hm hf = record {
    at = λ s. Grows-trans s.db (m s).1.db _ (hm.at s) (go_on_tx f (m s).0 (m s).1 hf);
  }

  leave-Grows :
      (s : Session) (r : Result A) (s' : Session)
      → Grows s.db s'.db
      → Grows s.db (leave s (r, s')).1.db
  unfolding leave
  leave-Grows s (err e) s' g = rollback-Grows s s' g
  leave-Grows s (ok a) s' g = elim (Bool-cases (fails s'.faults)) [
    | inl lost ↦ rw lost (rollback-Grows s (spend s') g)
    | inr fine ↦ rw fine g
  ]

  pub with_conn-Grows :
      (body : Tx A) (s : Session) → TxGrows body → Grows s.db (with_conn body s).1.db
  unfolding with_conn
  with_conn-Grows body s h = elim (Bool-cases (fails s.faults)) [
    | inl lost ↦ rw lost (Grows-refl s.db)
    | inr fine ↦ rw fine (leave-Grows s (body (spend s)).0 (body (spend s)).1 (h.at (spend s)))
  ]

pub ruleset tx_rules = (TxGrows-pure, TxGrows-lift, TxGrows-execute, TxGrows-bind)

-- The same of the whole world, for the rules of `Keeps`.
abbrev pub DbGrows : World → World → Type 0
DbGrows w w' = Grows w.session.db w'.session.db

pub DbGrows-frame : IsFrame DbGrows
DbGrows-frame = record {
  same = λ w. Grows-refl w.session.db;
  chain = λ u v w g h. Grows-trans u.session.db v.session.db w.session.db g h;
}

pub Keeps-in_db : {A : Type 0} (body : Tx A) → TxGrows body → Keeps DbGrows (in_db body)
unfolding in_db
Keeps-in_db body h = record { at = λ w. with_conn-Grows body w.session h }
