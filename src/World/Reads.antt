-- ===== src/World/Reads.antt =====
-- Code that only reads the database, one rule for each way to build it.
use soc_dashboard.Common.{ℕ, ◌≡◌, refl, ap, ◌∙◌, Bool-cases, inl, inr}
use soc_dashboard.Values.{Result, ok, err}
use soc_dashboard.Db.{Db}
use soc_dashboard.Db.Session.{
  Session, Tx, pure, lift, ◌>>=◌, execute, rollback, leave, with_conn, spend, fails,
}
use soc_dashboard.World.{World, in_db}
use soc_dashboard.World.Frame.{IsFrame, Keeps}

pub record ReadsOnly {A : Type 0} (m : Tx A) : Type 0 where
  pub at : (s : Session) → (m s).1.db ≡ s.db

module _ {A : Type 0} where
  pub ReadsOnly-pure : (a : A) → ReadsOnly (pure a)
  ReadsOnly-pure a = record { at = λ s. refl }

  pub ReadsOnly-lift : (r : Result A) → ReadsOnly (lift r)
  ReadsOnly-lift r = record { at = λ s. refl }

  pub ReadsOnly-execute :
      (statement : ℕ → Db → Result A × Db)
      → ((now : ℕ) (d : Db) → (statement now d).1 ≡ d)
      → ReadsOnly (execute statement)
  unfolding execute
  ReadsOnly-execute statement h = record {
    at = λ s. elim (Bool-cases (fails s.faults)) [
      | inl lost ↦ rw lost refl
      | inr fine ↦ rw fine (h s.now s.db)
    ];
  }

  read_on :
      {B : Type 0} (f : B → Tx A) (r : Result B) (s : Session)
      → ((b : B) → ReadsOnly (f b))
      → ((lift r >>= f) s).1.db ≡ s.db
  unfolding ◌>>=◌
  read_on f (ok b) s h = (h b).at s
  read_on f (err e) s h = refl

  pub ReadsOnly-bind :
      {B : Type 0} (m : Tx B) (f : B → Tx A)
      → ReadsOnly m
      → ((b : B) → ReadsOnly (f b))
      → ReadsOnly (m >>= f)
  unfolding ◌>>=◌
  ReadsOnly-bind m f hm hf = record { at = λ s. read_on f (m s).0 (m s).1 hf ∙ hm.at s }

  leave-same :
      (s : Session) (r : Result A) (s' : Session) → s'.db ≡ s.db → (leave s (r, s')).1.db ≡ s.db
  unfolding leave rollback
  leave-same s (err e) s' h =
      ap (λ (d : Db). record { tables = s.db.tables; sequences = d.sequences }) h
  leave-same s (ok a) s' h = elim (Bool-cases (fails s'.faults)) [
    | inl lost ↦
        rw lost (ap (λ (d : Db). record { tables = s.db.tables; sequences = d.sequences }) h)
    | inr fine ↦ rw fine h
  ]

  pub with_conn-same : (body : Tx A) (s : Session) → ReadsOnly body → (with_conn body s).1.db ≡ s.db
  unfolding with_conn
  with_conn-same body s h = elim (Bool-cases (fails s.faults)) [
    | inl lost ↦ rw lost refl
    | inr fine ↦ rw fine (leave-same s (body (spend s)).0 (body (spend s)).1 (h.at (spend s)))
  ]

pub ruleset read_rules = (ReadsOnly-pure, ReadsOnly-lift, ReadsOnly-execute, ReadsOnly-bind)

abbrev pub SameDb : World → World → Type 0
SameDb w w' = w'.session.db ≡ w.session.db

pub SameDb-frame : IsFrame SameDb
SameDb-frame = record { same = λ w. refl; chain = λ u v w g h. h ∙ g }

pub Reads-in_db : {A : Type 0} (body : Tx A) → ReadsOnly body → Keeps SameDb (in_db body)
unfolding in_db
Reads-in_db body h = record { at = λ w. with_conn-same body w.session h }
