-- ===== src/Db/Atomicity.antt =====
-- What a `with` block on a connection leaves behind, whichever of its calls fails.
use soc_dashboard.Common.{◌≡◌, ◌⊎◌, inl, inr, refl, Bool-cases}
use soc_dashboard.Values.{Exn, Result, ok, err, database_error}
use soc_dashboard.Db.Session.{Session, Tx, fails, spend, rollback, leave, with_conn}

-- A block that raised: the tables are what they were.
pub record RolledBack {A : Type 0} (before : Session) (out : Result A × Session) : Type 0 where
  pub error : Exn
  pub raised : out.0 ≡ err error
  pub tables : out.1.db.tables ≡ before.db.tables

-- A block that ended well: its body did, and the tables are those that the body left.
pub record Committed {A : Type 0} (before : Session) (body : Tx A) (out : Result A × Session)
    : Type 0 where
  pub value : A
  pub returned : out.0 ≡ ok value
  pub ran : (body (spend before)).0 ≡ ok value
  pub db : out.1.db ≡ (body (spend before)).1.db

leave-cases :
    {A : Type 0} (before : Session) (out : Result A × Session)
    → RolledBack before (leave before out)
      ⊎ ((a : A) × (out.0 ≡ ok a)
          × ((leave before out).0 ≡ ok a)
          × ((leave before out).1.db ≡ out.1.db))
unfolding leave rollback
leave-cases before (err e, after) = inl (record { error = e; raised = refl; tables = refl })
leave-cases before (ok a, after) = elim (Bool-cases (fails after.faults)) [
  | inl lost ↦ rw lost (inl (record { error = database_error; raised = refl; tables = refl }))
  | inr fine ↦ rw fine (inr (a, refl, refl, refl))
]

-- Either a block raised and left the tables alone, or all that its body wrote was kept.
pub with_conn-cases :
    {A : Type 0} (body : Tx A) (s : Session)
    → RolledBack s (with_conn body s) ⊎ Committed s body (with_conn body s)
unfolding with_conn
with_conn-cases body s = elim (Bool-cases (fails s.faults)) [
  | inl lost ↦ rw lost (inl (record { error = database_error; raised = refl; tables = refl }))
  | inr fine ↦ rw fine (elim (leave-cases (spend s) (body (spend s))) [
    | inl back ↦ inl (record { error = back.error; raised = back.raised; tables = back.tables })
    | inr (a, ran, returned, kept) ↦
        inr (record { value = a; returned = returned; ran = ran; db = kept })
  ])
]
