-- ===== src/Db/Ensures.antt =====
-- What holds when a block on a cursor has returned, one rule for each way to build a block.
use soc_dashboard.Common.{ℕ, ◌≡◌, refl, subst, Bool-cases, inl, inr}
use soc_dashboard.Values.{Result, ok, err, ok-injective}
use soc_dashboard.Db.{Db}
use soc_dashboard.Db.Session.{Session, Tx, pure, lift, execute, fails, spend, ◌>>=◌}

-- If `m` returns from `s`, its value and the state after it satisfy Q.
pub record Ensures {A : Type 0} (m : Tx A) (s : Session) (Q : A → Session → Type 0) : Type 0 where
  pub at : (a : A) → (m s).0 ≡ ok a → Q a (m s).1

-- The state after a statement that did not fail.
abbrev pub after : Session → Db → Session
after s d = record (spend s) { db = d }

module _ {A : Type 0} where
  pub Ensures-pure : (a : A) (s : Session) (Q : A → Session → Type 0) → Q a s → Ensures (pure a) s Q
  Ensures-pure a s Q q = record { at = λ b e. subst (λ c. Q c s) (ok-injective e) q }

  pub Ensures-lift :
      (r : Result A) (s : Session) (Q : A → Session → Type 0)
      → ((a : A) → r ≡ ok a → Q a s)
      → Ensures (lift r) s Q
  Ensures-lift r s Q h = record { at = h }

  pub Ensures-execute :
      (statement : ℕ → Db → Result A × Db) (s : Session) (Q : A → Session → Type 0)
      → ((a : A) → (statement s.now s.db).0 ≡ ok a → Q a (after s (statement s.now s.db).1))
      → Ensures (execute statement) s Q
  unfolding execute
  Ensures-execute statement s Q h = elim (Bool-cases (fails s.faults)) [
    | inl lost ↦ record { at = rw lost (λ a e. absurd (cc)) }
    | inr fine ↦ record { at = rw fine h }
  ]

  ensures_on :
      {B : Type 0} (f : B → Tx A) (r : Result B) (s : Session) (Q : A → Session → Type 0) (a : A)
      → ((b : B) → r ≡ ok b → Ensures (f b) s Q)
      → ((lift r >>= f) s).0 ≡ ok a
      → Q a ((lift r >>= f) s).1
  unfolding ◌>>=◌
  ensures_on f (ok b) s Q a h e = (h b refl).at a e
  ensures_on f (err x) s Q a h e = absurd (cc)

  pub Ensures-bind :
      {B : Type 0} (m : Tx B) (f : B → Tx A) (s : Session) (Q : A → Session → Type 0)
      → Ensures m s (λ b s'. Ensures (f b) s' Q)
      → Ensures (m >>= f) s Q
  unfolding ◌>>=◌
  Ensures-bind m f s Q h = record { at = λ a e. ensures_on f (m s).0 (m s).1 Q a h.at e }

-- The two forms that a line of a block takes.
module _ {A B : Type 0} (f : B → Tx A) (s : Session) (Q : A → Session → Type 0) where
  pub Ensures-execute_then :
      (statement : ℕ → Db → Result B × Db)
      → ((b : B)
          → (statement s.now s.db).0 ≡ ok b
          → Ensures (f b) (after s (statement s.now s.db).1) Q)
      → Ensures (execute statement >>= f) s Q
  Ensures-execute_then statement h =
      Ensures-bind (execute statement) f s Q (Ensures-execute statement s _ h)

  pub Ensures-lift_then :
      (r : Result B) → ((b : B) → r ≡ ok b → Ensures (f b) s Q) → Ensures (lift r >>= f) s Q
  Ensures-lift_then r h = Ensures-bind (lift r) f s Q (Ensures-lift r s _ h)
