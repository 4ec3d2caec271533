-- ===== src/Db/Settles.antt =====
-- Blocks on a cursor that return unless a call fails, and what holds then.
use soc_dashboard.Common.{ℕ, ◌≡◌, ◌≢◌, refl, sym, ◌∙◌, ap, ◌⊎◌, inl, inr, true, [], Bool-cases}
use soc_dashboard.Values.{Exn, Result, ok, err, database_error}
use soc_dashboard.Db.{Db}
use soc_dashboard.Db.Session.{
  Session, Tx, pure, lift, execute, fails, later, spend, ◌>>=◌, with_conn, leave, rollback,
}
use soc_dashboard.Db.Ensures.{after}
use soc_dashboard.Db.Quiet.{then-ok}

-- From s, `m` returns a value that satisfies Q with the state after it, and where no call was to
-- fail none is still to; or it raises, and some call was to fail.
pub record Settles {A : Type 0} (m : Tx A) (s : Session) (Q : A → Session → Type 0) : Type 0 where
  pub at :
      ((a : A) × (s' : Session) × (m s ≡ (ok a, s')) × (s.faults ≡ [] → s'.faults ≡ []) × Q a s')
      ⊎ ((e : Exn) × (s' : Session) × (m s ≡ (err e, s')) × (s.faults ≢ []))

pub failing : (s : Session) → fails s.faults ≡ true → s.faults ≢ []
failing s h e = let clash : fails [] ≡ true = ap fails (sym e) ∙ h in absurd (cc)

module _ {A : Type 0} where
  pub Settles-pure : (a : A) (s : Session) (Q : A → Session → Type 0) → Q a s → Settles (pure a) s Q
  Settles-pure a s Q q = record { at = inl (a, s, refl, λ h. h, q) }

  -- A statement that the database does not refuse.
  pub Settles-execute :
      (statement : ℕ → Db → Result A × Db) (s : Session) (Q : A → Session → Type 0) (a : A) (d : Db)
      → statement s.now s.db ≡ (ok a, d)
      → Q a (after s d)
      → Settles (execute statement) s Q
  unfolding execute
  Settles-execute statement s Q a d e q = elim (Bool-cases (fails s.faults)) [
    | inl lost ↦ record { at = inr (database_error, spend s, rw lost refl, failing s lost) }
    | inr fine ↦ record { at = inl (a, after s d, rw (fine, e) refl, λ h. ap later h, q) }
  ]

err-then :
    {A B : Type 0} (m : Tx A) (f : A → Tx B) (s s' : Session) (e : Exn)
    → m s ≡ (err e, s')
    → (m >>= f) s ≡ (err e, s')
unfolding ◌>>=◌
err-then m f s s' x e = ap (λ o. (lift o.0 >>= f) o.1) e

pub Settles-bind :
    {A B : Type 0} (m : Tx B) (f : B → Tx A) (s : Session) (R : B → Session → Type 0)
    (Q : A → Session → Type 0)
    → Settles m s R
    → ((b : B) (s' : Session) → R b s' → Settles (f b) s' Q)
    → Settles (m >>= f) s Q
Settles-bind m f s R Q h k = elim h.at [
  | inr (e, s', raised, faulty) ↦ record { at = inr (e, s', err-then m f s s' e raised, faulty) }
  | inl (b, s', done, calm, r) ↦ elim (k b s' r).at [
    | inl (a, t, done', calm', q) ↦ record {
      at = inl (a, t, then-ok m f s s' b done ∙ done', λ h. calm' (calm h), q);
    }
    | inr (e, t, raised, faulty) ↦ record {
      at = inr (e, t, then-ok m f s s' b done ∙ raised, λ h. faulty (calm h));
    }
  ]
]

pub Settles-execute_then :
    {A B : Type 0} (statement : ℕ → Db → Result B × Db) (f : B → Tx A) (s : Session)
    (Q : A → Session → Type 0) (b : B) (d : Db)
    → statement s.now s.db ≡ (ok b, d)
    → Settles (f b) (after s d) Q
    → Settles (execute statement >>= f) s Q
Settles-execute_then statement f s Q b d e h =
    Settles-bind (execute statement) f s (λ c s'. (c ≡ b) × (s' ≡ after s d)) Q
      (Settles-execute statement s _ b d e (refl, refl)) (λ c s' k. rw (k.0, k.1) h)

pub Settles-lift_then :
    {A B : Type 0} (r : Result B) (f : B → Tx A) (s : Session) (Q : A → Session → Type 0) (b : B)
    → r ≡ ok b
    → Settles (f b) s Q
    → Settles (lift r >>= f) s Q
unfolding ◌>>=◌
Settles-lift_then r f s Q b e h = rw e h

pub Settles-imp :
    {A : Type 0} (m : Tx A) (s : Session) (R Q : A → Session → Type 0)
    → Settles m s R
    → ((a : A) (s' : Session) → R a s' → Q a s')
    → Settles m s Q
Settles-imp m s R Q h k = elim h.at [
  | inl (a, s', e, calm, r) ↦ record { at = inl (a, s', e, calm, k a s' r) }
  | inr (e, s', raised, faulty) ↦ record { at = inr (e, s', raised, faulty) }
]

pub Settles-with_conn :
    {A : Type 0} (body : Tx A) (s : Session) (R : A → Db → Type 0)
    → Settles body (spend s) (λ a s'. R a s'.db)
    → Settles (with_conn body) s (λ a s'. R a s'.db)
unfolding with_conn leave
Settles-with_conn body s R h = elim (Bool-cases (fails s.faults)) [
  | inl lost ↦ record { at = inr (database_error, spend s, rw lost refl, failing s lost) }
  | inr fine ↦ elim h.at [
    | inr (e, s', raised, faulty) ↦ record {
      at = inr (e, rollback s s', rw (fine, raised) refl, λ k. faulty (ap later k));
    }
    | inl (a, s', done, calm, r) ↦ elim (Bool-cases (fails s'.faults)) [
      | inl lost ↦ record {
        at = inr (
          database_error,
          rollback s (spend s'),
          rw (fine, done, lost) refl,
          λ k. failing s' lost (calm (ap later k)),
        );
      }
      | inr fine' ↦ record {
        at = inl (a, spend s', rw (fine, done, fine') refl, λ k. ap later (calm (ap later k)), r);
      }
    ]
  ]
]
