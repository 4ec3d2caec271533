-- ===== src/System/Sound.antt =====
-- What the constraints of schema.sql promise of the stored rows, and the numbers that the sequences
-- have given out.
use soc_dashboard.Common.{
  ℕ, ◌<◌, ◌≡◌, refl, Bool, true, false, ◌||◌, List, [], ◌∷◌, ◌++◌, All, arith, nat_eq, text_eq,
  filter, Bool-cases, inl, inr,
}
use soc_dashboard.Db.{Alert, UserRow, Tables, Sequences}
use soc_dashboard.Db.Statements.{has_alert, has_user, update_rows}

-- No two alerts share an id; no two accounts share a name.
abbrev pub DistinctIds : List Alert → Type 0
DistinctIds [] = Unit
DistinctIds (a ∷ rest) = (has_alert a.id rest ≡ false) × DistinctIds rest

-- The rows that refer to alerts.
abbrev pub OfAlerts : List Alert → Tables → Type 0
OfAlerts alerts t =
    All (λ r. has_alert r.alert_id alerts ≡ true) t.analyst_actions
    × All (λ r. has_alert r.alert_id alerts ≡ true) t.audit_log
    × All (λ r. has_alert r.alert_id alerts ≡ true) t.alert_embeddings

pub record IsSound (t : Tables) (q : Sequences) : Type 0 where
  pub below : All (λ a. a.id < q.alerts_id) t.alerts
  pub distinct : DistinctIds t.alerts
  pub of_alerts : OfAlerts t.alerts t
  pub of_users : All (λ r. has_user r.user_id t.users ≡ true) t.audit_log

pub has_alert-append :
    (key : ℕ) (xs ys : List Alert)
    → has_alert key (xs ++ ys) ≡ (has_alert key xs || has_alert key ys)
unfolding has_alert
has_alert-append key [] ys = refl
has_alert-append key (x ∷ xs) ys = ground (arith, has_alert-append key xs ys)

pub has_alert-update_rows :
    (key id : ℕ) (change : Alert → Alert) (rows : List Alert)
    → ((a : Alert) → (change a).id ≡ a.id)
    → has_alert key (update_rows id change rows) ≡ has_alert key rows
unfolding has_alert update_rows
has_alert-update_rows key id change [] h = refl
has_alert-update_rows key id change (a ∷ rows) h =
    ground (arith, has_alert-update_rows key id change rows h, h a)

pub has_user-append :
    (key : ℕ) (xs ys : List UserRow)
    → has_user key (xs ++ ys) ≡ (has_user key xs || has_user key ys)
unfolding has_user
has_user-append key [] ys = refl
has_user-append key (x ∷ xs) ys = ground (arith, has_user-append key xs ys)

-- An id that was not given out yet is not there.
pub fresh_id :
    (key : ℕ) (rows : List Alert) → All (λ a. a.id < key) rows → has_alert key rows ≡ false
unfolding has_alert
fresh_id key [] h = refl
fresh_id key (a ∷ rows) h = ground (arith, fresh_id key rows h.1, h.0)

pub DistinctIds-append :
    (rows : List Alert) (row : Alert)
    → DistinctIds rows
    → has_alert row.id rows ≡ false
    → DistinctIds (rows ++ row ∷ [])
unfolding has_alert
DistinctIds-append [] row h e = (refl, tt)
DistinctIds-append (a ∷ rows) row h e =
    ground (arith, has_alert-append a.id rows (row ∷ []), DistinctIds-append rows row h.1)

pub DistinctIds-update_rows :
    (id : ℕ) (change : Alert → Alert) (rows : List Alert)
    → ((a : Alert) → (change a).id ≡ a.id)
    → DistinctIds rows
    → DistinctIds (update_rows id change rows)
unfolding update_rows
DistinctIds-update_rows id change [] h d = tt
DistinctIds-update_rows id change (a ∷ rows) h d = (
  ground (arith, has_alert-update_rows a.id id change rows h, h a, d.0),
  DistinctIds-update_rows id change rows h d.1,
)

pub has_alert-filter :
    (p : Alert → Bool) (key : ℕ) (rows : List Alert)
    → has_alert key rows ≡ false
    → has_alert key (filter p rows) ≡ false
unfolding has_alert
has_alert-filter p key [] h = refl
has_alert-filter p key (a ∷ rows) h = ground (arith, has_alert-filter p key rows)

pub DistinctIds-filter :
    (p : Alert → Bool) (rows : List Alert) → DistinctIds rows → DistinctIds (filter p rows)
DistinctIds-filter p [] d = tt
DistinctIds-filter p (a ∷ rows) d = elim (Bool-cases (p a)) [
  | inl e ↦ rw e (has_alert-filter p a.id rows d.0, DistinctIds-filter p rows d.1)
  | inr e ↦ rw e (DistinctIds-filter p rows d.1)
]

pub All-filter_imp :
    {A : Type 0} (P : A → Type 0) (p : A → Bool) (xs : List A) → All P xs → All P (filter p xs)
All-filter_imp P p [] h = tt
All-filter_imp P p (x ∷ xs) h = elim (Bool-cases (p x)) [
  | inl e ↦ rw e (h.0, All-filter_imp P p xs h.1)
  | inr e ↦ rw e (All-filter_imp P p xs h.1)
]
