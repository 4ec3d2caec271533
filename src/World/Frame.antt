-- ===== src/World/Frame.antt =====
-- Relations between the state before a piece of code and the state after it, one rule for each way
-- to build code. Both ways to end, a return and a raise, are meant.
use soc_dashboard.Common.{◌≡◌, refl, ap, subst, Bool, true, false, if◌then◌else◌}
use soc_dashboard.Values.{Exn, Result, ok, err, ok-injective, err-injective}
use soc_dashboard.World.{World, App, pure, raise, lift, ◌>>=◌}

-- A relation that code may keep step by step.
pub record IsFrame (R : World → World → Type 0) : Type 0 where
  pub same : (w : World) → R w w
  pub chain : (u v w : World) → R u v → R v w → R u w

pub record Keeps {A : Type 0} (R : World → World → Type 0) (m : App A) : Type 0 where
  pub at : (w : World) → R w (m w).1

module _ {R : World → World → Type 0} (frame : IsFrame R) where
  pub Keeps-pure : {A : Type 0} (a : A) → Keeps R (pure a)
  Keeps-pure a = record { at = λ w. frame.same w }

  pub Keeps-raise : {A : Type 0} (e : Exn) → Keeps R (raise {A = A} e)
  Keeps-raise e = record { at = λ w. frame.same w }

  pub Keeps-lift : {A : Type 0} (r : Result A) → Keeps R (lift r)
  Keeps-lift r = record { at = λ w. frame.same w }

  pub Keeps-if :
      {A : Type 0} (b : Bool) (m n : App A) → Keeps R m → Keeps R n → Keeps R (if b then m else n)
  Keeps-if true m n km kn = km
  Keeps-if false m n km kn = kn

  go_on :
      {A B : Type 0} (f : A → App B) (r : Result A) (w : World)
      → ((a : A) → Keeps R (f a))
      → R w ((lift r >>= f) w).1
  go_on f (ok a) w kf = (kf a).at w
  go_on f (err e) w kf = frame.same w

  pub Keeps-bind :
      {A B : Type 0} (m : App A) (f : A → App B)
      → Keeps R m
      → ((a : A) → Keeps R (f a))
      → Keeps R (m >>= f)
  Keeps-bind m f km kf = record {
    at = λ w. frame.chain w (m w).1 _ (km.at w) (go_on f (m w).0 (m w).1 kf);
  }

  -- Where the rest of the code may use what the first part returned.
  pub Keeps-bind_of :
      {A B : Type 0} (r : Result A) (f : A → App B)
      → ((a : A) → r ≡ ok a → Keeps R (f a))
      → Keeps R (lift r >>= f)
  Keeps-bind_of (ok a) f kf = record { at = (kf a refl).at }
  Keeps-bind_of (err e) f kf = record { at = frame.same }

pub ruleset keeps_rules = (Keeps-pure, Keeps-raise, Keeps-lift, Keeps-if, Keeps-bind)

-- What code returns, if it returns, satisfies P.
pub record Yields {A : Type 0} (P : A → Type 0) (m : App A) : Type 0 where
  pub at : (w : World) (a : A) → (m w).0 ≡ ok a → P a

module _ {A : Type 0} {P : A → Type 0} where
  pub Yields-pure : (a : A) → P a → Yields P (pure a)
  Yields-pure a h = record { at = λ w b e. subst P (cc) h }

  yield_on :
      {B : Type 0} (f : B → App A) (r : Result B) (w : World) (a : A)
      → ((b : B) → Yields P (f b))
      → ((lift r >>= f) w).0 ≡ ok a
      → P a
  yield_on f (ok b) w a yf e = (yf b).at w a e
  yield_on f (err x) w a yf e = absurd (cc)

  pub Yields-bind :
      {B : Type 0} (m : App B) (f : B → App A) → ((b : B) → Yields P (f b)) → Yields P (m >>= f)
  Yields-bind m f yf = record { at = λ w a e. yield_on f (m w).0 (m w).1 a yf e }

pub ruleset yields_rules = (Yields-pure, Yields-bind)

-- One step of code whose first part has been run.
module _ {A B : Type 0} (m : App A) (f : A → App B) (w : World) where
  bind_at : (r : Result A) (w' : World) (a : A) → r ≡ ok a → ((lift r >>= f) w') ≡ f a w'
  bind_at (ok b) w' a e = ap (λ c. f c w') (ok-injective e)
  bind_at (err x) w' a e = absurd (cc)

  pub bind-ok : (a : A) → (m w).0 ≡ ok a → (m >>= f) w ≡ f a (m w).1
  bind-ok a e = bind_at (m w).0 (m w).1 a e

  raise_at : (r : Result A) (w' : World) (x : Exn) → r ≡ err x → ((lift r >>= f) w') ≡ (err x, w')
  raise_at (ok b) w' x e = absurd (cc)
  raise_at (err y) w' x e = ap (λ z. (err z, w')) (err-injective e)

  pub bind-err : (x : Exn) → (m w).0 ≡ err x → (m >>= f) w ≡ (err x, (m w).1)
  bind-err x e = raise_at (m w).0 (m w).1 x e

pub bind-cong :
    {A B : Type 0} (m m' : App A) (f : A → App B) (w w' : World)
    → m w ≡ m' w'
    → (m >>= f) w ≡ (m' >>= f) w'
bind-cong m m' f w w' e = ap (λ o. (lift o.0 >>= f) o.1) e
