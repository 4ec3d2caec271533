-- ===== src/Values.antt =====
-- The JSON values that a request or a message brings, Python's truth test, and results of code
-- that may raise. A value inside a body that is neither None nor a text is kept by its kind, its
-- truth value and its `str()`: the program looks no further into it.
use soc_dashboard.Common.{
  ℕ, String, Bool, true, false, not, Option, none, some, [], ◌==◌, text_eq, strip, if◌then◌else◌,
}
use soc_dashboard.Common.{Dict, lookup, ◌≡◌, refl, ◌⊎◌, inl, inr}

-- The exceptions that the program raises or meets. `http` is Werkzeug's HTTPException, which
-- `abort(code, description)` raises.
pub data Exn : Type 0 where
  http : (code : ℕ) → (description : String) → Exn
  attribute_error type_error value_error lookup_error recursion_error os_error database_error
        redis_error model_error :
      Exn

pub data Result {ℓ} (A : Type ℓ) : Type ℓ where
  ok : A → Result A
  err : Exn → Result A

infixl 5 ◌>>=◌ ◌>>◌
abbrev pub ◌>>=◌ {ℓ κ} : {A : Type ℓ} {B : Type κ} → Result A → (A → Result B) → Result B
ok a >>= f = f a
err e >>= f = err e

abbrev pub ◌>>◌ {ℓ κ} : {A : Type ℓ} {B : Type κ} → Result A → Result B → Result B
m >> k = m >>= λ _. k

pub bind-eq-ok {ℓ κ} :
    {A : Type ℓ} {B : Type κ} (m : Result A) (f : A → Result B) (b : B)
    → (m >>= f) ≡ ok b
    → (a : A) × (m ≡ ok a) × (f a ≡ ok b)
bind-eq-ok (ok a) f b h = (a, refl, h)
bind-eq-ok (err e) f b h = absurd (cc)

pub data Kind : Type 0 where
  boolean number array mapping : Kind

pub data Value : Type 0 where
  null : Value
  str : String → Value
  other : (kind : Kind) → (truth : Bool) → (text : String) → Value

pub data Json : Type 0 where
  scalar : Value → Json
  object : Dict Value → Json

-- `bool(v)`
unfoldable pub truthy : Value → Bool
truthy null = false
truthy (str s) = not (s == "")
truthy (other _ truth _) = truth

-- `v or None`
unfoldable pub or_none : Value → Value
unfolding truthy
or_none v = if truthy v then v else null

-- `body.get(key)`
unfoldable pub get : String → Dict Value → Value
unfolding lookup
get key body = elim (lookup key body) [ none ↦ null | some v ↦ v ]

-- `(v or "").strip()`: a truthy value that is no text has no `strip`.
unfoldable pub strip_value : Value → Result String
strip_value null = ok ""
strip_value (str s) = ok (strip s)
strip_value (other _ false _) = ok ""
strip_value (other _ true _) = err attribute_error

-- `request.get_json(silent=True) or {}`, up to the first `body.get`, which a truthy value that is
-- no dict does not have. `none` is a request whose JSON does not parse.
unfoldable pub as_body : Option Json → Result (Dict Value)
unfolding truthy
as_body none = ok []
as_body (some (scalar v)) = if truthy v then err attribute_error else ok []
as_body (some (object fields)) = ok fields

-- To split on how a computation ends.
pub Result-cases {ℓ} :
    {A : Type ℓ} (r : Result A) → ((a : A) × (r ≡ ok a)) ⊎ ((e : Exn) × (r ≡ err e))
Result-cases (ok a) = inl (a, refl)
Result-cases (err e) = inr (e, refl)

pub ok-injective {ℓ} : {A : Type ℓ} {a b : A} → ok a ≡ ok b → a ≡ b
ok-injective e = cc

pub err-injective {ℓ} : {A : Type ℓ} {x y : Exn} → ◌≡◌ {A = Result A} (err x) (err y) → x ≡ y
err-injective e = cc

pub err-ok {ℓ} : {A : Type ℓ} {x : Exn} {a : A} → err x ≡ ok a → ⊥
err-ok e = cc
