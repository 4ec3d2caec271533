-- ===== src/Ingest/Built.antt =====
-- The row that an ingest call makes of a body: `_ingest_values` column by column.
use soc_dashboard.Common.{
  ℕ, String, Bool, true, false, ◌≡◌, refl, ap, subst, sym, ◌∙◌, Option, none, some, Dict, lookup,
  ◌==◌, text_eq, if◌then◌else◌, Bool-cases, Option-cases, inl, inr,
}
use soc_dashboard.Values.{
  ok, Value, Kind, null, str, other, bind-eq-ok, get, or_none, truthy, ok-injective, err-ok,
}
use soc_dashboard.Crypto.{Cipher, encrypt_text, encrypt_field}
use soc_dashboard.Db.{Alert}
use soc_dashboard.Db.Statements.{NewAlert, new_row}
use soc_dashboard.World.{Env, bind_value, bind_text}
use soc_dashboard.Validation.{Payload, ingest_values}

-- What is done to a text before it is in a column: nothing, or a function.
abbrev pub Seal : Type 0
Seal = Option (String → String)

abbrev pub sealed : Seal → String → String
sealed none s = s
sealed (some f) s = f s

abbrev pub encrypting : Option Cipher → Seal
encrypting none = none
encrypting (some c) = some c.encrypt

-- What a column holds for a field of a body: NULL where the field is missing or falsy, the sealed
-- text for a text, and for any other value its sealed `str()`, or, without a seal, the text that the
-- driver makes of it.
abbrev pub IsFilled : Env → Seal → Option Value → Option String → Type 0
IsFilled env seal none c = c ≡ none
IsFilled env seal (some null) c = c ≡ none
IsFilled env seal (some (str s)) c = c ≡ (if s == "" then none else some (sealed seal s))
IsFilled env seal (some (other k false text)) c = c ≡ none
IsFilled env none (some (other k true text)) c = c ≡ env.adapt (other k true text)
IsFilled env (some f) (some (other k true text)) c = c ≡ some (f text)

-- A row that was just made of a payload and its body.
pub record IsBuilt (env : Env) (body : Dict Value) (p : Payload) (row : Alert) : Type 0 where
  pub title : row.title ≡ sealed (encrypting env.fernet) p.title
  pub category : row.category ≡ p.category
  pub severity : row.severity ≡ p.severity
  pub source : IsFilled env none (lookup "source" body) row.source
  pub source_ip : IsFilled env (encrypting env.fernet) (lookup "source_ip" body) row.source_ip
  pub description : IsFilled env (encrypting env.fernet) (lookup "description" body) row.description
  pub workflow_run_id : IsFilled env none (lookup "workflow_run_id" body) row.workflow_run_id
  pub run_metadata : IsFilled env none (lookup "run_metadata" body) row.run_metadata
  pub status : row.status ≡ "open"
  pub assigned_to : row.assigned_to ≡ none

module _ (env : Env) where
  bind_str : (s : String) (c : Option String) → bind_value env (str s) ≡ ok c → c ≡ some s
  unfolding bind_value
  bind_str s c h = elim (Bool-cases (env.accepts s)) [
    | inl e ↦ sym (ok-injective (rw e at h))
    | inr e ↦ absurd (err-ok (rw e at h))
  ]

  bind_null : (c : Option String) → bind_value env null ≡ ok c → c ≡ none
  unfolding bind_value
  bind_null c h = sym (ok-injective h)

  text_filled :
      (fernet : Option Cipher) (s : String) (c : Option String)
      → bind_value env (encrypt_field fernet (or_none (str s))) ≡ ok c
      → c ≡ (if s == "" then none else some (sealed (encrypting fernet) s))
  unfolding encrypt_field encrypt_text or_none truthy
  text_filled none s c h = elim (Bool-cases (s == "")) [
    | inl e ↦ rw e (bind_null c (rw e at h))
    | inr e ↦ rw e (bind_str s c (rw e at h))
  ]
  text_filled (some k) s c h = elim (Bool-cases (s == "")) [
    | inl e ↦ rw e (bind_null c (rw e at h))
    | inr e ↦ rw e (bind_str (k.encrypt s) c (rw e at h))
  ]

  bind_other :
      (k : Kind) (truth : Bool) (text : String) (c : Option String)
      → bind_value env (other k truth text) ≡ ok c
      → c ≡ env.adapt (other k truth text)
  unfolding bind_value
  bind_other k truth text c h = elim (Option-cases (env.adapt (other k truth text))) [
    | inl e ↦ absurd (err-ok (rw (bind_value, e) at h))
    | inr (s, e) ↦ sym (ok-injective (rw (bind_value, e) at h)) ∙ sym e
  ]

  encrypt_none : (v : Value) → encrypt_field none v ≡ v
  unfolding encrypt_field encrypt_text
  encrypt_none null = refl
  encrypt_none (str s) = refl
  encrypt_none (other k truth text) = refl

  filled :
      (fernet : Option Cipher) (o : Option Value) (c : Option String)
      → bind_value env (encrypt_field fernet (or_none (elim o [ none ↦ null | some v ↦ v ]))) ≡ ok c
      → IsFilled env (encrypting fernet) o c
  unfolding encrypt_field encrypt_text or_none truthy
  filled fernet none c h = bind_null c h
  filled fernet (some null) c h = bind_null c h
  filled fernet (some (str s)) c h = text_filled fernet s c h
  filled fernet (some (other k false text)) c h = bind_null c h
  filled none (some (other k true text)) c h = bind_other k true text c h
  filled (some f) (some (other k true text)) c h = bind_str (f.encrypt text) c h

  plain_filled :
      (key : String) (body : Dict Value) (c : Option String)
      → bind_value env (or_none (get key body)) ≡ ok c
      → IsFilled env none (lookup key body) c
  unfolding get encrypt_field
  plain_filled key body c h =
      filled none (lookup key body) c (ap (bind_value env) (encrypt_none _) ∙ h)

  sealed_filled :
      (key : String) (body : Dict Value) (c : Option String)
      → bind_value env (encrypt_field env.fernet (or_none (get key body))) ≡ ok c
      → IsFilled env (encrypting env.fernet) (lookup key body) c
  unfolding get
  sealed_filled key body c h = filled env.fernet (lookup key body) c h

  bind_text-eq-ok : (s t : String) → bind_text env s ≡ ok t → t ≡ s
  unfolding bind_text
  bind_text-eq-ok s t h = elim (Bool-cases (env.accepts s)) [
    | inl e ↦ sym (ok-injective (rw e at h))
    | inr e ↦ absurd (err-ok (rw e at h))
  ]

  pub encrypt_text-sealed :
      (s : String) → encrypt_text env.fernet s ≡ sealed (encrypting env.fernet) s
  unfolding encrypt_text
  encrypt_text-sealed s = elim (Option-cases env.fernet) [
    | inl e ↦ rw e refl
    | inr (c, e) ↦ rw e refl
  ]

  -- What the driver is sent is built of the body, whichever id and time the row is given.
  pub ingest_values-IsBuilt :
      (body : Dict Value) (p : Payload) (n : NewAlert) (key now : ℕ)
      → ingest_values env body p ≡ ok n
      → IsBuilt env body p (new_row n key now)
  unfolding ingest_values
  ingest_values-IsBuilt body p n key now h =
      let (t, et, h1) = bind-eq-ok (bind_text env (encrypt_text env.fernet p.title)) _ n h in
      let (c, ec, h2) = bind-eq-ok (bind_text env p.category) _ n h1 in
      let (s, es, h3) = bind-eq-ok (bind_text env p.severity) _ n h2 in
      let (src, esrc, h4) = bind-eq-ok (bind_value env (or_none (get "source" body))) _ n h3 in
      let (ip, eip, h5) =
        bind-eq-ok (bind_value env (encrypt_field env.fernet (or_none (get "source_ip" body)))) _ n
          h4 in
      let (d, ed, h6) =
        bind-eq-ok (bind_value env (encrypt_field env.fernet (or_none (get "description" body)))) _
          n h5 in
      let (wf, ewf, h7) =
        bind-eq-ok (bind_value env (or_none (get "workflow_run_id" body))) _ n h6 in
      let (md, emd, h8) = bind-eq-ok (bind_value env (or_none (get "run_metadata" body))) _ n h7 in
      subst (λ (m : NewAlert). IsBuilt env body p (new_row m key now)) (ok-injective h8)
        (record {
          title = bind_text-eq-ok _ t et ∙ encrypt_text-sealed p.title;
          category = bind_text-eq-ok _ c ec;
          severity = bind_text-eq-ok _ s es;
          source = plain_filled "source" body src esrc;
          source_ip = sealed_filled "source_ip" body ip eip;
          description = sealed_filled "description" body d ed;
          workflow_run_id = plain_filled "workflow_run_id" body wf ewf;
          run_metadata = plain_filled "run_metadata" body md emd;
          status = refl;
          assigned_to = refl;
        })
