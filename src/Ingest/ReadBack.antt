-- ===== src/Ingest/ReadBack.antt =====
-- The row that an ingest call makes of a body, as `decrypt_alert` shows it.
use soc_dashboard.Common.{
  ℕ, String, true, false, ◌≡◌, refl, ap, sym, ◌∙◌, Option, none, some, Dict, lookup, ◌==◌, text_eq,
  Bool-cases, inl, inr,
}
use soc_dashboard.Values.{ok, Value, null, str, other}
use soc_dashboard.Crypto.{Cipher, decrypt_text, decrypt_field, decrypt_alert}
use soc_dashboard.Crypto.RoundTrip.{IsCipher, decrypt_text-encrypt_text}
use soc_dashboard.Db.{Alert}
use soc_dashboard.Db.Statements.{NewAlert, new_row}
use soc_dashboard.World.{Env}
use soc_dashboard.Validation.{Payload, ingest_values}
use soc_dashboard.Ingest.Built.{
  Seal, encrypting, IsFilled, encrypt_text-sealed, ingest_values-IsBuilt,
}

-- A text that was encrypted reads as before; only that it is a text is left of the encryption.
abbrev pub in_plaintext : Option Cipher → Seal
in_plaintext none = none
in_plaintext (some _) = some (λ s. s)

-- What a reader finds in a column: the field of the body, without the seal.
abbrev IsShown : Env → Option Value → Option String → Type 0
IsShown env o c = IsFilled env (in_plaintext env.fernet) o c

-- A row that reads as the payload and its body say, whether or not a key is set.
pub record IsShownAs (env : Env) (body : Dict Value) (p : Payload) (row : Alert) : Type 0 where
  pub title : row.title ≡ p.title
  pub category : row.category ≡ p.category
  pub severity : row.severity ≡ p.severity
  pub source : IsFilled env none (lookup "source" body) row.source
  pub source_ip : IsShown env (lookup "source_ip" body) row.source_ip
  pub description : IsShown env (lookup "description" body) row.description

decrypt_none : (c : Option String) → decrypt_field none c ≡ c
unfolding decrypt_field decrypt_text
decrypt_none none = refl
decrypt_none (some s) = refl

shown :
    (env : Env) (fernet : Option Cipher) (o : Option Value) (c : Option String)
    → IsCipher fernet
    → IsFilled env (encrypting fernet) o c
    → IsFilled env (in_plaintext fernet) o (decrypt_field fernet c)
unfolding decrypt_field decrypt_text
shown env fernet none c k h = rw h refl
shown env fernet (some null) c k h = rw h refl
shown env none (some (str s)) c k h = decrypt_none c ∙ h
shown env (some f) (some (str s)) c k h = elim (Bool-cases (s == "")) [
  | inl e ↦ rw (h, e) refl
  | inr e ↦ rw (h, e, k s) refl
]
shown env fernet (some (other kind false text)) c k h = rw h refl
shown env none (some (other kind true text)) c k h = decrypt_none c ∙ h
shown env (some f) (some (other kind true text)) c k h = rw (h, k text) refl

-- An alert that was ingested reads as it was sent, if the cipher decrypts what it encrypted: where
-- the values of a body are sent to the driver, the row made of them, decrypted, has the payload's
-- title, category and severity; its source, address and description are NULL where the body's field
-- is missing or falsy and the body's text where it is one; and any other value is shown as its
-- `str()` where it was encrypted, and as the driver's text where it was not.
pub ingested_reads_back :
    (env : Env) (body : Dict Value) (p : Payload) (n : NewAlert) (key now : ℕ)
    → IsCipher env.fernet
    → ingest_values env body p ≡ ok n
    → IsShownAs env body p (decrypt_alert env.fernet (new_row n key now))
unfolding decrypt_alert decrypt_text
ingested_reads_back env body p n key now k h =
    let b = ingest_values-IsBuilt env body p n key now h in
    record {
      title =
          ap (decrypt_text env.fernet) (b.title ∙ sym (encrypt_text-sealed env p.title))
          ∙ decrypt_text-encrypt_text env.fernet p.title k;
      category = b.category;
      severity = b.severity;
      source = b.source;
      source_ip = shown env env.fernet _ _ k b.source_ip;
      description = shown env env.fernet _ _ k b.description;
    }
