-- ===== src/Crypto.antt =====
-- crypto.py and `decrypt_alert` of app.py: field encryption at rest. Fernet itself is the library
-- `cryptography`: a cipher is a parameter, and `decrypt` gives nothing where it raises.
pub mod RoundTrip
use soc_dashboard.Common.{
  String, Bool, true, false, Option, none, some, ◌==◌, text_eq, if◌then◌else◌,
}
use soc_dashboard.Values.{Value, null, str, other}
use soc_dashboard.Db.{Alert}

pub record Cipher : Type 0 where
  pub encrypt : String → String
  pub decrypt : String → Option String

-- `Fernet(base64.urlsafe_b64encode(hashlib.sha256(key.encode()).digest()))`, from its key string.
abbrev pub KeyDerivation : Type 0
KeyDerivation = String → Cipher

-- The variable is unset, or set to a text.
unfoldable pub get_fernet : KeyDerivation → Option String → Option Cipher
get_fernet derive none = none
get_fernet derive (some key) = if key == "" then none else some (derive key)

-- `encrypt_field` at a text
unfoldable pub encrypt_text : Option Cipher → String → String
encrypt_text none s = s
encrypt_text (some c) s = c.encrypt s

unfoldable pub encrypt_field : Option Cipher → Value → Value
unfolding encrypt_text
encrypt_field fernet null = null
encrypt_field fernet (str s) = str (encrypt_text fernet s)
encrypt_field none (other k t text) = other k t text
encrypt_field (some c) (other k t text) = str (c.encrypt text)

-- `decrypt_field` at a text: what does not decrypt was stored as plaintext.
unfoldable pub decrypt_text : Option Cipher → String → String
decrypt_text none s = s
decrypt_text (some c) s = elim (c.decrypt s) [ some plain ↦ plain | none ↦ s ]

-- A column is NULL or a text.
unfoldable pub decrypt_field : Option Cipher → Option String → Option String
unfolding decrypt_text
decrypt_field fernet none = none
decrypt_field fernet (some s) = some (decrypt_text fernet s)

-- `decrypt_alert`, with `_ENCRYPTED_ALERT_FIELDS`
unfoldable pub decrypt_alert : Option Cipher → Alert → Alert
unfolding decrypt_text decrypt_field
decrypt_alert fernet row = record row {
  title = decrypt_text fernet row.title;
  source_ip = decrypt_field fernet row.source_ip;
  description = decrypt_field fernet row.description;
}
