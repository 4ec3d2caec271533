-- ===== src/Crypto/RoundTrip.antt =====
-- Reading back a text that was encrypted.
use soc_dashboard.Common.{String, ◌≡◌, refl, Option, none, some}
use soc_dashboard.Crypto.{Cipher, encrypt_text, decrypt_text}

-- What `cryptography` documents: a token decrypts to the text that it was made from.
abbrev pub IsCipher : Option Cipher → Type 0
IsCipher none = Unit {0}
IsCipher (some c) = (s : String) → c.decrypt (c.encrypt s) ≡ some s

-- A text that was encrypted and decrypted again is itself, with a key or without.
pub decrypt_text-encrypt_text :
    (fernet : Option Cipher) (s : String)
    → IsCipher fernet
    → decrypt_text fernet (encrypt_text fernet s) ≡ s
unfolding decrypt_text encrypt_text
decrypt_text-encrypt_text none s h = refl
decrypt_text-encrypt_text (some c) s h = rw (h s)
