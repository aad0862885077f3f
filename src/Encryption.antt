-- ===== src/Encryption.antt =====
-- security/encryption.py: how the cipher of account secrets binds a value to its place. AES-GCM of
-- the cryptography package is the parameter `Aesgcm`. Bytes are text, the additional data that the
-- source writes as one text are kept as their parts, and the nonce is an argument.
use smart_email_manager.Prelude.{ℕ, ◌≡◌, String, Option, none, some, ◌==◌, if◌then◌else◌}

-- What the additional data name: a field of an account, or of a line of an import batch, and the
-- version of the key.
pub data Aad : Type 0 where
  account_field : ℕ → String → ℕ → Aad
  import_field : ℕ → ℕ → String → ℕ → Aad

pub record Aesgcm : Type 0 where
  pub encrypt : String → String → Aad → String
  pub decrypt : String → String → Aad → Option String
  pub opens :
      (nonce plaintext : String) (aad : Aad)
      → decrypt nonce (encrypt nonce plaintext aad) aad ≡ some plaintext

-- nonce + ciphertext
pub record Sealed : Type 0 where
  pub nonce : String
  pub encrypted : String

pub record AccountSecretCipher : Type 0 where
  pub aesgcm : Aesgcm
  pub key_version : ℕ

-- `not_loaded` is the `ValueError`, `invalid_tag` what the package raises.
pub data Decrypted : Type 0 where
  plain : String → Decrypted
  not_loaded invalid_tag : Decrypted

module _ (cipher : AccountSecretCipher) where
  abbrev pub unseal : Sealed → Aad → Decrypted
  unseal sealed aad = elim (cipher.aesgcm.decrypt sealed.nonce sealed.encrypted aad) [
    | none ↦ invalid_tag
    | some plaintext ↦ plain plaintext
  ]

  -- encrypt_context of the context of a line
  unfoldable pub encrypt_context : String → ℕ → ℕ → String → String → Sealed
  encrypt_context nonce batch_id line field_name value = record {
    nonce = nonce;
    encrypted =
        cipher.aesgcm.encrypt nonce value
          (import_field batch_id line field_name cipher.key_version);
  }

  unfoldable pub decrypt_context : ℕ → ℕ → String → Sealed → ℕ → Decrypted
  decrypt_context batch_id line field_name sealed key_version =
      if key_version == cipher.key_version
      then unseal sealed (import_field batch_id line field_name key_version)
      else not_loaded

  unfoldable pub encrypt : String → ℕ → String → String → Sealed
  encrypt nonce account_id field_name value = record {
    nonce = nonce;
    encrypted =
        cipher.aesgcm.encrypt nonce value (account_field account_id field_name cipher.key_version);
  }

  unfoldable pub decrypt : ℕ → String → Sealed → ℕ → Decrypted
  decrypt account_id field_name sealed key_version =
      if key_version == cipher.key_version
      then unseal sealed (account_field account_id field_name key_version)
      else not_loaded
