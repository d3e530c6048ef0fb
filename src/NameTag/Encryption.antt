-- ===== src/NameTag/Encryption.antt =====
-- EncryptionService of src/components/encryption/encryption.service.ts: the key of the cipher, and the
-- texts of private name tags.
use aura_explorer_api.Prelude.{
  ℕ, String, ◌≡◌, refl, Bool, true, false, ◌==◌, string_eq, Option, none, some, List, if◌then◌else◌,
}
use aura_explorer_api.Exec.{failure, Result, ok, err, Exec, pure, gets, lift, or_raise, ◌>>=◌, ◌>>◌}
use aura_explorer_api.Exec.Results.{and_then, map_ok}
use aura_explorer_api.Repository.{Keyed, Repository}
use aura_explorer_api.NameTag.{TagServices}

pub record CipherKey : Type 0 where
  pub id : ℕ
  pub cipher_text : String

abbrev pub cipher_keyed : Keyed CipherKey
cipher_keyed = record {
  id = λ k. k.id;
  with_id = λ n k. record k { id = n };
  id-with_id = λ n k. refl;
}

-- The buffers of node, aes-256-cbc of its crypto with the fixed vector, under a key, and the KMS.
-- `cipher` and `decipher` are all that a stream puts out when it is written to once and ended; the
-- padding makes a cipher text of every text, and a stream that puts out nothing reads as null.
pub record Crypto : Type 1 where
  pub Bytes : Type 0
  pub is_empty : Bytes → Bool
  pub from_text : String → Bytes
  pub to_text : Bytes → String
  pub from_hex : String → Bytes
  pub to_hex : Bytes → String
  pub joined : Bytes → String
  pub cipher : Bytes → Bytes → Bytes
  pub decipher : Bytes → Bytes → Result Bytes
  pub generate_data_key : Result Bytes
  pub decrypt_key : Bytes → Result Bytes
  pub from_hex-to_hex : (b : Bytes) → from_hex (to_hex b) ≡ b
  pub to_text-from_text : (s : String) → to_text (from_text s) ≡ s
  pub is_empty-from_text : (s : String) → is_empty (from_text s) ≡ (s == "")
  pub is_empty-cipher : (k b : Bytes) → is_empty (cipher k b) ≡ false
  pub decipher-cipher : (k b : Bytes) → decipher k (cipher k b) ≡ ok b

module _ (crypto : Crypto) where
  open crypto use {Bytes}

  -- `read()` at the end of a stream.
  abbrev read : Bytes → Option Bytes
  read b = if crypto.is_empty b then none else some b

  abbrev or_null_error : {A : Type 0} → (Bytes → A) → Option Bytes → Result A
  or_null_error f none = err (failure "Cannot read properties of null (reading 'toString')")
  or_null_error f (some b) = ok (f b)

  module _ (keys : Repository cipher_keyed) where
    -- The blob of the KMS is stored as its `toString` is, and read as hexadecimal digits.
    abbrev add_if_missing : Option CipherKey → Exec (List CipherKey) (Unit {0})
    add_if_missing (some k) s = (ok tt, s)
    add_if_missing none s =
        (do
          blob ← lift crypto.generate_data_key
          keys.insert (record { id = 0; cipher_text = crypto.joined blob })
          pure tt)
          s

    pub add_cipher_key : Exec (List CipherKey) (Unit {0})
    add_cipher_key s = add_if_missing (keys.find_one (λ k. true) s) s

    abbrev key_or_new : Option CipherKey → Exec (List CipherKey) (Option CipherKey)
    key_or_new (some k) s = (ok (some k), s)
    key_or_new none s = (do add_cipher_key; gets (keys.find_one (λ k. true))) s

    pub get_key : Exec (List CipherKey) Bytes
    get_key = do
      first ← gets (keys.find_one (λ k. true))
      found ← key_or_new first
      k ← or_raise (failure "Cannot read properties of undefined (reading 'cipher_text')") found
      lift (crypto.decrypt_key (crypto.from_hex k.cipher_text))

  module _ (key : Bytes) where
    abbrev pub encrypt_aes : Bytes → Option Bytes
    encrypt_aes buffer = read (crypto.cipher key buffer)

    abbrev pub decrypt_aes : Bytes → Result (Option Bytes)
    decrypt_aes buffer = map_ok read (crypto.decipher key buffer)

    unfoldable pub encrypt : String → Result String
    encrypt text = or_null_error crypto.to_hex (encrypt_aes (crypto.from_text text))

    unfoldable pub decrypt : String → Result String
    decrypt text = and_then (decrypt_aes (crypto.from_hex text)) (or_null_error crypto.to_text)

    -- Every text has a cipher text.
    abbrev pub cipher_text_of : String → String
    cipher_text_of text = crypto.to_hex (crypto.cipher key (crypto.from_text text))

    pub encrypt-eq-ok : (text : String) → encrypt text ≡ ok (cipher_text_of text)
    unfolding encrypt
    encrypt-eq-ok text = rw (crypto.is_empty-cipher key (crypto.from_text text)) refl

    -- A text that is not empty is decrypted to itself.
    pub decrypt-cipher_text_of :
        (text : String) → (text == "") ≡ false → decrypt (cipher_text_of text) ≡ ok text
    unfolding decrypt
    decrypt-cipher_text_of text h =
        rw
          (
            crypto.from_hex-to_hex, crypto.decipher-cipher, crypto.is_empty-from_text, h,
            crypto.to_text-from_text,
          )
          refl

    -- The cipher text of the empty text cannot be decrypted.
    pub decrypt-cipher_text_of_empty :
        decrypt (cipher_text_of "")
        ≡ err (failure "Cannot read properties of null (reading 'toString')")
    unfolding decrypt
    decrypt-cipher_text_of_empty =
        rw (crypto.from_hex-to_hex, crypto.decipher-cipher, crypto.is_empty-from_text) refl

    -- The services of the name tags with this encryption.
    abbrev pub with_encryption : TagServices → TagServices
    with_encryption env = record env {
      encrypt = cipher_text_of;
      decrypt = decrypt;
      decrypt-encrypt = decrypt-cipher_text_of;
      decrypt-encrypt_empty = (
        failure "Cannot read properties of null (reading 'toString')",
        decrypt-cipher_text_of_empty,
      );
    }
