-- ===== src/Crypto/Modes.antt =====
-- AES with the modes CBC and GCM: base/crypto/aes/aes.go. The ciphers are a parameter. A block mode
-- keeps a state from one call to the next, as the package crypto/cipher documents.
pub mod Streams
use ggskit.Crypto.{
  CryptoError, key_size, encrypted_data_length, iv_size, nonce_size, cipher_failed, gcm_failed,
  open_failed, check_key_size, pkcs7_pad, pkcs7_unpad,
}
use ggskit.Common.{
  ℕ, ◌+◌, ◌*◌, ◌/◌, ◌%◌, ◌≡◌, Bool, true, false, not, Option, none, some, ltb, if◌then◌else◌, Text,
  length, ◌==◌, Result, ok, err, nat_eq, text_eq, ◌>>=◌, ◌>>◌,
}

-- An encrypter and a decrypter are in step if the one undoes what the other does next; they start
-- so from one key and vector, and blocks that are decrypted in the order of their encryption keep
-- them so.
pub record CipherLib : Type 1 where
  pub Block : Type 0
  pub Encrypter : Type 0
  pub Decrypter : Type 0
  pub Gcm : Type 0
  pub new_cipher : Text → Option Block
  pub new_cbc_encrypter : Block → Text → Encrypter
  pub new_cbc_decrypter : Block → Text → Decrypter
  pub encrypt_blocks : Text → Encrypter → Encrypter × Text
  pub decrypt_blocks : Text → Decrypter → Decrypter × Text
  pub InStep : Encrypter → Decrypter → Type 0
  pub new_cbc_in_step :
      (b : Block) (iv : Text)
      → length iv ≡ 16
      → InStep (new_cbc_encrypter b iv) (new_cbc_decrypter b iv)
  pub length-encrypt_blocks : (t : Text) (e : Encrypter) → length (encrypt_blocks t e).1 ≡ length t
  pub decrypt_blocks-encrypt_blocks :
      (t : Text) (e : Encrypter) (d : Decrypter)
      → InStep e d
      → length t % 16 ≡ 0
      → ((decrypt_blocks (encrypt_blocks t e).1 d).1 ≡ t)
        × InStep (encrypt_blocks t e).0 (decrypt_blocks (encrypt_blocks t e).1 d).0
  pub new_gcm : Block → Option Gcm
  pub gcm_nonce_size : Gcm → ℕ
  pub overhead : Gcm → ℕ
  pub seal : Gcm → Text → Text → Text
  pub unseal : Gcm → Text → Text → Option Text
  pub length-seal : (g : Gcm) (nonce t : Text) → length (seal g nonce t) ≡ length t + overhead g
  pub unseal-seal :
      (g : Gcm) (nonce t : Text)
      → length nonce ≡ gcm_nonce_size g
      → unseal g nonce (seal g nonce t) ≡ some t

abbrev pub or_crypto_error : {A : Type 0} → Option A → CryptoError → Result CryptoError A
or_crypto_error none e = err e
or_crypto_error (some a) e = ok a

abbrev pub unless_error : Option CryptoError → Result CryptoError (Unit {0})
unless_error none = ok tt
unless_error (some e) = err e

abbrev pub demand : Bool → CryptoError → Result CryptoError (Unit {0})
demand true e = ok tt
demand false e = err e

module _ (lib : CipherLib) where
  open lib use {
    Encrypter, Decrypter, Gcm, new_cipher, new_cbc_encrypter, new_cbc_decrypter, encrypt_blocks,
    decrypt_blocks, new_gcm, gcm_nonce_size, overhead, seal, unseal,
  }

  -- `AESGCMCryptor`.
  pub record GcmCryptor : Type 0 where
    pub gcm_key : Text
    pub nonce : Text
    pub gcm : Gcm

  unfoldable pub gcm_encrypted_len : ℕ → GcmCryptor → ℕ
  gcm_encrypted_len n a = n + overhead a.gcm

  unfoldable pub gcm_encrypt : Text → GcmCryptor → Text
  gcm_encrypt t a = seal a.gcm a.nonce t

  unfoldable pub gcm_decrypt : Text → GcmCryptor → Result CryptoError Text
  gcm_decrypt t a =
      if ltb (length t) (overhead a.gcm)
      then err encrypted_data_length
      else or_crypto_error (unseal a.gcm a.nonce t) open_failed

  -- `NewAESGCMCryptor`.
  unfoldable pub new_gcm_cryptor : Text → Text → Result CryptoError GcmCryptor
  new_gcm_cryptor key nonce = do
    unless_error (check_key_size (length key))
    block ← or_crypto_error (new_cipher key) cipher_failed
    gcm ← or_crypto_error (new_gcm block) gcm_failed
    demand (length nonce == gcm_nonce_size gcm) nonce_size
    ok (record { gcm_key = key; nonce = nonce; gcm = gcm })

  -- `AESCBCCryptor`.
  pub record CbcCryptor : Type 0 where
    pub cbc_key : Text
    pub encrypter : Encrypter
    pub decrypter : Decrypter

  unfoldable pub cbc_encrypted_len : ℕ → ℕ
  cbc_encrypted_len n = (n / 16 + 1) * 16

  -- `AESCBCCryptor.Encrypt`.
  unfoldable pub cbc_encrypt : Text → CbcCryptor → CbcCryptor × Text
  cbc_encrypt t a =
      let (e, out) = encrypt_blocks (pkcs7_pad t 16) a.encrypter in
      (record a { encrypter = e }, out)

  -- `AESCBCCryptor.Decrypt`.
  unfoldable pub cbc_decrypt : Text → CbcCryptor → CbcCryptor × Result CryptoError Text
  cbc_decrypt t a =
      if not (length t % 16 == 0)
      then (a, err encrypted_data_length)
      else let (d, out) = decrypt_blocks t a.decrypter in
        (record a { decrypter = d }, pkcs7_unpad out)

  -- `NewAESCBCCryptor`.
  unfoldable pub new_cbc_cryptor : Text → Text → Result CryptoError CbcCryptor
  new_cbc_cryptor key iv = do
    unless_error (check_key_size (length key))
    demand (length iv == 16) iv_size
    block ← or_crypto_error (new_cipher key) cipher_failed
    ok (record {
      cbc_key = key;
      encrypter = new_cbc_encrypter block iv;
      decrypter = new_cbc_decrypter block iv;
    })
