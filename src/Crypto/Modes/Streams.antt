-- ===== src/Crypto/Modes/Streams.antt =====
-- Messages that one cryptor encrypts one after the other, and another one decrypts.
use ggskit.Crypto.{cipher_failed, iv_size, check_key_size, CryptoError, pkcs7_pad, pkcs7_unpad}
use ggskit.Crypto.Padding.{pkcs7_unpad-pkcs7_pad}
use ggskit.Crypto.Modes.{
  or_crypto_error, unless_error, new_cbc_cryptor, CipherLib, demand, CbcCryptor, cbc_encrypted_len,
  cbc_encrypt, cbc_decrypt,
}
use ggskit.Common.{
  ok-injective, subst, ◌==◌, nat_eq, bind-ok, map, ◌+◌, ◌-◌, ◌*◌, ◌/◌, ◌%◌, ◌≡◌, refl, ap, ◌∙◌,
  Bool, true, false, List, [], ◌∷◌, arith, nat_beq, nat_beq_iff, Text, length, replicate,
  length-append, length-replicate, nat_eq, text_eq, Result, ok, err_ok,
}

length-pkcs7_pad : (t : Text) → length (pkcs7_pad t 16) ≡ (length t / 16 + 1) * 16
unfolding pkcs7_pad
length-pkcs7_pad t =
    let p = 16 - length t % 16 in
    length-append t (replicate p (p % 256))
    ∙ ap (λ n. length t + n) (length-replicate p (p % 256))
    ∙ omega arith

demand-ok : (b : Bool) (e : CryptoError) (u : Unit {0}) → demand b e ≡ ok u → b ≡ true
demand-ok true e u h = refl
demand-ok false e u h = absurd (err_ok h)

module _ (lib : CipherLib) where
  open lib use {InStep, encrypt_blocks, decrypt_blocks}

  -- The messages in the order in which they are encrypted, and decrypted.
  abbrev pub encrypt_all : List Text → CbcCryptor lib → List Text
  encrypt_all [] a = []
  encrypt_all (t ∷ ts) a = let (after, out) = cbc_encrypt lib t a in out ∷ encrypt_all ts after

  abbrev pub decrypt_all : List Text → CbcCryptor lib → List (Result CryptoError Text)
  decrypt_all [] a = []
  decrypt_all (t ∷ ts) a = let (after, out) = cbc_decrypt lib t a in out ∷ decrypt_all ts after

  encrypted-length :
      (t : Text) (a : CbcCryptor lib)
      → length (cbc_encrypt lib t a).1 ≡ cbc_encrypted_len lib (length t)
  unfolding cbc_encrypt cbc_encrypted_len
  encrypted-length t a = lib.length-encrypt_blocks (pkcs7_pad t 16) a.encrypter ∙ length-pkcs7_pad t

  decrypted :
      (t : Text) (a b : CbcCryptor lib)
      → InStep a.encrypter b.decrypter
      → let after = cbc_encrypt lib t a in
        let got = cbc_decrypt lib after.1 b in
        (got.1 ≡ ok t) × InStep after.0.encrypter got.0.decrypter
  unfolding cbc_encrypt cbc_decrypt
  decrypted t a b h =
      let whole : length (pkcs7_pad t 16) % 16 ≡ 0 = omega (arith, length-pkcs7_pad t) in
      let sent = (encrypt_blocks (pkcs7_pad t 16) a.encrypter).1 in
      let (same, step) =
        lib.decrypt_blocks-encrypt_blocks (pkcs7_pad t 16) a.encrypter b.decrypter h whole in
      let fits : nat_beq (length sent % 16) 0 ≡ true =
        (nat_beq_iff _ _).1
          (ap (λ n. n % 16) (lib.length-encrypt_blocks (pkcs7_pad t 16) a.encrypter) ∙ whole) in
      rw fits (ap pkcs7_unpad same ∙ pkcs7_unpad-pkcs7_pad t 16 (omega arith) (omega arith), step)

  all_decrypted :
      (ts : List Text) (a b : CbcCryptor lib)
      → InStep a.encrypter b.decrypter
      → decrypt_all (encrypt_all ts a) b ≡ map ok ts
  all_decrypted [] a b h = refl
  all_decrypted (t ∷ ts) a b h =
      let after = cbc_encrypt lib t a in
      let got = cbc_decrypt lib after.1 b in
      let (same, step) = decrypted t a b h in
      ap (λ r. r ∷ decrypt_all (encrypt_all ts after.0) got.0) same
      ∙ ap (◌∷◌ (ok t)) (all_decrypted ts after.0 got.0 step)

  all_lengths :
      (ts : List Text) (a : CbcCryptor lib)
      → map length (encrypt_all ts a) ≡ map (λ t. cbc_encrypted_len lib (length t)) ts
  all_lengths [] a = refl
  all_lengths (t ∷ ts) a =
      let after = cbc_encrypt lib t a in
      ap (λ n. n ∷ map length (encrypt_all ts after.0)) (encrypted-length t a)
      ∙ ap (◌∷◌ (cbc_encrypted_len lib (length t))) (all_lengths ts after.0)

  new_in_step :
      (key iv : Text) (a : CbcCryptor lib)
      → new_cbc_cryptor lib key iv ≡ ok a
      → InStep a.encrypter a.decrypter
  unfolding new_cbc_cryptor
  new_in_step key iv a h =
      let (u, e, h1) = bind-ok (unless_error (check_key_size (length key))) _ a h in
      let (v, sized, h2) = bind-ok (demand (length iv == 16) iv_size) _ a h1 in
      let (block, e2, h3) = bind-ok (or_crypto_error (lib.new_cipher key) cipher_failed) _ a h2 in
      let full : length iv ≡ 16 =
        (nat_beq_iff _ _).0 (demand-ok (length iv == 16) iv_size v sized) in
      subst (λ c. InStep c.encrypter c.decrypter) (ok-injective h3)
        (lib.new_cbc_in_step block iv full)

  -- Messages that a new CBC cryptor encrypts one after the other are decrypted, in the same order,
  -- by a new cryptor of the same key and vector, and each has the length that EncryptedLen
  -- foretells.
  pub decrypt_all-encrypt_all :
      (key iv : Text) (a : CbcCryptor lib) (ts : List Text)
      → new_cbc_cryptor lib key iv ≡ ok a
      → (decrypt_all (encrypt_all ts a) a ≡ map ok ts)
        × (map length (encrypt_all ts a) ≡ map (λ t. cbc_encrypted_len lib (length t)) ts)
  decrypt_all-encrypt_all key iv a ts h =
      (all_decrypted ts a a (new_in_step key iv a h), all_lengths ts a)
