-- ===== src/Crypto.antt =====
-- The padding of AES blocks and the size of keys: base/crypto/aes/utils.go.
pub mod Padding
pub mod Modes
use ggskit.Common.{
  [], ◌||◌, ℕ, ◌-◌, ◌%◌, Bool, true, false, not, ◌&&◌, Option, none, some, ◌∷◌, ◌++◌, ltb,
  if◌then◌else◌, Text, length, get_elem?, take, drop, replicate, ◌==◌, Result, ok, err, nat_eq,
  text_eq,
}

pub data CryptoError : Type 0 where
  key_size invalid_padding index_panic : CryptoError
  encrypted_data_length iv_size nonce_size cipher_failed gcm_failed open_failed : CryptoError

-- `checkKeySize`.
unfoldable pub check_key_size : ℕ → Option CryptoError
check_key_size n = if not (n == 16) && not (n == 24) && not (n == 32) then some key_size else none

-- `pkcs7Pad`; the padding byte is cut to 8 bits.
unfoldable pub pkcs7_pad : Text → ℕ → Text
pkcs7_pad data_bytes block_size =
    let padding = block_size - length data_bytes % block_size in
    data_bytes ++ replicate padding (padding % 256)

-- The loop of `pkcs7Unpad`.
unfoldable pub all_bytes : ℕ → Text → Bool
all_bytes b [] = true
all_bytes b (x ∷ xs) = let rest = all_bytes b xs in if not (x == b) then false else rest

abbrev pub unpad_by : ℕ → Text → Result CryptoError Text
unpad_by padding data_bytes =
    let kept = length data_bytes - padding in
    if ltb (length data_bytes) padding || padding == 0
    then err invalid_padding
    else if not (all_bytes padding (drop kept data_bytes))
    then err invalid_padding
    else ok (take kept data_bytes)

-- `pkcs7Unpad`, which panics on empty data.
unfoldable pub pkcs7_unpad : Text → Result CryptoError Text
pkcs7_unpad data_bytes = elim (get_elem? data_bytes (length data_bytes - 1)) [
  | none ↦ err index_panic
  | some padding ↦ (if length data_bytes == 0 then err index_panic else unpad_by padding data_bytes)
]
