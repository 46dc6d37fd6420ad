-- ===== src/Crypto/Padding.antt =====
-- Padding can be taken off again.
use native.Mathlib.Nat.{mod-lt, mod-eq_of_lt}
use ggskit.Crypto.{pkcs7_pad, pkcs7_unpad, all_bytes, unpad_by}
use ggskit.Common.{
  ℕ, zero, suc, ◌+◌, ◌-◌, ◌%◌, ◌≤◌, ◌<◌, ◌≡◌, refl, ap, ◌∙◌, true, false, some, [], ◌∷◌, ◌++◌,
  arith, ltb, nat_beq, Text, length, get_elem?, replicate, length-append, length-replicate,
  take-append, drop-append, nat_eq, text_eq, ==_refl, ok,
}

elem_replicate : (k b i : ℕ) → i ≤ k → get_elem? (replicate (suc k) b) i ≡ some b
elem_replicate k b zero h = refl
elem_replicate zero b (suc i) h = absurd (omega arith)
elem_replicate (suc k) b (suc i) h = elem_replicate k b i (omega arith)

last_of_replicate :
    (xs : Text) (k b i : ℕ) → i ≡ length xs + k → get_elem? (xs ++ replicate (suc k) b) i ≡ some b
last_of_replicate [] k b i h = elem_replicate k b i (omega arith)
last_of_replicate (x ∷ xs) k b zero h = absurd (omega arith)
last_of_replicate (x ∷ xs) k b (suc i) h = last_of_replicate xs k b i (omega arith)

all_replicate : (k b : ℕ) → all_bytes b (replicate k b) ≡ true
unfolding all_bytes
all_replicate zero b = refl
all_replicate (suc k) b = rw (==_refl b, all_replicate k b) refl

-- A text with its padding.
abbrev padded : Text → ℕ → Text
padded xs k = xs ++ replicate (suc k) (suc k)

length-padded : (xs : Text) (k : ℕ) → length (padded xs k) ≡ length xs + suc k
length-padded xs k =
    length-append xs (replicate (suc k) (suc k))
    ∙ ap (λ n. length xs + n) (length-replicate (suc k) (suc k))

unpad_by-padded : (xs : Text) (k : ℕ) → unpad_by (suc k) (padded xs k) ≡ ok xs
unpad_by-padded xs k =
    let small : ltb (length (padded xs k)) (suc k) ≡ false = ground (arith, length-padded xs k) in
    let positive : nat_beq (suc k) 0 ≡ false = ground arith in
    let kept : length (padded xs k) - suc k ≡ length xs = omega (arith, length-padded xs k) in
    rw
      (
        small,
        kept,
        drop-append xs (replicate (suc k) (suc k)),
        all_replicate (suc k) (suc k),
        take-append xs (replicate (suc k) (suc k)),
      )
      (rw positive refl)

pkcs7_unpad-padded : (xs : Text) (k : ℕ) → pkcs7_unpad (padded xs k) ≡ ok xs
unfolding pkcs7_unpad
pkcs7_unpad-padded xs k =
    let full : nat_beq (length (padded xs k)) 0 ≡ false = ground (arith, length-padded xs k) in
    rw
      (
        pkcs7_unpad,
        last_of_replicate xs k (suc k) (length (padded xs k) - 1)
            (omega (arith, length-padded xs k)),
        full,
      )
      (unpad_by-padded xs k)

pad_as : (xs : Text) (p k : ℕ) → p ≡ suc k → p ≤ 255 → xs ++ replicate p (p % 256) ≡ padded xs k
pad_as xs p k e h =
    ap (λ q. xs ++ replicate q (q % 256)) e
    ∙ ap (λ q. xs ++ replicate (suc k) q) (mod-eq_of_lt (omega arith))

-- What is padded to blocks of between 1 and 255 bytes is restored.
pub pkcs7_unpad-pkcs7_pad :
    (data_bytes : Text) (block_size : ℕ)
    → 1 ≤ block_size
    → block_size ≤ 255
    → pkcs7_unpad (pkcs7_pad data_bytes block_size) ≡ ok data_bytes
unfolding pkcs7_pad
pkcs7_unpad-pkcs7_pad xs n lo hi =
    let p = n - length xs % n in
    let less : length xs % n < n = mod-lt (length xs) lo in
    rw (pkcs7_pad, pad_as xs p (p - 1) (omega arith) (omega arith)) (pkcs7_unpad-padded xs (p - 1))
