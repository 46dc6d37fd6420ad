-- ===== src/Strconv/RoundTrip.antt =====
-- Printed integers are read back, and hold no byte but digits and the sign.
use ggskit.Common.{
  ℕ, zero, suc, ◌+◌, ◌-◌, ◌/◌, ◌%◌, ◌^◌, ◌≤◌, ◌<◌, ◌≡◌, refl, ◌∙◌, ◌≢◌, inl, inr, some, List, [],
  ◌∷◌, ◌++◌, arith, ltb, Bool-cases, Text, All, nat_eq, text_eq, ==_refl, ==_ne, ok, ◌>>=◌,
}
use ggskit.Common.Int.{ℤ, pos, negsuc, ◌≤ℤ◌}
use ggskit.Strconv.{
  digits, format_uint, format_int, scan, parse_uint, parse_int, non_negative, negative, cut,
}

scan_last : (n : ℕ) (out : Text) → n < 2 ^ 64 → scan ((b'0' + n % 10) ∷ out) (n / 10) ≡ scan out n
unfolding scan
scan_last n out h = ground arith

scan-digits : (f n : ℕ) (out : Text) → n < f → n < 2 ^ 64 → scan (digits f n out) 0 ≡ scan out n
unfolding digits scan
scan-digits zero n out h fits = absurd (omega arith)
scan-digits (suc f) n out h fits = elim (Bool-cases (ltb n 10)) [
  | inl small ↦ rw small (ground arith)
  | inr large ↦ rw large (
      scan-digits f (n / 10) ((b'0' + n % 10) ∷ out) (ground arith) (omega arith)
      ∙ scan_last n out fits)
]

abbrev pub IsDigit : ℕ → Type 0
IsDigit c = (b'0' ≤ c) × (c ≤ b'9')

-- The printed number starts with a digit and holds digits only.
abbrev pub IsNumeral : Text → Type 0
IsNumeral s = (c : ℕ) × (r : Text) × (s ≡ c ∷ r) × IsDigit c × All IsDigit r

digits-IsNumeral : (f n : ℕ) (out : Text) → n < f → All IsDigit out → IsNumeral (digits f n out)
unfolding digits
digits-IsNumeral zero n out h d = absurd (omega arith)
digits-IsNumeral (suc f) n out h d = elim (Bool-cases (ltb n 10)) [
  | inl small ↦ rw small (b'0' + n, out, refl, (omega arith, ground arith), d)
  | inr large ↦ rw large (
      digits-IsNumeral f (n / 10) ((b'0' + n % 10) ∷ out) (ground arith)
        ((omega arith, omega arith), d))
]

pub format_uint-IsNumeral : (n : ℕ) → IsNumeral (format_uint n)
unfolding format_uint
format_uint-IsNumeral n = digits-IsNumeral (suc n) n [] (omega arith) tt

parse_uint-scan : (s : Text) → IsNumeral s → parse_uint s ≡ scan s 0
unfolding parse_uint
parse_uint-scan [] (c, r, e, _, _) = cc
parse_uint-scan (c ∷ s) _ = refl

parse_uint-format_uint : (n : ℕ) → n < 2 ^ 64 → parse_uint (format_uint n) ≡ ok n
unfolding format_uint scan
parse_uint-format_uint n h =
    rw (parse_uint-scan _ (format_uint-IsNumeral n)) (scan-digits (suc n) n [] (omega arith) h)

parse_int_of_numeral : (s : Text) → IsNumeral s → parse_int s ≡ (parse_uint s >>= non_negative)
unfolding parse_int
parse_int_of_numeral [] (c, r, e, _, _) = cc
parse_int_of_numeral (d ∷ s) (c, r, e, lo, _) = ground arith

-- An `int64` that was printed in decimal is read back.
pub parse_int-format_int :
    (z : ℤ) → negsuc (2 ^ 63 - 1) ≤ℤ z → z ≤ℤ pos (2 ^ 63 - 1) → parse_int (format_int z) ≡ ok z
unfolding format_int non_negative negative
parse_int-format_int (pos n) lo hi =
    rw (parse_int_of_numeral _ (format_uint-IsNumeral n), parse_uint-format_uint n (omega arith))
      (ground arith)
parse_int-format_int (negsuc n) lo hi =
    unfold parse_int in rw (parse_uint-format_uint (suc n) (omega arith)) (ground arith)

-- `Cut` splits at the first separator.
pub cut-append : (c : ℕ) (xs ys : Text) → All (λ x. x ≢ c) xs → cut c (xs ++ c ∷ ys) ≡ some (xs, ys)
unfolding cut
cut-append c [] ys h = rw (==_refl c)
cut-append c (x ∷ xs) ys (h, t) = rw (==_ne x c h, cut-append c xs ys t)

All-map {ℓ κ ι} :
    {A : Type ℓ} {P : A → Type κ} {Q : A → Type ι} (f : (a : A) → P a → Q a) (xs : List A)
    → All P xs
    → All Q xs
All-map f [] h = tt
All-map f (x ∷ xs) (h, t) = (f x h, All-map f xs t)

format_uint_no_colon : (n : ℕ) → All (λ x. x ≢ b':') (format_uint n)
format_uint_no_colon n =
    let (c, r, e, d, ds) = format_uint-IsNumeral n in
    rw e (omega arith, All-map (λ x d. omega arith) r ds)

-- A printed integer holds no colon.
pub format_int_no_colon : (z : ℤ) → All (λ x. x ≢ b':') (format_int z)
unfolding format_int
format_int_no_colon (pos n) = format_uint_no_colon n
format_int_no_colon (negsuc n) = (omega arith, format_uint_no_colon (suc n))
