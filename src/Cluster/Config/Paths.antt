-- ===== src/Cluster/Config/Paths.antt =====
-- What becomes of a path.
use ggskit.Cluster.Config.{
  trim_slash, starts_slash, has_double, replace_double, fold_slashes, with_slash, normalize_path,
}
use ggskit.Common.{
  ℕ, zero, suc, ◌≤◌, ◌<◌, ◌≡◌, refl, sym, ap, ◌∙◌, ◌≢◌, ◌⊎◌, inl, inr, true, false, ◌&&◌, List, [],
  ◌∷◌, ◌++◌, arith, if◌then◌else◌, Bool-cases, Text, length, ◌==◌, nat_eq, text_eq, ==_ne,
}

-- The parts of a path between its slashes, the empty ones left out.
abbrev pub emit : Text → List Text → List Text
emit [] rest = rest
emit (c ∷ cs) rest = (c ∷ cs) ∷ rest

unfoldable pub segments_from : Text → Text → List Text
segments_from current [] = emit current []
segments_from current (x ∷ xs) = elim (x == b'/') [
  | true ↦ emit current (segments_from [] xs)
  | false ↦ segments_from (current ++ x ∷ []) xs
]

abbrev pub segments : Text → List Text
segments r = segments_from [] r

both : (x y : ℕ) → (x == b'/' && y == b'/') ≡ true → (x ≡ b'/') × (y ≡ b'/')
both x y h = ground arith

replace_double-bound :
    (r : Text)
    → (length (replace_double r) ≤ length r)
      × (has_double r ≡ false ⊎ (length (replace_double r) < length r))
unfolding replace_double has_double
replace_double-bound [] = (omega arith, inl refl)
replace_double-bound (x ∷ []) = (omega arith, inl refl)
replace_double-bound (x ∷ y ∷ ys) =
    ground (arith, replace_double-bound ys, replace_double-bound (y ∷ ys))

-- Texts with the same parts after every beginning have them behind one more byte.
segments_from-cons :
    (x : ℕ) (xs ys : Text)
    → ((current : Text) → segments_from current xs ≡ segments_from current ys)
    → (current : Text) → segments_from current (x ∷ xs) ≡ segments_from current (x ∷ ys)
unfolding segments_from
segments_from-cons x xs ys h current = ground (arith, h [], h (current ++ x ∷ []))

segments_from-slash :
    (current xs : Text) → segments_from current (b'/' ∷ xs) ≡ emit current (segments_from [] xs)
unfolding segments_from
segments_from-slash current xs = refl

replace_double-pair :
    (x y : ℕ) (ys : Text)
    → (x == b'/' && y == b'/') ≡ true
    → replace_double (x ∷ y ∷ ys) ≡ b'/' ∷ replace_double ys
unfolding replace_double
replace_double-pair x y ys h = rw (replace_double, h) refl

replace_double-other :
    (x y : ℕ) (ys : Text)
    → (x == b'/' && y == b'/') ≡ false
    → replace_double (x ∷ y ∷ ys) ≡ x ∷ replace_double (y ∷ ys)
unfolding replace_double
replace_double-other x y ys h = rw (replace_double, h) refl

segments_from-pair :
    (current : Text) (x y : ℕ) (ys : Text)
    → (x ≡ b'/') × (y ≡ b'/')
    → segments_from current (x ∷ y ∷ ys) ≡ emit current (segments_from [] ys)
unfolding segments_from
segments_from-pair current x y ys (a, b) = rw (a, b) refl

segments_from-replace_double :
    (r current : Text) → segments_from current (replace_double r) ≡ segments_from current r
unfolding replace_double
segments_from-replace_double [] current = refl
segments_from-replace_double (x ∷ []) current = refl
segments_from-replace_double (x ∷ y ∷ ys) current = elim (Bool-cases (x == b'/' && y == b'/')) [
  | inl h ↦
      ap (segments_from current) (replace_double-pair x y ys h)
      ∙ segments_from-slash current (replace_double ys)
      ∙ ap (emit current) (segments_from-replace_double ys [])
      ∙ sym (segments_from-pair current x y ys (both x y h))
  | inr h ↦
      ap (segments_from current) (replace_double-other x y ys h)
      ∙ segments_from-cons x (replace_double (y ∷ ys)) (y ∷ ys)
          (segments_from-replace_double (y ∷ ys)) current
]

trim_last :
    (x : ℕ) (current : Text)
    → segments_from current (if x == b'/' then [] else x ∷ []) ≡ segments_from current (x ∷ [])
unfolding segments_from
trim_last x current = ground arith

segments_from-trim_slash :
    (r current : Text) → segments_from current (trim_slash r) ≡ segments_from current r
unfolding trim_slash
segments_from-trim_slash [] current = refl
segments_from-trim_slash (x ∷ []) current = trim_last x current
segments_from-trim_slash (x ∷ y ∷ ys) current =
    segments_from-cons x (trim_slash (y ∷ ys)) (y ∷ ys) (segments_from-trim_slash (y ∷ ys)) current

starts_slash-replace_double : (r : Text) → starts_slash (replace_double r) ≡ starts_slash r
unfolding replace_double
starts_slash-replace_double [] = refl
starts_slash-replace_double (x ∷ []) = refl
starts_slash-replace_double (x ∷ y ∷ ys) = ground arith

has_double_empty : has_double [] ≡ false
unfolding has_double
has_double_empty = refl

replace_double_shorter : (r : Text) → has_double r ≡ true → length (replace_double r) < length r
replace_double_shorter r h = grind (arith, replace_double-bound r)

-- Enough rounds end the loop by its test; a round keeps the parts and the first byte.
fold_slashes_lem :
    (fuel : ℕ) (r : Text)
    → length r ≤ fuel
    → (has_double (fold_slashes fuel r) ≡ false)
      × (segments (fold_slashes fuel r) ≡ segments r)
      × (starts_slash (fold_slashes fuel r) ≡ starts_slash r)
unfolding fold_slashes
fold_slashes_lem zero [] h = (has_double_empty, refl, refl)
fold_slashes_lem zero (x ∷ xs) h = absurd (omega arith)
fold_slashes_lem (suc fuel) r h = elim (Bool-cases (has_double r)) [
  | inr done ↦ rw (fold_slashes, done) (done, refl, refl)
  | inl more ↦
      let less : length (replace_double r) < length r = replace_double_shorter r more in
      let (a, b, c) = fold_slashes_lem fuel (replace_double r) (omega arith) in
      rw (fold_slashes, more)
        (a, b ∙ segments_from-replace_double r [], c ∙ starts_slash-replace_double r)
]

segments-with_slash : (r : Text) → segments (with_slash r) ≡ segments r
unfolding segments_from
segments-with_slash [] = refl
segments-with_slash (x ∷ xs) = ground arith

with_slash-starts : (r : Text) → starts_slash (with_slash r) ≡ true
with_slash-starts [] = refl
with_slash-starts (x ∷ xs) = ground arith

-- The loop of `normalizePath` ends, for every way of trimming and every path that is not blank: the
-- result starts with a slash, has no two slashes in a row, and has the parts of the trimmed path.
pub normalize_path_lem :
    (trim_space : Text → Text) (r : Text)
    → trim_space r ≢ []
    → let n = normalize_path trim_space r in
      (starts_slash n ≡ true) × (has_double n ≡ false) × (segments n ≡ segments (trim_space r))
unfolding normalize_path
normalize_path_lem trim_space r h =
    let t = trim_space r in
    let u = with_slash (trim_slash t) in
    let (a, b, c) = fold_slashes_lem (length u) u (omega arith) in
    rw (==_ne t [] h) (
      c ∙ with_slash-starts (trim_slash t),
      a,
      b ∙ segments-with_slash (trim_slash t) ∙ segments_from-trim_slash t [],
    )
