-- ===== src/Codec/Head.antt =====
-- The head of a packet: base/codec/c2s/head.go. A function that writes returns no packet where the
-- code panics.
use ggskit.Common.Int.{ℤ, pos, negsuc}
use ggskit.Common.{
  ℕ, zero, suc, ◌+◌, ◌-◌, ◌*◌, ◌/◌, ◌%◌, ◌^◌, ◌<◌, ◌≡◌, refl, ap, Bool, false, ◌&&◌, Option, none,
  some, [], ◌∷◌, ◌++◌, arith, ltb, leb, if◌then◌else◌, Text, length, drop, replicate, nat_eq,
  text_eq,
}

-- `binary.BigEndian.PutUint32` and `Uint32`.
unfoldable pub put_uint32 : ℕ → Text
put_uint32 n = n / 2 ^ 24 % 256 ∷ n / 2 ^ 16 % 256 ∷ n / 2 ^ 8 % 256 ∷ n % 256 ∷ []

unfoldable pub uint32 : Text → Option ℕ
uint32 (a ∷ b ∷ c ∷ d ∷ rest) = some (a * 2 ^ 24 + b * 2 ^ 16 + c * 2 ^ 8 + d)
uint32 _ = none

-- The conversions between `int8` and `byte`.
abbrev pub to_byte : ℤ → ℕ
to_byte (pos n) = n % 256
to_byte (negsuc n) = 255 - n % 256

abbrev pub to_int8 : ℕ → ℤ
to_int8 b = if ltb b 128 then pos b else negsuc (255 - b)

abbrev pub keep_byte : ℕ → Option Text → Option Text
keep_byte x none = none
keep_byte x (some p) = some (x ∷ p)

-- Writes bytes into a packet from an offset.
unfoldable pub write_at : ℕ → Text → Text → Option Text
write_at zero [] p = some p
write_at zero (b ∷ bs) [] = none
write_at zero (b ∷ bs) (x ∷ p) = keep_byte b (write_at zero bs p)
write_at (suc k) bs [] = none
write_at (suc k) bs (x ∷ p) = keep_byte x (write_at k bs p)

abbrev pub head_len : ℕ
head_len = 9

unfoldable pub check_pt : ℤ → Bool
check_pt (pos n) = leb 1 n && leb n 3
check_pt (negsuc n) = false

-- `HeadSetPt`, `HeadSetSeq` and `HeadSetPid`.
unfoldable pub head_set_pt : Text → ℤ → Option Text
head_set_pt p pt = write_at 0 (to_byte pt ∷ []) p

unfoldable pub head_set_seq : Text → ℕ → Option Text
head_set_seq p seq = write_at 1 (put_uint32 seq) p

unfoldable pub head_set_pid : Text → ℕ → Option Text
head_set_pid p pid = write_at 5 (put_uint32 pid) p

-- `HeadGetPt`, `HeadGetSeq` and `HeadGetPid`.
unfoldable pub head_get_pt : Text → Option ℤ
head_get_pt [] = none
head_get_pt (x ∷ p) = some (to_int8 x)

unfoldable pub head_get_seq : Text → Option ℕ
head_get_seq p = uint32 (drop 1 p)

unfoldable pub head_get_pid : Text → Option ℕ
head_get_pid p = uint32 (drop 5 p)

-- The three writes of `NewHead` and `EncodePacket`.
unfoldable pub set_head : ℤ → ℕ → ℕ → Text → Option Text
set_head pt seq pid p = elim (head_set_pt p pt) [
  | none ↦ none
  | some p1 ↦ elim (head_set_seq p1 seq) [ none ↦ none | some p2 ↦ head_set_pid p2 pid ]
]

-- `NewHead`.
unfoldable pub new_head : ℤ → ℕ → ℕ → Option Text
new_head pt seq pid = set_head pt seq pid (replicate head_len 0)

pub uint32-put_uint32 : (n : ℕ) (rest : Text) → n < 2 ^ 32 → uint32 (put_uint32 n ++ rest) ≡ some n
unfolding uint32 put_uint32
uint32-put_uint32 n rest h = ap some (omega arith)

abbrev pub IsInt8 : ℤ → Type 0
IsInt8 (pos n) = n < 128
IsInt8 (negsuc n) = n < 128

to_int8-to_byte : (pt : ℤ) → IsInt8 pt → to_int8 (to_byte pt) ≡ pt
to_int8-to_byte (pos n) h = ground arith
to_int8-to_byte (negsuc n) h = ground arith

-- The head that is written into a packet of at least nine bytes.
abbrev pub head_bytes : ℤ → ℕ → ℕ → Text
head_bytes pt seq pid = to_byte pt ∷ put_uint32 seq ++ put_uint32 pid

pub set_head-zeros :
    (pt : ℤ) (seq pid : ℕ) (rest : Text)
    → set_head pt seq pid (replicate 9 0 ++ rest) ≡ some (head_bytes pt seq pid ++ rest)
unfolding set_head head_set_pt head_set_seq head_set_pid write_at put_uint32
set_head-zeros pt seq pid rest = refl

-- A head written with values that fit their fields is read back field by field.
pub head-reads :
    (pt : ℤ) (seq pid : ℕ)
    → IsInt8 pt
    → seq < 2 ^ 32
    → pid < 2 ^ 32
    → (h : Text) × (new_head pt seq pid ≡ some h)
      × (head_get_pt h ≡ some pt)
      × (head_get_seq h ≡ some seq)
      × (head_get_pid h ≡ some pid)
unfolding new_head head_get_pt head_get_seq head_get_pid put_uint32 uint32
head-reads pt seq pid a b c = (
  head_bytes pt seq pid,
  set_head-zeros pt seq pid [],
  ap some (to_int8-to_byte pt a),
  ap some (omega arith),
  ap some (omega arith),
)

-- What stands behind the head, and its id.
pub head_bytes_parts :
    (pt : ℤ) (seq pid : ℕ) (rest : Text)
    → pid < 2 ^ 32
    → (head_get_pid (head_bytes pt seq pid ++ rest) ≡ some pid)
      × (drop head_len (head_bytes pt seq pid ++ rest) ≡ rest)
      × (ltb (length (head_bytes pt seq pid ++ rest)) head_len ≡ false)
unfolding head_get_pid uint32 put_uint32
head_bytes_parts pt seq pid rest h = (ap some (omega arith), refl, ground arith)

pub put_uint32_parts :
    (pid : ℕ) (rest : Text)
    → (drop 4 (put_uint32 pid ++ rest) ≡ rest) × (ltb (length (put_uint32 pid ++ rest)) 2 ≡ false)
unfolding put_uint32
put_uint32_parts pid rest = (refl, ground arith)
