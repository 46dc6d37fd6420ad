-- ===== src/Actor/Registry/Replies.antt =====
-- Reading the reply of a script: infra/actor/registry.go. A reply is a Go `any`.
use ggskit.Actor.Registry.Config.{Error, bad_script_result}
use ggskit.Strconv.{parse_int}
use ggskit.Common.Int.{ℤ}
use ggskit.Common.{
  ℕ, none, some, List, [], ◌∷◌, Text, get_elem?, nat_eq, text_eq, Result, ok, err, ◌>>=◌, map_err,
}

pub data RawValue : Type 0 where
  raw_int : ℤ → RawValue
  raw_string raw_bytes : Text → RawValue
  raw_other : RawValue

pub data RawResult : Type 0 where
  array : List RawValue → RawResult
  scalar : RawResult

-- `scriptResults`.
unfoldable pub script_results : RawResult → Result Error (List RawValue)
script_results scalar = err bad_script_result
script_results (array []) = err bad_script_result
script_results (array (v ∷ vs)) = ok (v ∷ vs)

-- `resultAt`; the code's indices are constants.
unfoldable pub result_at : List RawValue → ℕ → Result Error RawValue
result_at results index = elim (get_elem? results index) [
  | none ↦ err bad_script_result
  | some v ↦ ok v
]

-- `parseInt64`.
unfoldable pub parse_int64 : RawValue → Result Error ℤ
parse_int64 (raw_int z) = ok z
parse_int64 (raw_string t) = map_err (λ e. bad_script_result) (parse_int t)
parse_int64 (raw_bytes t) = map_err (λ e. bad_script_result) (parse_int t)
parse_int64 raw_other = err bad_script_result

-- `parseString`.
unfoldable pub parse_string : RawValue → Result Error Text
parse_string (raw_int z) = err bad_script_result
parse_string (raw_string t) = ok t
parse_string (raw_bytes t) = ok t
parse_string raw_other = err bad_script_result

-- `resultInt64`.
unfoldable pub result_int64 : List RawValue → ℕ → Result Error ℤ
unfolding result_at parse_int64
result_int64 results index = do v ← result_at results index; parse_int64 v

-- `resultString`.
unfoldable pub result_string : List RawValue → ℕ → Result Error Text
unfolding result_at parse_string
result_string results index = do v ← result_at results index; parse_string v
