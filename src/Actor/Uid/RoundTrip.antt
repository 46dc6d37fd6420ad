-- ===== src/Actor/Uid/RoundTrip.antt =====
-- Payloads are read back, and distinct actors have distinct keys.
use ggskit.Common.{
  ◌↔◌, length, ◌++◌, [], arith, ◌∷◌, ℕ, Text, ◌-◌, ◌^◌, ◌≡◌, refl, ap, ◌≢◌, false, drop, nat_eq,
  text_eq, ok,
}
use ggskit.Common.Int.{ℤ, pos, negsuc, ◌≤ℤ◌}
use ggskit.Strconv.{format_int}
use ggskit.Strconv.RoundTrip.{parse_int-format_int, cut-append, format_int_no_colon}
use ggskit.Actor.Uid.{
  ActorUid, UidLib, gen_actor_uid_payload, gen_actor_reg_key, gen_actor_server_key,
  parse_actor_uid_payload,
}

abbrev pub IsInt64 : ℤ → Type 0
IsInt64 z = (negsuc (2 ^ 63 - 1) ≤ℤ z) × (z ≤ℤ pos (2 ^ 63 - 1))

-- Both fields are `int64` values.
abbrev pub FitsInt64 : ActorUid → Type 0
FitsInt64 uid = IsInt64 uid.category × IsInt64 uid.id

-- The payload of an actor with `int64` fields, which the conversions keep, is parsed to that actor.
pub parse_actor_uid_payload-gen :
    (lib : UidLib) (uid : ActorUid)
    → FitsInt64 uid
    → lib.to_category uid.category ≡ uid.category
    → lib.to_id uid.id ≡ uid.id
    → parse_actor_uid_payload lib (gen_actor_uid_payload uid) ≡ ok uid
unfolding parse_actor_uid_payload gen_actor_uid_payload
parse_actor_uid_payload-gen lib uid (c, i) hc hi = rw (
  cut-append b':' (format_int uid.category) (format_int uid.id) (format_int_no_colon uid.category),
  parse_int-format_int uid.category c.0 c.1,
  parse_int-format_int uid.id i.0 i.1,
  hc,
  hi,
)

append_some : (xs ys : Text) (y : ℕ) → xs ++ y ∷ ys ≢ []
append_some [] ys y e = omega (arith, ap length e)
append_some (x ∷ xs) ys y e = omega (arith, ap length e)

pub gen_actor_uid_payload-nonempty : (uid : ActorUid) → gen_actor_uid_payload uid ≢ []
unfolding gen_actor_uid_payload
gen_actor_uid_payload-nonempty uid = append_some (format_int uid.category) (format_int uid.id) b':'

abbrev plain : UidLib
plain = record { to_category = λ z. z; to_id = λ z. z; is_zero = λ uid. false }

gen_actor_uid_payload-injective :
    (a b : ActorUid)
    → FitsInt64 a
    → FitsInt64 b
    → gen_actor_uid_payload a ≡ gen_actor_uid_payload b
    → a ≡ b
gen_actor_uid_payload-injective a b ha hb e = cc (
  parse_actor_uid_payload-gen plain a ha refl refl,
  parse_actor_uid_payload-gen plain b hb refl refl,
  ap (parse_actor_uid_payload plain) e,
)

abbrev first : Text → ℕ
first [] = 0
first (x ∷ xs) = x

-- The registry keys of two actors with `int64` fields are equal exactly where the actors are, their
-- server keys as well, and no registry key is a server key, of one actor or of two.
pub actor_keys_differ :
    (a b : ActorUid)
    → FitsInt64 a
    → FitsInt64 b
    → ((gen_actor_reg_key a ≡ gen_actor_reg_key b) ↔ (a ≡ b))
      × ((gen_actor_server_key a ≡ gen_actor_server_key b) ↔ (a ≡ b))
      × (gen_actor_reg_key a ≢ gen_actor_server_key b)
unfolding gen_actor_reg_key gen_actor_server_key gen_actor_uid_payload
actor_keys_differ a b ha hb = (
  (λ e. gen_actor_uid_payload-injective a b ha hb (ap (drop 10) e), ap gen_actor_reg_key),
  (λ e. gen_actor_uid_payload-injective a b ha hb (ap (drop 13) e), ap gen_actor_server_key),
  λ e. omega (arith, ap (λ (t : Text). first (drop 6 t)) e),
)
