-- ===== src/Actor/Uid.antt =====
-- Actor identities, their keys and the payload that names one: infra/actor/registry.go and
-- infra/actor/server_store.go. `gactor.ActorUID` belongs to the library gactor: its two fields are
-- known from the literals in the code, its conversions from `int64` and `IsZero` are parameters.
pub mod RoundTrip
use ggskit.Common.{
  ◌≡◌, ◌↔◌, Bool, true, ◌&&◌, Option, none, some, ◌∷◌, ◌++◌, arith, Text, codes, Eq, Result, ok,
  err, map_err, ◌>>=◌, ◌>>◌,
}
use ggskit.Common.Int.{ℤ, int_beq, int_beq_iff}
use ggskit.Strconv.{ParseError, format_int, parse_int, cut}

pub record ActorUid : Type 0 where
  pub category : ℤ
  pub id : ℤ

-- The conversions `gactor.ActorCategory`, `gactor.ActorID` and the method `IsZero`.
pub record UidLib : Type 0 where
  pub to_category : ℤ → ℤ
  pub to_id : ℤ → ℤ
  pub is_zero : ActorUid → Bool

-- `genActorUIDPayload`.
pub gen_actor_uid_payload : ActorUid → Text
gen_actor_uid_payload uid = format_int uid.category ++ b':' ∷ format_int uid.id

-- `genActorRegKey` and `genActorServerKey`.
unfoldable pub gen_actor_reg_key : ActorUid → Text
gen_actor_reg_key uid = codes "actor_reg:" ++ format_int uid.category ++ b':' ∷ format_int uid.id

pub gen_actor_server_key : ActorUid → Text
gen_actor_server_key uid =
    codes "actor_server:" ++ format_int uid.category ++ b':' ∷ format_int uid.id

pub data PayloadError : Type 0 where
  no_separator : PayloadError
  bad_category bad_id : ParseError → PayloadError

parse_parts : UidLib → Option (Text × Text) → Result PayloadError ActorUid
parse_parts lib none = err no_separator
parse_parts lib (some (category_text, id_text)) = do
  category ← map_err bad_category (parse_int category_text)
  id ← map_err bad_id (parse_int id_text)
  ok (record { category = lib.to_category category; id = lib.to_id id })

-- `parseActorUIDPayload`.
pub parse_actor_uid_payload : UidLib → Text → Result PayloadError ActorUid
unfolding parse_parts
parse_actor_uid_payload lib payload = parse_parts lib (cut b':' payload)

abbrev pub uid_beq : ActorUid → ActorUid → Bool
uid_beq a b = int_beq a.category b.category && int_beq a.id b.id

pub uid_beq_iff : (a b : ActorUid) → (uid_beq a b ≡ true) ↔ (a ≡ b)
uid_beq_iff a b = ground (arith, int_beq_iff a.category b.category, int_beq_iff a.id b.id)

-- The key equality of the `sync.Map` caches.
instance abbrev pub uid_eq : Eq ActorUid
uid_eq = record { beq = uid_beq; beq_iff = uid_beq_iff }
