-- ===== src/Tests/Parts.antt =====
-- The theorems on servers of actors, locks, protocols and packets at concrete inputs.
use ggskit.Actor.Uid.{ActorUid, UidLib, uid_eq}
use ggskit.Actor.Uid.RoundTrip.{IsInt64}
use ggskit.Actor.Registry.Scripts.{or_empty}
use ggskit.Actor.ServerStore.{
  StoreError, ServerStoreConfig, ServerCache, StoreState, set_actor_server, get_actor_server,
  on_invalidation,
}
use ggskit.Actor.ServerStore.Consistency.{get_actor_server-set}
use ggskit.Lock.{lock, DLock, Server, try_lock, unlock, refresh_lock}
use ggskit.Lock.Exclusion.{Refused, lock_excludes_others, IsHeldByOther}
use ggskit.Protocol.{MessageInfo, ProtoRegistry, register, get_pid, create, check, get_message_name}
use ggskit.Protocol.OneToOne.{OneToOne, register-OneToOne, check-register}
use ggskit.Codec.Packets.{
  Proto, encode_packet, decode_message, encode_payload, decode_payload,
  decode_message-encode_packet, decode_payload-encode_payload,
}
use ggskit.Common.Int.{pos}
use ggskit.Common.{
  ℕ, ◌≡◌, refl, ap, ◌≢◌, true, false, Option, none, some, [], ◌∷◌, arith, Text, codes, length,
  nat_eq, text_eq, text_beq, put, put_self, ok,
}

abbrev lib : UidLib
lib = record { to_category = λ z. z; to_id = λ z. z; is_zero = λ uid. false }

abbrev store_cfg : ServerStoreConfig
store_cfg = record { redis_cli = true; local_cache_ttl = pos 5 }

abbrev uid : ActorUid
uid = record { category = pos 1; id = pos 7 }

abbrev store : StoreState
store = record { db = λ k. none; cache = λ u. none }

-- The other process knows an older server.
abbrev stale : ServerCache
stale = put uid (record { server_id = pos 3; exists = true; expire_at = pos 100 }) (λ u. none)

small : IsInt64 (pos 7)
small = (ground arith, ground arith)

one_fits : IsInt64 (pos 1)
one_fits = (ground arith, ground arith)

abbrev set_seven : StoreState × (Option Text × Option StoreError)
set_seven = set_actor_server lib store_cfg true (pos 0) uid (pos 7) store

get_actor_server-set_example :
    (set_seven.1.1 ≡ none)
    × ((get_actor_server lib store_cfg true
          (λ i. pos i)
          uid
          (record {
            db = set_seven.0.db;
            cache = on_invalidation lib (or_empty set_seven.1.0) stale;
          })).1
        ≡ ok (pos 7, true))
get_actor_server-set_example =
    get_actor_server-set lib store_cfg (pos 0) (λ i. pos i) uid (pos 7) store stale refl refl small
      (one_fits, small) refl refl

abbrev mine : DLock
mine = record { key = codes "k"; value = codes "a"; expiry = pos 30; locked = true }

abbrev theirs : Server
theirs = put (codes "k") (codes "b") (λ k. none)

abbrev first_code : Text → ℕ
first_code [] = 0
first_code (x ∷ xs) = x

b_not_a : codes "b" ≢ codes "a"
b_not_a e = omega (arith, ap first_code e)

held_by_b : theirs (codes "k") ≡ some (codes "b")
held_by_b = put_self (codes "k") (codes "b") (λ k. none)

mine-IsHeldByOther : IsHeldByOther mine theirs
mine-IsHeldByOther = (codes "b", held_by_b, b_not_a)

lock_excludes_others_example :
    Refused theirs (try_lock true mine theirs)
    × Refused theirs (unlock true mine theirs)
    × Refused theirs (refresh_lock true mine theirs)
    × (lock ((true, theirs) ∷ (false, theirs) ∷ []) mine ≡ (mine, false))
lock_excludes_others_example =
    lock_excludes_others true mine theirs ((true, theirs) ∷ (false, theirs) ∷ []) mine-IsHeldByOther
      (mine-IsHeldByOther, (mine-IsHeldByOther, tt))

abbrev nothing : Server
nothing k = none

abbrev taken : Server × DLock
taken = (try_lock true mine nothing).0

abbrev no_types : ProtoRegistry ℕ
no_types = record { pid2_type = λ p. none; type2_pid = λ t. none }

none_OneToOne : OneToOne no_types
none_OneToOne p t = (λ h. absurd (grind arith), λ h. absurd (grind arith))

abbrev login : MessageInfo ℕ
login = record {
  is_nil = false;
  is_pointer = true;
  elem_type = 4;
  proto_name = codes "Login";
  pkg_path = [];
  type_name = codes "Login";
}

register-OneToOne_example : OneToOne (register (λ n. length n) login no_types).0
register-OneToOne_example = register-OneToOne (λ n. length n) login no_types none_OneToOne

login_registered : (register (λ n. length n) login no_types).1 ≡ ok 5
unfolding register get_message_name text_beq
login_registered = refl

check-register_example :
    (create 5 (register (λ n. length n) login no_types).0 ≡ ok 4)
    × (get_pid login (register (λ n. length n) login no_types).0 ≡ some 5)
    × (check 5 login (register (λ n. length n) login no_types).0 ≡ none)
check-register_example =
    check-register (λ n. length n) login no_types 5 none_OneToOne login_registered

-- Messages that are their bytes.
abbrev raw : Proto
raw = record {
  Msg = Text;
  Blank = ℕ;
  get_pid = λ m. some 300;
  create = λ p. some p;
  check = λ p m. true;
  marshal = λ m. some m;
  unmarshal = λ b t. some t;
}

decode_message-encode_packet_example :
    (p : Text) × (encode_packet raw (pos 1) 5 (codes "hi") ≡ ok p)
    × (decode_message raw p ≡ ok (codes "hi"))
decode_message-encode_packet_example =
    decode_message-encode_packet raw (pos 1) 5 300 (codes "hi") 300 (codes "hi") refl (omega arith)
      refl refl refl

decode_payload-encode_payload_example :
    (p : Text) × (encode_payload raw 300 (codes "hi") ≡ ok p)
    × (decode_payload raw p ≡ ok (300, codes "hi"))
decode_payload-encode_payload_example =
    decode_payload-encode_payload raw 300 (codes "hi") 300 (codes "hi") refl (omega arith) refl refl
      refl
