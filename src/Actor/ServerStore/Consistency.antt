-- ===== src/Actor/ServerStore/Consistency.antt =====
-- What one process sets, another one gets.
use ggskit.Strconv.RoundTrip.{parse_int-format_int}
use ggskit.Strconv.{format_int}
use ggskit.Actor.Uid.{
  ActorUid, UidLib, gen_actor_server_key, gen_actor_uid_payload, parse_actor_uid_payload, uid_eq,
}
use ggskit.Actor.Registry.Scripts.{or_empty}
use ggskit.Actor.Uid.RoundTrip.{
  gen_actor_uid_payload-nonempty, FitsInt64, IsInt64, parse_actor_uid_payload-gen,
}
use ggskit.Actor.ServerStore.{
  ServerStoreConfig, ServerCache, StoreState, set_actor_server, get_actor_server,
  get_server_from_redis, get_cached_server, read_server, delete_cached_server, on_invalidation,
}
use ggskit.Common.Int.{ℤ, pos, leb_ℤ}
use ggskit.Common.{
  ℕ, ◌≡◌, refl, ap, ◌∙◌, ◌≢◌, Bool, true, false, none, some, [], ◌∷◌, Text, nat_eq, text_eq, put,
  put_self, delete_self, ok,
}

unseen :
    (now : ℤ) (uid : ActorUid) (cache : ServerCache)
    → cache uid ≡ none
    → get_cached_server now uid cache ≡ (cache, none)
unfolding get_cached_server
unseen now uid cache h = rw h refl

-- A process that has nothing cached reads the server from Redis.
asks :
    (lib : UidLib) (cfg : ServerStoreConfig) (clock : ℕ → ℤ) (uid : ActorUid) (s : StoreState)
    (z : ℤ) (b : Bool)
    → lib.is_zero uid ≡ false
    → s.cache uid ≡ none
    → read_server (s.db (gen_actor_server_key uid)) ≡ ok (z, b)
    → (get_actor_server lib cfg true clock uid s).1 ≡ ok (z, b)
unfolding get_actor_server get_server_from_redis
asks lib cfg clock uid s z b v h r =
    rw (get_actor_server, v, unseen (clock 0) uid s.cache h, unseen (clock 1) uid s.cache h, r) refl

written :
    (z : ℤ) → leb_ℤ z (pos 0) ≡ false → IsInt64 z → read_server (some (format_int z)) ≡ ok (z, true)
written z p (lo, hi) = rw (parse_int-format_int z lo hi, p) refl

-- A payload that is parsed is no empty message.
parsed :
    (lib : UidLib) (payload : Text) (uid : ActorUid) (cache : ServerCache)
    → parse_actor_uid_payload lib payload ≡ ok uid
    → payload ≢ []
    → on_invalidation lib payload cache uid ≡ none
unfolding on_invalidation delete_cached_server
parsed lib [] uid cache h n = absurd (n refl)
parsed lib (x ∷ xs) uid cache h n = rw (on_invalidation, h) (delete_self uid cache)

-- After the payload of an actor with `int64` fields arrives, that actor is not cached.
pub on_invalidation-payload :
    (lib : UidLib) (uid : ActorUid) (cache : ServerCache)
    → FitsInt64 uid
    → lib.to_category uid.category ≡ uid.category
    → lib.to_id uid.id ≡ uid.id
    → on_invalidation lib (gen_actor_uid_payload uid) cache uid ≡ none
on_invalidation-payload lib uid cache f c i =
    parsed lib (gen_actor_uid_payload uid) uid cache (parse_actor_uid_payload-gen lib uid f c i)
      (gen_actor_uid_payload-nonempty uid)

-- One process sets the server of an actor and succeeds; another one, that has anything cached, gets
-- the invalidation that was published. Then the other one gets that server.
pub get_actor_server-set :
    (lib : UidLib) (cfg : ServerStoreConfig) (now : ℤ) (clock : ℕ → ℤ) (uid : ActorUid) (z : ℤ)
    (s : StoreState) (cache : ServerCache)
    → lib.is_zero uid ≡ false
    → leb_ℤ z (pos 0) ≡ false
    → IsInt64 z
    → FitsInt64 uid
    → lib.to_category uid.category ≡ uid.category
    → lib.to_id uid.id ≡ uid.id
    → let (after, (published, error)) = set_actor_server lib cfg true now uid z s in
      let heard = on_invalidation lib (or_empty published) cache in
      (error ≡ none)
      × ((get_actor_server lib cfg true clock uid (record { db = after.db; cache = heard })).1
          ≡ ok (z, true))
unfolding set_actor_server
get_actor_server-set lib cfg now clock uid z s cache v p i f c d =
    rw (v, p)
      (
        refl,
        asks lib cfg clock uid
            (record {
              db = put (gen_actor_server_key uid) (format_int z) s.db;
              cache = on_invalidation lib (gen_actor_uid_payload uid) cache;
            })
            z true v (on_invalidation-payload lib uid cache f c d)
            (ap read_server (put_self (gen_actor_server_key uid) (format_int z) s.db)
              ∙ written z p i),
      )
