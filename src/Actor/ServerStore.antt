-- ===== src/Actor/ServerStore.antt =====
-- The server that an actor belongs to: infra/actor/server_store.go. The Redis client is the map of
-- the texts it stores; a call may fail.
pub mod Consistency
use ggskit.Strconv.{format_int, parse_int}
use ggskit.Actor.Uid.{
  ActorUid, UidLib, gen_actor_server_key, gen_actor_uid_payload, parse_actor_uid_payload, uid_eq,
}
use ggskit.Common.Int.{ℤ, pos, leb_ℤ, ltb_ℤ, ◌+ℤ◌}
use ggskit.Common.{
  [], ℕ, ◌*◌, ◌^◌, Bool, true, false, not, Option, none, some, ◌∷◌, if◌then◌else◌, Text, Map, put,
  delete, Result, ok, err, map_err, text_eq, ◌>>=◌, ◌>>◌,
}

pub data StoreError : Type 0 where
  redis_client_nil store_uid_required server_id_invalid redis_failed bad_server_id : StoreError

-- `ServerStoreConfig`; `redis_cli` says whether a client is given.
pub record ServerStoreConfig : Type 0 where
  pub redis_cli : Bool
  pub local_cache_ttl : ℤ

-- `ServerStoreConfig.init`.
unfoldable pub init_store : ServerStoreConfig → Result StoreError ServerStoreConfig
init_store c =
    if not c.redis_cli
    then err redis_client_nil
    else ok (record c {
      local_cache_ttl =
          if leb_ℤ c.local_cache_ttl (pos 0) then pos (5 * 10 ^ 9) else c.local_cache_ttl;
    })

-- `serverStoreCacheEntry`.
pub record ServerEntry : Type 0 where
  pub server_id : ℤ
  pub exists : Bool
  pub expire_at : ℤ

abbrev pub ServerCache : Type 0
ServerCache = Map ActorUid ServerEntry

-- `cacheServer`.
unfoldable pub cache_server :
    ServerStoreConfig → ℤ → ActorUid → ℤ → Bool → ServerCache → ServerCache
cache_server cfg now uid server_id exists cache =
    put uid
      (record { server_id = server_id; exists = exists; expire_at = now +ℤ cfg.local_cache_ttl })
      cache

-- `deleteCachedServer`.
unfoldable pub delete_cached_server : ActorUid → ServerCache → ServerCache
delete_cached_server uid cache = delete uid cache

abbrev pub fresh_server :
    ℤ → ActorUid → Option ServerEntry → ServerCache → ServerCache × Option (ℤ × Bool)
fresh_server now uid none cache = (cache, none)
fresh_server now uid (some e) cache =
    if not (ltb_ℤ now e.expire_at)
    then (delete uid cache, none)
    else (cache, some (e.server_id, e.exists))

-- `getCachedServer`; the map holds nothing but entries, so its type assertion never fails.
unfoldable pub get_cached_server : ℤ → ActorUid → ServerCache → ServerCache × Option (ℤ × Bool)
get_cached_server now uid cache = fresh_server now uid (cache uid) cache

abbrev pub checked_id : ℤ → Result StoreError (ℤ × Bool)
checked_id z = if leb_ℤ z (pos 0) then err server_id_invalid else ok (z, true)

abbrev pub read_server : Option Text → Result StoreError (ℤ × Bool)
read_server none = ok (pos 0, false)
read_server (some raw) = do z ← map_err (λ e. bad_server_id) (parse_int raw); checked_id z

-- `getServerFromRedis`; `reachable` says whether the call succeeds.
unfoldable pub get_server_from_redis : Bool → Map Text Text → Text → Result StoreError (ℤ × Bool)
get_server_from_redis reachable db key =
    if reachable then read_server (db key) else err redis_failed

-- A process with its cache, and the server they share.
pub record StoreState : Type 0 where
  pub db : Map Text Text
  pub cache : ServerCache

-- `SetActorServer`: the state, the message that is published, the error.
unfoldable pub set_actor_server :
    UidLib
    → ServerStoreConfig
    → Bool
    → ℤ
    → ActorUid
    → ℤ
    → StoreState
    → StoreState × (Option Text × Option StoreError)
set_actor_server lib cfg reachable now uid server_id s =
    if lib.is_zero uid
    then (s, (none, some store_uid_required))
    else if leb_ℤ server_id (pos 0)
    then (s, (none, some server_id_invalid))
    else if not reachable
    then (s, (none, some redis_failed))
    else (
      record {
        db = put (gen_actor_server_key uid) (format_int server_id) s.db;
        cache = cache_server cfg now uid server_id true s.cache;
      },
      (some (gen_actor_uid_payload uid), none),
    )

abbrev pub fill_server :
    ServerStoreConfig
    → ℤ
    → ActorUid
    → Map Text Text
    → ServerCache
    → Result StoreError (ℤ × Bool)
    → StoreState × Result StoreError (ℤ × Bool)
fill_server cfg now uid db cache (err e) = (record { db = db; cache = cache }, err e)
fill_server cfg now uid db cache (ok (z, b)) =
    (record { db = db; cache = cache_server cfg now uid z b cache }, ok (z, b))

abbrev pub second_look :
    ServerStoreConfig
    → Bool
    → (ℕ → ℤ)
    → ActorUid
    → Map Text Text
    → ServerCache × Option (ℤ × Bool)
    → StoreState × Result StoreError (ℤ × Bool)
second_look cfg reachable clock uid db (cache, some a) = (record { db = db; cache = cache }, ok a)
second_look cfg reachable clock uid db (cache, none) =
    fill_server cfg (clock 2) uid db cache
      (get_server_from_redis reachable db (gen_actor_server_key uid))

abbrev pub first_look :
    ServerStoreConfig
    → Bool
    → (ℕ → ℤ)
    → ActorUid
    → Map Text Text
    → ServerCache × Option (ℤ × Bool)
    → StoreState × Result StoreError (ℤ × Bool)
first_look cfg reachable clock uid db (cache, some a) = (record { db = db; cache = cache }, ok a)
first_look cfg reachable clock uid db (cache, none) =
    second_look cfg reachable clock uid db (get_cached_server (clock 1) uid cache)

-- `GetActorServer` for one caller: the function that `singleflight` runs, run at once.
unfoldable pub get_actor_server :
    UidLib
    → ServerStoreConfig
    → Bool
    → (ℕ → ℤ)
    → ActorUid
    → StoreState
    → StoreState × Result StoreError (ℤ × Bool)
get_actor_server lib cfg reachable clock uid s =
    if lib.is_zero uid
    then (s, err store_uid_required)
    else first_look cfg reachable clock uid s.db (get_cached_server (clock 0) uid s.cache)

-- A message of the invalidation channel, in `startInvalidationSubscriber`.
unfoldable pub on_invalidation : UidLib → Text → ServerCache → ServerCache
on_invalidation lib [] cache = cache
on_invalidation lib (x ∷ payload) cache = elim (parse_actor_uid_payload lib (x ∷ payload)) [
  | err e ↦ cache
  | ok uid ↦ delete_cached_server uid cache
]
