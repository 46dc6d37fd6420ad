-- ===== src/Actor/Registry/Calls.antt =====
-- The calls of the registry: infra/actor/registry.go. A call works on the server and on its local
-- cache; the clock's readings and the state of the connection are arguments.
pub mod Outcomes
pub mod Announcing
use ggskit.Redis.{Redis}
use ggskit.Actor.Uid.{ActorUid, UidLib, gen_actor_reg_key, uid_eq}
use ggskit.Actor.Registry.Config.{
  Error, RegistryConfig, ActorRegisterParams, ActorTakeOverParams, ActorUnregisterParams,
  ActorKeepAliveParams, validate_register, validate_take_over, validate_unregister,
  validate_keep_alive, validate_lookup, redis_failure, already_registered, not_exists,
  lease_mismatch, unexpected_code,
}
use ggskit.Actor.Registry.Cache.{
  ActorLocation, Cache, ttl_to_expire_at, cache_location, delete_cached_location,
  get_cached_location,
}
use ggskit.Actor.Registry.Replies.{
  RawValue, RawResult, raw_int, raw_string, array, script_results, result_int64, result_string,
}
use ggskit.Actor.Registry.Scripts.{
  Reply, int, bulk, StreamArgs, Script, register_actor_script, take_over_actor_script,
  unregister_actor_script, keep_alive_actor_script, get_actor_reg_script,
}
use ggskit.Common.Int.{◌≤ℤ◌, negsuc, ℤ, pos, int_beq}
use ggskit.Common.{
  ◌-◌, ◌^◌, [], Link, up, lost_before, lost_after, ℕ, ◌≡◌, Option, none, some, List, map,
  if◌then◌else◌, Text, codes, Result, ok, err, ◌>>=◌, ◌>>◌,
}

-- The whole numbers that are numbers of Lua, which are doubles, together with all below them.
abbrev pub IsExact : ℤ → Type 0
IsExact z = (negsuc (2 ^ 53 - 1) ≤ℤ z) × (z ≤ℤ pos (2 ^ 53))

-- What the client library does with arguments and replies.
pub record Client (r : Redis) : Type 0 where
  pub send_int : ℤ → Text
  pub receive : Reply → RawValue
  pub tonumber-send_int : (z : ℤ) → IsExact z → r.tonumber (send_int z) ≡ some z
  pub receive_int : (z : ℤ) → receive (int z) ≡ raw_int z
  pub receive_bulk : (t : Text) → receive (bulk t) ≡ raw_string t

pub record ActorRegisterResult : Type 0 where
  pub node_id : Text
  pub expire_at : ℤ

abbrev pub no_result : ActorRegisterResult
no_result = record { node_id = []; expire_at = pos 0 }

-- The readings of the clock, in their order.
abbrev pub Clock : Type 0
Clock = ℕ → ℤ

abbrev pub code_of : Option RawResult → Result Error (List RawValue × ℤ)
code_of none = err redis_failure
code_of (some raw) = do
  results ← script_results raw
  code ← result_int64 results 0
  ok (results, code)

-- The node and the lifetime that a reply names.
abbrev pub read_grant : List RawValue → Result Error (Text × ℤ)
read_grant results = do node ← result_string results 1; ttl ← result_int64 results 2; ok (node, ttl)

module _ (cfg : RegistryConfig) (clock : Clock) (uid : ActorUid) where
  abbrev pub grant :
      Result Error (Text × ℤ) → Option Error → Cache → Cache × (ActorRegisterResult × Option Error)
  grant (err e) o cache = (cache, (no_result, some e))
  grant (ok (node, ttl)) o cache =
      let until = ttl_to_expire_at (clock 0) ttl in
      (
        cache_location cfg (clock 1) uid (record { node_id = node; expire_at = until }) cache,
        (record { node_id = node; expire_at = until }, o),
      )

  -- The calls after their script has run.
  abbrev pub on_register :
      Result Error (List RawValue × ℤ) → Cache → Cache × (ActorRegisterResult × Option Error)
  on_register (err e) cache = (cache, (no_result, some e))
  on_register (ok (results, code)) cache =
      if int_beq code (pos 0)
      then grant (read_grant results) none cache
      else if int_beq code (pos 2)
      then grant (read_grant results) (some already_registered) cache
      else (cache, (no_result, some (unexpected_code code)))

  abbrev pub on_take_over :
      Result Error (List RawValue × ℤ) → Cache → Cache × (ActorRegisterResult × Option Error)
  on_take_over (err e) cache = (cache, (no_result, some e))
  on_take_over (ok (results, code)) cache =
      if int_beq code (pos 0)
      then grant (read_grant results) none cache
      else if int_beq code (pos 1)
      then (delete_cached_location uid cache, (no_result, some not_exists))
      else if int_beq code (pos 3)
      then (cache, (no_result, some lease_mismatch))
      else (cache, (no_result, some (unexpected_code code)))

  abbrev pub on_unregister : Result Error (List RawValue × ℤ) → Cache → Cache × Option Error
  on_unregister (err e) cache = (cache, some e)
  on_unregister (ok (results, code)) cache =
      if int_beq code (pos 0)
      then (delete_cached_location uid cache, none)
      else if int_beq code (pos 1)
      then (delete_cached_location uid cache, some not_exists)
      else if int_beq code (pos 3)
      then (cache, some lease_mismatch)
      else (cache, some (unexpected_code code))

  abbrev pub on_keep_alive :
      Text → ℤ → Result Error (List RawValue × ℤ) → Cache → Cache × Option Error
  on_keep_alive node ttl (err e) cache = (cache, some e)
  on_keep_alive node ttl (ok (results, code)) cache =
      let until = ttl_to_expire_at (clock 0) ttl in
      if int_beq code (pos 0)
      then (
        cache_location cfg (clock 1) uid (record { node_id = node; expire_at = until }) cache,
        none,
      )
      else if int_beq code (pos 1)
      then (delete_cached_location uid cache, some not_exists)
      else if int_beq code (pos 3)
      then (cache, some lease_mismatch)
      else (cache, some (unexpected_code code))

-- The end of `getLocationFromRedis`.
abbrev pub located_at : ℤ → Result Error (Text × ℤ) → Result Error ActorLocation
located_at now (err e) = err e
located_at now (ok (node, ttl)) =
    ok (record { node_id = node; expire_at = ttl_to_expire_at now ttl })

abbrev pub on_lookup : ℤ → Result Error (List RawValue × ℤ) → Result Error ActorLocation
on_lookup now (err e) = err e
on_lookup now (ok (results, code)) =
    if int_beq code (pos 0)
    then located_at now (read_grant results)
    else if int_beq code (pos 1)
    then err not_exists
    else err (unexpected_code code)

module _ (r : Redis) (client : Client r) (lib : UidLib) (cfg : RegistryConfig) where
  -- The server and the local cache of one registry.
  pub record State : Type 0 where
    pub db : r.Db
    pub cache : Cache

  abbrev pub receive_all : Option (List Reply) → Option RawResult
  receive_all none = none
  receive_all (some rs) = some (array (map client.receive rs))

  abbrev pub run : Link → Script r (List Reply) → r.Db → r.Db × Option RawResult
  run up m db = ((m db).0, receive_all (m db).1)
  run lost_before m db = (db, none)
  run lost_after m db = ((m db).0, none)

  abbrev pub finish {ℓ} :
      {A : Type ℓ}
      → Link
      → Script r (List Reply)
      → (Result Error (List RawValue × ℤ) → Cache → Cache × A)
      → State
      → State × A
  finish link m k s =
      let (db, raw) = run link m s.db in
      let (cache, a) = k (code_of raw) s.cache in (record { db = db; cache = cache }, a)

  abbrev pub stream_args : ActorUid → StreamArgs
  stream_args uid = record {
    stream_key = codes "actor_registry:changes";
    max_len = cfg.change_stream_max_len;
    category_text = client.send_int uid.category;
    id_text = client.send_int uid.id;
  }

  -- `RegisterActor`.
  unfoldable pub register_actor :
      Link → Clock → ActorRegisterParams → State → State × (ActorRegisterResult × Option Error)
  register_actor link clock p s = elim (validate_register lib p) [
    | err e ↦ (s, (no_result, some e))
    | ok u ↦
        finish link
          (register_actor_script r (gen_actor_reg_key p.uid) p.node_id p.lease_id
            (client.send_int p.ttl))
          (on_register cfg clock p.uid) s
  ]

  -- `TakeOverActor`.
  unfoldable pub take_over_actor :
      Link → Clock → ActorTakeOverParams → State → State × (ActorRegisterResult × Option Error)
  take_over_actor link clock p s = elim (validate_take_over lib p) [
    | err e ↦ (s, (no_result, some e))
    | ok u ↦
        finish link
          (take_over_actor_script r (gen_actor_reg_key p.uid) p.node_id p.lease_id p.source_lease_id
            (client.send_int p.ttl) (stream_args p.uid))
          (on_take_over cfg clock p.uid) s
  ]

  -- `UnregisterActor`.
  unfoldable pub unregister_actor :
      Link → Clock → ActorUnregisterParams → State → State × Option Error
  unregister_actor link clock p s = elim (validate_unregister lib p) [
    | err e ↦ (s, some e)
    | ok u ↦
        finish link
          (unregister_actor_script r (gen_actor_reg_key p.uid) p.node_id p.lease_id
            (stream_args p.uid))
          (on_unregister cfg clock p.uid) s
  ]

  -- `KeepActorAlive`.
  unfoldable pub keep_actor_alive :
      Link → Clock → ActorKeepAliveParams → State → State × Option Error
  keep_actor_alive link clock p s = elim (validate_keep_alive lib p) [
    | err e ↦ (s, some e)
    | ok u ↦
        finish link
          (keep_alive_actor_script r (gen_actor_reg_key p.uid) p.node_id p.lease_id
            (client.send_int p.ttl))
          (on_keep_alive cfg clock p.uid p.node_id p.ttl) s
  ]

  -- `getLocationFromRedis`.
  unfoldable pub get_location_from_redis :
      Link → ℤ → Text → r.Db → r.Db × Result Error ActorLocation
  get_location_from_redis link now key db =
      let (db', raw) = run link (get_actor_reg_script r key) db in
      (db', on_lookup now (code_of raw))

  abbrev pub fill :
      Clock
      → ActorUid
      → Cache
      → r.Db × Result Error ActorLocation
      → State × Result Error ActorLocation
  fill clock uid cache (db, err e) = (record { db = db; cache = cache }, err e)
  fill clock uid cache (db, ok l) =
      (record { db = db; cache = cache_location cfg (clock 3) uid l cache }, ok l)

  abbrev pub on_second_check :
      Link
      → Clock
      → ActorUid
      → r.Db
      → Cache × Option ActorLocation
      → State × Result Error ActorLocation
  on_second_check link clock uid db (cache, some l) = (record { db = db; cache = cache }, ok l)
  on_second_check link clock uid db (cache, none) =
      fill clock uid cache (get_location_from_redis link (clock 2) (gen_actor_reg_key uid) db)

  abbrev pub on_first_check :
      Link
      → Clock
      → ActorUid
      → r.Db
      → Cache × Option ActorLocation
      → State × Result Error ActorLocation
  on_first_check link clock uid db (cache, some l) = (record { db = db; cache = cache }, ok l)
  on_first_check link clock uid db (cache, none) =
      on_second_check link clock uid db (get_cached_location (clock 1) uid cache)

  -- `GetActorLocation` for one caller: the function that `singleflight` runs, run at once.
  unfoldable pub get_actor_location :
      Link → Clock → ActorUid → State → State × Result Error ActorLocation
  get_actor_location link clock uid s = elim (validate_lookup lib uid) [
    | err e ↦ (s, err e)
    | ok u ↦ on_first_check link clock uid s.db (get_cached_location (clock 0) uid s.cache)
  ]
