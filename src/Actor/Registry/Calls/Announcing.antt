-- ===== src/Actor/Registry/Calls/Announcing.antt =====
-- The outcome of the two calls that announce what they do on the change stream.
use ggskit.Common.Int.{pos, ℤ}
use mathlib.Core.Option.{some-injective}
use ggskit.Redis.{Redis, takes_entries}
use ggskit.Actor.Uid.{ActorUid, UidLib, gen_actor_reg_key}
use ggskit.Actor.Registry.Config.{
  Error, RegistryConfig, ActorTakeOverParams, ActorUnregisterParams, validate_take_over,
  validate_unregister, redis_failure, not_exists, lease_mismatch, unexpected_code,
  bad_script_result,
}
use ggskit.Actor.Registry.Cache.{Cache, delete_cached_location}
use ggskit.Actor.Registry.Replies.{
  script_results, result_int64, result_string, result_at, parse_int64, parse_string,
}
use ggskit.Actor.Registry.View.{
  Answer, view, encode, take_over_spec, unregister_spec, granted, taken, located, missing, mismatch,
  done, failed,
}
use ggskit.Actor.Registry.Scripts.TakeOver.{count_of, log_after_take_over}
use ggskit.Actor.Registry.Scripts.Unregister.{revision_of, log_after_unregister}
use ggskit.Actor.Registry.Scripts.Promises.{take_over_actor_script_lem, unregister_actor_script_lem}
use ggskit.Actor.Registry.Calls.{
  IsExact, Client, ActorRegisterResult, no_result, Clock, code_of, on_take_over, on_unregister,
  State, receive_all, stream_args, take_over_actor, unregister_actor,
}
use ggskit.Actor.Registry.Calls.Outcomes.{named, unregister_outcome}
use ggskit.Common.{
  ◌≡◌, refl, ap, ◌≢◌, true, Option, none, some, [], ◌∷◌, ◌++◌, arith, Text, codes, length,
  get_elem?, length-append, nat_eq, text_eq, ok, up,
}

-- The registration of an actor and the change stream never share a key.
pub keys_apart : (uid : ActorUid) → gen_actor_reg_key uid ≢ codes "actor_registry:changes"
unfolding gen_actor_reg_key
keys_apart uid e =
    let h : 58 ≡ 105 = some-injective _ _ (ap (λ (t : Text). get_elem? t 9) e) in omega (arith, h)

-- What `TakeOverActor` makes of an answer.
abbrev pub take_over_outcome :
    RegistryConfig
    → Clock
    → ActorUid
    → Cache
    → Answer
    → Cache × (ActorRegisterResult × Option Error)
take_over_outcome cfg clock uid cache (granted node ttl) = named cfg clock uid cache node ttl none
take_over_outcome cfg clock uid cache (taken node ttl) =
    (cache, (no_result, some (unexpected_code (pos 2))))
take_over_outcome cfg clock uid cache (located node ttl) = named cfg clock uid cache node ttl none
take_over_outcome cfg clock uid cache missing =
    (delete_cached_location uid cache, (no_result, some not_exists))
take_over_outcome cfg clock uid cache mismatch = (cache, (no_result, some lease_mismatch))
take_over_outcome cfg clock uid cache done = (cache, (no_result, some bad_script_result))
take_over_outcome cfg clock uid cache failed = (cache, (no_result, some redis_failure))

module _ (r : Redis) (client : Client r) (lib : UidLib) (cfg : RegistryConfig) where
  module _ (clock : Clock) (uid : ActorUid) (cache : Cache) where
    on_take_over-encode :
        (a : Answer)
        → on_take_over cfg clock uid (code_of (receive_all r client lib cfg (encode a))) cache
          ≡ take_over_outcome cfg clock uid cache a
    unfolding script_results result_int64 result_string result_at parse_int64 parse_string
    on_take_over-encode (granted n t) = simp (client.receive_int, client.receive_bulk)
    on_take_over-encode (taken n t) = simp (client.receive_int, client.receive_bulk)
    on_take_over-encode (located n t) = simp (client.receive_int, client.receive_bulk)
    on_take_over-encode missing = simp (client.receive_int)
    on_take_over-encode mismatch = simp (client.receive_int)
    on_take_over-encode done = simp (client.receive_int)
    on_take_over-encode failed = refl

    on_unregister-encode :
        (a : Answer)
        → on_unregister cfg clock uid (code_of (receive_all r client lib cfg (encode a))) cache
          ≡ unregister_outcome cfg clock uid cache a
    unfolding script_results result_int64 result_at parse_int64
    on_unregister-encode (granted n t) = simp (client.receive_int, client.receive_bulk)
    on_unregister-encode (taken n t) = simp (client.receive_int, client.receive_bulk)
    on_unregister-encode (located n t) = simp (client.receive_int, client.receive_bulk)
    on_unregister-encode missing = simp (client.receive_int)
    on_unregister-encode mismatch = simp (client.receive_int)
    on_unregister-encode done = simp (client.receive_int)
    on_unregister-encode failed = refl

-- A key that is neither of two.
longer_left : (xs ys : Text) → xs ≢ b'x' ∷ xs ++ ys
longer_left xs ys e = omega (arith, ap (λ (t : Text). length t) e, length-append xs ys)

longer_right : (xs ys : Text) → ys ≢ b'x' ∷ xs ++ ys
longer_right xs ys e = omega (arith, ap (λ (t : Text). length t) e, length-append xs ys)

-- For a valid request with a source lease and a lifetime of at most 2 ^ 53 seconds that `EXPIRE`
-- takes, over a working connection, where the revision can be counted and the change stream is a
-- stream or absent: `TakeOverActor` moves the actor as `take_over_spec` says, returns and caches
-- the new location, forgets a location of an actor that is gone, reports who is refused, and the
-- change stream has the move, and nothing where there was none.
pub take_over_actor_lem :
    (r : Redis) (client : Client r) (lib : UidLib) (cfg : RegistryConfig) (clock : Clock)
    (p : ActorTakeOverParams) (s : State r client lib cfg) (n : ℤ)
    → validate_take_over lib p ≡ ok tt
    → p.source_lease_id ≢ []
    → IsExact p.ttl
    → r.expire_fits p.ttl ≡ true
    → let key = gen_actor_reg_key p.uid in
      let log = codes "actor_registry:changes" in
      count_of r key log (keys_apart p.uid) (r.item key s.db) ≡ some n
      → takes_entries (r.item (codes "actor_registry:changes") s.db) ≡ true
      → let key = gen_actor_reg_key p.uid in
        let log = codes "actor_registry:changes" in
        let before = view r (r.item key s.db) in
        let spec = take_over_spec before p.node_id p.lease_id p.source_lease_id p.ttl in
        let out = take_over_actor r client lib cfg up clock p s in
        (view r (r.item key out.0.db) ≡ spec.0)
        × ((out.0.cache, out.1) ≡ take_over_outcome cfg clock p.uid s.cache spec.1)
        × (r.item log out.0.db
            ≡ log_after_take_over r key log
                (keys_apart p.uid)
                (stream_args r client lib cfg p.uid)
                refl
                before
                p.source_lease_id
                n
                (r.item log s.db))
unfolding take_over_actor
take_over_actor_lem r client lib cfg clock p s n v o i f c t =
    let key = gen_actor_reg_key p.uid in
    let log = codes "actor_registry:changes" in
    let spec =
      take_over_spec (view r (r.item key s.db)) p.node_id p.lease_id p.source_lease_id p.ttl in
    let ((e, w, _), k) =
      take_over_actor_script_lem r key (b'x' ∷ key ++ log) s.db (stream_args r client lib cfg p.uid)
        p.node_id p.lease_id p.source_lease_id (client.send_int p.ttl) p.ttl n (keys_apart p.uid)
        (longer_left key log) (longer_right key log) o c t (client.tonumber-send_int p.ttl i) f in
    rw (take_over_actor, v)
      (w, rw e (on_take_over-encode r client lib cfg clock p.uid s.cache spec.1), k)

-- For a valid request with a node, over a working connection, where the revision is a number and
-- the change stream is a stream or absent: `UnregisterActor` removes the registration as
-- `unregister_spec` says, forgets the location of an actor that is gone, reports who is refused,
-- and the change stream has the deletion, and nothing where there was none.
pub unregister_actor_lem :
    (r : Redis) (client : Client r) (lib : UidLib) (cfg : RegistryConfig) (clock : Clock)
    (p : ActorUnregisterParams) (s : State r client lib cfg) (n : ℤ)
    → validate_unregister lib p ≡ ok tt
    → p.node_id ≢ []
    → let key = gen_actor_reg_key p.uid in
      let log = codes "actor_registry:changes" in
      revision_of r key log (keys_apart p.uid) (r.item key s.db) ≡ some n
      → takes_entries (r.item (codes "actor_registry:changes") s.db) ≡ true
      → let key = gen_actor_reg_key p.uid in
        let log = codes "actor_registry:changes" in
        let before = view r (r.item key s.db) in
        let spec = unregister_spec before p.node_id p.lease_id in
        let out = unregister_actor r client lib cfg up clock p s in
        (view r (r.item key out.0.db) ≡ spec.0)
        × ((out.0.cache, out.1) ≡ unregister_outcome cfg clock p.uid s.cache spec.1)
        × (r.item log out.0.db
            ≡ log_after_unregister r key log
                (keys_apart p.uid)
                (stream_args r client lib cfg p.uid)
                refl
                before
                p.node_id
                p.lease_id
                n
                (r.item log s.db))
unfolding unregister_actor
unregister_actor_lem r client lib cfg clock p s n v o c t =
    let key = gen_actor_reg_key p.uid in
    let log = codes "actor_registry:changes" in
    let spec = unregister_spec (view r (r.item key s.db)) p.node_id p.lease_id in
    let ((e, w, _), k) =
      unregister_actor_script_lem r key (b'x' ∷ key ++ log) s.db
        (stream_args r client lib cfg p.uid) p.node_id p.lease_id n (keys_apart p.uid)
        (longer_left key log) (longer_right key log) o c t in
    rw (unregister_actor, v)
      (w, rw e (on_unregister-encode r client lib cfg clock p.uid s.cache spec.1), k)
