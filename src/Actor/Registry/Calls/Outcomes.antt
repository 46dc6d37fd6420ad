-- ===== src/Actor/Registry/Calls/Outcomes.antt =====
-- The outcome of each call, from what the registration of its actor is.
use ggskit.Redis.{Redis}
use ggskit.Actor.Uid.{ActorUid, UidLib, gen_actor_reg_key, uid_eq}
use ggskit.Actor.Registry.Config.{
  Error, RegistryConfig, ActorRegisterParams, validate_register, redis_failure, already_registered,
  not_exists, lease_mismatch, unexpected_code, bad_script_result,
}
use ggskit.Actor.Registry.Cache.{
  live, CacheEntry, get_cached_location, ActorLocation, Cache, ttl_to_expire_at, cache_location,
  delete_cached_location,
}
use ggskit.Actor.Registry.Replies.{
  script_results, result_int64, result_string, result_at, parse_int64, parse_string,
}
use ggskit.Actor.Registry.View.{
  keep_alive_spec, lookup_spec, Answer, view, encode, register_spec, granted, taken, located,
  missing, mismatch, done, failed,
}
use ggskit.Actor.Registry.Scripts.Promises.{
  get_actor_reg_script_lem, keep_alive_actor_script_lem, register_actor_script_lem,
}
use ggskit.Actor.Registry.Calls.{
  get_actor_reg_script, fill, validate_lookup, get_location_from_redis, validate_keep_alive,
  ActorKeepAliveParams, get_actor_location, keep_actor_alive, IsExact, Client, up,
  ActorRegisterResult, no_result, Clock, code_of, on_register, on_keep_alive, on_lookup, State,
  receive_all, register_actor,
}
use ggskit.Common.Int.{ltb_ℤ, ℤ, pos}
use ggskit.Common.{
  sym, false-true, inr, subst, inl, ◌==◌, Bool-cases, Link, ◌∙◌, [], ◌≡◌, refl, ap, ◌≢◌, true,
  Option, none, some, ◌∷◌, arith, Text, length, nat_eq, text_eq, Result, ok, err,
}

module _ (cfg : RegistryConfig) (clock : Clock) (uid : ActorUid) (cache : Cache) where
  -- The cache and the result where a node holds the actor.
  abbrev pub named : Text → ℤ → Option Error → Cache × (ActorRegisterResult × Option Error)
  named node ttl e =
      let until = ttl_to_expire_at (clock 0) ttl in
      (
        cache_location cfg (clock 1) uid (record { node_id = node; expire_at = until }) cache,
        (record { node_id = node; expire_at = until }, e),
      )

  -- What `RegisterActor` makes of an answer.
  abbrev pub register_outcome : Answer → Cache × (ActorRegisterResult × Option Error)
  register_outcome (granted node ttl) = named node ttl none
  register_outcome (taken node ttl) = named node ttl (some already_registered)
  register_outcome (located node ttl) = named node ttl none
  register_outcome missing = (cache, (no_result, some (unexpected_code (pos 1))))
  register_outcome mismatch = (cache, (no_result, some (unexpected_code (pos 3))))
  register_outcome done = (cache, (no_result, some bad_script_result))
  register_outcome failed = (cache, (no_result, some redis_failure))

  -- What `KeepActorAlive` makes of an answer.
  abbrev pub keep_alive_outcome : Text → ℤ → Answer → Cache × Option Error
  keep_alive_outcome node ttl a =
      let until = ttl_to_expire_at (clock 0) ttl in
      let renewed =
        cache_location cfg (clock 1) uid (record { node_id = node; expire_at = until }) cache in
      elim a [
        | granted n t ↦ (renewed, none)
        | taken n t ↦ (cache, some (unexpected_code (pos 2)))
        | located n t ↦ (renewed, none)
        | missing ↦ (delete_cached_location uid cache, some not_exists)
        | mismatch ↦ (cache, some lease_mismatch)
        | done ↦ (renewed, none)
        | failed ↦ (cache, some redis_failure)
      ]

  -- What `UnregisterActor` makes of an answer.
  abbrev pub unregister_outcome : Answer → Cache × Option Error
  unregister_outcome a = elim a [
    | granted n t ↦ (delete_cached_location uid cache, none)
    | taken n t ↦ (cache, some (unexpected_code (pos 2)))
    | located n t ↦ (delete_cached_location uid cache, none)
    | missing ↦ (delete_cached_location uid cache, some not_exists)
    | mismatch ↦ (cache, some lease_mismatch)
    | done ↦ (delete_cached_location uid cache, none)
    | failed ↦ (cache, some redis_failure)
  ]

-- What `getLocationFromRedis` makes of an answer.
abbrev pub lookup_outcome : ℤ → Answer → Result Error ActorLocation
lookup_outcome now a = elim a [
  | granted n t ↦ ok (record { node_id = n; expire_at = ttl_to_expire_at now t })
  | taken n t ↦ err (unexpected_code (pos 2))
  | located n t ↦ ok (record { node_id = n; expire_at = ttl_to_expire_at now t })
  | missing ↦ err not_exists
  | mismatch ↦ err (unexpected_code (pos 3))
  | done ↦ err bad_script_result
  | failed ↦ err redis_failure
]

module _ (r : Redis) (client : Client r) (lib : UidLib) (cfg : RegistryConfig) where
  module _ (clock : Clock) (uid : ActorUid) (cache : Cache) where
    on_register-encode :
        (a : Answer)
        → on_register cfg clock uid (code_of (receive_all r client lib cfg (encode a))) cache
          ≡ register_outcome cfg clock uid cache a
    unfolding script_results result_int64 result_string result_at parse_int64 parse_string
    on_register-encode (granted n t) = simp (client.receive_int, client.receive_bulk)
    on_register-encode (taken n t) = simp (client.receive_int, client.receive_bulk)
    on_register-encode (located n t) = simp (client.receive_int, client.receive_bulk)
    on_register-encode missing = simp (client.receive_int)
    on_register-encode mismatch = simp (client.receive_int)
    on_register-encode done = simp (client.receive_int)
    on_register-encode failed = refl

    on_keep_alive-encode :
        (node : Text) (ttl : ℤ) (a : Answer)
        → on_keep_alive cfg clock uid node ttl
            (code_of (receive_all r client lib cfg (encode a)))
            cache
          ≡ keep_alive_outcome cfg clock uid cache node ttl a
    unfolding script_results result_int64 result_string result_at parse_int64 parse_string
    on_keep_alive-encode node ttl (granted n t) = simp (client.receive_int, client.receive_bulk)
    on_keep_alive-encode node ttl (taken n t) = simp (client.receive_int, client.receive_bulk)
    on_keep_alive-encode node ttl (located n t) = simp (client.receive_int, client.receive_bulk)
    on_keep_alive-encode node ttl missing = simp (client.receive_int)
    on_keep_alive-encode node ttl mismatch = simp (client.receive_int)
    on_keep_alive-encode node ttl done = simp (client.receive_int)
    on_keep_alive-encode node ttl failed = refl

  on_lookup-encode :
      (now : ℤ) (a : Answer)
      → on_lookup now (code_of (receive_all r client lib cfg (encode a))) ≡ lookup_outcome now a
  unfolding script_results result_int64 result_string result_at parse_int64 parse_string
  on_lookup-encode now (granted n t) = simp (client.receive_int, client.receive_bulk)
  on_lookup-encode now (taken n t) = simp (client.receive_int, client.receive_bulk)
  on_lookup-encode now (located n t) = simp (client.receive_int, client.receive_bulk)
  on_lookup-encode now missing = simp (client.receive_int)
  on_lookup-encode now mismatch = simp (client.receive_int)
  on_lookup-encode now done = simp (client.receive_int)
  on_lookup-encode now failed = refl

-- There is always another key.
shorter : (xs : Text) → xs ≢ b'x' ∷ xs
shorter xs e = omega (arith, ap (λ (t : Text). length t) e)

-- For a valid request with a lifetime of at most 2 ^ 53 seconds that `EXPIRE` takes, over a working
-- connection: `RegisterActor` registers the actor as `register_spec` says, returns and caches the
-- holder's location, and reports a holder that is another node, or a script that failed.
pub register_actor_lem :
    (r : Redis) (client : Client r) (lib : UidLib) (cfg : RegistryConfig) (clock : Clock)
    (p : ActorRegisterParams) (s : State r client lib cfg)
    → validate_register lib p ≡ ok tt
    → IsExact p.ttl
    → r.expire_fits p.ttl ≡ true
    → let key = gen_actor_reg_key p.uid in
      let spec = register_spec (view r (r.item key s.db)) p.node_id p.lease_id p.ttl in
      let out = register_actor r client lib cfg up clock p s in
      (view r (r.item key out.0.db) ≡ spec.0)
      × ((out.0.cache, out.1) ≡ register_outcome cfg clock p.uid s.cache spec.1)
unfolding register_actor
register_actor_lem r client lib cfg clock p s v i f =
    let key = gen_actor_reg_key p.uid in
    let spec = register_spec (view r (r.item key s.db)) p.node_id p.lease_id p.ttl in
    let (e, w, _) =
      register_actor_script_lem r key (b'x' ∷ key) s.db p.node_id p.lease_id (client.send_int p.ttl)
        p.ttl (shorter key) (client.tonumber-send_int p.ttl i) f in
    rw (register_actor, v)
      (w, rw e (on_register-encode r client lib cfg clock p.uid s.cache spec.1))

-- For a valid request with a lifetime of at most 2 ^ 53 seconds that `EXPIRE` takes, over a working
-- connection: `KeepActorAlive` renews the registration as `keep_alive_spec` says, caches the
-- location of an owner, drops that of an actor that is gone, and reports who is refused.
pub keep_actor_alive_lem :
    (r : Redis) (client : Client r) (lib : UidLib) (cfg : RegistryConfig) (clock : Clock)
    (p : ActorKeepAliveParams) (s : State r client lib cfg)
    → validate_keep_alive lib p ≡ ok tt
    → p.node_id ≢ []
    → IsExact p.ttl
    → r.expire_fits p.ttl ≡ true
    → let key = gen_actor_reg_key p.uid in
      let spec = keep_alive_spec (view r (r.item key s.db)) p.node_id p.lease_id p.ttl in
      let out = keep_actor_alive r client lib cfg up clock p s in
      (view r (r.item key out.0.db) ≡ spec.0)
      × ((out.0.cache, out.1) ≡ keep_alive_outcome cfg clock p.uid s.cache p.node_id p.ttl spec.1)
unfolding keep_actor_alive
keep_actor_alive_lem r client lib cfg clock p s v n i f =
    let key = gen_actor_reg_key p.uid in
    let spec = keep_alive_spec (view r (r.item key s.db)) p.node_id p.lease_id p.ttl in
    let (e, w, _) =
      keep_alive_actor_script_lem r key (b'x' ∷ key) s.db p.node_id p.lease_id
        (client.send_int p.ttl) p.ttl (shorter key) n (client.tonumber-send_int p.ttl i) f in
    rw (keep_actor_alive, v)
      (w, rw e (on_keep_alive-encode r client lib cfg clock p.uid s.cache p.node_id p.ttl spec.1))

-- The cache after a lookup that asked the server.
abbrev pub filled : RegistryConfig → ℤ → ActorUid → Cache → Result Error ActorLocation → Cache
filled cfg now uid cache (ok l) = cache_location cfg now uid l cache
filled cfg now uid cache (err e) = cache

filled_lem :
    (r : Redis) (client : Client r) (lib : UidLib) (cfg : RegistryConfig) (clock : Clock)
    (uid : ActorUid) (cache : Cache) (db : r.Db) (x : Result Error ActorLocation)
    → let out = fill r client lib cfg clock uid cache (db, x) in
      (out.0.db ≡ db) × (out.1 ≡ x) × (out.0.cache ≡ filled cfg (clock 3) uid cache x)
filled_lem r client lib cfg clock uid cache db (ok l) = (refl, refl, refl)
filled_lem r client lib cfg clock uid cache db (err e) = (refl, refl, refl)

missed :
    (now : ℤ) (uid : ActorUid) (cache : Cache)
    → cache uid ≡ none
    → get_cached_location now uid cache ≡ (cache, none)
unfolding get_cached_location live
missed now uid cache h = rw h refl

hit :
    (now : ℤ) (uid : ActorUid) (cache : Cache) (entry : CacheEntry)
    → cache uid ≡ some entry
    → ltb_ℤ now entry.expire_at ≡ true
    → get_cached_location now uid cache ≡ (cache, some entry.location)
unfolding get_cached_location live
hit now uid cache entry h l = rw (h, l) refl

-- A lookup leaves the view of every key.
lookup_keeps :
    (r : Redis) (key k : Text) (db : r.Db)
    → view r (r.item k (get_actor_reg_script r key db).0) ≡ view r (r.item k db)
lookup_keeps r key k db = elim (Bool-cases (key == k)) [
  | inl same ↦
      let e = (text_eq.beq_iff key k).0 same in
      subst (λ j. view r (r.item j (get_actor_reg_script r key db).0) ≡ view r (r.item j db)) e
        (get_actor_reg_script_lem r key (b'x' ∷ key) db (shorter key)).1
  | inr other ↦
      ap (view r)
        (get_actor_reg_script_lem r key k db
          (λ e. false-true (sym other ∙ (text_eq.beq_iff key k).1 e))).2
]

-- Over a working connection, where nothing is cached for a valid actor: `GetActorLocation` returns
-- what the registration says and caches it, changes the registration of no key, and caches no
-- error.
pub get_actor_location_asks :
    (r : Redis) (client : Client r) (lib : UidLib) (cfg : RegistryConfig) (clock : Clock)
    (uid : ActorUid) (s : State r client lib cfg)
    → validate_lookup lib uid ≡ ok tt
    → s.cache uid ≡ none
    → let key = gen_actor_reg_key uid in
      let found = lookup_outcome (clock 2) (lookup_spec (view r (r.item key s.db))) in
      let out = get_actor_location r client lib cfg up clock uid s in
      ((k : Text) → view r (r.item k out.0.db) ≡ view r (r.item k s.db))
      × (out.1 ≡ found)
      × (out.0.cache ≡ filled cfg (clock 3) uid s.cache found)
unfolding get_actor_location get_location_from_redis
get_actor_location_asks r client lib cfg clock uid s v m =
    let key = gen_actor_reg_key uid in
    let found = lookup_outcome (clock 2) (lookup_spec (view r (r.item key s.db))) in
    let (e, _, _) = get_actor_reg_script_lem r key (b'x' ∷ key) s.db (shorter key) in
    let answer : on_lookup (clock 2)
          (code_of (receive_all r client lib cfg (get_actor_reg_script r key s.db).1))
        ≡ found =
      rw e (on_lookup-encode r client lib cfg (clock 2) (lookup_spec (view r (r.item key s.db)))) in
    let (d, b, c) =
      filled_lem r client lib cfg clock uid s.cache (get_actor_reg_script r key s.db).0 found in
    rw
      (
        get_actor_location,
        v,
        missed (clock 0) uid s.cache m,
        missed (clock 1) uid s.cache m,
        answer,
      )
      (λ k. ap (λ (db : r.Db). view r (r.item k db)) d ∙ lookup_keeps r key k s.db, b, c)

-- A valid actor whose cached location has not expired is found without the server, and nothing
-- changes.
pub get_actor_location_cached :
    (r : Redis) (client : Client r) (lib : UidLib) (cfg : RegistryConfig) (link : Link)
    (clock : Clock) (uid : ActorUid) (s : State r client lib cfg) (entry : CacheEntry)
    → validate_lookup lib uid ≡ ok tt
    → s.cache uid ≡ some entry
    → ltb_ℤ (clock 0) entry.expire_at ≡ true
    → get_actor_location r client lib cfg link clock uid s ≡ (s, ok entry.location)
unfolding get_actor_location
get_actor_location_cached r client lib cfg link clock uid s entry v m fresh =
    rw (get_actor_location, v, hit (clock 0) uid s.cache entry m fresh) refl
