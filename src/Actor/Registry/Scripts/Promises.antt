-- ===== src/Actor/Registry/Scripts/Promises.antt =====
-- What each script of the registry promises, on every state of the server.
use ggskit.Common.Int.{ℤ}
use ggskit.Redis.{Redis, Item, takes_entries}
use ggskit.Actor.Registry.Scripts.{
  Reply, Script, StreamArgs, register_actor_script, take_over_actor_script, unregister_actor_script,
  keep_alive_actor_script, get_actor_reg_script,
}
use ggskit.Actor.Registry.View.{
  View, Answer, owned, Registration, held, mismatch, view, encode, register_spec, take_over_spec,
  unregister_spec, keep_alive_spec, lookup_spec,
}
use ggskit.Actor.Registry.Scripts.Reading.{Refines}
use ggskit.Actor.Registry.Scripts.Register.{register_actor_script-Refines}
use ggskit.Actor.Registry.Scripts.TakeOver.{
  take_over_actor_script-Refines, count_of, log_after_take_over,
}
use ggskit.Actor.Registry.Scripts.Unregister.{unregister_actor_script-Refines, log_after_unregister}
use ggskit.Actor.Registry.Scripts.Unregister.{revision_of}
use ggskit.Actor.Registry.Scripts.KeepAlive.{keep_alive_actor_script-Refines}
use ggskit.Actor.Registry.Scripts.Lookup.{get_actor_reg_script-Refines}
use ggskit.Common.{
  ◌≡◌, refl, ap, ◌∙◌, ◌≢◌, inl, inr, true, Option, some, List, [], Bool-cases, Text, ◌==◌, nat_eq,
  text_eq, ==_refl, ==_ne,
}

-- The script replies the answer, leaves the view of its key, and does not touch the key `j`.
abbrev pub Promise :
    (r : Redis) (key j : Text) (db : r.Db) → r.Db × Option (List Reply) → View × Answer → Type 0
Promise r key j db out (v, a) =
    (out.1 ≡ encode a) × (view r (r.item key out.0) ≡ v) × (r.item j out.0 ≡ r.item j db)

module _ (r : Redis) (key : Text) (db : r.Db) where
  -- Where the script leaves the second key as it is, that is any other key.
  kept :
      (j : Text) (apart : key ≢ j) (m : Script r (List Reply)) (s : View × Answer)
      → Refines r key j apart m (r.item key db) (r.item j db) s (r.item j db)
      → Promise r key j db (m db) s
  kept j apart m (v, a) (o, runs, seen) =
      let (e, h, k, other) = runs.at db refl refl in (e, ap (view r) h ∙ seen, k)

  -- The stream of changes as well.
  abbrev pub Announces :
      (log j : Text) → r.Db × Option (List Reply) → View × Answer → Option Item → Type 0
  Announces log j out s l = Promise r key j db out s × (r.item log out.0 ≡ l)

  logged :
      (log j : Text) (apart : key ≢ log) (m : Script r (List Reply)) (s : View × Answer)
      (l : Option Item)
      → key ≢ j
      → log ≢ j
      → Refines r key log apart m (r.item key db) (r.item log db) s l
      → Announces log j (m db) s l
  logged log j apart m (v, a) l p q (o, runs, seen) =
      let (e, h, k, other) = runs.at db refl refl in ((e, ap (view r) h ∙ seen, other j p q), k)

-- On every state of the server: the register script grants the actor to the node if nobody or the
-- same node holds it, names the other holder else, fails on a text or type it cannot read, and
-- changes no other key. The lifetime is a number that `EXPIRE` takes.
pub register_actor_script_lem :
    (r : Redis) (key j : Text) (db : r.Db) (node lease ttl_text : Text) (ttl : ℤ)
    → key ≢ j
    → r.tonumber ttl_text ≡ some ttl
    → r.expire_fits ttl ≡ true
    → Promise r key j db
        (register_actor_script r key node lease ttl_text db)
        (register_spec (view r (r.item key db)) node lease ttl)
register_actor_script_lem r key j db node lease ttl_text ttl apart e f =
    kept r key db j apart _ _
      (register_actor_script-Refines r key j apart _ _ node lease ttl_text ttl e f)

-- On every state of the server in which the revision can be counted and the change stream is a
-- stream or absent: the take-over script moves the actor to the node if the source lease holds it
-- and appends the move to the stream, refuses else, and changes no other key. The source lease is
-- not the empty text and the lifetime a number that `EXPIRE` takes.
pub take_over_actor_script_lem :
    (r : Redis) (key j : Text) (db : r.Db) (args : StreamArgs) (node lease source ttl_text : Text)
    (ttl n : ℤ) (apart : key ≢ args.stream_key)
    → key ≢ j
    → args.stream_key ≢ j
    → source ≢ []
    → count_of r key args.stream_key apart (r.item key db) ≡ some n
    → takes_entries (r.item args.stream_key db) ≡ true
    → r.tonumber ttl_text ≡ some ttl
    → r.expire_fits ttl ≡ true
    → Announces r key db args.stream_key j
        (take_over_actor_script r key node lease source ttl_text args db)
        (take_over_spec (view r (r.item key db)) node lease source ttl)
        (log_after_take_over r key args.stream_key apart args refl
          (view r (r.item key db))
          source
          n
          (r.item args.stream_key db))
take_over_actor_script_lem r key j db args node lease source ttl_text ttl n apart p q s c t e f =
    logged r key db args.stream_key j apart _ _ _ p q (
      take_over_actor_script-Refines r key args.stream_key apart args refl _ _ node lease source
        ttl_text ttl n s c t e f)

-- On every state of the server in which the revision is a number and the change stream is a stream
-- or absent: the unregister script removes the registration of the node and lease and appends the
-- deletion to the stream, refuses anybody else, and changes no other key. The node is not the empty
-- text.
pub unregister_actor_script_lem :
    (r : Redis) (key j : Text) (db : r.Db) (args : StreamArgs) (node lease : Text) (n : ℤ)
    (apart : key ≢ args.stream_key)
    → key ≢ j
    → args.stream_key ≢ j
    → node ≢ []
    → revision_of r key args.stream_key apart (r.item key db) ≡ some n
    → takes_entries (r.item args.stream_key db) ≡ true
    → Announces r key db args.stream_key j
        (unregister_actor_script r key node lease args db)
        (unregister_spec (view r (r.item key db)) node lease)
        (log_after_unregister r key args.stream_key apart args refl
          (view r (r.item key db))
          node
          lease
          n
          (r.item args.stream_key db))
unregister_actor_script_lem r key j db args node lease n apart p q s c t =
    logged r key db args.stream_key j apart _ _ _ p q
      (unregister_actor_script-Refines r key args.stream_key apart args refl _ _ node lease n s c t)

-- On every state of the server: the keep-alive script renews the expiry of the registration of the
-- node and lease and of no other, and changes no other key. The node is not the empty text and the
-- lifetime a number that `EXPIRE` takes.
pub keep_alive_actor_script_lem :
    (r : Redis) (key j : Text) (db : r.Db) (node lease ttl_text : Text) (ttl : ℤ)
    → key ≢ j
    → node ≢ []
    → r.tonumber ttl_text ≡ some ttl
    → r.expire_fits ttl ≡ true
    → Promise r key j db
        (keep_alive_actor_script r key node lease ttl_text db)
        (keep_alive_spec (view r (r.item key db)) node lease ttl)
keep_alive_actor_script_lem r key j db node lease ttl_text ttl apart n e f =
    kept r key db j apart _ _
      (keep_alive_actor_script-Refines r key j apart _ _ node lease ttl_text ttl n e f)

-- On every state of the server: the lookup script replies the node and the seconds left of the
-- registration, and changes neither its view nor any other key.
pub get_actor_reg_script_lem :
    (r : Redis) (key j : Text) (db : r.Db)
    → key ≢ j
    → Promise r key j db
        (get_actor_reg_script r key db)
        (view r (r.item key db), lookup_spec (view r (r.item key db)))
get_actor_reg_script_lem r key j db apart =
    kept r key db j apart _ _ (get_actor_reg_script-Refines r key j apart _ _)

-- The holder of the source lease gives way.
moved_view :
    (v : View) (g : Registration) (node lease source : Text) (ttl : ℤ)
    → v ≡ held g
    → g.lease ≡ source
    → (take_over_spec v node lease source ttl).0 ≡ owned node lease ttl
moved_view v g node lease source ttl h e = rw (h, e, ==_refl source) refl

-- A lease that is not the holder's renews nothing.
late_keep_alive :
    (v : View) (node lease old source : Text) (ttl ttl' : ℤ)
    → lease ≢ source
    → v ≡ owned node lease ttl
    → keep_alive_spec v old source ttl' ≡ (owned node lease ttl, mismatch)
late_keep_alive v node lease old source ttl ttl' d h = elim (Bool-cases (node == old)) [
  | inl same ↦ rw (h, same, ==_ne lease source d) refl
  | inr new ↦ rw (h, new) refl
]

-- After a take-over with a new lease of an actor that the source lease holds, a keep-alive with the
-- old lease, from any node with a name, is refused, and the actor stays registered as the take-over
-- left it. The lifetimes, the revision and the stream of changes are as for the two scripts.
pub take_over_fences :
    (r : Redis) (key j : Text) (db : r.Db) (args : StreamArgs)
    (node lease source ttl_text old late_text : Text) (ttl late n : ℤ) (g : Registration)
    (apart : key ≢ args.stream_key)
    → key ≢ j
    → args.stream_key ≢ j
    → source ≢ []
    → old ≢ []
    → lease ≢ source
    → view r (r.item key db) ≡ held g
    → g.lease ≡ source
    → count_of r key args.stream_key apart (r.item key db) ≡ some n
    → takes_entries (r.item args.stream_key db) ≡ true
    → r.tonumber ttl_text ≡ some ttl
    → r.expire_fits ttl ≡ true
    → r.tonumber late_text ≡ some late
    → r.expire_fits late ≡ true
    → let moved = (take_over_actor_script r key node lease source ttl_text args db).0 in
      let out = keep_alive_actor_script r key old source late_text moved in
      (out.1 ≡ encode mismatch) × (view r (r.item key out.0) ≡ owned node lease ttl)
take_over_fences r key j db args node lease source ttl_text old late_text ttl late n g apart p q s o
      d v h c t e f e' f' =
    let moved = (take_over_actor_script r key node lease source ttl_text args db).0 in
    let ((_, seen, _), _) =
      take_over_actor_script_lem r key j db args node lease source ttl_text ttl n apart p q s c t e
        f in
    let late_spec =
      late_keep_alive (view r (r.item key moved)) node lease old source ttl late d
        (seen ∙ moved_view _ g node lease source ttl v h) in
    let (answer, kept_view, _) =
      keep_alive_actor_script_lem r key j moved old source late_text late p o e' f' in
    (
      answer ∙ ap (λ (x : View × Answer). encode x.1) late_spec,
      kept_view ∙ ap (λ (x : View × Answer). x.0) late_spec,
    )
