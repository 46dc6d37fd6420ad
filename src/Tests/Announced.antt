-- ===== src/Tests/Announced.antt =====
-- The theorems on the calls that announce, at a server that holds one actor.
use ggskit.Common.Int.{pos}
use ggskit.Redis.{increment, takes_entries, Item, hash}
use ggskit.Strconv.{parse_int}
use ggskit.Actor.Uid.{gen_actor_reg_key, uid_eq}
use ggskit.Actor.Registry.Config.{
  ActorTakeOverParams, ActorUnregisterParams, validate_take_over, validate_unregister, validate_uid,
}
use ggskit.Actor.Registry.View.{view, take_over_spec, unregister_spec}
use ggskit.Actor.Registry.Scripts.TakeOver.{count_of, log_after_take_over}
use ggskit.Actor.Registry.Scripts.Unregister.{revision_of, log_after_unregister}
use ggskit.Actor.Registry.Calls.{State, stream_args, take_over_actor, unregister_actor}
use ggskit.Actor.Registry.Calls.Outcomes.{unregister_outcome}
use ggskit.Actor.Registry.Calls.Announcing.{
  keys_apart, take_over_outcome, take_over_actor_lem, unregister_actor_lem,
}
use ggskit.Tests.Rest.{server, client, lib, cfg, uid, clock, node, empty, thirty_fits, node_some}
use ggskit.Common.{
  ◌≡◌, refl, ap, ◌∙◌, ◌≢◌, true, none, some, [], arith, Text, codes, length, nat_eq, text_eq,
  text_beq, Map, put, put_self, put_ne, ok, up,
}

abbrev key : Text
key = gen_actor_reg_key uid

abbrev log : Text
log = codes "actor_registry:changes"

abbrev lease : Text
lease = codes "l1"

abbrev entry : Item
entry = record {
  value = hash (put (codes "node_id") node (put (codes "lease_id") lease (λ f. none)));
  ttl = some 5000;
}

abbrev db : Map Text Item
db = put key entry (λ k. none)

abbrev state : State server client lib cfg
state = record { db = db; cache = empty }

abbrev moving : ActorTakeOverParams
moving = record {
  uid = uid;
  node_id = codes "game/2";
  lease_id = codes "l2";
  source_lease_id = lease;
  ttl = pos 30;
}

abbrev leaving : ActorUnregisterParams
leaving = record { uid = uid; node_id = node; lease_id = lease }

moving_valid : validate_take_over lib moving ≡ ok tt
unfolding validate_take_over validate_uid text_beq
moving_valid = refl

leaving_valid : validate_unregister lib leaving ≡ ok tt
unfolding validate_unregister validate_uid text_beq
leaving_valid = refl

lease_some : lease ≢ []
lease_some e = omega (arith, ap length e)

there : server.item key db ≡ some entry
there = put_self key entry (λ k. none)

entry_counts : count_of server key log (keys_apart uid) (some entry) ≡ some (pos 1)
unfolding text_beq increment
entry_counts = refl

countable : count_of server key log (keys_apart uid) (server.item key db) ≡ some (pos 1)
countable = ap (count_of server key log (keys_apart uid)) there ∙ entry_counts

entry_revised : revision_of server key log (keys_apart uid) (some entry) ≡ some (pos 0)
unfolding text_beq parse_int
entry_revised = refl

revised : revision_of server key log (keys_apart uid) (server.item key db) ≡ some (pos 0)
revised = ap (revision_of server key log (keys_apart uid)) there ∙ entry_revised

log_ready : takes_entries (server.item log db) ≡ true
log_ready = ap takes_entries (put_ne key log entry (λ k. none) (keys_apart uid))

take_over_actor_lem_example :
    let before = view server (server.item key db) in
    let spec = take_over_spec before (codes "game/2") (codes "l2") lease (pos 30) in
    let out = take_over_actor server client lib cfg up clock moving state in
    (view server (server.item key out.0.db) ≡ spec.0)
    × ((out.0.cache, out.1) ≡ take_over_outcome cfg clock uid empty spec.1)
    × (server.item log out.0.db
        ≡ log_after_take_over server key log
            (keys_apart uid)
            (stream_args server client lib cfg uid)
            refl
            before
            lease
            (pos 1)
            (server.item log db))
take_over_actor_lem_example =
    take_over_actor_lem server client lib cfg clock moving state (pos 1) moving_valid lease_some
      thirty_fits refl countable log_ready

unregister_actor_lem_example :
    let before = view server (server.item key db) in
    let spec = unregister_spec before node lease in
    let out = unregister_actor server client lib cfg up clock leaving state in
    (view server (server.item key out.0.db) ≡ spec.0)
    × ((out.0.cache, out.1) ≡ unregister_outcome cfg clock uid empty spec.1)
    × (server.item log out.0.db
        ≡ log_after_unregister server key log
            (keys_apart uid)
            (stream_args server client lib cfg uid)
            refl
            before
            node
            lease
            (pos 0)
            (server.item log db))
unregister_actor_lem_example =
    unregister_actor_lem server client lib cfg clock leaving state (pos 0) leaving_valid node_some
      revised log_ready
