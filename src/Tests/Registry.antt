-- ===== src/Tests/Registry.antt =====
-- The theorems on the registry at a server that holds one actor.
use ggskit.Redis.{increment, takes_entries, Redis, Item, hash}
use ggskit.Redis.Memory.{memory}
use ggskit.Strconv.{parse_int}
use ggskit.Actor.Uid.{uid_eq}
use ggskit.Actor.Registry.Scripts.{
  StreamArgs, register_actor_script, take_over_actor_script, unregister_actor_script,
  keep_alive_actor_script, get_actor_reg_script,
}
use ggskit.Actor.Registry.View.{
  held, owned, mismatch, view, encode, register_spec, take_over_spec, unregister_spec,
  keep_alive_spec, lookup_spec,
}
use ggskit.Actor.Registry.Scripts.TakeOver.{count_of, log_after_take_over}
use ggskit.Actor.Registry.Scripts.Unregister.{revision_of, log_after_unregister}
use ggskit.Actor.Registry.Scripts.Promises.{
  Promise, Announces, register_actor_script_lem, take_over_actor_script_lem,
  unregister_actor_script_lem, keep_alive_actor_script_lem, get_actor_reg_script_lem,
  take_over_fences,
}
use ggskit.Common.Int.{pos}
use ggskit.Common.{
  ℕ, ◌≡◌, refl, ap, ◌≢◌, true, none, some, [], ◌∷◌, arith, Text, codes, length, drop, nat_eq,
  text_eq, text_beq, Map, put,
}

abbrev server : Redis
server = memory (λ t. none)

abbrev key : Text
key = codes "actor_reg:1:7"

abbrev log : Text
log = codes "actor_registry:changes"

abbrev elsewhere : Text
elsewhere = codes "other"

abbrev node : Text
node = codes "game/1"

abbrev lease : Text
lease = codes "l1"

abbrev entry : Item
entry = record {
  value = hash (put (codes "node_id") node (put (codes "lease_id") lease (λ f. none)));
  ttl = some 5000;
}

abbrev db : Map Text Item
db = put key entry (λ k. none)

abbrev args : StreamArgs
args = record {
  stream_key = log;
  max_len = pos 100;
  category_text = codes "1";
  id_text = codes "7";
}

abbrev thirty : Text
thirty = codes "30"

thirty_number : server.tonumber thirty ≡ some (pos 30)
unfolding parse_int
thirty_number = refl

abbrev head : Text → ℕ
head [] = 0
head (x ∷ xs) = x

key_log : key ≢ log
key_log e = omega (arith, ap length e)

key_apart : key ≢ elsewhere
key_apart e = omega (arith, ap length e)

log_apart : log ≢ elsewhere
log_apart e = omega (arith, ap length e)

lease_some : lease ≢ []
lease_some e = omega (arith, ap length e)

node_some : node ≢ []
node_some e = omega (arith, ap length e)

key_held :
    view server (server.item key db) ≡ held (record { node = node; lease = lease; ttl = some 5000 })
unfolding text_beq
key_held = refl

countable : count_of server key log key_log (server.item key db) ≡ some (pos 1)
unfolding text_beq increment
countable = refl

revised : revision_of server key log key_log (server.item key db) ≡ some (pos 0)
unfolding text_beq parse_int
revised = refl

log_ready : takes_entries (server.item log db) ≡ true
unfolding text_beq
log_ready = refl

new_lease : codes "l2" ≢ lease
new_lease e = omega (arith, ap (λ (t : Text). head (drop 1 t)) e)

register_actor_script_lem_example :
    Promise server key elsewhere db
      (register_actor_script server key (codes "game/2") (codes "l2") thirty db)
      (register_spec (view server (server.item key db)) (codes "game/2") (codes "l2") (pos 30))
register_actor_script_lem_example =
    register_actor_script_lem server key elsewhere db (codes "game/2") (codes "l2") thirty (pos 30)
      key_apart thirty_number refl

take_over_actor_script_lem_example :
    Announces server key db log elsewhere
      (take_over_actor_script server key (codes "game/2") (codes "l2") lease thirty args db)
      (take_over_spec
        (view server (server.item key db))
        (codes "game/2")
        (codes "l2")
        lease
        (pos 30))
      (log_after_take_over server key log key_log args refl
        (view server (server.item key db))
        lease
        (pos 1)
        (server.item log db))
take_over_actor_script_lem_example =
    take_over_actor_script_lem server key elsewhere db args (codes "game/2") (codes "l2") lease
      thirty (pos 30) (pos 1) key_log key_apart log_apart lease_some countable log_ready
      thirty_number refl

unregister_actor_script_lem_example :
    Announces server key db log elsewhere
      (unregister_actor_script server key node lease args db)
      (unregister_spec (view server (server.item key db)) node lease)
      (log_after_unregister server key log key_log args refl
        (view server (server.item key db))
        node
        lease
        (pos 0)
        (server.item log db))
unregister_actor_script_lem_example =
    unregister_actor_script_lem server key elsewhere db args node lease (pos 0) key_log key_apart
      log_apart node_some revised log_ready

keep_alive_actor_script_lem_example :
    Promise server key elsewhere db
      (keep_alive_actor_script server key node lease thirty db)
      (keep_alive_spec (view server (server.item key db)) node lease (pos 30))
keep_alive_actor_script_lem_example =
    keep_alive_actor_script_lem server key elsewhere db node lease thirty (pos 30) key_apart
      node_some thirty_number refl

get_actor_reg_script_lem_example :
    Promise server key elsewhere db
      (get_actor_reg_script server key db)
      (view server (server.item key db), lookup_spec (view server (server.item key db)))
get_actor_reg_script_lem_example = get_actor_reg_script_lem server key elsewhere db key_apart

abbrev moved : Map Text Item
moved = (take_over_actor_script server key (codes "game/2") (codes "l2") lease thirty args db).0

take_over_fences_example :
    ((keep_alive_actor_script server key node lease thirty moved).1 ≡ encode mismatch)
    × (view server (server.item key (keep_alive_actor_script server key node lease thirty moved).0)
        ≡ owned (codes "game/2") (codes "l2") (pos 30))
take_over_fences_example =
    take_over_fences server key elsewhere db args (codes "game/2") (codes "l2") lease thirty node
      thirty (pos 30) (pos 30) (pos 1) (record { node = node; lease = lease; ttl = some 5000 })
      key_log key_apart log_apart lease_some node_some new_lease key_held refl countable log_ready
      thirty_number refl thirty_number refl
