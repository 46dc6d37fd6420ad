-- ===== src/Tests/Rest.antt =====
-- The theorems on the calls, the cache, the stream, the keys and the nodes at concrete inputs.
use ggskit.Redis.{Redis}
use ggskit.Redis.Memory.{memory}
use ggskit.Strconv.{ParseError, format_int}
use ggskit.Strconv.RoundTrip.{parse_int-format_int}
use ggskit.Actor.Uid.{
  ActorUid, UidLib, gen_actor_reg_key, gen_actor_server_key, uid_eq, gen_actor_uid_payload,
  parse_actor_uid_payload,
}
use ggskit.Actor.Uid.RoundTrip.{IsInt64, parse_actor_uid_payload-gen, actor_keys_differ}
use ggskit.Actor.Registry.Config.{
  validate_uid, RegistryConfig, ActorRegisterParams, ActorKeepAliveParams, validate_register,
  validate_keep_alive, validate_lookup, second,
}
use ggskit.Actor.Registry.Cache.{ActorLocation, Cache, CacheEntry}
use ggskit.Actor.Registry.Replies.{RawValue, raw_int, raw_string}
use ggskit.Actor.Registry.Scripts.{Reply, int, bulk, StreamArgs, change}
use ggskit.Actor.Registry.View.{view, register_spec, keep_alive_spec, lookup_spec}
use ggskit.Actor.Registry.Calls.{
  IsExact, Client, State, Clock, register_actor, keep_actor_alive, get_actor_location,
}
use ggskit.Actor.Registry.Calls.Outcomes.{
  register_outcome, keep_alive_outcome, lookup_outcome, filled, register_actor_lem,
  keep_actor_alive_lem, get_actor_location_asks,
}
use ggskit.Actor.Registry.Stream.{
  Message, messages, timed_out, failed, consume_location_changes, consumer_start, CacheEvent, reads,
  looks_up, stores,
}
use ggskit.Actor.Registry.Stream.Eviction.{
  values_of, consume_location_changes_evicts, IsChangeOf, IsNoStoreOf,
}
use ggskit.Cluster.Node.{Node, parse_node, get_node_id, check_valid}
use ggskit.Cluster.Node.RoundTrip.{parse_node-registered}
use ggskit.Cluster.Center.{get_retry_backoff, min_retry_backoff, max_retry_backoff}
use ggskit.Cluster.Center.Backoff.{get_retry_backoff_bounds}
use ggskit.Common.Int.{ℤ, pos, negsuc, ◌+ℤ◌}
use ggskit.Common.{
  ◌↔◌, up, err, Result, ◌+◌, ◌*◌, ◌≤◌, ◌<◌, ◌≡◌, refl, ap, ◌≢◌, ◌⊎◌, inl, inr, List, true, false,
  none, some, [], ◌∷◌, ◌++◌, arith, Text, codes, length, All, nat_eq, text_eq, text_beq, put, ok,
}

abbrev pub server : Redis
server = memory (λ t. none)

abbrev pub received : Reply → RawValue
received (int z) = raw_int z
received (bulk t) = raw_string t

pub read_back : (z : ℤ) → IsExact z → server.tonumber (format_int z) ≡ some z
read_back z (lo, hi) =
    ap (λ (x : Result ParseError ℤ). elim x [ ok y ↦ some y | err e ↦ none ])
      (parse_int-format_int z (omega arith) (omega arith))

abbrev pub client : Client server
client = record {
  send_int = format_int;
  receive = received;
  tonumber-send_int = read_back;
  receive_int = λ z. refl;
  receive_bulk = λ t. refl;
}

abbrev pub lib : UidLib
lib = record { to_category = λ z. z; to_id = λ z. z; is_zero = λ uid. false }

abbrev pub cfg : RegistryConfig
cfg = record {
  redis_cli = true;
  change_stream_max_len = pos 100;
  local_cache_max_ttl = pos (5 * second);
  local_cache_safety_window = pos second;
}

abbrev pub uid : ActorUid
uid = record { category = pos 1; id = pos 7 }

abbrev other_uid : ActorUid
other_uid = record { category = pos 1; id = negsuc 7 }

abbrev pub clock : Clock
clock i = pos (1000 * second + i)

abbrev pub node : Text
node = codes "game/1"

abbrev pub empty : Cache
empty u = none

abbrev fresh : State server client lib cfg
fresh = record { db = λ k. none; cache = empty }

abbrev register_params : ActorRegisterParams
register_params = record { uid = uid; node_id = node; lease_id = codes "l1"; ttl = pos 30 }

abbrev keep_alive_params : ActorKeepAliveParams
keep_alive_params = record { uid = uid; node_id = node; lease_id = codes "l1"; ttl = pos 30 }

pub thirty_fits : IsExact (pos 30)
thirty_fits = (ground arith, ground arith)

register_valid : validate_register lib register_params ≡ ok tt
unfolding validate_register validate_uid text_beq
register_valid = refl

keep_alive_valid : validate_keep_alive lib keep_alive_params ≡ ok tt
unfolding validate_keep_alive validate_uid text_beq
keep_alive_valid = refl

lookup_valid : validate_lookup lib uid ≡ ok tt
unfolding validate_lookup validate_uid
lookup_valid = refl

pub node_some : node ≢ []
node_some e = omega (arith, ap length e)

register_actor_lem_example :
    let spec = register_spec (view server none) node (codes "l1") (pos 30) in
    let out = register_actor server client lib cfg up clock register_params fresh in
    (view server (out.0.db (gen_actor_reg_key uid)) ≡ spec.0)
    × ((out.0.cache, out.1) ≡ register_outcome cfg clock uid empty spec.1)
register_actor_lem_example =
    register_actor_lem server client lib cfg clock register_params fresh register_valid thirty_fits
      refl

keep_actor_alive_lem_example :
    let spec = keep_alive_spec (view server none) node (codes "l1") (pos 30) in
    let out = keep_actor_alive server client lib cfg up clock keep_alive_params fresh in
    (view server (out.0.db (gen_actor_reg_key uid)) ≡ spec.0)
    × ((out.0.cache, out.1) ≡ keep_alive_outcome cfg clock uid empty node (pos 30) spec.1)
keep_actor_alive_lem_example =
    keep_actor_alive_lem server client lib cfg clock keep_alive_params fresh keep_alive_valid
      node_some thirty_fits refl

get_actor_location_asks_example :
    let found = lookup_outcome (clock 2) (lookup_spec (view server none)) in
    let out = get_actor_location server client lib cfg up clock uid fresh in
    ((k : Text) → view server (out.0.db k) ≡ view server none)
    × (out.1 ≡ found)
    × (out.0.cache ≡ filled cfg (clock 3) uid empty found)
get_actor_location_asks_example =
    get_actor_location_asks server client lib cfg clock uid fresh lookup_valid refl

abbrev location : ActorLocation
location = record { node_id = node; expire_at = pos 1030 }

abbrev cached : CacheEntry
cached = record { location = location; expire_at = pos (1005 * second) }

abbrev warm : State server client lib cfg
warm = record { db = λ k. none; cache = put uid cached empty }

seven_fits : IsInt64 (pos 7)
seven_fits = (ground arith, ground arith)

one_fits : IsInt64 (pos 1)
one_fits = (ground arith, ground arith)

abbrev announcement : StreamArgs
announcement = record {
  stream_key = codes "actor_registry:changes";
  max_len = pos 100;
  category_text = format_int uid.category;
  id_text = format_int uid.id;
}

abbrev change_message : Message
change_message = record {
  id = codes "5-0";
  values = values_of (change server announcement (pos 3) (codes "delete"));
}

change_message-IsChangeOf : IsChangeOf server uid change_message
change_message-IsChangeOf = (announcement, pos 3, codes "delete", inr refl, refl, refl, refl)

abbrev looks : List CacheEvent
looks = reads timed_out ∷ looks_up (clock 2) uid ∷ stores (clock 3) other_uid location ∷ []

others_stored : All (IsNoStoreOf uid) looks
others_stored = (tt, (tt, (refl, tt)))

consume_location_changes_evicts_example :
    (consume_location_changes lib cfg
        (stores (clock 1) uid location
          ∷ reads failed
          ∷ reads (messages (change_message ∷ []))
          ∷ looks)
        (consumer_start warm.cache)).cache
      uid
    ≡ none
consume_location_changes_evicts_example =
    consume_location_changes_evicts server lib cfg
      (stores (clock 1) uid location ∷ reads failed ∷ []) looks (change_message ∷ []) change_message
      (consumer_start warm.cache) uid (one_fits, seven_fits) refl refl (inl refl)
      change_message-IsChangeOf others_stored

abbrev stored : CacheEntry
stored = record { location = location; expire_at = clock 1 +ℤ pos (5 * second) }

minus_fits : IsInt64 (negsuc 7)
minus_fits = (ground arith, ground arith)

parse_actor_uid_payload-gen_example :
    parse_actor_uid_payload lib (gen_actor_uid_payload other_uid) ≡ ok other_uid
parse_actor_uid_payload-gen_example =
    parse_actor_uid_payload-gen lib other_uid (one_fits, minus_fits) refl refl

actor_keys_differ_example :
    ((gen_actor_reg_key uid ≡ gen_actor_reg_key other_uid) ↔ (uid ≡ other_uid))
    × ((gen_actor_server_key uid ≡ gen_actor_server_key other_uid) ↔ (uid ≡ other_uid))
    × (gen_actor_reg_key uid ≢ gen_actor_server_key other_uid)
actor_keys_differ_example =
    actor_keys_differ uid other_uid (one_fits, seven_fits) (one_fits, minus_fits)

game_no_slash : All (λ x. x ≢ b'/') (codes "game")
game_no_slash = (
  λ e. omega (arith, e),
  (λ e. omega (arith, e), (λ e. omega (arith, e), (λ e. omega (arith, e), tt))),
)

abbrev game : Node
game = record { category = codes "game"; name = codes "1"; addr = codes "h:1"; server_id = pos 1 }

game_valid : check_valid game ≡ ok tt
unfolding check_valid text_beq
game_valid = refl

parse_node-registered_example :
    parse_node (λ t. some game) (codes "/root") (codes "/root" ++ b'/' ∷ get_node_id game) []
    ≡ ok (game, get_node_id game)
parse_node-registered_example =
    parse_node-registered (λ t. some game) (codes "/root") [] game game_valid game_no_slash refl

get_retry_backoff_bounds_example :
    (min_retry_backoff ≤ get_retry_backoff 0)
    × (get_retry_backoff 0 ≤ max_retry_backoff)
    × ((get_retry_backoff 0 ≡ max_retry_backoff) ⊎ (0 < get_retry_backoff 0))
get_retry_backoff_bounds_example = get_retry_backoff_bounds 0
