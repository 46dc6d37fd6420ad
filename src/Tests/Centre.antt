-- ===== src/Tests/Centre.antt =====
-- The theorems on the centre at concrete inputs, with an etcd in memory.
use ggskit.Common.Int.{pos}
use mathlib.Core.Option.{some-injective}
use ggskit.Cluster.Node.{Node, get_node_id, parse_node, check_valid}
use ggskit.Cluster.Node.RoundTrip.{parse_node-registered}
use ggskit.Cluster.Center.{Nodes, Event, put_event, delete_event, watch_events, sync_nodes}
use ggskit.Cluster.Center.Listener.{heard, IsKeyed, watch_events-heard}
use ggskit.Cluster.Center.Mirror.{Mirrors}
use ggskit.Cluster.Center.Mirror.Events.{stored_all, FromNode, written, gone, watch_events-Mirrors}
use ggskit.Cluster.Center.Mirror.Sync.{store_of, sync_nodes-Mirrors}
use ggskit.Cluster.Config.{normalize_path, starts_slash, has_double}
use ggskit.Cluster.Config.Paths.{segments, normalize_path_lem}
use ggskit.Cluster.Lease.{
  put_failed, Etcd, Own, Center, StartLinks, start, new_center, KeepAlive, keep_alive_start,
  grant_lease, register_self, heard_response,
}
use ggskit.Cluster.Lease.Recovery.{Step, drift, here, next, IsUp, once, keep_alive-start_recovers}
use ggskit.Cluster.Lease.Failure.{IsUndone, granted_links, start_fails}
use ggskit.Common.{
  ℕ, suc, ◌≡◌, refl, sym, ap, ◌∙◌, ◌≢◌, inl, inr, Bool, true, false, not, ◌&&◌, ◌||◌, Option, none,
  some, List, [], ◌∷◌, ◌++◌, arith, nat_beq, if◌then◌else◌, Bool-cases, Text, codes, All, nat_eq,
  text_eq, text_beq, ==_refl, Map, put, put_self, ok, some-none, false-true, up, lost_before,
}

abbrev game : Node
game = record { category = codes "game"; name = codes "1"; addr = codes "h:1"; server_id = pos 1 }

abbrev decode : Text → Option Node
decode t = some game

abbrev game_key : Text
game_key = codes "/r" ++ b'/' ∷ get_node_id game

game_no_slash : All (λ x. x ≢ b'/') (codes "game")
game_no_slash = (
  λ e. omega (arith, e),
  (λ e. omega (arith, e), (λ e. omega (arith, e), (λ e. omega (arith, e), tt))),
)

game_valid : check_valid game ≡ ok tt
unfolding check_valid text_beq
game_valid = refl

game_parsed : parse_node decode (codes "/r") game_key [] ≡ ok (game, get_node_id game)
game_parsed = parse_node-registered decode (codes "/r") [] game game_valid game_no_slash refl

game_written : FromNode decode (codes "/r") (put_event game_key [])
game_written = written (get_node_id game) [] game refl game_parsed

x_free : put {V = Text} game_key [] (λ k. none) (codes "x") ≡ none
unfolding text_beq
x_free = refl

abbrev changes : List Event
changes = put_event game_key [] ∷ delete_event game_key ∷ put_event game_key [] ∷ []

abbrev no_nodes : Nodes
no_nodes id = none

nothing-Mirrors : Mirrors decode (codes "/r") (codes "me/1") no_nodes (λ k. none)
nothing-Mirrors id = refl

watch_events-Mirrors_example :
    Mirrors decode
      (codes "/r")
      (codes "me/1")
      (watch_events decode (codes "/r") (codes "me/1") changes no_nodes).0
      (stored_all changes (λ k. none))
watch_events-Mirrors_example =
    watch_events-Mirrors decode (codes "/r") (codes "me/1") changes no_nodes (λ k. none)
      (game_written, (gone (get_node_id game) refl, (game_written, tt))) nothing-Mirrors

sync_nodes-Mirrors_example :
    Mirrors decode
      (codes "/r")
      (codes "me/1")
      (sync_nodes decode (codes "/r") (codes "me/1") ((game_key, []) ∷ (codes "x", []) ∷ [])).0
      (store_of ((game_key, []) ∷ (codes "x", []) ∷ []) (λ k. none))
sync_nodes-Mirrors_example =
    sync_nodes-Mirrors decode (codes "/r") (codes "me/1") ((game_key, []) ∷ (codes "x", []) ∷ [])
      (refl, (x_free, tt))

nothing-IsKeyed : IsKeyed no_nodes
nothing-IsKeyed id n h = absurd (some-none n (sym h))

watch_events-heard_example :
    heard (watch_events decode (codes "/r") (codes "me/1") changes no_nodes).1 no_nodes
    ≡ (watch_events decode (codes "/r") (codes "me/1") changes no_nodes).0
watch_events-heard_example =
    watch_events-heard decode (codes "/r") (codes "me/1") changes no_nodes nothing-IsKeyed

normalize_path_lem_example :
    let n = normalize_path (λ t. t) (codes "a//b///") in
    (starts_slash n ≡ true) × (has_double n ≡ false) × (segments n ≡ segments (codes "a//b///"))
normalize_path_lem_example = normalize_path_lem (λ t. t) (codes "a//b///") (λ h. cc)

-- An etcd that keeps its leases and keys.
record Memory : Type 0 where
  last : ℕ
  leases : ℕ → Bool
  keys : Map Text (Text × ℕ)

abbrev grant_memory : Memory → Memory × ℕ
grant_memory db = (
  record db { last = suc db.last; leases = λ l. nat_beq l (suc db.last) || db.leases l },
  suc db.last,
)

abbrev put_memory : Text → Text → ℕ → Memory → Option Memory
put_memory key value lease db =
    if db.leases lease then some (record db { keys = put key (value, lease) db.keys }) else none

abbrev unless_on : ℕ → Option (Text × ℕ) → Option (Text × ℕ)
unless_on lease none = none
unless_on lease (some (value, l)) = if nat_beq l lease then none else some (value, l)

abbrev revoke_memory : ℕ → Memory → Memory
revoke_memory lease db = record db {
  leases = λ l. not (nat_beq l lease) && db.leases l;
  keys = λ k. unless_on lease (db.keys k);
}

memory_put :
    (key value : Text) (lease : ℕ) (db after : Memory)
    → put_memory key value lease db ≡ some after
    → after.keys key ≡ some (value, lease)
memory_put key value lease db after h = elim (Bool-cases (db.leases lease)) [
  | inl lives ↦
      let same : record db { keys = put key (value, lease) db.keys } ≡ after =
        some-injective _ _ (sym (rw lives refl) ∙ h) in
      ap (λ m. m.keys key) (sym same) ∙ put_self key (value, lease) db.keys
  | inr over ↦ absurd (some-none after (sym h ∙ rw over refl))
]

unless_on_lem :
    (lease : ℕ) (o : Option (Text × ℕ)) (value : Text) → unless_on lease o ≡ some (value, lease) → ⊥
unless_on_lem lease none value h = some-none _ (sym h)
unless_on_lem lease (some (v, l)) value h = ground arith

abbrev memory : Etcd
memory = record {
  Db = Memory;
  grant = grant_memory;
  put_with = put_memory;
  revoke = revoke_memory;
  live = λ db l. db.leases l;
  stored = λ db k. db.keys k;
  pairs = λ prefix db. [];
  grant_live = λ db. rw (==_refl (suc db.last)) refl;
  grant_id = λ db e. omega (arith, e);
  put_accepted =
      λ key value lease db h. (record db { keys = put key (value, lease) db.keys }, rw h refl, h);
  put_stored = memory_put;
  revoke_dead = λ lease db. rw (==_refl lease) refl;
  revoke_stored = λ lease db key value. unless_on_lem lease (db.keys key) value;
}

abbrev me : Own
me = record {
  root = codes "/r";
  watch_prefix = [];
  self_node_id = codes "g/1";
  value = some (codes "n");
  unmarshal = λ t. none;
}

abbrev fresh : Center memory me
fresh = new_center memory me (record { last = 0; leases = λ l. false; keys = λ k. none })

abbrev all_up : StartLinks
all_up = record { dialed = true; granting = up; putting = up; syncing = up; revoking = up }

abbrev running : KeepAlive memory me
running = keep_alive_start memory me (start memory me all_up fresh).0

-- Every lease ends.
abbrev forgotten : Memory
forgotten = record { last = 9; leases = λ l. false; keys = λ k. none }

abbrev stranded : KeepAlive memory me
stranded = record running { centre = record running.centre { db = forgotten } }

fresh_starts : (start memory me all_up fresh).1 ≡ none
unfolding start new_center grant_lease register_self
fresh_starts = refl

lease_ends : Step memory me (codes "n") running stranded
lease_ends = drift forgotten (λ h. absurd (false-true h)) refl

keep_alive-start_recovers_example : IsUp memory me (codes "n") refl (
    once memory me
      (codes "n")
      refl
      true
      []
      (once memory me (codes "n") refl false (heard_response none ∷ []) stranded))
keep_alive-start_recovers_example =
    keep_alive-start_recovers memory me (codes "n") refl all_up fresh stranded false true
      (heard_response none ∷ []) [] fresh_starts (next here lease_ends)

unwritten : (start memory me (granted_links memory me lost_before up) fresh).1 ≡ some put_failed
unfolding start new_center grant_lease register_self
unwritten = refl

start_fails_example :
    IsUndone memory me
      (memory.grant fresh.db).1
      (start memory me (granted_links memory me lost_before up) fresh).0
start_fails_example = start_fails memory me lost_before up fresh put_failed unwritten
