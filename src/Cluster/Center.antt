-- ===== src/Cluster/Center.antt =====
-- The centre of the cluster: infra/cluster/center.go. etcd is the map of keys it holds and the
-- responses of a watch.
pub mod Backoff
pub mod Mirror
pub mod Listener
use ggskit.Cluster.Node.{Node, parse_node, parse_node_key}
use ggskit.Common.{
  [], ℕ, ◌*◌, ◌^◌, Bool, true, Option, none, some, List, ◌∷◌, ◌++◌, ltb, leb, if◌then◌else◌, Text,
  ◌==◌, Map, put, delete, ok, err, nat_eq, text_eq,
}

abbrev pub Nodes : Type 0
Nodes = Map Text Node

pub data NodeEvent : Type 0 where
  node_add node_del : Node → NodeEvent

-- An event of a watch: `PUT` of a value or `DELETE`.
pub data Event : Type 0 where
  put_event : Text → Text → Event
  delete_event : Text → Event

-- `getWatchPrefix`.
unfoldable pub get_watch_prefix : Text → Text → Text
get_watch_prefix root watch_prefix = root ++ watch_prefix ++ b'/' ∷ []

module _ (unmarshal : Text → Option Node) (root self_node_id : Text) where
  -- A pair of `syncNodes`: the map and the list of the listener.
  unfoldable pub sync_node : Text × Text → Nodes × List Node → Nodes × List Node
  sync_node (key, value) (nodes, listed) = elim (parse_node unmarshal root key value) [
    | err e ↦ (nodes, listed)
    | ok (n, id) ↦
        if id == self_node_id then (nodes, listed) else (put id n nodes, listed ++ n ∷ [])
  ]

  unfoldable pub sync_pairs : List (Text × Text) → Nodes × List Node → Nodes × List Node
  sync_pairs [] acc = acc
  sync_pairs (kv ∷ kvs) acc = sync_pairs kvs (sync_node kv acc)

  -- `syncNodes` on the pairs that etcd returns.
  unfoldable pub sync_nodes : List (Text × Text) → Nodes × List Node
  sync_nodes kvs = sync_pairs kvs (λ id. none, [])

  abbrev pub after_delete : Text → Nodes → Option Node → Nodes × Option NodeEvent
  after_delete id nodes none = (nodes, none)
  after_delete id nodes (some n) = (delete id nodes, some (node_del n))

  -- An event of `watch`, with `addNode` and `delNode`.
  unfoldable pub watch_event : Event → Nodes → Nodes × Option NodeEvent
  watch_event (put_event key value) nodes = elim (parse_node unmarshal root key value) [
    | err e ↦ (nodes, none)
    | ok (n, id) ↦ if id == self_node_id then (nodes, none) else (put id n nodes, some (node_add n))
  ]
  watch_event (delete_event key) nodes = elim (parse_node_key root key) [
    | none ↦ (nodes, none)
    | some id ↦ after_delete id nodes (nodes id)
  ]

  abbrev pub collect : Option NodeEvent → List NodeEvent → List NodeEvent
  collect none events = events
  collect (some e) events = e ∷ events

  -- The events of one response, and what the listener is told.
  unfoldable pub watch_events : List Event → Nodes → Nodes × List NodeEvent
  watch_events [] nodes = (nodes, [])
  watch_events (ev ∷ evs) nodes =
      let (nodes1, told) = watch_event ev nodes in
      let (nodes2, rest) = watch_events evs nodes1 in (nodes2, collect told rest)

-- A response of a watch, or its end.
pub data Response : Type 0 where
  channel_closed : Response
  canceled : (compacted : Bool) → Response
  changes : (revision : ℕ) → List Event → Response

-- The state of the loop of `watch` between two responses.
pub record WatchState : Type 0 where
  pub last_rev : ℕ
  pub sync : Bool
  pub nodes : Nodes

-- A response, with what `sync` says about the next turn.
unfoldable pub on_response :
    (Text → Option Node) → Text → Text → Response → WatchState → WatchState × List NodeEvent
on_response unmarshal root self channel_closed s = (s, [])
on_response unmarshal root self (canceled compacted) s =
    (if compacted then record s { sync = true } else s, [])
on_response unmarshal root self (changes revision evs) s =
    let (nodes, told) = watch_events unmarshal root self evs s.nodes in
    (record s { last_rev = revision; nodes = nodes }, told)

-- The nanoseconds of `minRetryBackoff` and `maxRetryBackoff`.
abbrev pub min_retry_backoff : ℕ
min_retry_backoff = 200 * 10 ^ 6

abbrev pub max_retry_backoff : ℕ
max_retry_backoff = 5 * 10 ^ 9

-- `getRetryBackoff`.
unfoldable pub get_retry_backoff : ℕ → ℕ
get_retry_backoff cur =
    if ltb cur min_retry_backoff
    then min_retry_backoff
    else if leb max_retry_backoff cur
    then max_retry_backoff
    else if ltb max_retry_backoff (cur * 4)
    then max_retry_backoff
    else cur * 4
