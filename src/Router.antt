-- ===== src/Router.antt =====
-- Choosing a node for an actor: infra/noderouter and infra/actor/router.go. The rendezvous hashing
-- of one group is a library; a Go map that is ranged over is a list of its pairs in the order of
-- the range.
pub mod Available
use ggskit.Codec.Head.{put_uint32}
use ggskit.Actor.Uid.{ActorUid}
use ggskit.Cluster.Node.{Node, get_node_id}
use ggskit.Cluster.Center.{NodeEvent, node_add, node_del}
use ggskit.Common.Int.{ℤ, pos, negsuc}
use ggskit.Cluster.Center.{NodeEvent, node_add, node_del}
use ggskit.Common.{
  [], ◌||◌, ℕ, ◌-◌, ◌/◌, ◌%◌, ◌^◌, ◌≢◌, Bool, true, false, not, ◌&&◌, Option, none, some, List, ◌∷◌,
  ◌++◌, leb, if◌then◌else◌, Text, In, ◌==◌, Map, put, Result, ok, err, nat_eq, text_eq,
}

-- The balancer of a group. `lookup` gives the empty id where there is none.
pub record Rendezvous : Type 1 where
  pub Group : Type 0
  pub new_empty : Group
  pub new_group : List Text → Group
  pub add_id : Text → Group → Group
  pub remove_id : Text → Group → Group
  pub all_ids : Group → List Text
  pub lookup : Group → Text → Text
  pub lookup_n : Group → Text → ℤ → List Text
  pub new_group_members :
      (ids : List Text) (id : Text) → In id (all_ids (new_group ids)) → In id ids
  pub new_empty_members : (id : Text) → In id (all_ids new_empty) → ⊥
  pub lookup_member : (g : Group) (key : Text) → lookup g key ≢ [] → In (lookup g key) (all_ids g)

-- `UpdateOp`.
pub data UpdateOp : Type 0 where
  update_add update_remove : List Text → UpdateOp

module _ (lib : Rendezvous) where
  open lib use {Group, new_empty, new_group, add_id, remove_id, all_ids, lookup, lookup_n}

  -- `RendezvousSelector`.
  pub record Selector : Type 0 where
    pub rs : Map Text Group
    pub node_ids : Text → Bool

  -- `newRendezvous`.
  abbrev pub new_rendezvous : List Text → Group
  new_rendezvous [] = new_empty
  new_rendezvous (id ∷ ids) = new_group (id ∷ ids)

  -- `addNodeIDs` and `removeNodeIDs`.
  abbrev pub add_node_ids : List Text → (Text → Bool) → Text → Bool
  add_node_ids [] m = m
  add_node_ids (id ∷ ids) m = add_node_ids ids (λ j. id == j || m j)

  abbrev pub delete_node_ids : List Text → (Text → Bool) → Text → Bool
  delete_node_ids [] m = m
  delete_node_ids (id ∷ ids) m = delete_node_ids ids (λ j. not (id == j) && m j)

  abbrev pub remove_node_ids : Option Group → (Text → Bool) → Text → Bool
  remove_node_ids none m = m
  remove_node_ids (some r) m = delete_node_ids (all_ids r) m

  -- The body of the loop of `Set`.
  abbrev pub set_group : Bool → Text × List Text → Selector → Selector
  set_group every (g, ids) s = record {
    rs = put g (new_rendezvous ids) s.rs;
    node_ids =
        add_node_ids ids (if not every then remove_node_ids (s.rs g) s.node_ids else s.node_ids);
  }

  abbrev pub set_groups : Bool → List (Text × List Text) → Selector → Selector
  set_groups every [] s = s
  set_groups every (x ∷ xs) s = set_groups every xs (set_group every x s)

  -- `Set`.
  unfoldable pub set_all : List (Text × List Text) → Bool → Selector → Selector
  set_all groups every s =
      set_groups every groups
        (if every then record { rs = λ g. none; node_ids = λ id. false } else s)

  abbrev pub apply_adds : List Text → Group × (Text → Bool) → Group × (Text → Bool)
  apply_adds [] x = x
  apply_adds (id ∷ ids) (r, m) = apply_adds ids (add_id id r, λ j. id == j || m j)

  abbrev pub apply_removes : List Text → Group × (Text → Bool) → Group × (Text → Bool)
  apply_removes [] x = x
  apply_removes (id ∷ ids) (r, m) = apply_removes ids (remove_id id r, λ j. not (id == j) && m j)

  abbrev pub apply_ops : List UpdateOp → Group × (Text → Bool) → Group × (Text → Bool)
  apply_ops [] x = x
  apply_ops (update_add ids ∷ ops) x = apply_ops ops (apply_adds ids x)
  apply_ops (update_remove ids ∷ ops) x = apply_ops ops (apply_removes ids x)

  abbrev pub group_or_empty : Option Group → Group
  group_or_empty none = new_empty
  group_or_empty (some r) = r

  -- `Update`.
  unfoldable pub update : List (Text × List UpdateOp) → Selector → Selector
  update [] s = s
  update ((g, ops) ∷ updates) s =
      let (r, m) = apply_ops ops (group_or_empty (s.rs g), s.node_ids) in
      update updates (record { rs = put g r s.rs; node_ids = m })

  abbrev pub at_most_one : ℤ → Bool
  at_most_one (pos n) = leb n 1
  at_most_one (negsuc n) = true

  abbrev pub pick_group : Option Group → Text → ℤ → List Text
  pick_group none key n = []
  pick_group (some r) key n =
      if at_most_one n
      then (if lookup r key == [] then [] else lookup r key ∷ [])
      else lookup_n r key n

  -- `Pick`.
  unfoldable pub pick : Text → Text → ℤ → Selector → List Text
  pick group key n s = pick_group (s.rs group) key n

  -- `Has`.
  unfoldable pub has : Text → Selector → Bool
  has id s = s.node_ids id

  -- `RouterConfig`, which has its functions once `NewRouter` accepts it.
  pub record Router : Type 0 where
    pub node_group : Node → Option Text
    pub actor_fixed_node : ActorUid → Option Text
    pub actor_node_group : ActorUid → Option Text

  pub data RouteError : Type 0 where
    no_available_node fixed_node_unavailable : RouteError

  abbrev pub low_bits : ℕ → ℤ → ℕ
  low_bits w (pos n) = n % 2 ^ w
  low_bits w (negsuc n) = 2 ^ w - 1 - n % 2 ^ w

  -- `actorUIDRouteKey`: 16 bits of the category and 64 of the id, big-endian.
  unfoldable pub actor_uid_route_key : ActorUid → Text
  actor_uid_route_key uid =
      let c = low_bits 16 uid.category in
      let i = low_bits 64 uid.id in
      c / 256 ∷ c % 256 ∷ put_uint32 (i / 2 ^ 32) ++ put_uint32 (i % 2 ^ 32)

  abbrev pub append_id : Text → Text → List (Text × List Text) → List (Text × List Text)
  append_id g id [] = (g, id ∷ []) ∷ []
  append_id g id ((h, ids) ∷ groups) =
      let rest = append_id g id groups in
      if h == g then (h, ids ++ id ∷ []) ∷ groups else (h, ids) ∷ rest

  abbrev pub add_to_group : Option Text → Text → List (Text × List Text) → List (Text × List Text)
  add_to_group none id groups = groups
  add_to_group (some g) id groups = if g == [] then groups else append_id g id groups

  abbrev pub group_nodes : Router → List Node → List (Text × List Text) → List (Text × List Text)
  group_nodes router [] groups = groups
  group_nodes router (n ∷ ns) groups =
      group_nodes router ns (add_to_group (router.node_group n) (get_node_id n) groups)

  -- `SetNodes`, for nodes that are not nil.
  unfoldable pub set_nodes : Router → List Node → Bool → Selector → Selector
  set_nodes router nodes every s = set_all (group_nodes router nodes []) every s

  abbrev pub append_op : Text → UpdateOp → List (Text × List UpdateOp) → List (Text × List UpdateOp)
  append_op g op [] = (g, op ∷ []) ∷ []
  append_op g op ((h, ops) ∷ updates) =
      let rest = append_op g op updates in
      if h == g then (h, ops ++ op ∷ []) ∷ updates else (h, ops) ∷ rest

  abbrev pub op_to_group :
      Option Text → UpdateOp → List (Text × List UpdateOp) → List (Text × List UpdateOp)
  op_to_group none op updates = updates
  op_to_group (some g) op updates = if g == [] then updates else append_op g op updates

  abbrev pub group_events :
      Router → List NodeEvent → List (Text × List UpdateOp) → List (Text × List UpdateOp)
  group_events router [] updates = updates
  group_events router (node_add n ∷ evs) updates =
      group_events router evs
        (op_to_group (router.node_group n) (update_add (get_node_id n ∷ [])) updates)
  group_events router (node_del n ∷ evs) updates =
      group_events router evs
        (op_to_group (router.node_group n) (update_remove (get_node_id n ∷ [])) updates)

  -- `UpdateEvents`, for events whose node is not nil; no update leaves the selector as it is.
  unfoldable pub update_events : Router → List NodeEvent → Selector → Selector
  update_events router evs s = update (group_events router evs []) s

  abbrev pub first_id : List Text → Result RouteError Text
  first_id [] = err no_available_node
  first_id (id ∷ ids) = if id == [] then err no_available_node else ok id

  abbrev pub pick_in_group : Option Text → ActorUid → Selector → Result RouteError Text
  pick_in_group none uid s = err no_available_node
  pick_in_group (some g) uid s =
      if g == []
      then err no_available_node
      else first_id (pick g (actor_uid_route_key uid) (pos 1) s)

  abbrev pub pick_fixed : Text → Selector → Result RouteError Text
  pick_fixed id s =
      if id == []
      then err no_available_node
      else if not (has id s)
      then err fixed_node_unavailable
      else ok id

  -- `PickActorNode`.
  unfoldable pub pick_actor_node : Router → ActorUid → Selector → Result RouteError Text
  pick_actor_node router uid s = elim (router.actor_fixed_node uid) [
    | some id ↦ pick_fixed id s
    | none ↦ pick_in_group (router.actor_node_group uid) uid s
  ]
