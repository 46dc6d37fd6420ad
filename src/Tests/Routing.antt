-- ===== src/Tests/Routing.antt =====
-- The theorem on the router at a cluster of two nodes.
use ggskit.Actor.Uid.{ActorUid}
use ggskit.Cluster.Node.{Node, get_node_id, make_node_id}
use ggskit.Router.{Rendezvous, Selector, Router, set_nodes, set_all, pick_actor_node, pick, has}
use ggskit.Router.Available.{pick_actor_node-set_nodes}
use ggskit.Common.Int.{pos}
use ggskit.Common.{
  ◌≡◌, refl, ◌≢◌, inl, true, false, none, some, List, [], ◌∷◌, ◌++◌, Text, codes, In, nat_eq,
  text_eq, text_beq, ok,
}

abbrev first_or_empty : List Text → Text
first_or_empty [] = []
first_or_empty (x ∷ xs) = x

first_member : (ids : List Text) → first_or_empty ids ≢ [] → In (first_or_empty ids) ids
first_member [] h = absurd (h refl)
first_member (x ∷ xs) h = inl refl

-- A balancer that always takes the first id.
abbrev first_wins : Rendezvous
first_wins = record {
  Group = List Text;
  new_empty = [];
  new_group = λ ids. ids;
  add_id = λ id ids. ids ++ id ∷ [];
  remove_id = λ id ids. ids;
  all_ids = λ ids. ids;
  lookup = λ ids key. first_or_empty ids;
  lookup_n = λ ids key n. ids;
  new_group_members = λ ids id i. i;
  new_empty_members = λ id i. i;
  lookup_member = λ ids key h. first_member ids h;
}

abbrev game : Text → Node
game name = record { category = codes "game"; name = name; addr = codes "h:1"; server_id = pos 1 }

abbrev router : Router first_wins
router = record {
  node_group = λ n. some n.category;
  actor_fixed_node = λ uid. none;
  actor_node_group = λ uid. some (codes "game");
}

abbrev uid : ActorUid
uid = record { category = pos 1; id = pos 7 }

abbrev start : Selector first_wins
start = record { rs = λ g. none; node_ids = λ id. false }

abbrev games : List Node
games = game (codes "1") ∷ game (codes "2") ∷ []

picked :
    pick_actor_node first_wins router uid (set_nodes first_wins router games true start)
    ≡ ok (codes "game/1")
unfolding pick_actor_node pick set_nodes set_all get_node_id make_node_id text_beq
picked = refl

pick_actor_node-set_nodes_example :
    has first_wins (codes "game/1") (set_nodes first_wins router games true start) ≡ true
pick_actor_node-set_nodes_example =
    pick_actor_node-set_nodes first_wins router games start uid (codes "game/1") picked
