-- ===== src/Router/Available.antt =====
-- The router only chooses nodes that are there.
use mathlib.Core.Option.{some-injective}
use ggskit.Actor.Uid.{ActorUid}
use ggskit.Cluster.Node.{Node}
use ggskit.Router.{
  Rendezvous, Selector, Router, new_rendezvous, add_node_ids, set_group, set_groups, set_all,
  set_nodes, group_nodes, pick, pick_group, has, pick_actor_node, pick_fixed, pick_in_group,
  first_id, actor_uid_route_key,
}
use ggskit.Common.Int.{pos}
use ggskit.Common.{
  ◌≡◌, refl, sym, ap, subst, ◌∙◌, ◌≢◌, inl, inr, Bool, true, Option, none, some, List, [], ◌∷◌,
  arith, if◌then◌else◌, Bool-cases, Text, length, In, ◌==◌, nat_eq, text_eq, text_beq, ==_refl, ok,
}

module _ (lib : Rendezvous) where
  -- Every member of a group is a node that the selector has.
  abbrev Covered : Selector lib → Type 0
  Covered s =
      (g id : Text) (r : lib.Group) → s.rs g ≡ some r → In id (lib.all_ids r) → s.node_ids id ≡ true

  add_keeps :
      (ids : List Text) (m : Text → Bool) (id : Text)
      → m id ≡ true
      → add_node_ids lib ids m id ≡ true
  add_keeps [] m id h = h
  add_keeps (x ∷ ids) m id h = add_keeps ids _ id (ground arith)

  add_adds :
      (ids : List Text) (m : Text → Bool) (id : Text) → In id ids → add_node_ids lib ids m id ≡ true
  add_adds [] m id i = absurd i
  add_adds (x ∷ ids) m id (inl e) = add_keeps ids _ id (rw (e, ==_refl id) refl)
  add_adds (x ∷ ids) m id (inr i) = add_adds ids _ id i

  members : (ids : List Text) (id : Text) → In id (lib.all_ids (new_rendezvous lib ids)) → In id ids
  members [] id i = lib.new_empty_members id i
  members (x ∷ ids) id i = lib.new_group_members (x ∷ ids) id i

  abbrev chosen : Text → List Text → Selector lib → Text → Bool → Option lib.Group
  chosen g ids s h b = if b then some (new_rendezvous lib ids) else s.rs h

  set_group-Covered :
      (g : Text) (ids : List Text) (s : Selector lib)
      → Covered s
      → Covered (set_group lib true (g, ids) s)
  set_group-Covered g ids s c h id r e i = elim (Bool-cases (g == h)) [
    | inl same ↦ add_adds ids s.node_ids id (
        members ids id (
          subst (λ (x : lib.Group). In id (lib.all_ids x))
            (some-injective _ _ (sym e ∙ ap (chosen g ids s h) same)) i))
    | inr other ↦ add_keeps ids s.node_ids id (c h id r (sym (ap (chosen g ids s h) other) ∙ e) i)
  ]

  set_groups-Covered :
      (groups : List (Text × List Text)) (s : Selector lib)
      → Covered s
      → Covered (set_groups lib true groups s)
  set_groups-Covered [] s c = c
  set_groups-Covered ((g, ids) ∷ groups) s c =
      set_groups-Covered groups _ (set_group-Covered g ids s c)

  set_nodes-Covered :
      (router : Router lib) (nodes : List Node) (s : Selector lib)
      → Covered (set_nodes lib router nodes true s)
  unfolding set_nodes set_all
  set_nodes-Covered router nodes s =
      set_groups-Covered (group_nodes lib router nodes []) _ (λ g id r e i. absurd (grind arith))

  looked_up :
      (l id : Text) → first_id lib (if l == [] then [] else l ∷ []) ≡ ok id → (l ≡ id) × (l ≢ [])
  unfolding text_beq
  looked_up [] id h = absurd (grind arith)
  looked_up (x ∷ xs) id h = (grind arith, λ e. omega (arith, ap length e))

  in_group :
      (s : Selector lib) (g key id : Text) (o : Option lib.Group)
      → Covered s
      → s.rs g ≡ o
      → first_id lib (pick_group lib o key (pos 1)) ≡ ok id
      → s.node_ids id ≡ true
  in_group s g key id none c e h = absurd (grind arith)
  in_group s g key id (some r) c e h =
      let (same, some_id) = looked_up (lib.lookup r key) id h in
      c g id r e (subst (λ (x : Text). In x (lib.all_ids r)) same (lib.lookup_member r key some_id))

  of_group :
      (o : Option Text) (uid : ActorUid) (s : Selector lib) (id : Text)
      → Covered s
      → pick_in_group lib o uid s ≡ ok id
      → s.node_ids id ≡ true
  unfolding pick
  of_group none uid s id c h = absurd (grind arith)
  of_group (some g) uid s id c h = elim (Bool-cases (g == [])) [
    | inl empty ↦ absurd (grind arith)
    | inr named ↦ in_group s g (actor_uid_route_key lib uid) id (s.rs g) c refl (grind arith)
  ]

  of_fixed : (x id : Text) (s : Selector lib) → pick_fixed lib x s ≡ ok id → s.node_ids id ≡ true
  unfolding has
  of_fixed x id s h = grind arith

  chosen_node :
      (router : Router lib) (uid : ActorUid) (s : Selector lib) (id : Text) (o : Option Text)
      → Covered s
      → elim o [
        | some x ↦ pick_fixed lib x s
        | none ↦ pick_in_group lib (router.actor_node_group uid) uid s
      ]
        ≡ ok id
      → s.node_ids id ≡ true
  chosen_node router uid s id none c h = of_group (router.actor_node_group uid) uid s id c h
  chosen_node router uid s id (some x) c h = of_fixed x id s h

-- After the router was given its nodes as a whole, every node that it picks for an actor, fixed or
-- by hashing, is one that the selector has.
pub pick_actor_node-set_nodes :
    (lib : Rendezvous) (router : Router lib) (nodes : List Node) (s : Selector lib) (uid : ActorUid)
    (id : Text)
    → pick_actor_node lib router uid (set_nodes lib router nodes true s) ≡ ok id
    → has lib id (set_nodes lib router nodes true s) ≡ true
unfolding pick_actor_node has
pick_actor_node-set_nodes lib router nodes s uid id h =
    chosen_node lib router uid (set_nodes lib router nodes true s) id (router.actor_fixed_node uid)
      (set_nodes-Covered lib router nodes s) h
