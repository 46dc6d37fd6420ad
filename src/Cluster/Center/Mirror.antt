-- ===== src/Cluster/Center/Mirror.antt =====
-- The map of nodes follows what etcd holds.
pub mod Events
pub mod Sync
use mathlib.Core.Option.{some-injective}
use ggskit.Cluster.Node.{Node, NodeError, parse_node, parse_node_key}
use ggskit.Cluster.Node.RoundTrip.{parse_node_key-append}
use ggskit.Cluster.Center.{Nodes, put_event, watch_event}
use ggskit.Common.{
  ◌≡◌, refl, sym, ap, subst, ◌∙◌, ◌≢◌, inl, inr, true, false, Option, none, some, ◌∷◌, ◌++◌, arith,
  if◌then◌else◌, Bool-cases, Text, ◌==◌, nat_eq, text_eq, Map, put, put_self, put_ne, Result, ok,
  err,
}

module _ (unmarshal : Text → Option Node) (root self : Text) where
  abbrev pub key_of : Text → Text
  key_of id = root ++ b'/' ∷ id

  abbrev pub parsed_node : Result NodeError (Node × Text) → Option Node
  parsed_node (err e) = none
  parsed_node (ok (n, id)) = some n

  -- The node that a value under the key of an id describes; the process itself is not listed.
  abbrev pub described : Text → Option Text → Option Node
  described id none = none
  described id (some value) =
      if id == self then none else parsed_node (parse_node unmarshal root (key_of id) value)

  abbrev pub Mirrors : Nodes → Map Text Text → Type 0
  Mirrors nodes store = (id : Text) → nodes id ≡ described id (store (key_of id))

  key_of-injective : (a b : Text) → key_of a ≡ key_of b → a ≡ b
  key_of-injective a b e = some-injective _ _ (
      sym (parse_node_key-append root a)
      ∙ ap (λ k. parse_node_key root k) e
      ∙ parse_node_key-append root b)

  self_unlisted : (id : Text) (v : Option Text) → (id == self) ≡ true → described id v ≡ none
  self_unlisted id none h = refl
  self_unlisted id (some v) h = rw h refl

  pub differ : (id j : Text) → (id == j) ≡ false → id ≢ j
  differ id j h e = absurd (ground (arith, (text_eq.beq_iff id j).1 e))

  -- A change under the key of one id is not seen under the key of another.
  pub keys_differ : (id j : Text) → (id == j) ≡ false → key_of id ≢ key_of j
  keys_differ id j h e = differ id j h (key_of-injective id j e)

  abbrev At : Nodes → Map Text Text → Text → Type 0
  At nodes store j = nodes j ≡ described j (store (key_of j))

  own_At :
      (nodes : Nodes) (store : Map Text Text) (id : Text) (v : Option Text)
      → Mirrors nodes store
      → (id == self) ≡ true
      → nodes id ≡ described id v
  own_At nodes store id v m own =
      m id ∙ self_unlisted id (store (key_of id)) own ∙ sym (self_unlisted id v own)

  put_elsewhere :
      (nodes : Nodes) (store : Map Text Text) (id j value : Text)
      → Mirrors nodes store
      → (id == j) ≡ false
      → nodes j ≡ described j (put (key_of id) value store (key_of j))
  put_elsewhere nodes store id j value m d =
      m j ∙ ap (described j) (sym (put_ne (key_of id) (key_of j) value store (keys_differ id j d)))

  written :
      (store : Map Text Text) (id value : Text) (n : Node) (nodes : Nodes)
      → (id == self) ≡ false
      → parse_node unmarshal root (key_of id) value ≡ ok (n, id)
      → At (put id n nodes) (put (key_of id) value store) id
  written store id value n nodes other p =
      put_self id n nodes
      ∙ sym (
          ap (described id) (put_self (key_of id) value store)
          ∙ ap (λ b. if b then none else parsed_node (parse_node unmarshal root (key_of id) value))
              other
          ∙ ap parsed_node p)

  put_other :
      (store : Map Text Text) (id value : Text) (n : Node) (nodes : Nodes) (j : Text)
      → Mirrors nodes store
      → (id == self) ≡ false
      → parse_node unmarshal root (key_of id) value ≡ ok (n, id)
      → At (put id n nodes) (put (key_of id) value store) j
  put_other store id value n nodes j m other p = elim (Bool-cases (id == j)) [
    | inl same ↦
        subst (At (put id n nodes) (put (key_of id) value store)) ((text_eq.beq_iff id j).0 same)
          (written store id value n nodes other p)
    | inr new ↦ put_ne id j n nodes (differ id j new) ∙ put_elsewhere nodes store id j value m new
  ]

  put_own :
      (store : Map Text Text) (id value : Text) (nodes : Nodes) (j : Text)
      → Mirrors nodes store
      → (id == self) ≡ true
      → At nodes (put (key_of id) value store) j
  put_own store id value nodes j m own = elim (Bool-cases (id == j)) [
    | inl same ↦
        subst (At nodes (put (key_of id) value store)) ((text_eq.beq_iff id j).0 same)
          (own_At nodes store id (put (key_of id) value store (key_of id)) m own)
    | inr new ↦ put_elsewhere nodes store id j value m new
  ]

-- If the map of nodes mirrors what etcd holds, it still does after the event of a node that writes
-- its key: etcd holds the new value, and the map lists the node it describes, other than the
-- process itself.
pub watch_event-Mirrors :
    (unmarshal : Text → Option Node) (root self : Text) (nodes : Nodes) (store : Map Text Text)
    (id value : Text) (n : Node)
    → Mirrors unmarshal root self nodes store
    → parse_node unmarshal root (root ++ b'/' ∷ id) value ≡ ok (n, id)
    → Mirrors unmarshal root self
        (watch_event unmarshal root self (put_event (root ++ b'/' ∷ id) value) nodes).0
        (put (root ++ b'/' ∷ id) value store)
unfolding watch_event
watch_event-Mirrors unmarshal root self nodes store id value n m p j =
    elim (Bool-cases (id == self)) [
      | inl own ↦
          rw (watch_event, p, own) (put_own unmarshal root self store id value nodes j m own)
      | inr other ↦
          rw (watch_event, p, other)
            (put_other unmarshal root self store id value n nodes j m other p)
    ]
