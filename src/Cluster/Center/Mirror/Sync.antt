-- ===== src/Cluster/Center/Mirror/Sync.antt =====
-- A reading of all keys gives a mirror of what etcd holds.
use ggskit.Cluster.Node.{Node, NodeError, parse_node}
use ggskit.Cluster.Node.Parsed.{parse_node-parts}
use ggskit.Cluster.Center.{
  NodeEvent, node_add, Nodes, put_event, watch_event, sync_node, sync_pairs, sync_nodes,
}
use ggskit.Cluster.Center.Mirror.{differ, key_of, described, Mirrors, watch_event-Mirrors}
use ggskit.Common.{
  ◌≡◌, refl, sym, ap, subst, ◌∙◌, inl, inr, Bool, true, false, Option, none, some, List, [], ◌∷◌,
  ◌++◌, if◌then◌else◌, Bool-cases, Text, ◌==◌, nat_eq, text_eq, Map, put, put_self, put_ne, ok, err,
  Result-cases,
}

-- What etcd holds once the pairs are put.
abbrev pub store_of : List (Text × Text) → Map Text Text → Map Text Text
store_of [] store = store
store_of ((k, v) ∷ kvs) store = store_of kvs (put k v store)

-- No key stands twice.
abbrev pub Distinct : List (Text × Text) → Map Text Text → Type 0
Distinct [] store = Unit
Distinct ((k, v) ∷ kvs) store = (store k ≡ none) × Distinct kvs (put k v store)

module _ (unmarshal : Text → Option Node) (root self : Text) where
  -- A pair of a node does to the map what the event that puts it does.
  same_nodes :
      (b : Bool) (id : Text) (n : Node) (nodes : Nodes) (listed : List Node)
      → (if◌then◌else◌ {A = Nodes × List Node} b
          (nodes, listed)
          (put id n nodes, listed ++ n ∷ [])).0
        ≡ (if◌then◌else◌ {A = Nodes × Option NodeEvent} b
            (nodes, none)
            (put id n nodes, some (node_add n))).0
  same_nodes true id n nodes listed = refl
  same_nodes false id n nodes listed = refl

  sync_node_ok :
      (key value id : Text) (n : Node) (nodes : Nodes) (listed : List Node)
      → parse_node unmarshal root key value ≡ ok (n, id)
      → (sync_node unmarshal root self (key, value) (nodes, listed)).0
        ≡ (watch_event unmarshal root self (put_event key value) nodes).0
  unfolding sync_node watch_event
  sync_node_ok key value id n nodes listed p =
      rw (sync_node, watch_event, p) (same_nodes (id == self) id n nodes listed)

  sync_node_err :
      (key value : Text) (e : NodeError) (nodes : Nodes) (listed : List Node)
      → parse_node unmarshal root key value ≡ err e
      → (sync_node unmarshal root self (key, value) (nodes, listed)).0 ≡ nodes
  unfolding sync_node
  sync_node_err key value e nodes listed p = rw (sync_node, p) refl

  undescribed :
      (j value : Text) (e : NodeError)
      → parse_node unmarshal root (key_of unmarshal root self j) value ≡ err e
      → described unmarshal root self j (some value) ≡ none
  undescribed j value e p = elim (Bool-cases (j == self)) [
    | inl own ↦ rw own refl
    | inr other ↦ rw (other, p) refl
  ]

  abbrev Unread : Nodes → Map Text Text → Text → Text → Text → Type 0
  Unread nodes store value j key =
      store key ≡ none
      → nodes j ≡ described unmarshal root self j (store (key_of unmarshal root self j))
      → (e : NodeError) → parse_node unmarshal root key value ≡ err e
      → nodes j
        ≡ described unmarshal root self j (put key value store (key_of unmarshal root self j))

  Unread-self :
      (nodes : Nodes) (store : Map Text Text) (value j : Text)
      → Unread nodes store value j (key_of unmarshal root self j)
  Unread-self nodes store value j free m e p =
      m
      ∙ ap (described unmarshal root self j) free
      ∙ sym (undescribed j value e p)
      ∙ sym (
          ap (described unmarshal root self j)
            (put_self (key_of unmarshal root self j) value store))

  unread :
      (nodes : Nodes) (store : Map Text Text) (key value : Text) (e : NodeError)
      → store key ≡ none
      → parse_node unmarshal root key value ≡ err e
      → Mirrors unmarshal root self nodes store
      → Mirrors unmarshal root self nodes (put key value store)
  unread nodes store key value e free p m j =
      elim (Bool-cases (key == key_of unmarshal root self j)) [
        | inl same ↦
            subst (Unread nodes store value j)
              (sym ((text_eq.beq_iff key (key_of unmarshal root self j)).0 same))
              (Unread-self nodes store value j) free (m j) e p
        | inr new ↦
            m j
            ∙ ap (described unmarshal root self j) (
                sym (
                  put_ne key (key_of unmarshal root self j) value store
                    (differ unmarshal root self key (key_of unmarshal root self j) new)))
      ]

  sync_node-Mirrors :
      (key value : Text) (nodes : Nodes) (listed : List Node) (store : Map Text Text)
      → store key ≡ none
      → Mirrors unmarshal root self nodes store
      → Mirrors unmarshal root self
          (sync_node unmarshal root self (key, value) (nodes, listed)).0
          (put key value store)
  sync_node-Mirrors key value nodes listed store free m =
      elim (Result-cases (parse_node unmarshal root key value)) [
        | inl ((n, id), p) ↦
            let k = (parse_node-parts unmarshal root key value id n p).0 in
            subst (λ x. Mirrors unmarshal root self x (put key value store))
              (sym (sync_node_ok key value id n nodes listed p))
              (subst
                (λ q.
                  Mirrors unmarshal root self
                    (watch_event unmarshal root self (put_event q value) nodes).0
                    (put q value store))
                (sym k)
                (watch_event-Mirrors unmarshal root self nodes store id value n m
                  (subst (λ q. parse_node unmarshal root q value ≡ ok (n, id)) k p)))
        | inr (e, p) ↦
            subst (λ x. Mirrors unmarshal root self x (put key value store))
              (sym (sync_node_err key value e nodes listed p))
              (unread nodes store key value e free p m)
      ]

  sync_pairs_mirror :
      (kvs : List (Text × Text)) (nodes : Nodes) (listed : List Node) (store : Map Text Text)
      → Distinct kvs store
      → Mirrors unmarshal root self nodes store
      → Mirrors unmarshal root self
          (sync_pairs unmarshal root self kvs (nodes, listed)).0
          (store_of kvs store)
  unfolding sync_pairs
  sync_pairs_mirror [] nodes listed store d m = m
  sync_pairs_mirror ((k, v) ∷ kvs) nodes listed store (free, d) m =
      sync_pairs_mirror kvs (sync_node unmarshal root self (k, v) (nodes, listed)).0
        (sync_node unmarshal root self (k, v) (nodes, listed)).1 (put k v store) d
        (sync_node-Mirrors k v nodes listed store free m)

-- Synchronisation with the pairs that etcd holds, with no key twice and whatever their values are,
-- gives a map of nodes that mirrors etcd.
pub sync_nodes-Mirrors :
    (unmarshal : Text → Option Node) (root self : Text) (kvs : List (Text × Text))
    → Distinct kvs (λ k. none)
    → Mirrors unmarshal root self (sync_nodes unmarshal root self kvs).0 (store_of kvs (λ k. none))
unfolding sync_nodes
sync_nodes-Mirrors unmarshal root self kvs d =
    sync_pairs_mirror unmarshal root self kvs (λ id. none) [] (λ k. none) d (λ id. refl)
