-- ===== src/Cluster/Center/Mirror/Events.antt =====
-- The map of nodes and the listener over a whole history of etcd.
use ggskit.Cluster.Node.{Node, parse_node}
use ggskit.Cluster.Node.RoundTrip.{parse_node_key-append}
use ggskit.Cluster.Center.{
  Nodes, Event, put_event, delete_event, watch_event, after_delete, watch_events,
}
use ggskit.Cluster.Center.Mirror.{
  key_of, described, Mirrors, watch_event-Mirrors, differ, keys_differ,
}
use ggskit.Common.{
  ◌≡◌, refl, sym, ap, subst, ◌∙◌, inl, inr, Option, none, some, List, [], ◌∷◌, ◌++◌, Bool-cases,
  Text, All, ◌==◌, nat_eq, text_eq, Map, put, delete, delete_self, delete_ne, ok,
}

-- What etcd holds after an event, after a list of them, and after the pairs of a reading were put.
abbrev pub stored : Event → Map Text Text → Map Text Text
stored (put_event key value) store = put key value store
stored (delete_event key) store = delete key store

abbrev pub stored_all : List Event → Map Text Text → Map Text Text
stored_all [] store = store
stored_all (ev ∷ evs) store = stored_all evs (stored ev store)

-- An event of a node: it writes a value that describes it under its key, or its key goes.
pub data FromNode (unmarshal : Text → Option Node) (root : Text) (ev : Event) : Type 0 where
  written :
      (id value : Text) (n : Node)
      → ev ≡ put_event (root ++ b'/' ∷ id) value
      → parse_node unmarshal root (root ++ b'/' ∷ id) value ≡ ok (n, id)
      → FromNode unmarshal root ev
  gone : (id : Text) → ev ≡ delete_event (root ++ b'/' ∷ id) → FromNode unmarshal root ev

module _ (unmarshal : Text → Option Node) (root self : Text) where
  without :
      (id : Text) (nodes : Nodes) (o : Option Node) (j : Text)
      → nodes id ≡ o
      → (after_delete unmarshal root self id nodes o).0 j ≡ delete id nodes j
  without id nodes none j h = elim (Bool-cases (id == j)) [
    | inl same ↦ rw same (ap nodes (sym ((text_eq.beq_iff id j).0 same)) ∙ h)
    | inr new ↦ rw new refl
  ]
  without id nodes (some n) j h = refl

  abbrev Gone : Nodes → Map Text Text → Text → Text → Type 0
  Gone nodes store id j =
      delete id nodes j
      ≡ described unmarshal root self j
          (delete (key_of unmarshal root self id) store (key_of unmarshal root self j))

  Gone-self : (nodes : Nodes) (store : Map Text Text) (id : Text) → Gone nodes store id id
  Gone-self nodes store id =
      delete_self id nodes
      ∙ sym (
          ap (described unmarshal root self id) (delete_self (key_of unmarshal root self id) store))

  deleted :
      (nodes : Nodes) (store : Map Text Text) (id j : Text)
      → Mirrors unmarshal root self nodes store
      → delete id nodes j
        ≡ described unmarshal root self j
            (delete (key_of unmarshal root self id) store (key_of unmarshal root self j))
  deleted nodes store id j m = elim (Bool-cases (id == j)) [
    | inl same ↦
        subst (Gone nodes store id) ((text_eq.beq_iff id j).0 same) (Gone-self nodes store id)
    | inr new ↦
        delete_ne id j nodes (differ unmarshal root self id j new)
        ∙ m j
        ∙ ap (described unmarshal root self j)
            (sym (delete_ne _ _ store (keys_differ unmarshal root self id j new)))
  ]

  delete-Mirrors :
      (nodes : Nodes) (store : Map Text Text) (id : Text)
      → Mirrors unmarshal root self nodes store
      → Mirrors unmarshal root self
          (watch_event unmarshal root self (delete_event (root ++ b'/' ∷ id)) nodes).0
          (delete (root ++ b'/' ∷ id) store)
  unfolding watch_event
  delete-Mirrors nodes store id m j =
      rw (watch_event, parse_node_key-append root id)
        (without id nodes (nodes id) j refl ∙ deleted nodes store id j m)

  event-Mirrors :
      (ev : Event) (nodes : Nodes) (store : Map Text Text)
      → FromNode unmarshal root ev
      → Mirrors unmarshal root self nodes store
      → Mirrors unmarshal root self (watch_event unmarshal root self ev nodes).0 (stored ev store)
  event-Mirrors ev nodes store (written id value n e p) m =
      subst
        (λ x.
          Mirrors unmarshal root self (watch_event unmarshal root self x nodes).0 (stored x store))
        (sym e) (watch_event-Mirrors unmarshal root self nodes store id value n m p)
  event-Mirrors ev nodes store (gone id e) m =
      subst
        (λ x.
          Mirrors unmarshal root self (watch_event unmarshal root self x nodes).0 (stored x store))
        (sym e) (delete-Mirrors nodes store id m)

-- If the map of nodes mirrors what etcd holds, it does so after any list of events of nodes, those
-- that write and those that go.
pub watch_events-Mirrors :
    (unmarshal : Text → Option Node) (root self : Text) (evs : List Event) (nodes : Nodes)
    (store : Map Text Text)
    → All (FromNode unmarshal root) evs
    → Mirrors unmarshal root self nodes store
    → Mirrors unmarshal root self
        (watch_events unmarshal root self evs nodes).0
        (stored_all evs store)
unfolding watch_events
watch_events-Mirrors unmarshal root self [] nodes store h m = m
watch_events-Mirrors unmarshal root self (ev ∷ evs) nodes store (h, hs) m =
    watch_events-Mirrors unmarshal root self evs (watch_event unmarshal root self ev nodes).0
      (stored ev store) hs (event-Mirrors unmarshal root self ev nodes store h m)
