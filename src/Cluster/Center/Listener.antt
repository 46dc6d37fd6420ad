-- ===== src/Cluster/Center/Listener.antt =====
-- What the listener is told is what the centre knows.
use mathlib.Core.Option.{some-injective}
use ggskit.Cluster.Node.{Node, parse_node, parse_node_key, get_node_id}
use ggskit.Cluster.Node.Parsed.{parse_node-parts}
use ggskit.Cluster.Center.{
  Nodes, NodeEvent, node_add, node_del, Event, put_event, delete_event, watch_event, after_delete,
  watch_events, collect,
}
use ggskit.Common.{
  some-none, ◌≡◌, refl, sym, ap, subst, ◌∙◌, inl, inr, Bool, true, false, Option, none, some, List,
  [], ◌∷◌, if◌then◌else◌, Bool-cases, Option-cases, Text, ◌==◌, nat_eq, text_eq, put, delete,
  Result-cases,
}

-- The map of a listener that adds and removes nodes by their ids, as it is told.
abbrev pub heard_one : Option NodeEvent → Nodes → Nodes
heard_one none m = m
heard_one (some (node_add n)) m = put (get_node_id n) n m
heard_one (some (node_del n)) m = delete (get_node_id n) m

abbrev pub heard : List NodeEvent → Nodes → Nodes
heard [] m = m
heard (e ∷ es) m = heard es (heard_one (some e) m)

-- Every node stands under its own id.
abbrev pub IsKeyed : Nodes → Type 0
IsKeyed nodes = (id : Text) (n : Node) → nodes id ≡ some n → get_node_id n ≡ id

put-IsKeyed : (nodes : Nodes) (n : Node) → IsKeyed nodes → IsKeyed (put (get_node_id n) n nodes)
put-IsKeyed nodes n k id m h = elim (Bool-cases (get_node_id n == id)) [
  | inl same ↦
      ap get_node_id (some-injective _ _ (sym h ∙ ap (λ b. if b then some n else nodes id) same))
      ∙ (text_eq.beq_iff (get_node_id n) id).0 same
  | inr new ↦ k id m (sym (ap (λ b. if b then some n else nodes id) new) ∙ h)
]

delete-IsKeyed : (nodes : Nodes) (j : Text) → IsKeyed nodes → IsKeyed (delete j nodes)
delete-IsKeyed nodes j k id m h = elim (Bool-cases (j == id)) [
  | inl same ↦ absurd (some-none m (sym h ∙ ap (λ b. if b then none else nodes id) same))
  | inr new ↦ k id m (sym (ap (λ b. if b then none else nodes id) new) ∙ h)
]

heard_one-IsKeyed :
    (o : Option NodeEvent) (nodes : Nodes) → IsKeyed nodes → IsKeyed (heard_one o nodes)
heard_one-IsKeyed none nodes k = k
heard_one-IsKeyed (some (node_add n)) nodes k = put-IsKeyed nodes n k
heard_one-IsKeyed (some (node_del n)) nodes k = delete-IsKeyed nodes (get_node_id n) k

module _ (unmarshal : Text → Option Node) (root self : Text) where
  deleted_heard :
      (id : Text) (nodes : Nodes) (o : Option Node)
      → IsKeyed nodes
      → nodes id ≡ o
      → (after_delete unmarshal root self id nodes o).0
        ≡ heard_one (after_delete unmarshal root self id nodes o).1 nodes
  deleted_heard id nodes none k h = refl
  deleted_heard id nodes (some n) k h = ap (λ x. delete x nodes) (sym (k id n h))

  put_heard :
      (id : Text) (n : Node) (nodes : Nodes) (b : Bool)
      → get_node_id n ≡ id
      → let out =
          if◌then◌else◌ {A = Nodes × Option NodeEvent} b
            (nodes, none)
            (put id n nodes, some (node_add n)) in
        out.0 ≡ heard_one out.1 nodes
  put_heard id n nodes true h = refl
  put_heard id n nodes false h = ap (λ x. put x n nodes) (sym h)

  watch_event-heard :
      (ev : Event) (nodes : Nodes)
      → IsKeyed nodes
      → let out = watch_event unmarshal root self ev nodes in out.0 ≡ heard_one out.1 nodes
  unfolding watch_event
  watch_event-heard (put_event key value) nodes k =
      elim (Result-cases (parse_node unmarshal root key value)) [
        | inl ((n, id), p) ↦
            rw (watch_event, p)
              (put_heard id n nodes (id == self)
                (parse_node-parts unmarshal root key value id n p).1)
        | inr (e, p) ↦ rw (watch_event, p) refl
      ]
  watch_event-heard (delete_event key) nodes k = elim (Option-cases (parse_node_key root key)) [
    | inl p ↦ rw (watch_event, p) refl
    | inr (id, p) ↦ rw (watch_event, p) (deleted_heard id nodes (nodes id) k refl)
  ]

  heard-collect :
      (told : Option NodeEvent) (rest : List NodeEvent) (m : Nodes)
      → heard (collect unmarshal root self told rest) m ≡ heard rest (heard_one told m)
  heard-collect none rest m = refl
  heard-collect (some e) rest m = refl

-- A listener that held the centre's map of nodes, each under its own id, and adds and removes nodes
-- as it is told about a response holds the centre's map after it, whatever the response's events
-- are.
pub watch_events-heard :
    (unmarshal : Text → Option Node) (root self : Text) (evs : List Event) (nodes : Nodes)
    → IsKeyed nodes
    → let out = watch_events unmarshal root self evs nodes in heard out.1 nodes ≡ out.0
unfolding watch_events
watch_events-heard unmarshal root self [] nodes k = refl
watch_events-heard unmarshal root self (ev ∷ evs) nodes k =
    let one = watch_event unmarshal root self ev nodes in
    let step : one.0 ≡ heard_one one.1 nodes = watch_event-heard unmarshal root self ev nodes k in
    heard-collect unmarshal root self one.1 (watch_events unmarshal root self evs one.0).1 nodes
    ∙ ap (λ m. heard (watch_events unmarshal root self evs one.0).1 m) (sym step)
    ∙ watch_events-heard unmarshal root self evs one.0
        (subst IsKeyed (sym step) (heard_one-IsKeyed one.1 nodes k))
