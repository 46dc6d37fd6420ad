-- ===== src/Cluster/Node/RoundTrip.antt =====
-- What a node writes under its key is read back as that node.
use ggskit.Strconv.RoundTrip.{cut-append}
use ggskit.Cluster.Node.{
  Node, check_valid, make_node_id, get_node_id, parse_node_id, cut_prefix, parse_node_key,
  parse_node,
}
use ggskit.Common.{
  ◌≡◌, refl, ap, subst, ◌≢◌, Option, some, [], ◌∷◌, ◌++◌, Text, All, nat_eq, text_eq, ==_refl, ok,
}

-- A category without the separator is read back with its name, whatever the name is.
pub parse_node_id-make_node_id :
    (category name : Text)
    → All (λ x. x ≢ b'/') category
    → parse_node_id (make_node_id category name) ≡ some (category, name)
unfolding parse_node_id make_node_id
parse_node_id-make_node_id category name h = cut-append b'/' category name h

cut_prefix-append : (xs ys : Text) → cut_prefix xs (xs ++ ys) ≡ some ys
unfolding cut_prefix
cut_prefix-append [] ys = refl
cut_prefix-append (x ∷ xs) ys = rw (==_refl x) (cut_prefix-append xs ys)

append-slash : (xs ys : Text) → (xs ++ b'/' ∷ []) ++ ys ≡ xs ++ b'/' ∷ ys
append-slash [] ys = refl
append-slash (x ∷ xs) ys = ap (◌∷◌ x) (append-slash xs ys)

pub parse_node_key-append : (root id : Text) → parse_node_key root (root ++ b'/' ∷ id) ≡ some id
unfolding parse_node_key
parse_node_key-append root id =
    subst (λ k. cut_prefix (root ++ b'/' ∷ []) k ≡ some id) (append-slash root id)
      (cut_prefix-append (root ++ b'/' ∷ []) id)

-- A valid node whose category has no separator, written as JSON under its key, is read back.
pub parse_node-registered :
    (unmarshal : Text → Option Node) (root value : Text) (n : Node)
    → check_valid n ≡ ok tt
    → All (λ x. x ≢ b'/') n.category
    → unmarshal value ≡ some n
    → parse_node unmarshal root (root ++ b'/' ∷ get_node_id n) value ≡ ok (n, get_node_id n)
unfolding parse_node get_node_id
parse_node-registered unmarshal root value n v h u =
    rw
      (
        parse_node_key-append root (make_node_id n.category n.name),
        parse_node_id-make_node_id n.category n.name h,
        u,
        v,
        ==_refl n.category,
        ==_refl n.name,
      )
      refl
