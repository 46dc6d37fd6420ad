-- ===== src/Cluster/Node.antt =====
-- Nodes, their ids and keys: infra/cluster/center.go.
pub mod RoundTrip
pub mod Parsed
use ggskit.Strconv.{cut}
use ggskit.Common.Int.{ℤ}
use ggskit.Common.{
  [], Bool, true, false, not, Option, none, some, ◌∷◌, ◌++◌, if◌then◌else◌, Text, ◌==◌, Result, ok,
  err, nat_eq, text_eq, ◌>>=◌, ◌>>◌,
}

pub record Node : Type 0 where
  pub category : Text
  pub name : Text
  pub addr : Text
  pub server_id : ℤ

pub data NodeError : Type 0 where
  category_empty name_empty addr_empty bad_key bad_id bad_json : NodeError
  category_differs name_differs : NodeError

abbrev pub refuse_if : Bool → NodeError → Result NodeError (Unit {0})
refuse_if true e = err e
refuse_if false e = ok tt

-- `checkValid`, for a node that is not nil.
unfoldable pub check_valid : Node → Result NodeError (Unit {0})
check_valid n = do
  refuse_if (n.category == []) category_empty
  refuse_if (n.name == []) name_empty
  refuse_if (n.addr == []) addr_empty

-- `MakeNodeID`.
unfoldable pub make_node_id : Text → Text → Text
make_node_id category name = category ++ b'/' ∷ name

-- `GetNodeId`.
unfoldable pub get_node_id : Node → Text
get_node_id n = make_node_id n.category n.name

-- `ParseNodeID`: cut at the first separator.
unfoldable pub parse_node_id : Text → Option (Text × Text)
parse_node_id id = cut b'/' id

-- `strings.CutPrefix`.
unfoldable pub cut_prefix : Text → Text → Option Text
cut_prefix [] s = some s
cut_prefix (x ∷ xs) [] = none
cut_prefix (x ∷ xs) (y ∷ ys) = let rest = cut_prefix xs ys in if x == y then rest else none

-- `parseNodeKey`.
unfoldable pub parse_node_key : Text → Text → Option Text
parse_node_key root key = cut_prefix (root ++ b'/' ∷ []) key

abbrev pub or_error : {A : Type 0} → Option A → NodeError → Result NodeError A
or_error none e = err e
or_error (some a) e = ok a

-- `parseNode`; `unmarshal` is `json.Unmarshal` into a node.
unfoldable pub parse_node :
    (Text → Option Node) → Text → Text → Text → Result NodeError (Node × Text)
parse_node unmarshal root key value = do
  id ← or_error (parse_node_key root key) bad_key
  (category, name) ← or_error (parse_node_id id) bad_id
  n ← or_error (unmarshal value) bad_json
  check_valid n
  refuse_if (not (n.category == category)) category_differs
  refuse_if (not (n.name == name)) name_differs
  ok (n, id)
