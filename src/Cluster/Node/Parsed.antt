-- ===== src/Cluster/Node/Parsed.antt =====
-- What a key and a value are that are parsed.
use mathlib.Core.Option.{some-injective}
use ggskit.Strconv.{cut}
use ggskit.Cluster.Node.{
  Node, NodeError, check_valid, make_node_id, get_node_id, parse_node_id, cut_prefix,
  parse_node_key, parse_node, or_error, refuse_if, bad_key, bad_id, bad_json, category_differs,
  name_differs,
}
use ggskit.Common.{
  bind-ok, ℕ, ◌≡◌, refl, ap, ◌∙◌, Bool, true, false, not, Option, none, some, [], ◌∷◌, ◌++◌, arith,
  Text, ◌==◌, nat_eq, text_eq, Result, ok,
}

cut-parts : (c : ℕ) (s a b : Text) → cut c s ≡ some (a, b) → s ≡ a ++ c ∷ b
unfolding cut
cut-parts c [] a b h = absurd (grind arith)
cut-parts c (x ∷ xs) a b h = grind (arith, cut-parts c xs)

cut_prefix-parts : (xs s r : Text) → cut_prefix xs s ≡ some r → s ≡ xs ++ r
unfolding cut_prefix
cut_prefix-parts [] s r h = some-injective _ _ h
cut_prefix-parts (x ∷ xs) [] r h = absurd (grind arith)
cut_prefix-parts (x ∷ xs) (y ∷ ys) r h = grind (arith, cut_prefix-parts xs ys r)

append-one : (xs ys : Text) (y : ℕ) → (xs ++ y ∷ []) ++ ys ≡ xs ++ y ∷ ys
append-one [] ys y = refl
append-one (x ∷ xs) ys y = ap (◌∷◌ x) (append-one xs ys y)

parse_node_key-parts :
    (root key id : Text) → parse_node_key root key ≡ some id → key ≡ root ++ b'/' ∷ id
unfolding parse_node_key
parse_node_key-parts root key id h =
    cut_prefix-parts (root ++ b'/' ∷ []) key id h ∙ append-one root id b'/'

or_error-ok : {A : Type 0} (o : Option A) (e : NodeError) (a : A) → or_error o e ≡ ok a → o ≡ some a
or_error-ok none e a h = absurd (grind arith)
or_error-ok (some x) e a h = grind arith

refuse_if-ok : (b : Bool) (e : NodeError) (u : Unit {0}) → refuse_if b e ≡ ok u → b ≡ false
refuse_if-ok true e u h = absurd (grind arith)
refuse_if-ok false e u h = refl

same_text : (a b : Text) → not (a == b) ≡ false → a ≡ b
same_text a b h = (text_eq.beq_iff a b).0 (ground arith)

parts :
    (root key i id category name : Text) (m n : Node)
    → parse_node_key root key ≡ some i
    → parse_node_id i ≡ some (category, name)
    → not (m.category == category) ≡ false
    → not (m.name == name) ≡ false
    → ◌≡◌ {A = Result NodeError (Node × Text)} (ok (m, i)) (ok (n, id))
    → (key ≡ root ++ b'/' ∷ id) × (get_node_id n ≡ id)
unfolding get_node_id make_node_id parse_node_id
parts root key i id category name m n hk hi hc hn e =
    let a : m.category ≡ category = same_text m.category category hc in
    let b : m.name ≡ name = same_text m.name name hn in
    let c : i ≡ category ++ b'/' ∷ name = cut-parts b'/' i category name hi in
    let d : (m ≡ n) × (i ≡ id) = grind arith in
    (parse_node_key-parts root key i hk ∙ ap (λ x. root ++ b'/' ∷ x) d.1, cc)

-- A key and a value that are parsed as a node are the node's own: the id is made of its category
-- and its name, and the key of the root and the id.
pub parse_node-parts :
    (unmarshal : Text → Option Node) (root key value id : Text) (n : Node)
    → parse_node unmarshal root key value ≡ ok (n, id)
    → (key ≡ root ++ b'/' ∷ id) × (get_node_id n ≡ id)
unfolding parse_node get_node_id make_node_id parse_node_id
parse_node-parts unmarshal root key value id n h =
    let (i, hi, h1) = bind-ok (or_error (parse_node_key root key) bad_key) _ _ h in
    let ((category, name), hc, h2) = bind-ok (or_error (parse_node_id i) bad_id) _ _ h1 in
    let (m, hm, h3) = bind-ok (or_error (unmarshal value) bad_json) _ _ h2 in
    let (u, hu, h4) = bind-ok (check_valid m) _ _ h3 in
    let (v, hv, h5) = bind-ok (refuse_if (not (m.category == category)) category_differs) _ _ h4 in
    let (w, hw, h6) = bind-ok (refuse_if (not (m.name == name)) name_differs) _ _ h5 in
    parts root key i id category name m n (or_error-ok (parse_node_key root key) bad_key i hi)
      (or_error-ok (parse_node_id i) bad_id (category, name) hc)
      (refuse_if-ok (not (m.category == category)) category_differs v hv)
      (refuse_if-ok (not (m.name == name)) name_differs w hw) h6
