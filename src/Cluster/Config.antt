-- ===== src/Cluster/Config.antt =====
-- The configuration of the centre: infra/cluster/center.go. `strings.TrimSpace` is a parameter.
pub mod Paths
use ggskit.Cluster.Node.{Node, NodeError, check_valid}
use ggskit.Common.{
  [], ◌||◌, ℕ, zero, suc, Bool, true, false, not, ◌&&◌, Option, none, some, List, ◌∷◌,
  if◌then◌else◌, Text, length, ◌==◌, Result, ok, err, map_err, nat_eq, text_eq, ◌>>=◌, ◌>>◌,
}

-- `strings.TrimSuffix(r, "/")` and `strings.HasPrefix(r, "/")`.
unfoldable pub trim_slash : Text → Text
trim_slash [] = []
trim_slash (x ∷ []) = if x == b'/' then [] else x ∷ []
trim_slash (x ∷ y ∷ ys) = x ∷ trim_slash (y ∷ ys)

abbrev pub starts_slash : Text → Bool
starts_slash [] = false
starts_slash (x ∷ xs) = x == b'/'

-- `strings.Contains(r, "//")`.
unfoldable pub has_double : Text → Bool
has_double [] = false
has_double (x ∷ []) = false
has_double (x ∷ y ∷ ys) = let rest = has_double (y ∷ ys) in (x == b'/' && y == b'/') || rest

-- `strings.ReplaceAll(r, "//", "/")`: from the left, a pair at a time.
unfoldable pub replace_double : Text → Text
replace_double [] = []
replace_double (x ∷ []) = x ∷ []
replace_double (x ∷ y ∷ ys) = elim (x == b'/' && y == b'/') [
  | true ↦ b'/' ∷ replace_double ys
  | false ↦ x ∷ replace_double (y ∷ ys)
]

-- The loop of `normalizePath`, on fuel.
unfoldable pub fold_slashes : ℕ → Text → Text
fold_slashes zero r = r
fold_slashes (suc fuel) r = elim (has_double r) [
  | true ↦ fold_slashes fuel (replace_double r)
  | false ↦ r
]

abbrev pub with_slash : Text → Text
with_slash r = if starts_slash r then r else b'/' ∷ r

-- `normalizePath`; each round of the loop shortens the path, so its length is fuel enough.
unfoldable pub normalize_path : (Text → Text) → Text → Text
normalize_path trim_space r =
    let t = trim_space r in
    let u = with_slash (trim_slash t) in if t == [] then t else fold_slashes (length u) u

-- `CenterConfig`; the flags say whether the listener and the logger are given.
pub record CenterConfig : Type 0 where
  pub end_points : List Text
  pub root : Text
  pub watch_prefix : Text
  pub self_node : Option Node
  pub has_listener : Bool
  pub has_log : Bool

pub data ConfigError : Type 0 where
  no_end_points no_root no_self no_listener no_log : ConfigError
  self_invalid : NodeError → ConfigError

abbrev pub demand : Bool → ConfigError → Result ConfigError (Unit {0})
demand true e = ok tt
demand false e = err e

abbrev pub demand_self : Option Node → Result ConfigError (Unit {0})
demand_self none = err no_self
demand_self (some n) = map_err self_invalid (check_valid n)

abbrev pub has_end_points : List Text → Bool
has_end_points [] = false
has_end_points (e ∷ es) = true

-- `CenterConfig.init`; where it fails the configuration is not used.
unfoldable pub init_center : (Text → Text) → CenterConfig → Result ConfigError CenterConfig
init_center trim_space c = do
  demand (has_end_points c.end_points) no_end_points
  demand (not (c.root == [])) no_root
  demand_self c.self_node
  demand c.has_listener no_listener
  demand c.has_log no_log
  ok (record c {
    root = normalize_path trim_space c.root;
    watch_prefix =
        if c.watch_prefix == [] then c.watch_prefix else normalize_path trim_space c.watch_prefix;
  })
