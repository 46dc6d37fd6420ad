-- ===== src/Actor/Registry/Scripts/Lookup.antt =====
-- `getActorRegScript` keeps its promise on every branch.
use ggskit.Common.{
  ℕ, ◌≡◌, refl, ap, ◌≢◌, inl, inr, Option, none, some, [], Bool-cases, Text, codes, ◌==◌, nat_eq,
  text_eq, text_beq, Map,
}
use ggskit.Redis.{Redis, Item, Value, hash, str, stream, other, item_of}
use ggskit.Actor.Registry.Scripts.{or_empty, describe, get_actor_reg_script}
use ggskit.Actor.Registry.Runs.{Runs-pure, Runs->>=, Runs-pttl}
use ggskit.Actor.Registry.View.{vacant, foreign, view, json_view, missing, lookup_spec}
use ggskit.Actor.Registry.Scripts.Reading.{Refines, after_read, after_read_none, json_text}
use ggskit.Actor.Registry.Scripts.Register.{registered}

module _ (r : Redis) (key log : Text) (apart : key ≢ log) where
  describe-Refines :
      (v : Value) (t : Option ℕ) (g : Text × Text) (l : Option Item)
      → view r (item_of v t) ≡ registered g t
      → Refines r key log apart
          (describe r key g.0)
          (item_of v t)
          l
          (registered g t, lookup_spec (registered g t))
          l
  unfolding describe
  describe-Refines v t g l vg = elim (Bool-cases (g.0 == [])) [
    | inl empty ↦ rw empty (item_of v t, Runs-pure r key log apart _ _, vg)
    | inr named ↦ rw named (
      item_of v t,
      Runs->>= r key log apart _ _ (Runs-pttl r key log apart _) (Runs-pure r key log apart _ _),
      vg,
    )
  ]

  lookup_json :
      (s : Text) (t : Option ℕ) (l : Option Item) (d : Option (Map Text Text))
      → r.cjson_decode s ≡ d
      → Refines r key log apart
          (get_actor_reg_script r key)
          (item_of (str s) t)
          l
          (json_view d t, lookup_spec (json_view d t))
          l
  unfolding get_actor_reg_script
  lookup_json s t l none ed = (
    item_of (str s) t,
    after_read_none r key log apart _ l _ _ _
        (ap (λ (d : Option (Map Text Text)). json_text r key log apart d (codes "NodeId")) ed),
    ap (λ (d : Option (Map Text Text)). json_view d t) ed,
  )
  lookup_json s t l (some m) ed =
      after_read r key log apart _ l l _ _ _ _ _
        (ap (λ (d : Option (Map Text Text)). json_text r key log apart d (codes "NodeId")) ed)
        (describe-Refines (str s) t (or_empty (m (codes "NodeId")), or_empty (m (codes "LeaseId")))
          l (ap (λ (d : Option (Map Text Text)). json_view d t) ed))

  lookup_value :
      (v : Value) (t : Option ℕ) (l : Option Item)
      → Refines r key log apart
          (get_actor_reg_script r key)
          (item_of v t)
          l
          (view r (item_of v t), lookup_spec (view r (item_of v t)))
          l
  unfolding get_actor_reg_script describe text_beq
  lookup_value (hash m) t l = after_read r key log apart _ l l _ _ _ _ _ refl (
      describe-Refines (hash m) t (or_empty (m (codes "node_id")), or_empty (m (codes "lease_id")))
        l refl)
  lookup_value (str s) t l = lookup_json s t l (r.cjson_decode s) refl
  lookup_value (stream es) t l =
      after_read r key log apart _ l l _ _ _ _ (foreign, missing) refl
        (item_of (stream es) t, Runs-pure r key log apart _ _, refl)
  lookup_value other t l =
      after_read r key log apart _ l l _ _ _ _ (foreign, missing) refl
        (item_of other t, Runs-pure r key log apart _ _, refl)

  -- On every item of the key: the reply locates the registered node, and nothing changes in the
  -- view.
  pub get_actor_reg_script-Refines :
      (o l : Option Item)
      → Refines r key log apart
          (get_actor_reg_script r key)
          o
          l
          (view r o, lookup_spec (view r o))
          l
  unfolding get_actor_reg_script describe text_beq
  get_actor_reg_script-Refines none l =
      after_read r key log apart none l l _ _ _ _ (vacant, missing) refl
        (none, Runs-pure r key log apart _ _, refl)
  get_actor_reg_script-Refines (some i) l = lookup_value i.value i.ttl l
