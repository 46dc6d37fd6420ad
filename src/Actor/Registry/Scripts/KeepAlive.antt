-- ===== src/Actor/Registry/Scripts/KeepAlive.antt =====
-- `keepAliveActorScript` keeps its promise on every branch.
use ggskit.Common.{
  ℕ, ◌≡◌, refl, ap, ◌∙◌, ◌≢◌, true, Option, none, some, [], Text, codes, nat_eq, text_eq, Map,
}
use ggskit.Common.Int.{ℤ}
use ggskit.Redis.{Redis, Item, Value, hash, str, stream, other, item_of}
use ggskit.Actor.Registry.Scripts.{or_empty, keep_alive_actor_script}
use ggskit.Actor.Registry.Runs.{Runs-pure, expiry}
use ggskit.Actor.Registry.View.{
  vacant, foreign, view, json_view, missing, mismatch, failed, keep_alive_spec,
}
use ggskit.Actor.Registry.Scripts.Reading.{Refines}
use ggskit.Actor.Registry.Scripts.Ownership.{
  json_pair, as_owner_quiet, after_owner, after_owner_none, after_type, refresh-Refines,
  as_owner_foreign,
}

module _ (r : Redis) (key log : Text) (apart : key ≢ log) where
  keep_alive_json :
      (s : Text) (t : Option ℕ) (l : Option Item) (node lease ttl_text : Text) (ttl : ℤ)
      (d : Option (Map Text Text))
      → r.cjson_decode s ≡ d
      → r.tonumber ttl_text ≡ some ttl
      → r.expire_fits ttl ≡ true
      → Refines r key log apart
          (keep_alive_actor_script r key node lease ttl_text)
          (item_of (str s) t)
          l
          (keep_alive_spec (json_view d t) node lease ttl)
          l
  unfolding keep_alive_actor_script
  keep_alive_json s t l node lease ttl_text ttl none ed e c =
      let (o, m, v) =
        after_type r key log apart _ l l _ (json_view (r.cjson_decode s) t, failed)
          (after_owner_none r key log apart (str s) t l _ (ap (json_pair r key log apart) ed)) in
      (o, m, v ∙ ap (λ (d : Option (Map Text Text)). json_view d t) ed)
  keep_alive_json s t l node lease ttl_text ttl (some m) ed e c =
      after_type r key log apart _ l l _ _ (
        after_owner r key log apart (str s) t l l _ _ _ (ap (json_pair r key log apart) ed) (
          as_owner_quiet r key log apart
            (or_empty (m (codes "NodeId")), or_empty (m (codes "LeaseId"))) _ l t node lease _ _
            (ap (λ (d : Option (Map Text Text)). json_view d t) ed)
            (refresh-Refines r key log apart (str s) t _ l ttl_text ttl
              (ap (λ (d : Option (Map Text Text)). json_view d t) ed)
              (ap (λ (d : Option (Map Text Text)). json_view d (expiry ttl)) ed) e c)))

  keep_alive_value :
      (v : Value) (t : Option ℕ) (l : Option Item) (node lease ttl_text : Text) (ttl : ℤ)
      → node ≢ []
      → r.tonumber ttl_text ≡ some ttl
      → r.expire_fits ttl ≡ true
      → Refines r key log apart
          (keep_alive_actor_script r key node lease ttl_text)
          (item_of v t)
          l
          (keep_alive_spec (view r (item_of v t)) node lease ttl)
          l
  unfolding keep_alive_actor_script
  keep_alive_value (hash m) t l node lease ttl_text ttl n e c =
      after_type r key log apart _ l l _ _ (
        after_owner r key log apart (hash m) t l l _ _ _ refl (
          as_owner_quiet r key log apart
            (or_empty (m (codes "node_id")), or_empty (m (codes "lease_id"))) _ l t node lease _ _
            refl (refresh-Refines r key log apart (hash m) t _ l ttl_text ttl refl refl e c)))
  keep_alive_value (str s) t l node lease ttl_text ttl n e c =
      keep_alive_json s t l node lease ttl_text ttl (r.cjson_decode s) refl e c
  keep_alive_value (stream es) t l node lease ttl_text ttl n e c =
      after_type r key log apart _ l l _ (foreign, mismatch)
        (after_owner r key log apart (stream es) t l l _ _ (foreign, mismatch) refl
          (as_owner_foreign r key log apart _ l l node lease _ foreign n refl))
  keep_alive_value other t l node lease ttl_text ttl n e c =
      after_type r key log apart _ l l _ (foreign, mismatch)
        (after_owner r key log apart other t l l _ _ (foreign, mismatch) refl
          (as_owner_foreign r key log apart _ l l node lease _ foreign n refl))

  -- On every item of the key: the owner's expiry is set and nothing else; anybody else is refused.
  pub keep_alive_actor_script-Refines :
      (o l : Option Item) (node lease ttl_text : Text) (ttl : ℤ)
      → node ≢ []
      → r.tonumber ttl_text ≡ some ttl
      → r.expire_fits ttl ≡ true
      → Refines r key log apart
          (keep_alive_actor_script r key node lease ttl_text)
          o
          l
          (keep_alive_spec (view r o) node lease ttl)
          l
  unfolding keep_alive_actor_script
  keep_alive_actor_script-Refines none l node lease ttl_text ttl n e c =
      after_type r key log apart none l l _ (vacant, missing)
        (none, Runs-pure r key log apart _ _, refl)
  keep_alive_actor_script-Refines (some i) l node lease ttl_text ttl n e c =
      keep_alive_value i.value i.ttl l node lease ttl_text ttl n e c
