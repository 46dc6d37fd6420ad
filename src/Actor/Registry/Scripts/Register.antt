-- ===== src/Actor/Registry/Scripts/Register.antt =====
-- `registerActorScript` keeps its promise on every branch.
use ggskit.Common.{
  ap, Map, ℕ, ◌≡◌, refl, ◌≢◌, inl, inr, Bool, true, false, ◌||◌, Option, none, some, List, [], ◌∷◌,
  Bool-cases, Text, codes, ◌==◌, nat_eq, text_eq, text_beq,
}
use ggskit.Common.Int.{ℤ}
use ggskit.Redis.{
  takes_fields, item_of, Redis, Item, Value, hash, str, stream, other, type_of, set_fields, set_ttl,
}
use ggskit.Actor.Registry.Scripts.{
  or_empty, other_type, register_actor_script, write_owner, register_write, register_refuse,
  register_check,
}
use ggskit.Actor.Registry.Runs.{
  Runs-hset_none, Runs->>=_none, Runs, Runs-pure, Runs->>=, Runs-pttl, Runs-del, Runs-hset,
  Runs-set_expiry, expiry, granted_ttl,
}
use ggskit.Actor.Registry.View.{
  failed, foreign, json_view, View, held, view, granted, encode, owned, register_spec,
}
use ggskit.Actor.Registry.Scripts.Reading.{json_text, after_read_none, after_read, Refines}

abbrev pub registered : Text × Text → Option ℕ → View
registered (node, lease) t = held (record { node = node; lease = lease; ttl = t })

module _ (r : Redis) (key log : Text) (apart : key ≢ log) where
  abbrev pub owner_fields : Text → Text → List (Text × Text)
  owner_fields node lease = (codes "node_id", node) ∷ (codes "lease_id", lease) ∷ []

  -- The item that `write_owner` leaves where it can write.
  abbrev pub owner_item : Option Item → Text → Text → Option Item
  owner_item none node lease = set_fields (owner_fields node lease) none
  owner_item (some i) node lease = elim i.value [
    | hash m ↦ set_fields (owner_fields node lease) (some i)
    | _ ↦ set_fields (owner_fields node lease) none
  ]

  abbrev pub is_writable : Option Item → Bool
  is_writable none = true
  is_writable (some i) = elim i.value [ hash m ↦ true | str s ↦ true | _ ↦ false ]

  pub write_owner-Runs :
      (o l : Option Item) (node lease : Text)
      → is_writable o ≡ true
      → Runs r key log apart
          (write_owner r key (type_of o) node lease)
          (o, l)
          (owner_item o node lease, l)
          (some tt)
  unfolding write_owner
  write_owner-Runs none l node lease w =
      Runs->>= r key log apart _ _ (Runs-pure r key log apart tt _)
        (Runs-hset r key log apart _ _ refl)
  write_owner-Runs (some i) l node lease w = go i.value i.ttl w
    where
      go :
          (v : Value) (t : Option ℕ)
          → is_writable (item_of v t) ≡ true
          → let o = item_of v t in
            Runs r key log apart
              (write_owner r key (type_of o) node lease)
              (o, l)
              (owner_item o node lease, l)
              (some tt)
      go (hash m) t w =
          Runs->>= r key log apart _ _ (Runs-pure r key log apart tt _)
            (Runs-hset r key log apart _ _ refl)
      go (str s) t w =
          Runs->>= r key log apart _ _ (Runs-del r key log apart _)
            (Runs-hset r key log apart _ _ refl)
      go (stream e) t w = cc
      go other t w = cc

  -- With a writable key the owner is set, and the expiry is the one asked for.
  pub register_write-Runs :
      (o l : Option Item) (node lease ttl_text : Text) (ttl : ℤ)
      → is_writable o ≡ true
      → r.tonumber ttl_text ≡ some ttl
      → r.expire_fits ttl ≡ true
      → Runs r key log apart
          (register_write r key (type_of o) node lease ttl_text)
          (o, l)
          (set_ttl (expiry ttl) (owner_item o node lease), l)
          (encode (granted node (granted_ttl ttl)))
  unfolding register_write
  register_write-Runs o l node lease ttl_text ttl w e c =
      Runs->>= r key log apart _ _ (write_owner-Runs o l node lease w) (
        rw e (
          Runs->>= r key log apart _ _ (Runs-set_expiry r key log apart ttl _ c)
            (Runs-pure r key log apart _ _)))

  pub view-owner_item :
      (o : Option Item) (node lease : Text) (ttl : ℤ)
      → view r (set_ttl (expiry ttl) (owner_item o node lease)) ≡ owned node lease ttl
  unfolding text_beq
  view-owner_item none node lease ttl = refl
  view-owner_item (some i) node lease ttl = go i.value i.ttl
    where
      go :
          (v : Value) (t : Option ℕ)
          → view r (set_ttl (expiry ttl) (owner_item (item_of v t) node lease))
            ≡ owned node lease ttl
      go (hash m) t = refl
      go _ t = refl

  register_check-Refines :
      (v : Value) (t : Option ℕ) (g : Text × Text) (l : Option Item) (node lease ttl_text : Text)
      (ttl : ℤ)
      → is_writable (item_of v t) ≡ true
      → view r (item_of v t) ≡ registered g t
      → r.tonumber ttl_text ≡ some ttl
      → r.expire_fits ttl ≡ true
      → Refines r key log apart
          (register_check r key (type_of (item_of v t)) g.0 node lease ttl_text)
          (item_of v t)
          l
          (register_spec (registered g t) node lease ttl)
          l
  unfolding register_check register_refuse
  register_check-Refines v t g l node lease ttl_text ttl w vg e c =
      elim (Bool-cases (g.0 == [] || g.0 == node)) [
        | inl free ↦ rw free (
          set_ttl (expiry ttl) (owner_item (item_of v t) node lease),
          register_write-Runs _ l node lease ttl_text ttl w e c,
          view-owner_item (item_of v t) node lease ttl,
        )
        | inr busy ↦ rw busy (
          item_of v t,
          Runs->>= r key log apart _ _ (Runs-pttl r key log apart _)
              (Runs-pure r key log apart _ _),
          vg,
        )
      ]

  write_fails :
      (v : Value) (t : Option ℕ) (l : Option Item) (node lease ttl_text : Text)
      → type_of (item_of v t) ≡ other_type
      → takes_fields (item_of v t) ≡ false
      → Runs r key log apart
          (register_write r key (type_of (item_of v t)) node lease ttl_text)
          (item_of v t, l)
          (item_of v t, l)
          none
  unfolding register_write write_owner
  write_fails v t l node lease ttl_text ot tf = rw ot (
      Runs->>=_none r key log apart _ _ (
        Runs->>= r key log apart _ _ (Runs-pure r key log apart tt _)
          (Runs-hset_none r key log apart _ _ tf)))

  register_json :
      (s : Text) (t : Option ℕ) (l : Option Item) (node lease ttl_text : Text) (ttl : ℤ)
      (d : Option (Map Text Text))
      → r.cjson_decode s ≡ d
      → r.tonumber ttl_text ≡ some ttl
      → r.expire_fits ttl ≡ true
      → Refines r key log apart
          (register_actor_script r key node lease ttl_text)
          (item_of (str s) t)
          l
          (register_spec (json_view d t) node lease ttl)
          l
  unfolding register_actor_script
  register_json s t l node lease ttl_text ttl none ed e c = (
    item_of (str s) t,
    after_read_none r key log apart _ l _ _ _
        (ap (λ (d : Option (Map Text Text)). json_text r key log apart d (codes "NodeId")) ed),
    ap (λ (d : Option (Map Text Text)). json_view d t) ed,
  )
  register_json s t l node lease ttl_text ttl (some m) ed e c =
      after_read r key log apart _ l l _ _ _ _ _
        (ap (λ (d : Option (Map Text Text)). json_text r key log apart d (codes "NodeId")) ed)
        (register_check-Refines (str s) t
          (or_empty (m (codes "NodeId")), or_empty (m (codes "LeaseId"))) l node lease ttl_text ttl
          refl (ap (λ (d : Option (Map Text Text)). json_view d t) ed) e c)

  register_value :
      (v : Value) (t : Option ℕ) (l : Option Item) (node lease ttl_text : Text) (ttl : ℤ)
      → r.tonumber ttl_text ≡ some ttl
      → r.expire_fits ttl ≡ true
      → Refines r key log apart
          (register_actor_script r key node lease ttl_text)
          (item_of v t)
          l
          (register_spec (view r (item_of v t)) node lease ttl)
          l
  unfolding register_actor_script register_check text_beq
  register_value (hash m) t l node lease ttl_text ttl e c =
      after_read r key log apart _ l l _ _ _ _ _ refl (
        register_check-Refines (hash m) t
          (or_empty (m (codes "node_id")), or_empty (m (codes "lease_id"))) l node lease ttl_text
          ttl refl refl e c)
  register_value (str s) t l node lease ttl_text ttl e c =
      register_json s t l node lease ttl_text ttl (r.cjson_decode s) refl e c
  register_value (stream es) t l node lease ttl_text ttl e c =
      after_read r key log apart _ l l _ _ _ _ (foreign, failed) refl
        (item_of (stream es) t, write_fails (stream es) t l node lease ttl_text refl refl, refl)
  register_value other t l node lease ttl_text ttl e c =
      after_read r key log apart _ l l _ _ _ _ (foreign, failed) refl
        (item_of other t, write_fails other t l node lease ttl_text refl refl, refl)

  pub register_actor_script-Refines :
      (o l : Option Item) (node lease ttl_text : Text) (ttl : ℤ)
      → r.tonumber ttl_text ≡ some ttl
      → r.expire_fits ttl ≡ true
      → Refines r key log apart
          (register_actor_script r key node lease ttl_text)
          o
          l
          (register_spec (view r o) node lease ttl)
          l
  unfolding register_actor_script register_check text_beq
  register_actor_script-Refines none l node lease ttl_text ttl e c =
      after_read r key log apart none l l _ _ _ _
        (owned node lease ttl, granted node (granted_ttl ttl)) refl
        (
          set_ttl (expiry ttl) (owner_item none node lease),
          register_write-Runs none l node lease ttl_text ttl refl e c,
          view-owner_item none node lease ttl,
        )
  register_actor_script-Refines (some i) l node lease ttl_text ttl e c =
      register_value i.value i.ttl l node lease ttl_text ttl e c
