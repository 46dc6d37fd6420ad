-- ===== src/Actor/Registry/Scripts/Ownership.antt =====
-- The reads and the ownership test that `unregisterActorScript` and `keepAliveActorScript` share.
use ggskit.Common.{
  arith, Bool, sym, ==_ne, ℕ, ◌≡◌, refl, ◌≢◌, inl, inr, true, ◌&&◌, Option, none, some, List, [],
  if◌then◌else◌, Bool-cases, Text, codes, ◌==◌, nat_eq, text_eq, Map,
}
use ggskit.Common.Int.{ℤ}
use ggskit.Redis.{Redis, Item, Value, hash, str, stream, other, item_of, KeyType, type_of}
use ggskit.Actor.Registry.Scripts.{
  Script, ◌>>=◌, reads, Reply, or_empty, read_owner, json_owner, as_owner, refresh,
}
use ggskit.Actor.Registry.Runs.{
  Runs, Runs-pure, Runs->>=, Runs->>=_none, Runs-type_key, Runs-hget, Runs-get, Runs-set_expiry,
  expiry,
}
use ggskit.Actor.Registry.View.{View, view, Answer, mismatch, done, failed}
use ggskit.Actor.Registry.Scripts.Reading.{Refines}
use ggskit.Actor.Registry.Scripts.Register.{registered}

module _ (r : Redis) (key log : Text) (apart : key ≢ log) where
  -- What `read_owner` returns: `none` for an error.
  abbrev pub json_pair : Option (Map Text Text) → Option (Option (Text × Text))
  json_pair none = none
  json_pair (some t) = some (some (or_empty (t (codes "NodeId")), or_empty (t (codes "LeaseId"))))

  abbrev pub owner_pair : Option Item → Option (Option (Text × Text))
  owner_pair none = some (some ([], []))
  owner_pair (some i) = elim i.value [
    | hash m ↦ some (some (or_empty (m (codes "node_id")), or_empty (m (codes "lease_id"))))
    | str s ↦ json_pair (r.cjson_decode s)
    | stream e ↦ some (some ([], []))
    | other ↦ some (some ([], []))
  ]

  json_owner-Runs :
      (raw : Text) (d : Option (Map Text Text)) (o l : Option Item)
      → r.cjson_decode raw ≡ d
      → Runs r key log apart (json_owner r (some raw)) (o, l) (o, l) (json_pair d)
  unfolding json_owner
  json_owner-Runs raw none o l e =
      Runs->>=_none r key log apart _ _ (record { at = λ db h k. (e, h, k, λ j p q. refl) })
  json_owner-Runs raw (some t) o l e =
      Runs->>= r key log apart _ _ (record { at = λ db h k. (e, h, k, λ j p q. refl) })
        (Runs-pure r key log apart _ _)

  pub read_owner-Runs :
      (v : Value) (ttl : Option ℕ) (l : Option Item)
      → Runs r key log apart
          (read_owner r key (type_of (item_of v ttl)))
          (item_of v ttl, l)
          (item_of v ttl, l)
          (owner_pair (item_of v ttl))
  unfolding read_owner
  read_owner-Runs (hash m) ttl l =
      Runs->>= r key log apart _ _ (Runs-hget r key log apart (codes "node_id") _) (
        Runs->>= r key log apart _ _ (Runs-hget r key log apart (codes "lease_id") _)
          (Runs-pure r key log apart _ _))
  read_owner-Runs (str s) ttl l =
      Runs->>= r key log apart _ _ (Runs-get r key log apart _) (json_owner-Runs s _ _ l refl)
  read_owner-Runs (stream e) ttl l = Runs-pure r key log apart _ _
  read_owner-Runs other ttl l = Runs-pure r key log apart _ _

  -- The owner's step is taken, and anybody else is refused with nothing changed.
  pub as_owner-Refines :
      (g : Text × Text) (o l l' : Option Item) (t : Option ℕ) (node lease : Text)
      (m : Script r (List Reply)) (v : View)
      → view r o ≡ registered g t
      → Refines r key log apart m o l (v, done) l'
      → Refines r key log apart
          (as_owner r (some g) node lease m)
          o
          l
          (if g.0 == node && g.1 == lease then (v, done) else (registered g t, mismatch))
          (if g.0 == node && g.1 == lease then l' else l)
  unfolding as_owner
  as_owner-Refines g o l l' t node lease m v vg own = elim (Bool-cases (g.0 == node)) [
    | inl p ↦ elim (Bool-cases (g.1 == lease)) [
      | inl q ↦ rw (p, q) own
      | inr q ↦ rw (p, q) (o, Runs-pure r key log apart _ _, vg)
    ]
    | inr p ↦ rw p (o, Runs-pure r key log apart _ _, vg)
  ]

  -- A script that first reads the type and then the owner of a key that is there.
  pub after_owner :
      (v : Value) (t : Option ℕ) (l l' : Option Item) (owner : Option (Text × Text))
      (f : Option (Text × Text) → Script r (List Reply)) (p : View × Answer)
      → owner_pair (item_of v t) ≡ some owner
      → Refines r key log apart (f owner) (item_of v t) l p l'
      → Refines r key log apart
          (◌>>=◌ r (read_owner r key (type_of (item_of v t))) f)
          (item_of v t)
          l
          p
          l'
  after_owner v t l l' owner f p e (o', m, w) =
      (o', Runs->>= r key log apart _ _ (rw e at (read_owner-Runs v t l)) m, w)

  pub after_owner_none :
      (v : Value) (t : Option ℕ) (l : Option Item)
      (f : Option (Text × Text) → Script r (List Reply))
      → owner_pair (item_of v t) ≡ none
      → Refines r key log apart
          (◌>>=◌ r (read_owner r key (type_of (item_of v t))) f)
          (item_of v t)
          l
          (view r (item_of v t), failed)
          l
  after_owner_none v t l f e =
      (item_of v t, Runs->>=_none r key log apart _ _ (rw e at (read_owner-Runs v t l)), refl)

  pub after_type :
      (o l l' : Option Item) (f : KeyType → Script r (List Reply)) (p : View × Answer)
      → Refines r key log apart (f (type_of o)) o l p l'
      → Refines r key log apart (◌>>=◌ r (reads r (r.type_key key)) f) o l p l'
  after_type o l l' f p (o', m, w) =
      (o', Runs->>= r key log apart _ _ (Runs-type_key r key log apart _) m, w)

  pub refresh-Refines :
      (v : Value) (t : Option ℕ) (g : Text × Text) (l : Option Item) (ttl_text : Text) (ttl : ℤ)
      → view r (item_of v t) ≡ registered g t
      → view r (item_of v (expiry ttl)) ≡ registered g (expiry ttl)
      → r.tonumber ttl_text ≡ some ttl
      → r.expire_fits ttl ≡ true
      → Refines r key log apart
          (refresh r key ttl_text)
          (item_of v t)
          l
          (registered g (expiry ttl), done)
          l
  unfolding refresh
  refresh-Refines v t g l ttl_text ttl vg vg' e c = (
    item_of v (expiry ttl),
    rw e (
        Runs->>= r key log apart _ _ (Runs-set_expiry r key log apart ttl _ c)
          (Runs-pure r key log apart _ _)),
    vg',
  )

  -- Nobody owns a key of a foreign type.
  pub as_owner_foreign :
      (o l l' : Option Item) (node lease : Text) (m : Script r (List Reply)) (v : View)
      → node ≢ []
      → view r o ≡ v
      → Refines r key log apart (as_owner r (some ([], [])) node lease m) o l (v, mismatch) l
  unfolding as_owner
  as_owner_foreign o l l' node lease m v h e =
      rw (==_ne [] node (λ p. h (sym p))) (o, Runs-pure r key log apart _ _, e)

  if_same : (b : Bool) (x : Option Item) → (if b then x else x) ≡ x
  if_same b x = ground arith

  -- The same where the step leaves the stream alone.
  pub as_owner_quiet :
      (g : Text × Text) (o l : Option Item) (t : Option ℕ) (node lease : Text)
      (m : Script r (List Reply)) (v : View)
      → view r o ≡ registered g t
      → Refines r key log apart m o l (v, done) l
      → Refines r key log apart
          (as_owner r (some g) node lease m)
          o
          l
          (if g.0 == node && g.1 == lease then (v, done) else (registered g t, mismatch))
          l
  as_owner_quiet g o l t node lease m v vg own =
      rw (if_same (g.0 == node && g.1 == lease) l) at
        (as_owner-Refines g o l l t node lease m v vg own)
