-- ===== src/Actor/Registry/Scripts/Reading.antt =====
-- The scripts of the registry keep their promises: each refines its step on the view of the key.
use ggskit.Common.{ℕ, ◌≡◌, refl, ◌≢◌, Option, none, some, List, [], Text, nat_eq, text_eq, Map}
use ggskit.Redis.{item_of, Redis, Item, Value, hash, str, stream, other, type_of}
use ggskit.Actor.Registry.Scripts.{
  KeyType, ◌>>=◌, reads, Script, Reply, or_empty, read_field, json_field,
}
use ggskit.Actor.Registry.Runs.{
  Runs-type_key, Runs, Runs-pure, Runs->>=, Runs->>=_none, Runs-hget, Runs-get,
}
use ggskit.Actor.Registry.View.{failed, View, view, Answer, encode}

-- From the item `o` and the change stream `l` the script answers `a`, leaves the view `v` of its
-- key and the stream `l'`, and touches no other key.
abbrev pub Refines :
    (r : Redis) (key log : Text)
    → key ≢ log
    → Script r (List Reply)
    → Option Item
    → Option Item
    → View × Answer
    → Option Item
    → Type 0
Refines r key log apart m o l (v, a) l' =
    (o' : Option Item) × Runs r key log apart m (o, l) (o', l') (encode a) × (view r o' ≡ v)

module _ (r : Redis) (key log : Text) (apart : key ≢ log) where
  -- What `read_field` returns: `none` for an error.
  abbrev pub json_text : Option (Map Text Text) → Text → Option (Option Text)
  json_text none name = none
  json_text (some t) name = some (some (or_empty (t name)))

  abbrev pub field_text : Option Item → Text → Text → Option (Option Text)
  field_text none field name = some (some [])
  field_text (some i) field name = elim i.value [
    | hash m ↦ some (some (or_empty (m field)))
    | str s ↦ json_text (r.cjson_decode s) name
    | stream e ↦ some (some [])
    | other ↦ some (some [])
  ]

  json_field-Runs :
      (raw name : Text) (d : Option (Map Text Text)) (o l : Option Item)
      → r.cjson_decode raw ≡ d
      → Runs r key log apart (json_field r name (some raw)) (o, l) (o, l) (json_text d name)
  unfolding json_field
  json_field-Runs raw name none o l e =
      Runs->>=_none r key log apart _ _ (record { at = λ db h k. (e, h, k, λ j p q. refl) })
  json_field-Runs raw name (some t) o l e =
      Runs->>= r key log apart _ _ (record { at = λ db h k. (e, h, k, λ j p q. refl) })
        (Runs-pure r key log apart _ _)

  read_value-Runs :
      (v : Value) (ttl : Option ℕ) (field name : Text) (l : Option Item)
      → let o = item_of v ttl in
        Runs r key log apart
          (read_field r key (type_of o) field name)
          (o, l)
          (o, l)
          (field_text o field name)
  unfolding read_field
  read_value-Runs (hash m) ttl field name l =
      Runs->>= r key log apart _ _ (Runs-hget r key log apart field _)
        (Runs-pure r key log apart _ _)
  read_value-Runs (str s) ttl field name l =
      Runs->>= r key log apart _ _ (Runs-get r key log apart _) (json_field-Runs s name _ _ l refl)
  read_value-Runs (stream e) ttl field name l = Runs-pure r key log apart _ _
  read_value-Runs other ttl field name l = Runs-pure r key log apart _ _

  pub read_field-Runs :
      (o : Option Item) (field name : Text) (l : Option Item)
      → Runs r key log apart
          (read_field r key (type_of o) field name)
          (o, l)
          (o, l)
          (field_text o field name)
  unfolding read_field
  read_field-Runs none field name l = Runs-pure r key log apart _ _
  read_field-Runs (some i) field name l = read_value-Runs i.value i.ttl field name l

  -- A run that starts with the type of the key and one of its texts.
  pub after_read :
      (o l l' : Option Item) (current : Option Text) (field name : Text)
      (f : KeyType → Option Text → Script r (List Reply)) (p : View × Answer)
      → field_text o field name ≡ some current
      → Refines r key log apart (f (type_of o) current) o l p l'
      → Refines r key log apart
          (◌>>=◌ r
            (reads r (r.type_key key))
            (λ key_type. ◌>>=◌ r (read_field r key key_type field name) (f key_type)))
          o
          l
          p
          l'
  after_read o l l' current field name f p e (o', m, v) = (
    o',
    Runs->>= r key log apart _ _ (Runs-type_key r key log apart _)
        (Runs->>= r key log apart _ _ (rw e at (read_field-Runs o field name l)) m),
    v,
  )

  pub after_read_none :
      (o l : Option Item) (field name : Text) (f : KeyType → Option Text → Script r (List Reply))
      → field_text o field name ≡ none
      → Runs r key log apart
          (◌>>=◌ r
            (reads r (r.type_key key))
            (λ key_type. ◌>>=◌ r (read_field r key key_type field name) (f key_type)))
          (o, l)
          (o, l)
          none
  after_read_none o l field name f e =
      Runs->>= r key log apart _ _ (Runs-type_key r key log apart _)
        (Runs->>=_none r key log apart _ _ (rw e at (read_field-Runs o field name l)))

  pub after_field :
      (o l l' : Option Item) (current : Option Text) (field name : Text)
      (f : Option Text → Script r (List Reply)) (p : View × Answer)
      → field_text o field name ≡ some current
      → Refines r key log apart (f current) o l p l'
      → Refines r key log apart (◌>>=◌ r (read_field r key (type_of o) field name) f) o l p l'
  after_field o l l' current field name f p e (o', m, v) =
      (o', Runs->>= r key log apart _ _ (rw e at (read_field-Runs o field name l)) m, v)

  pub after_field_none :
      (o l : Option Item) (field name : Text) (f : Option Text → Script r (List Reply))
      → field_text o field name ≡ none
      → Refines r key log apart
          (◌>>=◌ r (read_field r key (type_of o) field name) f)
          o
          l
          (view r o, failed)
          l
  after_field_none o l field name f e =
      (o, Runs->>=_none r key log apart _ _ (rw e at (read_field-Runs o field name l)), refl)
