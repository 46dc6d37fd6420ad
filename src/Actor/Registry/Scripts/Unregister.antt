-- ===== src/Actor/Registry/Scripts/Unregister.antt =====
-- `unregisterActorScript` keeps its promise on every branch.
use mathlib.Core.Option.{some-injective}
use ggskit.Common.{
  subst, ℕ, ◌≡◌, refl, ap, ◌∙◌, ◌≢◌, true, Option, none, some, [], if◌then◌else◌, Text, codes,
  nat_eq, text_eq, Map,
}
use ggskit.Common.Int.{ℤ, pos, ◌+ℤ◌}
use ggskit.Redis.{
  Redis, Item, Value, hash, str, stream, other, item_of, type_of, takes_entries, add_entry,
}
use ggskit.Actor.Registry.Scripts.{
  pure, number, or_empty, unregister_write, next_revision, unregister_actor_script, StreamArgs,
  change,
}
use ggskit.Actor.Registry.Runs.{Runs, Runs-pure, Runs->>=, Runs-hget, Runs-del, Runs-publish}
use ggskit.Actor.Registry.View.{
  View, vacant, unreadable, foreign, held, view, json_view, missing, mismatch, done, failed,
  is_owner, unregister_spec,
}
use ggskit.Actor.Registry.Scripts.Reading.{Refines}
use ggskit.Actor.Registry.Scripts.Register.{is_writable}
use ggskit.Actor.Registry.Scripts.Ownership.{
  json_pair, as_owner-Refines, after_owner, after_owner_none, after_type, as_owner_foreign,
}

module _ (r : Redis) (key log : Text) (apart : key ≢ log) where
  -- The revision that the key has counted to; `none` where the field is no number.
  abbrev pub revision_of : Option Item → Option ℤ
  revision_of none = some (pos 0)
  revision_of (some i) = elim i.value [
    | hash m ↦ r.tonumber (elim (m (codes "revision")) [ none ↦ codes "0" | some t ↦ t ])
    | _ ↦ some (pos 0)
  ]

  number-Runs :
      (t : Text) (n : ℤ) (s : Option Item × Option Item)
      → r.tonumber t ≡ some n
      → Runs r key log apart (number r t) s s (some n)
  number-Runs t n s e = record { at = λ db h k. (e, h, k, λ j p q. refl) }

  next_revision-Runs :
      (v : Value) (t : Option ℕ) (l : Option Item) (n : ℤ)
      → is_writable r key log apart (item_of v t) ≡ true
      → revision_of (item_of v t) ≡ some n
      → Runs r key log apart
          (next_revision r key (type_of (item_of v t)))
          (item_of v t, l)
          (item_of v t, l)
          (some (n +ℤ pos 1))
  unfolding next_revision ◌+ℤ◌
  next_revision-Runs (hash m) t l n w e =
      Runs->>= r key log apart _ _ (Runs-hget r key log apart (codes "revision") _)
        (Runs->>= r key log apart _ _ (number-Runs _ n _ e) (Runs-pure r key log apart _ _))
  next_revision-Runs (str s) t l n w e =
      subst
        (λ z.
          Runs r key log apart (pure r (pos 1)) (item_of (str s) t, l) (item_of (str s) t, l)
            (some (z +ℤ pos 1)))
        (some-injective (pos 0) n e) (Runs-pure r key log apart (pos 1) _)
  next_revision-Runs (stream es) t l n w e = cc
  next_revision-Runs other t l n w e = cc

  module _ (args : StreamArgs) (to_log : args.stream_key ≡ log) where
    -- The stream after the deletion is announced.
    abbrev pub deletion : ℤ → Option Item → Option Item
    deletion n l = add_entry (change r args (n +ℤ pos 1) (codes "delete")) l

    unregister_write-Refines :
        (v : Value) (t : Option ℕ) (l : Option Item) (n : ℤ)
        → is_writable r key log apart (item_of v t) ≡ true
        → revision_of (item_of v t) ≡ some n
        → takes_entries l ≡ true
        → Refines r key log apart
            (unregister_write r key (type_of (item_of v t)) args)
            (item_of v t)
            l
            (vacant, done)
            (deletion n l)
    unfolding unregister_write
    unregister_write-Refines v t l n w e c = (
      none,
      Runs->>= r key log apart _ _ (next_revision-Runs v t l n w e) (
          Runs->>= r key log apart _ _
            (Runs-publish r key log apart args (n +ℤ pos 1) (codes "delete") _ to_log c)
            (Runs->>= r key log apart _ _ (Runs-del r key log apart _)
              (Runs-pure r key log apart _ _))),
      refl,
    )

    -- The change stream after a call: an entry where the registration went.
    abbrev pub log_after_unregister : View → Text → Text → ℤ → Option Item → Option Item
    log_after_unregister vacant node lease n l = l
    log_after_unregister unreadable node lease n l = l
    log_after_unregister foreign node lease n l = l
    log_after_unregister (held g) node lease n l = if is_owner g node lease then deletion n l else l

    unregister_json :
        (s : Text) (t : Option ℕ) (l : Option Item) (node lease : Text) (n : ℤ)
        (d : Option (Map Text Text))
        → r.cjson_decode s ≡ d
        → revision_of (item_of (str s) t) ≡ some n
        → takes_entries l ≡ true
        → Refines r key log apart
            (unregister_actor_script r key node lease args)
            (item_of (str s) t)
            l
            (unregister_spec (json_view d t) node lease)
            (log_after_unregister (json_view d t) node lease n l)
    unfolding unregister_actor_script
    unregister_json s t l node lease n none ed e c =
        let (o, m, v) =
          after_type r key log apart _ l l _ (json_view (r.cjson_decode s) t, failed)
            (after_owner_none r key log apart (str s) t l _ (ap (json_pair r key log apart) ed)) in
        (o, m, v ∙ ap (λ (d : Option (Map Text Text)). json_view d t) ed)
    unregister_json s t l node lease n (some m) ed e c = after_type r key log apart _ l _ _ _ (
        after_owner r key log apart (str s) t l _ _ _ _ (ap (json_pair r key log apart) ed) (
          as_owner-Refines r key log apart
            (or_empty (m (codes "NodeId")), or_empty (m (codes "LeaseId"))) _ l _ t node lease _ _
            (ap (λ (d : Option (Map Text Text)). json_view d t) ed)
            (unregister_write-Refines (str s) t l n refl e c)))

    unregister_value :
        (v : Value) (t : Option ℕ) (l : Option Item) (node lease : Text) (n : ℤ)
        → node ≢ []
        → revision_of (item_of v t) ≡ some n
        → takes_entries l ≡ true
        → Refines r key log apart
            (unregister_actor_script r key node lease args)
            (item_of v t)
            l
            (unregister_spec (view r (item_of v t)) node lease)
            (log_after_unregister (view r (item_of v t)) node lease n l)
    unfolding unregister_actor_script
    unregister_value (hash m) t l node lease n h e c = after_type r key log apart _ l _ _ _ (
        after_owner r key log apart (hash m) t l _ _ _ _ refl (
          as_owner-Refines r key log apart
            (or_empty (m (codes "node_id")), or_empty (m (codes "lease_id"))) _ l _ t node lease _ _
            refl (unregister_write-Refines (hash m) t l n refl e c)))
    unregister_value (str s) t l node lease n h e c =
        unregister_json s t l node lease n (r.cjson_decode s) refl e c
    unregister_value (stream es) t l node lease n h e c =
        after_type r key log apart _ l l _ (foreign, mismatch)
          (after_owner r key log apart (stream es) t l l _ _ (foreign, mismatch) refl
            (as_owner_foreign r key log apart _ l l node lease _ foreign h refl))
    unregister_value other t l node lease n h e c =
        after_type r key log apart _ l l _ (foreign, mismatch)
          (after_owner r key log apart other t l l _ _ (foreign, mismatch) refl
            (as_owner_foreign r key log apart _ l l node lease _ foreign h refl))

    -- On every item of the key whose revision is a number: the owner's registration goes and the
    -- deletion is announced; anybody else is refused, and nothing changes.
    pub unregister_actor_script-Refines :
        (o l : Option Item) (node lease : Text) (n : ℤ)
        → node ≢ []
        → revision_of o ≡ some n
        → takes_entries l ≡ true
        → Refines r key log apart
            (unregister_actor_script r key node lease args)
            o
            l
            (unregister_spec (view r o) node lease)
            (log_after_unregister (view r o) node lease n l)
    unfolding unregister_actor_script
    unregister_actor_script-Refines none l node lease n h e c =
        after_type r key log apart none l l _ (vacant, missing)
          (none, Runs-pure r key log apart _ _, refl)
    unregister_actor_script-Refines (some i) l node lease n h e c =
        unregister_value i.value i.ttl l node lease n h e c
