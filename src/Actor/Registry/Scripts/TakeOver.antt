-- ===== src/Actor/Registry/Scripts/TakeOver.antt =====
-- `takeOverActorScript` keeps its promise on every branch.
use ggskit.Common.{
  ℕ, ◌≡◌, refl, sym, ap, ◌∙◌, ◌≢◌, inl, inr, true, Option, none, some, [], if◌then◌else◌,
  Bool-cases, Text, codes, ◌==◌, nat_eq, text_eq, text_beq, ==_ne, Map,
}
use ggskit.Common.Int.{ℤ, pos}
use ggskit.Redis.{
  Redis, Item, Value, hash, str, stream, other, item_of, type_of, takes_entries, add_entry, set_ttl,
  set_increment, increment, increment_of,
}
use ggskit.Actor.Registry.Scripts.{
  or_empty, take_over_actor_script, take_over_check, take_over_write, StreamArgs, change,
}
use ggskit.Actor.Registry.Runs.{
  Runs, Runs-pure, Runs->>=, Runs-hincrby, Runs-publish, Runs-set_expiry, expiry, granted_ttl,
}
use ggskit.Actor.Registry.View.{
  failed, View, vacant, unreadable, foreign, held, view, json_view, missing, granted, owned,
  mismatch, take_over_spec,
}
use ggskit.Actor.Registry.Scripts.Reading.{after_field_none, Refines, after_field, json_text}
use ggskit.Actor.Registry.Scripts.Register.{registered, is_writable, owner_item, write_owner-Runs}
use ggskit.Actor.Registry.Scripts.Ownership.{after_type}

module _ (r : Redis) (key log : Text) (apart : key ≢ log) where
  -- The count that HINCRBY leaves on the key; `none` where the field is no integer or overflows.
  abbrev pub count_of : Option Item → Option ℤ
  count_of none = increment none (pos 1)
  count_of (some i) = elim i.value [
    | hash m ↦ increment (m (codes "revision")) (pos 1)
    | _ ↦ increment none (pos 1)
  ]

  -- The item that a take-over leaves.
  abbrev pub taken_item : Option Item → Text → Text → ℤ → ℤ → Option Item
  taken_item o node lease n ttl =
      set_ttl (expiry ttl)
        (set_increment (codes "revision") (some n) (owner_item r key log apart o node lease))

  increment-owner_item :
      (v : Value) (t : Option ℕ) (node lease : Text)
      → is_writable r key log apart (item_of v t) ≡ true
      → increment_of
          (owner_item r key log apart (item_of v t) node lease)
          (codes "revision")
          (pos 1)
        ≡ count_of (item_of v t)
  unfolding text_beq
  increment-owner_item (hash m) t node lease w = refl
  increment-owner_item (str s) t node lease w = refl
  increment-owner_item (stream es) t node lease w = cc
  increment-owner_item other t node lease w = cc

  -- HINCRBY after the owner is written.
  counted :
      (v : Value) (t : Option ℕ) (l : Option Item) (node lease : Text) (n : ℤ)
      → is_writable r key log apart (item_of v t) ≡ true
      → count_of (item_of v t) ≡ some n
      → Runs r key log apart
          (r.hincrby key (codes "revision") (pos 1))
          (owner_item r key log apart (item_of v t) node lease, l)
          (
            set_increment
                (codes "revision")
                (some n)
                (owner_item r key log apart (item_of v t) node lease),
            l,
          )
          (some n)
  counted v t l node lease n w e =
      let sum = increment-owner_item v t node lease w ∙ e in
      rw sum at (
        Runs-hincrby r key log apart (codes "revision") (pos 1)
          (owner_item r key log apart (item_of v t) node lease, l))

  view-taken_item :
      (v : Value) (t : Option ℕ) (node lease : Text) (n ttl : ℤ)
      → view r (taken_item (item_of v t) node lease n ttl) ≡ owned node lease ttl
  unfolding text_beq
  view-taken_item (hash m) t node lease n ttl = refl
  view-taken_item _ t node lease n ttl = refl

  module _ (args : StreamArgs) (to_log : args.stream_key ≡ log) where
    -- The stream after the take-over is announced.
    abbrev pub upsert : ℤ → Option Item → Option Item
    upsert n l = add_entry (change r args n (codes "upsert")) l

    take_over_write-Refines :
        (v : Value) (t : Option ℕ) (l : Option Item) (node lease ttl_text : Text) (ttl n : ℤ)
        → is_writable r key log apart (item_of v t) ≡ true
        → count_of (item_of v t) ≡ some n
        → takes_entries l ≡ true
        → r.tonumber ttl_text ≡ some ttl
        → r.expire_fits ttl ≡ true
        → Refines r key log apart
            (take_over_write r key (type_of (item_of v t)) node lease ttl_text args)
            (item_of v t)
            l
            (owned node lease ttl, granted node (granted_ttl ttl))
            (upsert n l)
    unfolding take_over_write
    take_over_write-Refines v t l node lease ttl_text ttl n w e c et ef = (
      taken_item (item_of v t) node lease n ttl,
      Runs->>= r key log apart _ _ (write_owner-Runs r key log apart (item_of v t) l node lease w) (
          Runs->>= r key log apart _ _ (counted v t l node lease n w e) (
            Runs->>= r key log apart _ _
              (Runs-publish r key log apart args n (codes "upsert") _ to_log c)
              (rw et (
                Runs->>= r key log apart _ _ (Runs-set_expiry r key log apart ttl _ ef)
                  (Runs-pure r key log apart _ _))))),
      view-taken_item v t node lease n ttl,
    )

    -- The change stream after a call: an entry where the registration moved.
    abbrev pub log_after_take_over : View → Text → ℤ → Option Item → Option Item
    log_after_take_over vacant source n l = l
    log_after_take_over unreadable source n l = l
    log_after_take_over foreign source n l = l
    log_after_take_over (held g) source n l = if g.lease == source then upsert n l else l

    take_over_check-Refines :
        (v : Value) (t : Option ℕ) (g : Text × Text) (l : Option Item)
        (node lease source ttl_text : Text) (ttl n : ℤ)
        → view r (item_of v t) ≡ registered g t
        → is_writable r key log apart (item_of v t) ≡ true
        → count_of (item_of v t) ≡ some n
        → takes_entries l ≡ true
        → r.tonumber ttl_text ≡ some ttl
        → r.expire_fits ttl ≡ true
        → Refines r key log apart
            (take_over_check r key
              (type_of (item_of v t))
              (some g.1)
              node
              lease
              source
              ttl_text
              args)
            (item_of v t)
            l
            (take_over_spec (registered g t) node lease source ttl)
            (log_after_take_over (registered g t) source n l)
    unfolding take_over_check
    take_over_check-Refines v t g l node lease source ttl_text ttl n vg w e c et ef =
        elim (Bool-cases (g.1 == source)) [
          | inl holder ↦
              rw holder (take_over_write-Refines v t l node lease ttl_text ttl n w e c et ef)
          | inr stale ↦ rw stale (item_of v t, Runs-pure r key log apart _ _, vg)
        ]

    take_over_json :
        (s : Text) (t : Option ℕ) (l : Option Item) (node lease source ttl_text : Text) (ttl n : ℤ)
        (d : Option (Map Text Text))
        → r.cjson_decode s ≡ d
        → count_of (item_of (str s) t) ≡ some n
        → takes_entries l ≡ true
        → r.tonumber ttl_text ≡ some ttl
        → r.expire_fits ttl ≡ true
        → Refines r key log apart
            (take_over_actor_script r key node lease source ttl_text args)
            (item_of (str s) t)
            l
            (take_over_spec (json_view d t) node lease source ttl)
            (log_after_take_over (json_view d t) source n l)
    unfolding take_over_actor_script
    take_over_json s t l node lease source ttl_text ttl n none ed e c et ef =
        let (o, m, v) =
          after_type r key log apart _ l l _ (json_view (r.cjson_decode s) t, failed)
            (after_field_none r key log apart (item_of (str s) t) l (codes "lease_id")
              (codes "LeaseId") _
              (ap (λ (d : Option (Map Text Text)). json_text r key log apart d (codes "LeaseId"))
                ed)) in
        (o, m, v ∙ ap (λ (d : Option (Map Text Text)). json_view d t) ed)
    take_over_json s t l node lease source ttl_text ttl n (some m) ed e c et ef =
        after_type r key log apart _ l _ _ _ (
          after_field r key log apart _ l _ _ (codes "lease_id") (codes "LeaseId") _ _
            (ap (λ (d : Option (Map Text Text)). json_text r key log apart d (codes "LeaseId")) ed)
            (take_over_check-Refines (str s) t
              (or_empty (m (codes "NodeId")), or_empty (m (codes "LeaseId"))) l node lease source
              ttl_text ttl n (ap (λ (d : Option (Map Text Text)). json_view d t) ed) refl e c et
              ef))

    take_over_foreign :
        (v : Value) (t : Option ℕ) (l : Option Item) (node lease source ttl_text : Text)
        → source ≢ []
        → view r (item_of v t) ≡ foreign
        → Refines r key log apart
            (take_over_check r key
              (type_of (item_of v t))
              (some [])
              node
              lease
              source
              ttl_text
              args)
            (item_of v t)
            l
            (foreign, mismatch)
            l
    unfolding take_over_check
    take_over_foreign v t l node lease source ttl_text h vf =
        rw (==_ne [] source (λ p. h (sym p))) (item_of v t, Runs-pure r key log apart _ _, vf)

    take_over_value :
        (v : Value) (t : Option ℕ) (l : Option Item) (node lease source ttl_text : Text) (ttl n : ℤ)
        → source ≢ []
        → count_of (item_of v t) ≡ some n
        → takes_entries l ≡ true
        → r.tonumber ttl_text ≡ some ttl
        → r.expire_fits ttl ≡ true
        → Refines r key log apart
            (take_over_actor_script r key node lease source ttl_text args)
            (item_of v t)
            l
            (take_over_spec (view r (item_of v t)) node lease source ttl)
            (log_after_take_over (view r (item_of v t)) source n l)
    unfolding take_over_actor_script
    take_over_value (hash m) t l node lease source ttl_text ttl n h e c et ef =
        after_type r key log apart _ l _ _ _ (
          after_field r key log apart _ l _ _ (codes "lease_id") (codes "LeaseId") _ _ refl (
            take_over_check-Refines (hash m) t
              (or_empty (m (codes "node_id")), or_empty (m (codes "lease_id"))) l node lease source
              ttl_text ttl n refl refl e c et ef))
    take_over_value (str s) t l node lease source ttl_text ttl n h e c et ef =
        take_over_json s t l node lease source ttl_text ttl n (r.cjson_decode s) refl e c et ef
    take_over_value (stream es) t l node lease source ttl_text ttl n h e c et ef =
        after_type r key log apart _ l l _ (foreign, mismatch)
          (after_field r key log apart _ l l _ (codes "lease_id") (codes "LeaseId") _
            (foreign, mismatch) refl
            (take_over_foreign (stream es) t l node lease source ttl_text h refl))
    take_over_value other t l node lease source ttl_text ttl n h e c et ef =
        after_type r key log apart _ l l _ (foreign, mismatch)
          (after_field r key log apart _ l l _ (codes "lease_id") (codes "LeaseId") _
            (foreign, mismatch) refl
            (take_over_foreign other t l node lease source ttl_text h refl))

    -- On every item of the key whose revision can be counted: the holder of the source lease gives
    -- way and the move is announced; with any other lease nothing changes.
    pub take_over_actor_script-Refines :
        (o l : Option Item) (node lease source ttl_text : Text) (ttl n : ℤ)
        → source ≢ []
        → count_of o ≡ some n
        → takes_entries l ≡ true
        → r.tonumber ttl_text ≡ some ttl
        → r.expire_fits ttl ≡ true
        → Refines r key log apart
            (take_over_actor_script r key node lease source ttl_text args)
            o
            l
            (take_over_spec (view r o) node lease source ttl)
            (log_after_take_over (view r o) source n l)
    unfolding take_over_actor_script
    take_over_actor_script-Refines none l node lease source ttl_text ttl n h e c et ef =
        after_type r key log apart none l l _ (vacant, missing)
          (none, Runs-pure r key log apart _ _, refl)
    take_over_actor_script-Refines (some i) l node lease source ttl_text ttl n h e c et ef =
        take_over_value i.value i.ttl l node lease source ttl_text ttl n h e c et ef
