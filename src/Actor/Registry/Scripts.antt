-- ===== src/Actor/Registry/Scripts.antt =====
-- The five Lua scripts of infra/actor/registry.go, over a server that is a parameter.
pub mod Reading
pub mod Register
pub mod TakeOver
pub mod Ownership
pub mod KeepAlive
pub mod Unregister
pub mod Lookup
pub mod Promises
use ggskit.Common.{
  zero, suc, ◌+◌, ◌/◌, Bool, true, false, not, ◌||◌, Option, none, some, List, [], ◌∷◌,
  if◌then◌else◌, Text, codes, ◌==◌, nat_eq, text_eq, Map,
}
use ggskit.Common.Int.{ℤ, pos, negsuc, ◌+ℤ◌}
use ggskit.Redis.{Redis, KeyType, none_type, hash_type, string_type, other_type}

-- A value of a script's reply.
pub data Reply : Type 0 where
  int : ℤ → Reply
  bulk : Text → Reply

-- The stream of location changes, its MAXLEN, and the actor's numbers as the script is given them.
pub record StreamArgs : Type 0 where
  pub stream_key : Text
  pub max_len : ℤ
  pub category_text : Text
  pub id_text : Text

-- `x or ""`.
abbrev pub or_empty : Option Text → Text
or_empty none = []
or_empty (some t) = t

-- `tonumber(x) or 0`.
abbrev pub or_zero : Option ℤ → ℤ
or_zero none = pos 0
or_zero (some z) = z

abbrev pub is_string : KeyType → Bool
is_string string_type = true
is_string none_type = false
is_string hash_type = false
is_string other_type = false

abbrev pub is_hash : KeyType → Bool
is_hash hash_type = true
is_hash none_type = false
is_hash string_type = false
is_hash other_type = false

abbrev pub is_none : KeyType → Bool
is_none none_type = true
is_none hash_type = false
is_none string_type = false
is_none other_type = false

-- `math.floor((ttl + 999) / 1000)` where `ttl` is positive.
abbrev pub seconds_of : ℤ → ℤ → ℤ
seconds_of (pos zero) default = default
seconds_of (pos (suc ms)) default = pos ((suc ms + 999) / 1000)
seconds_of (negsuc n) default = default

module _ (r : Redis) where
  open r use {
    Db, type_key, get, hget, pttl, hset, hincrby, xadd, expire, persist, del, tonumber, number_text,
    cjson_decode,
  }

  -- A script that is aborted by an error, `none`, keeps the writes made so far.
  abbrev pub Script {ℓ} : Type ℓ → Type ℓ
  Script A = Db → Db × Option A

  infixl 5 ◌>>=◌ ◌>>◌
  unfoldable pub ◌>>=◌ : {A B : Type 0} → Script A → (A → Script B) → Script B
  ◌>>=◌ m f db = elim (m db).1 [ none ↦ ((m db).0, none) | some a ↦ f a (m db).0 ]

  abbrev pub ◌>>◌ : {A B : Type 0} → Script A → Script B → Script B
  m >> k = m >>= λ _. k

  abbrev pub pure : {A : Type 0} → A → Script A
  pure a db = (db, some a)

  -- A command that only reads.
  abbrev pub reads : {A : Type 0} → (Db → A) → Script A
  reads f db = (db, some (f db))

  -- A command that cannot fail.
  abbrev pub writes : (Db → Db) → Script (Unit {0})
  writes f db = (f db, some tt)

  -- A command whose error ends the script.
  abbrev pub tries : (Db → Db × Bool) → Script (Unit {0})
  tries f db = ((f db).0, if (f db).1 then some tt else none)

  -- `cjson.decode(raw)`, which fails on text that is no JSON.
  abbrev pub decode : Text → Script (Map Text Text)
  decode raw db = (db, cjson_decode raw)

  -- `tonumber(x)` where the result is added to, an error on `nil`.
  abbrev pub number : Text → Script ℤ
  number t db = (db, tonumber t)

  abbrev pub when : Bool → Script (Unit {0}) → Script (Unit {0})
  when b m = if b then m else pure tt

  -- The tail of a script that writes the registration: EXPIRE for a positive time, else PERSIST.
  abbrev pub set_expiry : Text → ℤ → Script ℤ
  set_expiry key (pos zero) = do writes (persist key); pure (pos 0)
  set_expiry key (pos (suc n)) = do tries (expire key (pos (suc n))); pure (pos (suc n))
  set_expiry key (negsuc n) = do writes (persist key); pure (pos 0)

  -- The entry of XADD, and the command.
  abbrev pub change : StreamArgs → ℤ → Text → List (Text × Text)
  change stream revision op =
      (codes "category", stream.category_text)
      ∷ (codes "id", stream.id_text)
      ∷ (codes "revision", number_text revision)
      ∷ (codes "op", op)
      ∷ []

  abbrev pub publish : StreamArgs → ℤ → Text → Script (Unit {0})
  publish stream revision op =
      tries (xadd stream.stream_key stream.max_len (change stream revision op))

  -- `HSET key node_id … lease_id …`, after a DEL of the older JSON text.
  pub write_owner : Text → KeyType → Text → Text → Script (Unit {0})
  write_owner key key_type node lease = do
    when (is_string key_type) (writes (del key))
    tries (hset key ((codes "node_id", node) ∷ (codes "lease_id", lease) ∷ []))

  -- One text of the registration, by the type of its key: a field of the hash, or of the older JSON
  -- text. `none` where the text is gone.
  pub json_field : Text → Option Text → Script (Option Text)
  json_field name none = pure none
  json_field name (some raw) = do reg ← decode raw; pure (some (or_empty (reg name)))

  pub read_field : Text → KeyType → Text → Text → Script (Option Text)
  unfolding json_field
  read_field key none_type field name = pure (some [])
  read_field key hash_type field name = do
    value ← reads (hget key field)
    pure (some (or_empty value))
  read_field key string_type field name = do raw ← reads (get key); json_field name raw
  read_field key other_type field name = pure (some [])

  pub register_write : Text → KeyType → Text → Text → Text → Script (List Reply)
  unfolding write_owner
  register_write key key_type node lease ttl_text = do
    write_owner key key_type node lease
    ttl ← set_expiry key (or_zero (tonumber ttl_text))
    pure (int (pos 0) ∷ bulk node ∷ int ttl ∷ [])

  pub register_refuse : Text → Text → Script (List Reply)
  register_refuse key current = do
    ttl ← reads (pttl key)
    pure (int (pos 2) ∷ bulk current ∷ int (seconds_of ttl ttl) ∷ [])

  pub register_check : Text → KeyType → Text → Text → Text → Text → Script (List Reply)
  unfolding register_write register_refuse
  register_check key key_type current node lease ttl_text =
      if current == [] || current == node
      then register_write key key_type node lease ttl_text
      else register_refuse key current

  -- `registerActorScript`.
  pub register_actor_script : Text → Text → Text → Text → Script (List Reply)
  unfolding read_field register_check
  register_actor_script key node lease ttl_text = do
    key_type ← reads (type_key key)
    current ← read_field key key_type (codes "node_id") (codes "NodeId")
    register_check key key_type (or_empty current) node lease ttl_text

  pub take_over_write : Text → KeyType → Text → Text → Text → StreamArgs → Script (List Reply)
  unfolding write_owner
  take_over_write key key_type node lease ttl_text stream = do
    write_owner key key_type node lease
    revision ← hincrby key (codes "revision") (pos 1)
    publish stream revision (codes "upsert")
    ttl ← set_expiry key (or_zero (tonumber ttl_text))
    pure (int (pos 0) ∷ bulk node ∷ int ttl ∷ [])

  pub take_over_check :
      Text → KeyType → Option Text → Text → Text → Text → Text → StreamArgs → Script (List Reply)
  unfolding take_over_write
  take_over_check key key_type none node lease source ttl_text stream = pure (int (pos 1) ∷ [])
  take_over_check key key_type (some current) node lease source ttl_text stream =
      if current == source
      then take_over_write key key_type node lease ttl_text stream
      else pure (int (pos 3) ∷ [])

  -- `takeOverActorScript`.
  pub take_over_actor_script : Text → Text → Text → Text → Text → StreamArgs → Script (List Reply)
  unfolding read_field take_over_check
  take_over_actor_script key node lease source ttl_text stream = do
    key_type ← reads (type_key key)
    if is_none key_type then pure (int (pos 1) ∷ []) else do
      current ← read_field key key_type (codes "lease_id") (codes "LeaseId")
      take_over_check key key_type current node lease source ttl_text stream

  -- The node and the lease together; `none` where the JSON text is gone.
  pub json_owner : Option Text → Script (Option (Text × Text))
  json_owner none = pure none
  json_owner (some raw) = do
    reg ← decode raw
    pure (some (or_empty (reg (codes "NodeId")), or_empty (reg (codes "LeaseId"))))

  pub read_owner : Text → KeyType → Script (Option (Text × Text))
  unfolding json_owner
  read_owner key none_type = pure (some ([], []))
  read_owner key hash_type = do
    node ← reads (hget key (codes "node_id"))
    lease ← reads (hget key (codes "lease_id"))
    pure (some (or_empty node, or_empty lease))
  read_owner key string_type = do raw ← reads (get key); json_owner raw
  read_owner key other_type = pure (some ([], []))

  -- `tonumber(redis.call("HGET", …) or "0") + 1`, an error where the text is no number.
  pub next_revision : Text → KeyType → Script ℤ
  next_revision key key_type =
      if is_hash key_type
      then (do
        text ← reads (hget key (codes "revision"))
        revision ← number (elim text [ none ↦ codes "0" | some t ↦ t ])
        pure (revision +ℤ pos 1))
      else pure (pos 1)

  pub unregister_write : Text → KeyType → StreamArgs → Script (List Reply)
  unfolding next_revision
  unregister_write key key_type stream = do
    revision ← next_revision key key_type
    publish stream revision (codes "delete")
    writes (del key)
    pure (int (pos 0) ∷ [])

  -- Runs `m` for the owner, and replies 1 for a missing and 3 for another registration.
  pub as_owner : Option (Text × Text) → Text → Text → Script (List Reply) → Script (List Reply)
  as_owner none node lease m = pure (int (pos 1) ∷ [])
  as_owner (some (current_node, current_lease)) node lease m =
      if not (current_node == node) || not (current_lease == lease)
      then pure (int (pos 3) ∷ [])
      else m

  -- `unregisterActorScript`.
  pub unregister_actor_script : Text → Text → Text → StreamArgs → Script (List Reply)
  unfolding read_owner as_owner unregister_write
  unregister_actor_script key node lease stream = do
    key_type ← reads (type_key key)
    if is_none key_type then pure (int (pos 1) ∷ []) else do
      owner ← read_owner key key_type
      as_owner owner node lease (unregister_write key key_type stream)

  pub refresh : Text → Text → Script (List Reply)
  refresh key ttl_text = do set_expiry key (or_zero (tonumber ttl_text)); pure (int (pos 0) ∷ [])

  -- `keepAliveActorScript`.
  pub keep_alive_actor_script : Text → Text → Text → Text → Script (List Reply)
  unfolding read_owner as_owner refresh
  keep_alive_actor_script key node lease ttl_text = do
    key_type ← reads (type_key key)
    if is_none key_type
        then pure (int (pos 1) ∷ [])
        else do owner ← read_owner key key_type; as_owner owner node lease (refresh key ttl_text)

  pub describe : Text → Text → Script (List Reply)
  describe key node = if node == [] then pure (int (pos 1) ∷ []) else do
    ttl ← reads (pttl key)
    pure (int (pos 0) ∷ bulk node ∷ int (seconds_of ttl (pos 0)) ∷ [])

  -- `getActorRegScript`.
  pub get_actor_reg_script : Text → Script (List Reply)
  unfolding read_field describe
  get_actor_reg_script key = do
    key_type ← reads (type_key key)
    node ← read_field key key_type (codes "node_id") (codes "NodeId")
    describe key (or_empty node)
