-- ===== src/Actor/Registry/Stream/Eviction.antt =====
-- The consumer drops the locations of every actor that moved or was removed.
use ggskit.Actor.Uid.{ActorUid, UidLib, uid_eq}
use ggskit.Redis.{Redis}
use ggskit.Strconv.{format_int}
use ggskit.Strconv.RoundTrip.{parse_int-format_int}
use ggskit.Actor.Uid.RoundTrip.{FitsInt64}
use ggskit.Actor.Registry.Config.{RegistryConfig}
use ggskit.Actor.Registry.Scripts.{StreamArgs, change}
use ggskit.Common.Int.{ℤ, pos, leb_ℤ, ltb_ℤ}
use ggskit.Actor.Registry.Cache.{
  Cache, CacheEntry, ActorLocation, cache_location, calc_local_cache_ttl, get_cached_location, live,
  delete_cached_location,
}
use ggskit.Actor.Registry.Stream.{
  text_field, FieldValue, Message, Read, messages, timed_out, missing_stream, failed, Consumer,
  change_uid, apply_location_change, apply_messages, consume, CacheEvent, reads, stores, drops,
  looks_up, on_event, consume_location_changes, checked_change, stream_int64, stream_string,
}
use ggskit.Common.{
  Map, ◌≡◌, refl, ap, ◌∙◌, inl, inr, none, List, [], ◌∷◌, ◌++◌, Bool-cases, In, ◌==◌, nat_eq,
  text_eq, delete, delete_self, ok, Result-cases, ◌⊎◌, if◌then◌else◌, All, codes, text_beq,
  if_cases, false, not, Text, Option, some,
}

-- One message: the actor it names is dropped, every other one stays.
drops_self :
    (lib : UidLib) (m : Message) (cache : Cache) (uid : ActorUid)
    → change_uid lib m ≡ ok uid
    → (apply_location_change lib m cache).0 uid ≡ none
unfolding apply_location_change delete_cached_location
drops_self lib m cache uid h = rw (apply_location_change, h) (delete_self uid cache)

delete_keeps_none :
    (other uid : ActorUid) (cache : Cache) → cache uid ≡ none → delete other cache uid ≡ none
delete_keeps_none other uid cache h = elim (Bool-cases (other == uid)) [
  | inl same ↦ rw same refl
  | inr new ↦ rw new h
]

apply_keeps_none :
    (lib : UidLib) (m : Message) (cache : Cache) (uid : ActorUid)
    → cache uid ≡ none
    → (apply_location_change lib m cache).0 uid ≡ none
unfolding apply_location_change delete_cached_location
apply_keeps_none lib m cache uid h = elim (Result-cases (change_uid lib m)) [
  | inl (other, e) ↦ rw (apply_location_change, e) (delete_keeps_none other uid cache h)
  | inr (x, e) ↦ rw (apply_location_change, e) h
]

messages_keep_none :
    (lib : UidLib) (ms : List Message) (c : Consumer) (uid : ActorUid)
    → c.cache uid ≡ none
    → (apply_messages lib ms c).cache uid ≡ none
unfolding apply_messages
messages_keep_none lib [] c uid h = h
messages_keep_none lib (m ∷ ms) c uid h =
    messages_keep_none lib ms _ uid (apply_keeps_none lib m c.cache uid h)

messages_drop :
    (lib : UidLib) (ms : List Message) (m : Message) (c : Consumer) (uid : ActorUid)
    → In m ms
    → change_uid lib m ≡ ok uid
    → (apply_messages lib ms c).cache uid ≡ none
unfolding apply_messages
messages_drop lib [] m c uid i h = absurd i
messages_drop lib (x ∷ ms) m c uid (inl e) h =
    messages_keep_none lib ms _ uid
      (drops_self lib x c.cache uid (ap (λ (y : Message). change_uid lib y) e ∙ h))
messages_drop lib (x ∷ ms) m c uid (inr i) h = messages_drop lib ms m _ uid i h

consume_keeps_none :
    (lib : UidLib) (x : Read) (c : Consumer) (uid : ActorUid)
    → c.cache uid ≡ none
    → (consume lib x c).cache uid ≡ none
unfolding consume
consume_keeps_none lib (messages ms) c uid h = messages_keep_none lib ms c uid h
consume_keeps_none lib timed_out c uid h = h
consume_keeps_none lib missing_stream c uid h = h
consume_keeps_none lib failed c uid h = h

-- A location stored for another actor.
cache_keeps_none :
    (cfg : RegistryConfig) (now : ℤ) (other uid : ActorUid) (l : ActorLocation) (cache : Cache)
    → (other == uid) ≡ false
    → cache uid ≡ none
    → cache_location cfg now other l cache uid ≡ none
unfolding cache_location delete_cached_location
cache_keeps_none cfg now other uid l cache new h =
    if_cases (λ (after : Cache). after uid ≡ none) (leb_ℤ (calc_local_cache_ttl cfg l now) (pos 0))
      _ _ (λ e. delete_keeps_none other uid cache h) (λ e. rw new h)

look_keeps_none :
    (now : ℤ) (other uid : ActorUid) (o : Option CacheEntry) (cache : Cache)
    → cache uid ≡ none
    → (live now other o cache).0 uid ≡ none
unfolding live
look_keeps_none now other uid none cache h = h
look_keeps_none now other uid (some entry) cache h =
    if_cases (λ (after : Cache × Option ActorLocation). after.0 uid ≡ none)
      (not (ltb_ℤ now entry.expire_at)) _ _ (λ e. delete_keeps_none other uid cache h) (λ e. h)

-- The event stores no location of the actor.
abbrev pub IsNoStoreOf : ActorUid → CacheEvent → Type 0
IsNoStoreOf uid (stores now other l) = (other == uid) ≡ false
IsNoStoreOf uid (reads x) = Unit
IsNoStoreOf uid (drops other) = Unit
IsNoStoreOf uid (looks_up now other) = Unit

event_keeps_none :
    (lib : UidLib) (cfg : RegistryConfig) (e : CacheEvent) (c : Consumer) (uid : ActorUid)
    → IsNoStoreOf uid e
    → c.cache uid ≡ none
    → (on_event lib cfg e c).cache uid ≡ none
unfolding on_event delete_cached_location get_cached_location
event_keeps_none lib cfg (reads x) c uid n h = consume_keeps_none lib x c uid h
event_keeps_none lib cfg (stores now other l) c uid n h =
    cache_keeps_none cfg now other uid l c.cache n h
event_keeps_none lib cfg (drops other) c uid n h = delete_keeps_none other uid c.cache h
event_keeps_none lib cfg (looks_up now other) c uid n h =
    look_keeps_none now other uid (c.cache other) c.cache h

events_keep_none :
    (lib : UidLib) (cfg : RegistryConfig) (es : List CacheEvent) (c : Consumer) (uid : ActorUid)
    → All (IsNoStoreOf uid) es
    → c.cache uid ≡ none
    → (consume_location_changes lib cfg es c).cache uid ≡ none
unfolding consume_location_changes
events_keep_none lib cfg [] c uid n h = h
events_keep_none lib cfg (e ∷ es) c uid (n, ns) h =
    events_keep_none lib cfg es _ uid ns (event_keeps_none lib cfg e c uid n h)

-- The values of a message, from the fields of its entry.
abbrev pub values_of : List (Text × Text) → Map Text FieldValue
values_of [] field = none
values_of ((name, t) ∷ fields) field =
    let rest = values_of fields field in if name == field then some (text_field t) else rest

-- The message of an entry that a script puts on the stream for an actor, which moved or was removed
-- at a revision; the client gives the script the actor's numbers in decimal.
abbrev pub IsChangeOf : Redis → ActorUid → Message → Type 0
IsChangeOf r uid m =
    (stream : StreamArgs) × (revision : ℤ) × (op : Text) × ((op ≡ codes "upsert")
      ⊎ (op ≡ codes "delete"))
    × (stream.category_text ≡ format_int uid.category)
    × (stream.id_text ≡ format_int uid.id)
    × (m.values ≡ values_of (change r stream revision op))

checked_op :
    (op : Text) (uid : ActorUid)
    → (op ≡ codes "upsert") ⊎ (op ≡ codes "delete")
    → checked_change op uid ≡ ok uid
unfolding text_beq
checked_op op uid (inl e) = rw e refl
checked_op op uid (inr e) = rw e refl

-- A message of an actor names it.
change_uid-IsChangeOf :
    (r : Redis) (lib : UidLib) (uid : ActorUid) (m : Message)
    → FitsInt64 uid
    → lib.to_category uid.category ≡ uid.category
    → lib.to_id uid.id ≡ uid.id
    → IsChangeOf r uid m
    → change_uid lib m ≡ ok uid
unfolding change_uid stream_int64 stream_string text_beq
change_uid-IsChangeOf r lib uid m (c, i) hc hi (stream, revision, op, known, ec, ei, e) =
    rw
      (
        e,
        ec,
        ei,
        parse_int-format_int uid.category c.0 c.1,
        parse_int-format_int uid.id i.0 i.1,
        hc,
        hi,
      )
      (checked_op op uid known)

-- Once the consumer has applied a read with a message that a script announced for an actor, a move
-- or a removal, the actor is not in the cache: whatever reads and calls came before, and whatever
-- came after, failed reads included, as long as no call has stored a location of the actor again.
-- The actor's numbers are `int64` values that the conversions keep.
pub consume_location_changes_evicts :
    (r : Redis) (lib : UidLib) (cfg : RegistryConfig) (before after : List CacheEvent)
    (ms : List Message) (m : Message) (c : Consumer) (uid : ActorUid)
    → FitsInt64 uid
    → lib.to_category uid.category ≡ uid.category
    → lib.to_id uid.id ≡ uid.id
    → In m ms
    → IsChangeOf r uid m
    → All (IsNoStoreOf uid) after
    → (consume_location_changes lib cfg (before ++ reads (messages ms) ∷ after) c).cache uid ≡ none
unfolding consume_location_changes on_event consume
consume_location_changes_evicts r lib cfg [] after ms m c uid f hc hi i h n =
    events_keep_none lib cfg after _ uid n
      (messages_drop lib ms m c uid i (change_uid-IsChangeOf r lib uid m f hc hi h))
consume_location_changes_evicts r lib cfg (x ∷ before) after ms m c uid f hc hi i h n =
    consume_location_changes_evicts r lib cfg before after ms m _ uid f hc hi i h n
