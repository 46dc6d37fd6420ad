-- ===== src/Actor/Registry/Stream.antt =====
-- The consumer of the change stream: infra/actor/registry.go.
pub mod Eviction
use ggskit.Strconv.{parse_int}
use ggskit.Actor.Uid.{ActorUid, UidLib, uid_eq}
use ggskit.Actor.Registry.Config.{RegistryConfig}
use ggskit.Actor.Registry.Cache.{
  ActorLocation, Cache, delete_cached_location, cache_location, get_cached_location,
}
use ggskit.Common.Int.{ℤ}
use ggskit.Common.{
  [], not, ◌&&◌, Option, none, some, List, ◌∷◌, if◌then◌else◌, Text, codes, ◌==◌, Map, Result, ok,
  err, map_err, nat_eq, text_eq, ◌>>=◌, ◌>>◌,
}

-- A field of a message; the client gives texts.
pub data FieldValue : Type 0 where
  text_field : Text → FieldValue
  other_field : FieldValue

pub data ChangeError : Type 0 where
  field_missing field_type field_number unknown_operation : ChangeError

-- `redis.XMessage`.
pub record Message : Type 0 where
  pub id : Text
  pub values : Map Text FieldValue

-- `streamString`.
unfoldable pub stream_string : Map Text FieldValue → Text → Result ChangeError Text
stream_string values key = elim (values key) [
  | none ↦ err field_missing
  | some (text_field t) ↦ ok t
  | some other_field ↦ err field_type
]

-- `streamInt64`.
unfoldable pub stream_int64 : Map Text FieldValue → Text → Result ChangeError ℤ
stream_int64 values key = do
  text ← stream_string values key
  map_err (λ e. field_number) (parse_int text)

abbrev checked_change : Text → ActorUid → Result ChangeError ActorUid
checked_change op uid =
    if not (op == codes "upsert") && not (op == codes "delete")
    then err unknown_operation
    else ok uid

-- The actor that a message names.
unfoldable pub change_uid : UidLib → Message → Result ChangeError ActorUid
change_uid lib message = do
  category ← stream_int64 message.values (codes "category")
  id ← stream_int64 message.values (codes "id")
  op ← stream_string message.values (codes "op")
  checked_change op (record { category = lib.to_category category; id = lib.to_id id })

-- `applyLocationChange`.
unfoldable pub apply_location_change : UidLib → Message → Cache → Cache × Option ChangeError
apply_location_change lib message cache = elim (change_uid lib message) [
  | err e ↦ (cache, some e)
  | ok uid ↦ (delete_cached_location uid cache, none)
]

-- The state of the loop: the position of the next read and the cache.
pub record Consumer : Type 0 where
  pub last_id : Text
  pub cache : Cache

-- What a read returns: messages, nothing before the timeout, an error for a stream that is not
-- there, another error.
pub data Read : Type 0 where
  messages : List Message → Read
  timed_out missing_stream failed : Read

unfoldable pub apply_messages : UidLib → List Message → Consumer → Consumer
apply_messages lib [] c = c
apply_messages lib (m ∷ ms) c =
    apply_messages lib ms
      (record { last_id = m.id; cache = (apply_location_change lib m c.cache).0 })

-- A turn of the loop.
unfoldable pub consume : UidLib → Read → Consumer → Consumer
consume lib (messages ms) c = apply_messages lib ms c
consume lib timed_out c = c
consume lib missing_stream c = record c { last_id = codes "0-0" }
consume lib failed c = c

abbrev pub consumer_start : Cache → Consumer
consumer_start cache = record { last_id = codes "$"; cache = cache }

-- What happens to the consumer and to the cache that the calls of the registry share with it: a
-- read is applied, or a call stores, drops or looks up a location, at a time. A read between whose
-- messages calls come is several reads.
pub data CacheEvent : Type 0 where
  reads : Read → CacheEvent
  stores : ℤ → ActorUid → ActorLocation → CacheEvent
  drops : ActorUid → CacheEvent
  looks_up : ℤ → ActorUid → CacheEvent

unfoldable pub on_event : UidLib → RegistryConfig → CacheEvent → Consumer → Consumer
on_event lib cfg (reads x) c = consume lib x c
on_event lib cfg (stores now uid location) c = record c {
  cache = cache_location cfg now uid location c.cache;
}
on_event lib cfg (drops uid) c = record c { cache = delete_cached_location uid c.cache }
on_event lib cfg (looks_up now uid) c = record c { cache = (get_cached_location now uid c.cache).0 }

-- `consumeLocationChanges` until it is stopped, over the reads it made and what the calls did
-- meanwhile.
unfoldable pub consume_location_changes :
    UidLib → RegistryConfig → List CacheEvent → Consumer → Consumer
consume_location_changes lib cfg [] c = c
consume_location_changes lib cfg (e ∷ es) c =
    consume_location_changes lib cfg es (on_event lib cfg e c)
