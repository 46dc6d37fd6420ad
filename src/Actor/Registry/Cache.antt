-- ===== src/Actor/Registry/Cache.antt =====
-- The local cache of locations: infra/actor/registry.go. The clock's reading is an argument of each
-- function that calls `time.Now`.
pub mod Bounds
use ggskit.Common.{
  suc, ◌-◌, ◌*◌, ◌/◌, ◌^◌, not, Option, none, some, ltb, if◌then◌else◌, Text, Map, put, delete,
  text_eq,
}
use ggskit.Common.Int.{ℤ, pos, negsuc, leb_ℤ, ltb_ℤ, ◌+ℤ◌, ◌-ℤ◌}
use ggskit.Strconv.{to_int64}
use ggskit.Actor.Uid.{ActorUid, uid_eq}
use ggskit.Actor.Registry.Config.{RegistryConfig, second}

-- `gactor.ActorLocation`; `expire_at` is in seconds, 0 for never.
pub record ActorLocation : Type 0 where
  pub node_id : Text
  pub expire_at : ℤ

-- `registryLocationCacheEntry`.
pub record CacheEntry : Type 0 where
  pub location : ActorLocation
  pub expire_at : ℤ

abbrev pub Cache : Type 0
Cache = Map ActorUid CacheEntry

-- `Time.Unix`, rounding down.
abbrev pub unix : ℤ → ℤ
unix (pos n) = pos (n / second)
unix (negsuc n) = negsuc (n / second)

-- `time.Unix(s, 0)`.
abbrev pub from_unix : ℤ → ℤ
from_unix (pos s) = pos (s * second)
from_unix (negsuc s) = negsuc (suc s * second - 1)

-- `Time.Sub` ends at the bounds of a duration.
abbrev pub saturate : ℤ → ℤ
saturate (pos n) = if ltb n (2 ^ 63) then pos n else pos (2 ^ 63 - 1)
saturate (negsuc n) = if ltb n (2 ^ 63) then negsuc n else negsuc (2 ^ 63 - 1)

-- `ttlToExpireAt`.
unfoldable pub ttl_to_expire_at : ℤ → ℤ → ℤ
ttl_to_expire_at now ttl = if leb_ℤ ttl (pos 0) then pos 0 else to_int64 (unix now +ℤ ttl)

-- `calcLocalCacheTTL`.
unfoldable pub calc_local_cache_ttl : RegistryConfig → ActorLocation → ℤ → ℤ
calc_local_cache_ttl cfg location now =
    let remaining = saturate (from_unix location.expire_at -ℤ now) in
    let rest = remaining -ℤ cfg.local_cache_safety_window in
    if leb_ℤ location.expire_at (pos 0)
    then cfg.local_cache_max_ttl
    else if leb_ℤ remaining cfg.local_cache_safety_window
    then pos 0
    else if ltb_ℤ rest cfg.local_cache_max_ttl
    then rest
    else cfg.local_cache_max_ttl

-- `deleteCachedLocation`.
unfoldable pub delete_cached_location : ActorUid → Cache → Cache
delete_cached_location uid cache = delete uid cache

-- `cacheLocation`.
unfoldable pub cache_location : RegistryConfig → ℤ → ActorUid → ActorLocation → Cache → Cache
unfolding delete_cached_location
cache_location cfg now uid location cache =
    let ttl = calc_local_cache_ttl cfg location now in
    if leb_ℤ ttl (pos 0)
    then delete_cached_location uid cache
    else put uid (record { location = location; expire_at = now +ℤ ttl }) cache

unfoldable pub live : ℤ → ActorUid → Option CacheEntry → Cache → Cache × Option ActorLocation
live now uid none cache = (cache, none)
live now uid (some entry) cache =
    if not (ltb_ℤ now entry.expire_at)
    then (delete uid cache, none)
    else (cache, some entry.location)

-- `getCachedLocation`; the map holds nothing but entries, so its type assertion never fails.
unfoldable pub get_cached_location : ℤ → ActorUid → Cache → Cache × Option ActorLocation
unfolding live
get_cached_location now uid cache = live now uid (cache uid) cache
