-- ===== src/Actor/Registry/Cache/Bounds.antt =====
-- How long a location stays in the cache.
use ggskit.Common.{arith, if◌then◌else◌, nat_eq, text_eq, true, ◌≡◌}
use ggskit.Common.Int.{ℤ, pos, leb_ℤ, ltb_ℤ, ◌+ℤ◌, ◌-ℤ◌, ◌≤ℤ◌}
use ggskit.Actor.Uid.{uid_eq}
use ggskit.Actor.Registry.Cache.{
  calc_local_cache_ttl, from_unix, CacheEntry, Cache, ActorLocation, ActorUid, RegistryConfig,
  saturate,
}

leb_ℤ→le : (a b : ℤ) → leb_ℤ a b ≡ true → a ≤ℤ b
leb_ℤ→le a b h = ground arith

-- The time that `calcLocalCacheTTL` chooses where the location expires.
abbrev chosen : ℤ → ℤ → ℤ → ℤ
chosen m w d =
    if leb_ℤ (saturate d) w then pos 0 else if ltb_ℤ (saturate d -ℤ w) m then saturate d -ℤ w else m

abbrev Fits : ℤ → ℤ → ℤ → ℤ → Type 0
Fits m w d t = pos 1 ≤ℤ t → (t ≤ℤ m) × (t +ℤ w ≤ℤ d)

module _ (cfg : RegistryConfig) (now : ℤ) (uid : ActorUid) (location : ActorLocation)
    (cache : Cache) where
  abbrev ttl : ℤ
  ttl = calc_local_cache_ttl cfg location now

  abbrev stored : CacheEntry
  stored = record { location = location; expire_at = now +ℤ ttl }

  abbrev Kept : CacheEntry → Type 0
  Kept e =
      (e.location ≡ location)
      × (e.expire_at ≤ℤ now +ℤ cfg.local_cache_max_ttl)
      × (e.expire_at +ℤ cfg.local_cache_safety_window ≤ℤ from_unix location.expire_at)
