-- ===== src/Cluster/Center/Backoff.antt =====
-- The waits between retries.
use ggskit.Cluster.Center.{get_retry_backoff, min_retry_backoff, max_retry_backoff}
use ggskit.Common.{ℕ, ◌≤◌, ◌<◌, ◌≡◌, ◌⊎◌, arith, nat_eq, text_eq}

-- The next wait is between the shortest and the longest, and is longer than the last one unless it
-- is the longest.
pub get_retry_backoff_bounds :
    (cur : ℕ)
    → (min_retry_backoff ≤ get_retry_backoff cur)
      × (get_retry_backoff cur ≤ max_retry_backoff)
      × ((get_retry_backoff cur ≡ max_retry_backoff) ⊎ (cur < get_retry_backoff cur))
unfolding get_retry_backoff
get_retry_backoff_bounds cur = ground arith
