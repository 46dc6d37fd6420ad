-- ===== src/Actor/Registry/View.antt =====
-- The registry as its clients mean it: one registration for each actor, whether a hash or the older
-- JSON text holds it, and what each call promises about it.
use ggskit.Common.{
  ℕ, Bool, ◌&&◌, ◌||◌, Option, none, some, List, [], ◌∷◌, if◌then◌else◌, Text, codes, ◌==◌, nat_eq,
  text_eq, Map,
}
use ggskit.Common.Int.{ℤ, pos, negsuc}
use ggskit.Redis.{Redis, Item, Value, hash, str, stream, other}
use ggskit.Actor.Registry.Scripts.{Reply, int, bulk, or_empty, seconds_of}
use ggskit.Actor.Registry.Runs.{expiry, granted_ttl}

pub record Registration : Type 0 where
  pub node : Text
  pub lease : Text
  pub ttl : Option ℕ

-- `unreadable` is a text that is no JSON, `foreign` a key of a type that the registry never writes.
pub data View : Type 0 where
  vacant unreadable foreign : View
  held : Registration → View

abbrev pub json_view : Option (Map Text Text) → Option ℕ → View
json_view none ttl = unreadable
json_view (some t) ttl = held (record {
  node = or_empty (t (codes "NodeId"));
  lease = or_empty (t (codes "LeaseId"));
  ttl = ttl;
})

abbrev pub value_view : Redis → Value → Option ℕ → View
value_view r (hash m) ttl = held (record {
  node = or_empty (m (codes "node_id"));
  lease = or_empty (m (codes "lease_id"));
  ttl = ttl;
})
value_view r (str s) ttl = json_view (r.cjson_decode s) ttl
value_view r (stream e) ttl = foreign
value_view r other ttl = foreign

abbrev pub view : Redis → Option Item → View
view r none = vacant
view r (some i) = value_view r i.value i.ttl

pub data Answer : Type 0 where
  granted taken located : Text → ℤ → Answer
  missing mismatch done failed : Answer

-- The reply that a script gives for an answer; `failed` is an aborted script.
abbrev pub encode : Answer → Option (List Reply)
encode (granted node ttl) = some (int (pos 0) ∷ bulk node ∷ int ttl ∷ [])
encode (taken node ttl) = some (int (pos 2) ∷ bulk node ∷ int ttl ∷ [])
encode (located node ttl) = some (int (pos 0) ∷ bulk node ∷ int ttl ∷ [])
encode missing = some (int (pos 1) ∷ [])
encode mismatch = some (int (pos 3) ∷ [])
encode done = some (int (pos 0) ∷ [])
encode failed = none

abbrev pub pttl_view : Option ℕ → ℤ
pttl_view none = negsuc 0
pttl_view (some ms) = pos ms

abbrev pub owned : Text → Text → ℤ → View
owned node lease ttl = held (record { node = node; lease = lease; ttl = expiry ttl })

-- Register: a registration without a node, or of the same node, gives way; another node keeps its.
abbrev pub register_spec : View → Text → Text → ℤ → View × Answer
register_spec vacant node lease ttl = (owned node lease ttl, granted node (granted_ttl ttl))
register_spec unreadable node lease ttl = (unreadable, failed)
register_spec foreign node lease ttl = (foreign, failed)
register_spec (held g) node lease ttl =
    if g.node == [] || g.node == node
    then (owned node lease ttl, granted node (granted_ttl ttl))
    else (held g, taken g.node (seconds_of (pttl_view g.ttl) (pttl_view g.ttl)))

-- Take over: the holder of the source lease gives way.
abbrev pub take_over_spec : View → Text → Text → Text → ℤ → View × Answer
take_over_spec vacant node lease source ttl = (vacant, missing)
take_over_spec unreadable node lease source ttl = (unreadable, failed)
take_over_spec foreign node lease source ttl = (foreign, mismatch)
take_over_spec (held g) node lease source ttl =
    if g.lease == source
    then (owned node lease ttl, granted node (granted_ttl ttl))
    else (held g, mismatch)

abbrev pub is_owner : Registration → Text → Text → Bool
is_owner g node lease = g.node == node && g.lease == lease

-- Unregister: only the owner may, and the registration is gone.
abbrev pub unregister_spec : View → Text → Text → View × Answer
unregister_spec vacant node lease = (vacant, missing)
unregister_spec unreadable node lease = (unreadable, failed)
unregister_spec foreign node lease = (foreign, mismatch)
unregister_spec (held g) node lease =
    if is_owner g node lease then (vacant, done) else (held g, mismatch)

-- Keep alive: only the owner may, and only the expiry changes.
abbrev pub keep_alive_spec : View → Text → Text → ℤ → View × Answer
keep_alive_spec vacant node lease ttl = (vacant, missing)
keep_alive_spec unreadable node lease ttl = (unreadable, failed)
keep_alive_spec foreign node lease ttl = (foreign, mismatch)
keep_alive_spec (held g) node lease ttl =
    if is_owner g node lease
    then (held (record g { ttl = expiry ttl }), done)
    else (held g, mismatch)

-- Look up: the node and the whole seconds left, rounded up; 0 without an expiry.
abbrev pub lookup_spec : View → Answer
lookup_spec vacant = missing
lookup_spec unreadable = failed
lookup_spec foreign = missing
lookup_spec (held g) =
    if g.node == [] then missing else located g.node (seconds_of (pttl_view g.ttl) (pos 0))
