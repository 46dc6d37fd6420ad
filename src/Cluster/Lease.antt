-- ===== src/Cluster/Lease.antt =====
-- The life of the centre: infra/cluster/center.go, Start, Close and the lease that keepAlive keeps.
-- etcd is a parameter: its state, the calls that the centre makes, and what it promises of leases.
-- Contexts, the client's connection and the waiting are not part of it; a call may be lost.
pub mod Registered
pub mod Recovery
pub mod Failure
use ggskit.Cluster.Node.{Node}
use ggskit.Cluster.Center.{get_watch_prefix, Nodes, sync_nodes, get_retry_backoff}
use ggskit.Common.Int.{ℤ, pos, leb_ℤ}
use ggskit.Common.{
  [], [], [], [], [], [], [], [], [], [], [], [], ℕ, ◌≡◌, ◌≢◌, Bool, true, false, not, Option, none,
  some, List, ◌∷◌, ◌++◌, if◌then◌else◌, Text, ◌==◌, Result, ok, err, Link, up, lost_before,
  lost_after, nat_eq, text_eq,
}

-- `stored` is a key's value with the lease it hangs on; a put with a lease that etcd does not know
-- is refused; to revoke a lease deletes what hangs on it.
pub record Etcd : Type 1 where
  pub Db : Type 0
  pub grant : Db → Db × ℕ
  pub put_with : Text → Text → ℕ → Db → Option Db
  pub revoke : ℕ → Db → Db
  pub live : Db → ℕ → Bool
  pub stored : Db → Text → Option (Text × ℕ)
  pub pairs : Text → Db → List (Text × Text)
  pub grant_live : (db : Db) → live (grant db).0 (grant db).1 ≡ true
  pub grant_id : (db : Db) → (grant db).1 ≢ 0
  pub put_accepted :
      (key value : Text) (lease : ℕ) (db : Db)
      → live db lease ≡ true
      → (after : Db) × (put_with key value lease db ≡ some after) × (live after lease ≡ true)
  pub put_stored :
      (key value : Text) (lease : ℕ) (db after : Db)
      → put_with key value lease db ≡ some after
      → stored after key ≡ some (value, lease)
  pub revoke_dead : (lease : ℕ) (db : Db) → live (revoke lease db) lease ≡ false
  pub revoke_stored :
      (lease : ℕ) (db : Db) (key value : Text)
      → stored (revoke lease db) key ≡ some (value, lease)
      → ⊥

pub data LeaseError : Type 0 where
  client_failed grant_failed marshal_failed put_failed sync_failed alive_failed : LeaseError

-- `Center`: its own key and what `json.Marshal` makes of its own node.
pub record Own : Type 0 where
  pub root : Text
  pub watch_prefix : Text
  pub self_node_id : Text
  pub value : Option Text
  pub unmarshal : Text → Option Node

-- The calls of `Start`, as they go.
pub record StartLinks : Type 0 where
  pub dialed : Bool
  pub granting : Link
  pub putting : Link
  pub syncing : Link
  pub revoking : Link

-- What the inner loop of `keepAlive` hears: that it is cancelled, or a response of the channel
-- with its time to live, where none is the zero value of a closed channel.
pub data Heard : Type 0 where
  heard_done : Heard
  heard_response : Option ℤ → Heard

pub data Inner : Type 0 where
  inner_waits inner_returns inner_breaks : Inner

abbrev pub is_alive_response : Option ℤ → Bool
is_alive_response none = false
is_alive_response (some ttl) = not (leb_ℤ ttl (pos 0))

unfoldable pub keep_alive_internal : List Heard → Inner
keep_alive_internal [] = inner_waits
keep_alive_internal (heard_done ∷ hs) = inner_returns
keep_alive_internal (heard_response r ∷ hs) = elim (is_alive_response r) [
  | true ↦ keep_alive_internal hs
  | false ↦ inner_breaks
]

-- How the calls of one turn go.
pub record Turn : Type 0 where
  pub ctx_done : Bool
  pub checking : Link
  pub granting : Link
  pub putting : Link
  pub opened : Bool
  pub hears : List Heard

pub data FindError : Type 0 where
  not_initialized node_not_found : FindError

module _ (etcd : Etcd) (own : Own) where
  open etcd use {Db, grant, put_with, revoke, live, pairs}

  -- The fields of `Center` that change, with etcd; no lease is 0, and no map is what `Start` leaves
  -- where it fails.
  pub record Center : Type 0 where
    pub db : Db
    pub lease_id : ℕ
    pub has_client : Bool
    pub nodes : Option Nodes

  abbrev pub own_key : Text
  own_key = own.root ++ b'/' ∷ own.self_node_id

  -- `grantLease`.
  unfoldable pub grant_lease : Link → Center → Center × Option LeaseError
  grant_lease lost_before c = (c, some grant_failed)
  grant_lease lost_after c = (record c { db = (grant c.db).0 }, some grant_failed)
  grant_lease up c = (record c { db = (grant c.db).0; lease_id = (grant c.db).1 }, none)

  -- `checkLeaseAlive`.
  unfoldable pub check_lease_alive : Link → Center → Result LeaseError Bool
  check_lease_alive up c = ok (live c.db c.lease_id)
  check_lease_alive lost_before c = err alive_failed
  check_lease_alive lost_after c = err alive_failed

  -- The put of `registerSelf`, with what etcd makes of it.
  abbrev pub on_put : Link → Option Db → Center → Center × Option LeaseError
  on_put lost_before o c = (c, some put_failed)
  on_put lost_after none c = (c, some put_failed)
  on_put lost_after (some after) c = (record c { db = after }, some put_failed)
  on_put up none c = (c, some put_failed)
  on_put up (some after) c = (record c { db = after }, none)

  abbrev pub put_own : Link → Option Text → Center → Center × Option LeaseError
  put_own link none c = (c, some marshal_failed)
  put_own link (some value) c = on_put link (put_with own_key value c.lease_id c.db) c

  -- `registerSelf`.
  unfoldable pub register_self : Link → Center → Center × Option LeaseError
  register_self link c = put_own link own.value c

  -- The next call, if the calls so far went well.
  abbrev pub then_call :
      (Center → Center × Option LeaseError)
      → Center × Option LeaseError
      → Center × Option LeaseError
  then_call call (c, none) = call c
  then_call call (c, some e) = (c, some e)

  -- `grantLeaseAndReregisterSelf`.
  unfoldable pub grant_lease_and_reregister_self : Link → Link → Center → Center × Option LeaseError
  grant_lease_and_reregister_self granting putting c =
      then_call (register_self putting) (grant_lease granting c)

  -- `syncNodes` with the answer of etcd.
  abbrev pub sync_center : Link → Center → Center × Option LeaseError
  sync_center up c =
      let found =
        sync_nodes own.unmarshal own.root own.self_node_id
          (pairs (get_watch_prefix own.root own.watch_prefix) c.db) in
      (record c { nodes = some found.0 }, none)
  sync_center lost_before c = (c, some sync_failed)
  sync_center lost_after c = (c, some sync_failed)

  -- `Revoke`, whose result is not looked at.
  abbrev pub revoke_lease : Link → Center → Center
  revoke_lease lost_before c = c
  revoke_lease lost_after c = record c { db = revoke c.lease_id c.db }
  revoke_lease up c = record c { db = revoke c.lease_id c.db }

  -- What `Start` defers.
  unfoldable pub undo_start : Link → Center → Center
  undo_start revoking c = record (if c.lease_id == 0 then c else revoke_lease revoking c) {
    lease_id = 0;
    has_client = false;
    nodes = none;
  }

  abbrev pub start_calls : StartLinks → Center → Center × Option LeaseError
  start_calls links c = then_call (sync_center links.syncing) (
      then_call (register_self links.putting)
        (grant_lease links.granting (record c { has_client = true })))

  abbrev pub on_started : Link → Center × Option LeaseError → Center × Option LeaseError
  on_started revoking (c, none) = (c, none)
  on_started revoking (c, some e) = (undo_start revoking c, some e)

  -- `Start`, up to the start of the two loops.
  unfoldable pub start : StartLinks → Center → Center × Option LeaseError
  start links c =
      on_started links.revoking
        (if links.dialed then start_calls links c else (c, some client_failed))

  -- `Close`; its cancellations end the two loops.
  unfoldable pub close : Link → Center → Center
  close link c = if c.lease_id == 0 then c else revoke_lease link c

  -- `NewCenter`, of a configuration that `init` accepts.
  unfoldable pub new_center : Db → Center
  new_center db = record { db = db; lease_id = 0; has_client = false; nodes = some (λ id. none) }

  -- `GetNode`.
  unfoldable pub get_node : Text → Node → Center → Result FindError Node
  get_node id self_node c = elim c.nodes [
    | none ↦ err not_initialized
    | some nodes ↦
        if id == own.self_node_id
        then ok self_node
        else elim (nodes id) [ none ↦ err node_not_found | some n ↦ ok n ]
  ]

  -- The state of `keepAlive` between two turns of its loop.
  pub record KeepAlive : Type 0 where
    pub centre : Center
    pub alive : Bool
    pub backoff : ℕ

  -- What follows the attempt to open the channel; the second component says whether there is a
  -- next turn.
  abbrev pub on_opened : Bool → Inner → KeepAlive → KeepAlive × Bool
  on_opened false i s = (record s { backoff = get_retry_backoff s.backoff }, true)
  on_opened true inner_waits s = (record s { backoff = get_retry_backoff 0 }, false)
  on_opened true inner_returns s = (record s { backoff = get_retry_backoff 0 }, false)
  on_opened true inner_breaks s =
      (record s { backoff = get_retry_backoff (get_retry_backoff 0) }, true)

  -- The rest of a turn: the channel.
  unfoldable pub keep_alive_channel : Turn → KeepAlive → KeepAlive × Bool
  keep_alive_channel t s = on_opened t.opened (keep_alive_internal t.hears) s

  -- A turn where the lease is thought to live.
  abbrev pub keep_alive_check : Turn → Result LeaseError Bool → KeepAlive → KeepAlive × Bool
  keep_alive_check t (err e) s = (record s { backoff = get_retry_backoff s.backoff }, true)
  keep_alive_check t (ok true) s = keep_alive_channel t s
  keep_alive_check t (ok false) s =
      (record s { alive = false; backoff = get_retry_backoff 0 }, true)

  -- A turn where it is known to be over.
  abbrev pub keep_alive_grant : Turn → Center × Option LeaseError → KeepAlive → KeepAlive × Bool
  keep_alive_grant t (c, some e) s =
      (record s { centre = c; backoff = get_retry_backoff s.backoff }, true)
  keep_alive_grant t (c, none) s =
      keep_alive_channel t (record { centre = c; alive = true; backoff = get_retry_backoff 0 })

  -- A turn of `keepAlive`.
  unfoldable pub keep_alive : Turn → KeepAlive → KeepAlive × Bool
  keep_alive t s =
      if t.ctx_done
      then (s, false)
      else if s.alive
      then keep_alive_check t (check_lease_alive t.checking s.centre) s
      else keep_alive_grant t (grant_lease_and_reregister_self t.granting t.putting s.centre) s

  unfoldable pub keep_alive_start : Center → KeepAlive
  keep_alive_start c = record { centre = c; alive = true; backoff = get_retry_backoff 0 }
