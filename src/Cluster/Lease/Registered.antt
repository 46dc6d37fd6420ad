-- ===== src/Cluster/Lease/Registered.antt =====
-- The calls that leave the centre's node in etcd.
use ggskit.Cluster.Lease.{
  Etcd, Own, Center, own_key, grant_lease, put_own, on_put, on_started, then_call, register_self,
  grant_lease_and_reregister_self, sync_center, StartLinks, start_calls, start, LeaseError,
}
use ggskit.Common.{
  ◌≡◌, refl, sym, subst, Option, none, some, Text, nat_eq, text_eq, if_cases, some-none, Link, up,
  lost_before, lost_after,
}

module _ (etcd : Etcd) (own : Own) (value : Text) where
  open etcd use {Db, put_with, stored}

  -- The centre's key holds its node, under the lease that the centre has.
  abbrev pub IsRegistered : Center etcd own → Type 0
  IsRegistered c = stored c.db (own_key etcd own) ≡ some (value, c.lease_id)

  module _ (marshalled : own.value ≡ some value) where
    on_put-ok :
        (link : Link) (o : Option Db) (c : Center etcd own)
        → put_with (own_key etcd own) value c.lease_id c.db ≡ o
        → (on_put etcd own link o c).1 ≡ none
        → IsRegistered (on_put etcd own link o c).0
    on_put-ok lost_before o c h k = absurd (some-none _ k)
    on_put-ok lost_after none c h k = absurd (some-none _ k)
    on_put-ok lost_after (some after) c h k = absurd (some-none _ k)
    on_put-ok up none c h k = absurd (some-none _ k)
    on_put-ok up (some after) c h k = etcd.put_stored _ _ _ _ after h

    register_self-ok :
        (link : Link) (c : Center etcd own)
        → (register_self etcd own link c).1 ≡ none
        → IsRegistered (register_self etcd own link c).0
    unfolding register_self
    register_self-ok link c =
        subst
          (λ o. (put_own etcd own link o c).1 ≡ none → IsRegistered (put_own etcd own link o c).0)
          (sym marshalled) (on_put-ok link _ c refl)

    -- What a new grant and registration leave, however the calls go.
    abbrev pub granted : Link → Link → Center etcd own → Center etcd own × Option LeaseError
    granted granting putting c = grant_lease_and_reregister_self etcd own granting putting c

    pub registers :
        (granting putting : Link) (c : Center etcd own)
        → (granted granting putting c).1 ≡ none
        → IsRegistered (granted granting putting c).0
    unfolding grant_lease_and_reregister_self grant_lease
    registers lost_before putting c k = absurd (some-none _ k)
    registers lost_after putting c k = absurd (some-none _ k)
    registers up putting c k = register_self-ok putting _ k

    abbrev Succeeds : Center etcd own × Option LeaseError → Type 0
    Succeeds r = r.1 ≡ none → IsRegistered r.0

    -- What `Start` leaves where it succeeds.
    synced-IsRegistered :
        (link : Link) (c : Center etcd own)
        → (sync_center etcd own link c).1 ≡ none
        → IsRegistered c
        → IsRegistered (sync_center etcd own link c).0
    synced-IsRegistered up c e h = h
    synced-IsRegistered lost_before c e h = absurd (some-none _ e)
    synced-IsRegistered lost_after c e h = absurd (some-none _ e)

    then_synced :
        (link : Link) (r : Center etcd own × Option LeaseError)
        → (r.1 ≡ none → IsRegistered r.0)
        → (then_call etcd own (sync_center etcd own link) r).1 ≡ none
        → IsRegistered (then_call etcd own (sync_center etcd own link) r).0
    then_synced link (c, none) h e = synced-IsRegistered link c e (h refl)
    then_synced link (c, some x) h e = absurd (some-none _ e)

    then-IsRegistered :
        (link : Link) (r : Center etcd own × Option LeaseError)
        → (then_call etcd own (register_self etcd own link) r).1 ≡ none
        → IsRegistered (then_call etcd own (register_self etcd own link) r).0
    then-IsRegistered link (c, none) e = register_self-ok link c e
    then-IsRegistered link (c, some x) e = absurd (some-none _ e)

    started :
        (link : Link) (r : Center etcd own × Option LeaseError)
        → (r.1 ≡ none → IsRegistered r.0)
        → (on_started etcd own link r).1 ≡ none
        → IsRegistered (on_started etcd own link r).0
    started link (c, none) h e = h refl
    started link (c, some x) h e = absurd (some-none _ e)

    called :
        (links : StartLinks) (c : Center etcd own)
        → (start_calls etcd own links c).1 ≡ none
        → IsRegistered (start_calls etcd own links c).0
    called links c e = then_synced links.syncing _ (then-IsRegistered links.putting _) e

    pub start-IsRegistered :
        (links : StartLinks) (c : Center etcd own)
        → (start etcd own links c).1 ≡ none
        → IsRegistered (start etcd own links c).0
    unfolding start
    start-IsRegistered links c =
        started links.revoking _
          (if_cases Succeeds links.dialed _ _ (λ d. called links c) (λ d e. absurd (some-none _ e)))
