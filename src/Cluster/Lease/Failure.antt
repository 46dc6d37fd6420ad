-- ===== src/Cluster/Lease/Failure.antt =====
-- What a Start that fails leaves behind.
use ggskit.Cluster.Node.{Node}
use ggskit.Cluster.Lease.{
  Etcd, Own, Center, own_key, grant_lease, put_own, on_put, on_started, then_call, register_self,
  sync_center, undo_start, StartLinks, start_calls, start, LeaseError, get_node, not_initialized,
}
use ggskit.Common.{
  some-none, ℕ, ◌≡◌, refl, sym, ap, subst, ◌∙◌, ◌≢◌, true, false, Option, none, some, Text, nat_eq,
  text_eq, ==_ne, err, Link, up, lost_before, lost_after,
}

module _ (etcd : Etcd) (own : Own) where
  open etcd use {Db, grant, live, stored}

  -- The calls after the grant leave the lease as it is.
  on_put-lease :
      (link : Link) (o : Option Db) (c : Center etcd own)
      → (on_put etcd own link o c).0.lease_id ≡ c.lease_id
  on_put-lease lost_before o c = refl
  on_put-lease lost_after none c = refl
  on_put-lease lost_after (some after) c = refl
  on_put-lease up none c = refl
  on_put-lease up (some after) c = refl

  put_own-lease :
      (link : Link) (o : Option Text) (c : Center etcd own)
      → (put_own etcd own link o c).0.lease_id ≡ c.lease_id
  put_own-lease link none c = refl
  put_own-lease link (some value) c = on_put-lease link _ c

  sync_center-lease :
      (link : Link) (c : Center etcd own) → (sync_center etcd own link c).0.lease_id ≡ c.lease_id
  sync_center-lease up c = refl
  sync_center-lease lost_before c = refl
  sync_center-lease lost_after c = refl

  then_call-lease :
      (call : Center etcd own → Center etcd own × Option LeaseError)
      → ((c : Center etcd own) → (call c).0.lease_id ≡ c.lease_id)
      → (r : Center etcd own × Option LeaseError)
      → (then_call etcd own call r).0.lease_id ≡ r.0.lease_id
  then_call-lease call h (c, none) = h c
  then_call-lease call h (c, some e) = refl

  start_calls-lease :
      (links : StartLinks) (c : Center etcd own)
      → links.granting ≡ up
      → (start_calls etcd own links c).0.lease_id ≡ (grant c.db).1
  unfolding grant_lease register_self
  start_calls-lease links c g =
      then_call-lease (sync_center etcd own links.syncing) (sync_center-lease links.syncing) _
      ∙ then_call-lease (register_self etcd own links.putting)
          (λ d. put_own-lease links.putting own.value d) _
      ∙ ap (λ l. (grant_lease etcd own l (record c { has_client = true })).0.lease_id) g

  -- No lease of this number lives, nothing hangs on it, and there is no map of nodes.
  abbrev pub IsUndone : ℕ → Center etcd own → Type 0
  IsUndone lease c =
      (live c.db lease ≡ false)
      × ((value : Text) → stored c.db (own_key etcd own) ≢ some (value, lease))
      × (c.lease_id ≡ 0)
      × (c.has_client ≡ false)
      × ((id : Text) (n : Node) → get_node etcd own id n c ≡ err not_initialized)

  undo_start-IsUndone :
      (c : Center etcd own) → c.lease_id ≢ 0 → IsUndone c.lease_id (undo_start etcd own up c)
  unfolding undo_start get_node
  undo_start-IsUndone c h = rw (==_ne c.lease_id 0 h) (
    etcd.revoke_dead c.lease_id c.db,
    (λ value. etcd.revoke_stored c.lease_id c.db (own_key etcd own) value),
    refl,
    refl,
    λ id n. refl,
  )

  undone :
      (r : Center etcd own × Option LeaseError) (e : LeaseError)
      → r.0.lease_id ≢ 0
      → (on_started etcd own up r).1 ≡ some e
      → IsUndone r.0.lease_id (on_started etcd own up r).0
  undone (c, none) e h k = absurd (some-none e (sym k))
  undone (c, some x) e h k = undo_start-IsUndone c h

  -- A start that reaches etcd and is granted a lease, and whose revocation is answered.
  abbrev pub granted_links : Link → Link → StartLinks
  granted_links putting syncing = record {
    dialed = true;
    granting = up;
    putting = putting;
    syncing = syncing;
    revoking = up;
  }

  -- Where `Start` fails after it was granted a lease, and its revocation is answered, that lease is
  -- dead, no value of the centre's key hangs on it, the client is closed, and GetNode says that
  -- there are no nodes.
  pub start_fails :
      (putting syncing : Link) (c : Center etcd own) (e : LeaseError)
      → (start etcd own (granted_links putting syncing) c).1 ≡ some e
      → IsUndone (grant c.db).1 (start etcd own (granted_links putting syncing) c).0
  unfolding start
  start_fails putting syncing c e k =
      let links = granted_links putting syncing in
      let same = start_calls-lease links c refl in
      subst (λ l. IsUndone l (start etcd own links c).0) same
        (undone (start_calls etcd own links c) e (λ h. etcd.grant_id c.db (sym same ∙ h)) k)
