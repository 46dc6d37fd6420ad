-- ===== src/Cluster/Lease/Recovery.antt =====
-- keepAlive as a relation of steps: turns of its loop and what happens to etcd between them.
use mathlib.Core.Option.{some-injective}
use ggskit.Cluster.Lease.{
  StartLinks, keep_alive_start, start, check_lease_alive, Heard, LeaseError, Etcd, Own, Center,
  own_key, grant_lease, put_own, on_put, on_opened, register_self, grant_lease_and_reregister_self,
  Inner, inner_waits, inner_returns, inner_breaks, keep_alive_internal, KeepAlive, Turn,
  keep_alive_channel, keep_alive_check, keep_alive_grant, keep_alive,
}
use ggskit.Cluster.Lease.Registered.{IsRegistered, granted, registers, start-IsRegistered}
use ggskit.Common.{
  false-true, some-none, inl, inr, Bool-cases, List, if_cases, ◌≡◌, refl, sym, subst, ◌∙◌, Bool,
  true, false, Option, none, some, if◌then◌else◌, Text, nat_eq, text_eq, Result, ok, err, up,
}

if_true {ℓ} : {A : Type ℓ} {b : Bool} (x y : A) → b ≡ true → (if b then x else y) ≡ x
if_true x y h = rw h

module _ (etcd : Etcd) (own : Own) (value : Text) where
  open etcd use {Db, put_with, live, stored}

  -- While the lease that the loop believes in lives, the key is there.
  abbrev pub IsKept : KeepAlive etcd own → Type 0
  IsKept s =
      s.alive ≡ true
      → live s.centre.db s.centre.lease_id ≡ true
      → IsRegistered etcd own value s.centre

  abbrev pub IsKeptAfter : KeepAlive etcd own × Bool → Type 0
  IsKeptAfter r = IsKept r.0

  -- etcd by itself: leases may end, and what hangs on a lease that lives stays.
  abbrev pub Drifts : Center etcd own → Db → Type 0
  Drifts c after =
      live after c.lease_id ≡ true
      → (live c.db c.lease_id ≡ true)
        × (stored after (own_key etcd own) ≡ stored c.db (own_key etcd own))

  pub data Step (s : KeepAlive etcd own) (u : KeepAlive etcd own) : Type 0 where
    turn : (t : Turn) → u ≡ (keep_alive etcd own t s).0 → Step s u
    drift :
        (after : Db)
        → Drifts s.centre after
        → u ≡ record s { centre = record s.centre { db = after } }
        → Step s u

  pub data Reach (s : KeepAlive etcd own) : KeepAlive etcd own → Type 0 where
    here : Reach s s
    next : {t u : KeepAlive etcd own} → Reach s t → Step t u → Reach s u

  module _ (marshalled : own.value ≡ some value) where
    opened-IsKept :
        (b : Bool) (i : Inner) (s : KeepAlive etcd own)
        → IsKept s
        → IsKept (on_opened etcd own b i s).0
    opened-IsKept false i s h = h
    opened-IsKept true inner_waits s h = h
    opened-IsKept true inner_returns s h = h
    opened-IsKept true inner_breaks s h = h

    checked-IsKept :
        (t : Turn) (r : Result LeaseError Bool) (s : KeepAlive etcd own)
        → IsKept s
        → IsKept (keep_alive_check etcd own t r s).0
    unfolding keep_alive_channel
    checked-IsKept t (err e) s h = h
    checked-IsKept t (ok true) s h = opened-IsKept t.opened (keep_alive_internal t.hears) s h
    checked-IsKept t (ok false) s h = λ e. absurd (false-true e)

    granted-IsKept :
        (t : Turn) (r : Center etcd own × Option LeaseError) (s : KeepAlive etcd own)
        → s.alive ≡ false
        → (r.1 ≡ none → IsRegistered etcd own value r.0)
        → IsKept (keep_alive_grant etcd own t r s).0
    unfolding keep_alive_channel
    granted-IsKept t (c, some e) s off h = λ on. absurd (false-true (sym off ∙ on))
    granted-IsKept t (c, none) s off h =
        opened-IsKept t.opened (keep_alive_internal t.hears) _ (λ on lives. h refl)

    turn-IsKept :
        (t : Turn) (s : KeepAlive etcd own) → IsKept s → IsKept (keep_alive etcd own t s).0
    unfolding keep_alive
    turn-IsKept t s h =
        if_cases IsKeptAfter t.ctx_done _ _ (λ done. h)
          (λ going.
            if_cases IsKeptAfter s.alive _ _ (λ on. checked-IsKept t _ s h)
              (λ off.
                granted-IsKept t _ s off
                  (registers etcd own value marshalled t.granting t.putting s.centre)))

    Step-IsKept : (s u : KeepAlive etcd own) → Step s u → IsKept s → IsKept u
    Step-IsKept s u (turn t e) h = subst IsKept (sym e) (turn-IsKept t s h)
    Step-IsKept s u (drift after d e) h =
        subst IsKept (sym e) (λ on lives. (d lives).1 ∙ h on (d lives).0)

    Reach-IsKept : (s u : KeepAlive etcd own) → Reach s u → IsKept s → IsKept u
    Reach-IsKept s u here h = h
    Reach-IsKept s u (next r st) h = Step-IsKept _ u st (Reach-IsKept s _ r h)

    -- The loop believes in its lease, which lives and has the key.
    abbrev pub IsUp : KeepAlive etcd own → Type 0
    IsUp s =
        (s.alive ≡ true)
        × (live s.centre.db s.centre.lease_id ≡ true)
        × IsRegistered etcd own value s.centre

    abbrev IsUpAfter : KeepAlive etcd own × Bool → Type 0
    IsUpAfter r = IsUp r.0

    abbrev IsOffAfter : KeepAlive etcd own × Bool → Type 0
    IsOffAfter r = r.0.alive ≡ false

    opened-IsUp :
        (b : Bool) (i : Inner) (s : KeepAlive etcd own) → IsUp s → IsUp (on_opened etcd own b i s).0
    opened-IsUp false i s h = h
    opened-IsUp true inner_waits s h = h
    opened-IsUp true inner_returns s h = h
    opened-IsUp true inner_breaks s h = h

    checked-IsUp :
        (t : Turn) (b : Bool) (s : KeepAlive etcd own)
        → b ≡ true
        → IsUp s
        → IsUp (keep_alive_check etcd own t (ok b) s).0
    unfolding keep_alive_channel
    checked-IsUp t true s e h = opened-IsUp t.opened (keep_alive_internal t.hears) s h
    checked-IsUp t false s e h = absurd (false-true e)

    checked_over :
        (t : Turn) (b : Bool) (s : KeepAlive etcd own)
        → b ≡ false
        → (keep_alive_check etcd own t (ok b) s).0.alive ≡ false
    checked_over t true s e = absurd (false-true (sym e))
    checked_over t false s e = refl

    abbrev IsFresh : Center etcd own × Option LeaseError → Type 0
    IsFresh (c, failed) =
        (failed ≡ none) × (live c.db c.lease_id ≡ true) × IsRegistered etcd own value c

    on_put-IsFresh :
        (o : Option Db) (c : Center etcd own) (after : Db)
        → o ≡ some after
        → live after c.lease_id ≡ true
        → stored after (own_key etcd own) ≡ some (value, c.lease_id)
        → IsFresh (on_put etcd own up o c)
    on_put-IsFresh none c after e l h = absurd (some-none after (sym e))
    on_put-IsFresh (some d) c after e l h =
        let same : after ≡ d = sym (some-injective _ _ e) in
        (
          refl,
          subst (λ x. live x c.lease_id ≡ true) same l,
          subst (λ x. stored x (own_key etcd own) ≡ some (value, c.lease_id)) same h,
        )

    granted-IsFresh : (c : Center etcd own) → IsFresh (granted etcd own value marshalled up up c)
    unfolding grant_lease_and_reregister_self grant_lease register_self
    granted-IsFresh c =
        let (after, e, l) =
          etcd.put_accepted (own_key etcd own) value (etcd.grant c.db).1 (etcd.grant c.db).0
            (etcd.grant_live c.db) in
        subst (λ o. IsFresh (put_own etcd own up o (grant_lease etcd own up c).0)) (sym marshalled)
          (on_put-IsFresh _ (grant_lease etcd own up c).0 after e l
            (etcd.put_stored _ _ _ _ after e))

    granted-IsUp :
        (t : Turn) (r : Center etcd own × Option LeaseError) (s : KeepAlive etcd own)
        → IsFresh r
        → IsUp (keep_alive_grant etcd own t r s).0
    unfolding keep_alive_channel
    granted-IsUp t (c, some e) s (e0, l, h) = absurd (some-none e e0)
    granted-IsUp t (c, none) s (e0, l, h) =
        opened-IsUp t.opened (keep_alive_internal t.hears) _ (refl, l, h)

    -- A turn that is not cancelled and whose calls are answered.
    abbrev pub answered : Bool → List Heard → Turn
    answered opened hears = record {
      ctx_done = false;
      checking = up;
      granting = up;
      putting = up;
      opened = opened;
      hears = hears;
    }

    module _ (opened : Bool) (hears : List Heard) where
      abbrev pub once : KeepAlive etcd own → KeepAlive etcd own
      once s = (keep_alive etcd own (answered opened hears) s).0

      once-IsUp : (s : KeepAlive etcd own) → IsUp s → IsUp (once s)
      unfolding keep_alive check_lease_alive
      once-IsUp s (on, lives, there) =
          if_cases IsUpAfter s.alive _ _
            (λ e. checked-IsUp (answered opened hears) _ s lives (on, lives, there))
            (λ off. absurd (false-true (sym off ∙ on)))

      once_finds :
          (s : KeepAlive etcd own)
          → s.alive ≡ true
          → live s.centre.db s.centre.lease_id ≡ false
          → (once s).alive ≡ false
      unfolding keep_alive check_lease_alive
      once_finds s on over =
          if_cases IsOffAfter s.alive _ _ (λ e. checked_over (answered opened hears) _ s over)
            (λ off. absurd (false-true (sym off ∙ on)))

      once_registers : (s : KeepAlive etcd own) → s.alive ≡ false → IsUp (once s)
      unfolding keep_alive
      once_registers s off =
          if_cases IsUpAfter s.alive _ _ (λ on. absurd (false-true (sym off ∙ on)))
            (λ e. granted-IsUp (answered opened hears) _ s (granted-IsFresh s.centre))

    -- Two turns whose calls are answered.
    twice-IsUp :
        (b1 b2 : Bool) (h1 h2 : List Heard) (s : KeepAlive etcd own)
        → IsKept s
        → IsUp (once b2 h2 (once b1 h1 s))
    twice-IsUp b1 b2 h1 h2 s k = elim (Bool-cases s.alive) [
      | inr off ↦ once-IsUp b2 h2 _ (once_registers b1 h1 s off)
      | inl on ↦ elim (Bool-cases (live s.centre.db s.centre.lease_id)) [
        | inl lives ↦ once-IsUp b2 h2 _ (once-IsUp b1 h1 s (on, lives, k on lives))
        | inr over ↦ once_registers b2 h2 _ (once_finds b1 h1 s on over)
      ]
    ]

    -- Where the centre's node can be marshalled: after a `Start` that succeeds and whatever turns
    -- of keepAlive and changes of etcd follow it, two turns whose calls are answered leave the
    -- centre's node in etcd under a lease that lives, with keepAlive aware of it. The changes of
    -- etcd may end leases at any time, but do not remove or overwrite what hangs on one that lives.
    pub keep_alive-start_recovers :
        (links : StartLinks) (c : Center etcd own) (s : KeepAlive etcd own) (b1 b2 : Bool)
        (h1 h2 : List Heard)
        → (start etcd own links c).1 ≡ none
        → Reach (keep_alive_start etcd own (start etcd own links c).0) s
        → IsUp (once b2 h2 (once b1 h1 s))
    unfolding keep_alive_start
    keep_alive-start_recovers links c s b1 b2 h1 h2 e r =
        twice-IsUp b1 b2 h1 h2 s
          (Reach-IsKept _ s r (λ on lives. start-IsRegistered etcd own value marshalled links c e))
