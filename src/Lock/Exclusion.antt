-- ===== src/Lock/Exclusion.antt =====
-- A lock is its holder's.
use ggskit.Lock.{
  lock, DLock, LockError, lock_redis_failed, lock_not_obtained, lock_not_held, Server, holds,
  unlock_script, refresh_script, try_lock, unlock, refresh_lock,
}
use ggskit.Common.{
  All, List, [], ◌∷◌, ◌≡◌, refl, sym, ap, ◌∙◌, ◌≢◌, inl, inr, Bool, true, false, Option, none, some,
  Bool-cases, Text, ◌==◌, nat_eq, text_eq, ==_refl, ==_ne, put, delete, put_self,
}

abbrev pub Refused : Server → (Server × DLock) × Option LockError → Type 0
Refused db out = (out.0.0 ≡ db) × (out.1 ≢ none)

refuses : (db : Server) (dl : DLock) (e : LockError) → Refused db ((db, dl), some e)
refuses db dl e = (refl, λ h. cc)

not_held :
    (db : Server) (key value v : Text) → db key ≡ some v → v ≢ value → holds db key value ≡ false
not_held db key value v h n =
    ap (λ (o : Option Text). elim o [ none ↦ false | some x ↦ x == value ]) h ∙ ==_ne v value n

unlock_refuses :
    (reachable : Bool) (dl : DLock) (db : Server)
    → holds db dl.key dl.value ≡ false
    → Refused db (unlock reachable dl db)
unfolding unlock unlock_script
unlock_refuses reachable dl db h = elim (Bool-cases dl.locked) [
  | inr free ↦ rw (unlock, free) (refuses db dl lock_not_held)
  | inl held ↦ elim (Bool-cases reachable) [
    | inr lost ↦ rw (unlock, held, lost) (refuses db dl lock_redis_failed)
    | inl up ↦ rw (unlock, held, up, unlock_script, h) (refuses db dl lock_not_held)
  ]
]

refresh_refuses :
    (reachable : Bool) (dl : DLock) (db : Server)
    → holds db dl.key dl.value ≡ false
    → Refused db (refresh_lock reachable dl db)
unfolding refresh_lock refresh_script
refresh_refuses reachable dl db h = elim (Bool-cases dl.locked) [
  | inr free ↦ rw (refresh_lock, free) (refuses db dl lock_not_held)
  | inl held ↦ elim (Bool-cases reachable) [
    | inr lost ↦ rw (refresh_lock, held, lost) (refuses db dl lock_redis_failed)
    | inl up ↦ rw (refresh_lock, held, up, refresh_script, h) (refuses db dl lock_not_held)
  ]
]

try_fails :
    (reachable : Bool) (dl : DLock) (db : Server) (v : Text)
    → db dl.key ≡ some v
    → (e : LockError) × (try_lock reachable dl db ≡ ((db, dl), some e))
unfolding try_lock
try_fails false dl db v h = (lock_redis_failed, refl)
try_fails true dl db v h = (lock_not_obtained, rw (try_lock, h) refl)

try_refuses :
    (reachable : Bool) (dl : DLock) (db : Server) (v : Text)
    → db dl.key ≡ some v
    → Refused db (try_lock reachable dl db)
try_refuses reachable dl db v h =
    let (e, tried) = try_fails reachable dl db v h in rw tried (refuses db dl e)

-- Another value than the lock's is under its key.
abbrev pub IsHeldByOther : DLock → Server → Type 0
IsHeldByOther dl db = (v : Text) × (db dl.key ≡ some v) × (v ≢ dl.value)

lock_waits :
    (attempts : List (Bool × Server)) (dl : DLock)
    → All (λ a. IsHeldByOther dl a.1) attempts
    → lock attempts dl ≡ (dl, false)
unfolding lock
lock_waits [] dl h = refl
lock_waits ((reachable, db) ∷ attempts) dl ((v, e, n), hs) =
    let (error, tried) = try_fails reachable dl db v e in
    rw (lock, tried) (lock_waits attempts dl hs)

-- While another value holds the key of a lock, TryLock, Unlock and Refresh of the lock fail and
-- leave the server as it is, whatever the lock believes of itself, and Lock has not succeeded after
-- any attempts that all find the key so held.
pub lock_excludes_others :
    (reachable : Bool) (dl : DLock) (db : Server) (attempts : List (Bool × Server))
    → IsHeldByOther dl db
    → All (λ a. IsHeldByOther dl a.1) attempts
    → Refused db (try_lock reachable dl db)
      × Refused db (unlock reachable dl db)
      × Refused db (refresh_lock reachable dl db)
      × (lock attempts dl ≡ (dl, false))
lock_excludes_others reachable dl db attempts (v, h, n) hs =
    let no = not_held db dl.key dl.value v h n in
    (
      try_refuses reachable dl db v h,
      unlock_refuses reachable dl db no,
      refresh_refuses reachable dl db no,
      lock_waits attempts dl hs,
    )

taken_holds : (db : Server) (key value : Text) → holds (put key value db) key value ≡ true
taken_holds db key value =
    ap (λ (o : Option Text). elim o [ none ↦ false | some x ↦ x == value ]) (put_self key value db)
    ∙ ==_refl value

released :
    (db : Server) (key value j : Text) → db key ≡ none → delete key (put key value db) j ≡ db j
released db key value j h = elim (Bool-cases (key == j)) [
  | inl same ↦ rw same (sym (ap db (sym ((text_eq.beq_iff key j).0 same)) ∙ h))
  | inr other ↦ rw other refl
]

-- Over a working connection, a lock on a free key that is taken and released is no longer held, and
-- the server is as before at every key.
pub unlock-try_lock :
    (dl : DLock) (db : Server) (j : Text)
    → db dl.key ≡ none
    → let taken = (try_lock true dl db).0 in
      let out = unlock true taken.1 taken.0 in
      (out.1 ≡ none) × (out.0.1.locked ≡ false) × (out.0.0 j ≡ db j)
unfolding try_lock unlock unlock_script
unlock-try_lock dl db j h =
    rw (try_lock, h, unlock, unlock_script, taken_holds db dl.key dl.value)
      (refl, refl, released db dl.key dl.value j h)
