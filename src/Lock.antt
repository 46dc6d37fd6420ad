-- ===== src/Lock.antt =====
-- The distributed lock: base/db/redis/dlock.go. The server is the map of the texts it stores; a
-- call may fail, and then it has not been made.
pub mod Exclusion
use ggskit.Common.Int.{ℤ, pos, negsuc}
use ggskit.Common.{
  [], ℕ, zero, suc, ◌-◌, ◌/◌, ◌^◌, Bool, true, false, not, Option, none, some, List, ◌∷◌, ltb,
  if◌then◌else◌, Text, ◌==◌, Map, put, delete, nat_eq, text_eq,
}

-- `DLock`; the expiry of its options is in nanoseconds.
pub record DLock : Type 0 where
  pub key : Text
  pub value : Text
  pub expiry : ℤ
  pub locked : Bool

pub data LockError : Type 0 where
  lock_redis_failed lock_not_obtained lock_not_held : LockError

abbrev pub Server : Type 0
Server = Map Text Text

-- `Duration.Milliseconds`, towards zero.
abbrev pub milliseconds : ℤ → ℤ
milliseconds (pos n) = pos (n / 10 ^ 6)
milliseconds (negsuc n) = if ltb (suc n) (10 ^ 6) then pos 0 else negsuc (suc n / 10 ^ 6 - 1)

-- `PEXPIRE` on a key that exists: a time that is not positive deletes it.
abbrev pub pexpire : Text → ℤ → Server → Server
pexpire key (pos (suc n)) db = db
pexpire key (pos zero) db = delete key db
pexpire key (negsuc n) db = delete key db

abbrev pub holds : Server → Text → Text → Bool
holds db key value = elim (db key) [ none ↦ false | some v ↦ v == value ]

-- `unlockScript` and `refreshScript`.
unfoldable pub unlock_script : Text → Text → Server → Server × ℕ
unlock_script key value db = if holds db key value then (delete key db, 1) else (db, 0)

unfoldable pub refresh_script : Text → Text → ℤ → Server → Server × ℕ
refresh_script key value ms db = if holds db key value then (pexpire key ms db, 1) else (db, 0)

-- `TryLock`, with `SET NX`.
unfoldable pub try_lock : Bool → DLock → Server → (Server × DLock) × Option LockError
try_lock false dl db = ((db, dl), some lock_redis_failed)
try_lock true dl db = elim (db dl.key) [
  | none ↦ ((put dl.key dl.value db, record dl { locked = true }), none)
  | some v ↦ ((db, dl), some lock_not_obtained)
]

-- `Unlock`.
unfoldable pub unlock : Bool → DLock → Server → (Server × DLock) × Option LockError
unlock reachable dl db =
    if not dl.locked
    then ((db, dl), some lock_not_held)
    else if not reachable
    then ((db, dl), some lock_redis_failed)
    else let out = unlock_script dl.key dl.value db in
      if out.1 == 1
      then ((out.0, record dl { locked = false }), none)
      else ((out.0, dl), some lock_not_held)

-- `Refresh`.
unfoldable pub refresh_lock : Bool → DLock → Server → (Server × DLock) × Option LockError
refresh_lock reachable dl db =
    if not dl.locked
    then ((db, dl), some lock_not_held)
    else if not reachable
    then ((db, dl), some lock_redis_failed)
    else let out = refresh_script dl.key dl.value (milliseconds dl.expiry) db in
      if out.1 == 1 then ((out.0, dl), none) else ((out.0, dl), some lock_not_held)

-- `Lock`, over what happens until it is cancelled: the server as each attempt finds it, and whether
-- it can be reached.
unfoldable pub lock : List (Bool × Server) → DLock → DLock × Bool
lock [] dl = (dl, false)
lock ((reachable, db) ∷ attempts) dl =
    let tried = try_lock reachable dl db in
    elim tried.1 [ none ↦ (tried.0.1, true) | some e ↦ lock attempts dl ]
