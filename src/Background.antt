-- ===== src/Background.antt =====
-- Database operations in the background: infra/mongobd. The MongoDB driver is a parameter. A call
-- that waits for room in a queue is the error `add_waits`, and a panic is an error too; operations
-- go to a done channel that takes them at once, which is the list of what a worker has done.
pub mod Ops
pub mod Queues
pub mod Order
use ggskit.Common.Int.{negsuc, pos, ℤ}
use Prim.Native.Nat.{bit_xor}
use ggskit.Background.Ops.{Driver, Op, Done, exec_op, op_done}
use ggskit.Common.{
  [], ℕ, zero, suc, ◌-◌, ◌*◌, ◌%◌, ◌^◌, Bool, true, false, not, Option, none, some, List, ◌∷◌, ◌++◌,
  ltb, if◌then◌else◌, Text, length, get_elem?, replicate, Result, ok, err,
}

-- `check`: the given client and logger as flags, and the number of processors.
pub record BdConfig : Type 0 where
  pub has_client : Bool
  pub workers : ℤ
  pub max_worker_ops : ℤ
  pub def_exec_timeout : ℤ
  pub has_logger : Bool

pub data BdError : Type 0 where
  no_client no_logger : BdError

abbrev pub or_default : ℤ → ℤ → ℤ
or_default (pos zero) d = d
or_default (pos (suc n)) d = pos (suc n)
or_default (negsuc n) d = d

unfoldable pub check_bd : ℕ → BdConfig → Result BdError BdConfig
check_bd num_cpu c =
    if not c.has_client
    then err no_client
    else if not c.has_logger
    then err no_logger
    else ok (record c {
      workers = or_default c.workers (pos num_cpu);
      max_worker_ops = or_default c.max_worker_ops (pos 1000);
      def_exec_timeout = or_default c.def_exec_timeout (pos (5 * 10 ^ 9));
    })

-- A hash key by its type: a signed or an unsigned number, a string, what has a `HashCode`, or else.
pub data HashKey : Type 0 where
  int_key : ℤ → HashKey
  uint_key : ℕ → HashKey
  string_key : Text → HashKey
  coded_key : ℕ → HashKey
  other_key : HashKey

abbrev pub uint64 : ℤ → ℕ
uint64 (pos n) = n % 2 ^ 64
uint64 (negsuc n) = 2 ^ 64 - 1 - n % 2 ^ 64

-- The loop of FNV-1a.
abbrev pub fnv : ℕ → Text → ℕ
fnv h [] = h
fnv h (b ∷ bs) = fnv (bit_xor h b * 1099511628211 % 2 ^ 64) bs

-- `getHashCode`.
unfoldable pub get_hash_code : HashKey → Option ℕ
get_hash_code (int_key z) = some (uint64 z)
get_hash_code (uint_key n) = some n
get_hash_code (string_key s) = some (fnv 14695981039346656037 s)
get_hash_code (coded_key n) = some n
get_hash_code other_key = none

module _ (driver : Driver) where
  open driver use {Db, Error}

  -- `safeExec`; the context may have ended.
  unfoldable pub safe_exec : ℤ → Option Error → Op driver → Db → Db × Done driver
  safe_exec timeout (some e) op db = (db, op_done driver op (some e) none)
  safe_exec timeout none op db =
      exec_op driver op.body op (if op.has_deadline then none else some timeout) db

  pub record Worker : Type 0 where
    pub ops : List (Op driver)
    pub done : List (Done driver)

  pub record Bd : Type 0 where
    pub wks : List Worker
    pub db : Db
    pub capacity : ℕ
    pub timeout : ℤ

  abbrev pub idle : Worker
  idle = record { ops = []; done = [] }

  -- `NewBD`, of a configuration that `check` has filled in.
  unfoldable pub new_bd : ℕ → ℕ → ℤ → Db → Bd
  new_bd workers capacity timeout db = record {
    wks = replicate workers idle;
    db = db;
    capacity = capacity;
    timeout = timeout;
  }

  abbrev pub update_at : ℕ → (Worker → Worker) → List Worker → List Worker
  update_at i f [] = []
  update_at zero f (w ∷ ws) = f w ∷ ws
  update_at (suc i) f (w ∷ ws) = w ∷ update_at i f ws

  pub data AddError : Type 0 where
    op_is_nil done_is_nil ctx_done add_waits invalid_key divides_by_zero : AddError

  abbrev pub send : Op driver → Worker → Worker
  send op w = record w { ops = w.ops ++ op ∷ [] }

  -- The `select` of `Add`: whether there is room, whether the context has ended, and which of the
  -- two is taken where both are possible.
  abbrev pub select_send : Bool → Bool → Bool → Bd → Bd → Result AddError Bd
  select_send true true true s sent = ok sent
  select_send true true false s sent = err ctx_done
  select_send true false first s sent = ok sent
  select_send false true first s sent = err ctx_done
  select_send false false first s sent = err add_waits

  abbrev pub has_room : ℕ → Option Worker → Bool
  has_room capacity none = false
  has_room capacity (some w) = ltb (length w.ops) capacity

  abbrev pub add_to : Bool → Bool → Op driver → ℕ → Bd → Result AddError Bd
  add_to ended first op i s =
      select_send (has_room s.capacity (get_elem? s.wks i)) ended first s
        (record s { wks = update_at i (send op) s.wks })

  -- The worker of a hash code; with no worker the remainder panics.
  abbrev pub add_hashed : Bool → Bool → Op driver → Option ℕ → List Worker → Bd → Result AddError Bd
  add_hashed ended first op none wks s = err invalid_key
  add_hashed ended first op (some hc) [] s = err divides_by_zero
  add_hashed ended first op (some hc) (w ∷ ws) s = add_to ended first op (hc % suc (length ws)) s

  -- `Add`.
  unfoldable pub add_op :
      Bool → Bool → HashKey → Option (Op driver) → (has_done : Bool) → Bd → Result AddError Bd
  add_op ended first key none has_done s = err op_is_nil
  add_op ended first key (some op) false s = err done_is_nil
  add_op ended first key (some op) true s = add_hashed ended first op (get_hash_code key) s.wks s

  -- A turn of the loop of `run` of a worker.
  abbrev pub take_done : List (Op driver) → Done driver → Worker → Worker
  take_done rest d w = record w { ops = rest; done = w.done ++ d ∷ [] }

  abbrev pub run_head : ℕ → Option Error → List (Op driver) → Bd → Bd
  run_head i ended [] s = s
  run_head i ended (op ∷ rest) s =
      let (db, d) = safe_exec s.timeout ended op s.db in
      record s { wks = update_at i (take_done rest d) s.wks; db = db }

  abbrev pub run_worker : ℕ → Option Error → Option Worker → Bd → Bd
  run_worker i ended none s = s
  run_worker i ended (some w) s = run_head i ended w.ops s

  unfoldable pub run_turn : ℕ → Option Error → Bd → Bd
  run_turn i ended s = run_worker i ended (get_elem? s.wks i) s

  -- The rest of the loop of `run` once the queue is closed; the context of an operation may have
  -- ended when its turn comes.
  unfoldable pub drain :
      ℤ → (Op driver → Option Error) → List (Op driver) → Db → Db × List (Done driver)
  drain timeout ended [] db = (db, [])
  drain timeout ended (op ∷ ops) db =
      let (db1, d) = safe_exec timeout (ended op) op db in
      let (db2, ds) = drain timeout ended ops db1 in (db2, d ∷ ds)

  unfoldable pub drain_all : ℤ → (Op driver → Option Error) → List Worker → Db → Db × List Worker
  drain_all timeout ended [] db = (db, [])
  drain_all timeout ended (w ∷ ws) db =
      let (db1, ds) = drain timeout ended w.ops db in
      let (db2, rest) = drain_all timeout ended ws db1 in
      (db2, record { ops = []; done = w.done ++ ds } ∷ rest)

  -- `Stop`, with the workers as they are when it returns; they run one after the other here.
  unfoldable pub stop : (Op driver → Option Error) → Bd → Bd × List Worker
  stop ended s =
      let (db, finished) = drain_all s.timeout ended s.wks s.db in
      (record s { wks = []; db = db }, finished)
