-- ===== src/Background/Ops.antt =====
-- The operations of the background: infra/mongobd/op.go. The MongoDB driver is a parameter.
use ggskit.Common.Int.{ℤ}
use ggskit.Common.{Bool, Option, none, some, List, [], ◌∷◌, ◌++◌, Text, nat_eq, text_eq}

-- The driver: one call for each kind of operation, each with the time limit that the worker sets
-- where the context has none; a call may panic.
pub data Reply (A : Type 0) (Error : Type 0) : Type 0 where
  replied : A → Reply A Error
  failed : Error → Reply A Error
  panicked : Reply A Error

pub record Driver : Type 1 where
  pub Db : Type 0
  pub Value : Type 0
  pub Error : Type 0
  pub panic_error : Error
  pub find_one : Text → Text → Bool → Value → Option Value → Option ℤ → Db → Db × Reply Value Error
  pub update_one : Text → Text → Value → Value → Bool → Option ℤ → Db → Db × Reply (Unit {0}) Error
  pub bulk_write : Text → Text → List Value → Bool → Option ℤ → Db → Db × Reply (Unit {0}) Error

module _ (driver : Driver) where
  open driver use {Db, Value, Error, panic_error, find_one, update_one, bulk_write}

  pub record OpLoad : Type 0 where
    pub load_filter : Value
    pub projection : Option Value
    pub primary : Bool

  pub record OpUpdate : Type 0 where
    pub update_filter : Value
    pub update : Value
    pub upsert : Bool

  pub record OpBulk : Type 0 where
    pub models : List Value
    pub ordered : Bool

  -- The setters.
  abbrev pub set_load_filter : Value → OpLoad → OpLoad
  set_load_filter v o = record o { load_filter = v }

  abbrev pub set_projection : Value → OpLoad → OpLoad
  set_projection v o = record o { projection = some v }

  abbrev pub set_primary : Bool → OpLoad → OpLoad
  set_primary b o = record o { primary = b }

  abbrev pub set_update_filter : Value → OpUpdate → OpUpdate
  set_update_filter v o = record o { update_filter = v }

  abbrev pub set_update : Value → OpUpdate → OpUpdate
  set_update v o = record o { update = v }

  abbrev pub set_upsert : Bool → OpUpdate → OpUpdate
  set_upsert b o = record o { upsert = b }

  abbrev pub set_models : List Value → OpBulk → OpBulk
  set_models vs o = record o { models = vs }

  abbrev pub add_model : Value → OpBulk → OpBulk
  add_model v o = record o { models = o.models ++ v ∷ [] }

  abbrev pub set_ordered : Bool → OpBulk → OpBulk
  set_ordered b o = record o { ordered = b }

  pub data OpBody : Type 0 where
    op_load : OpLoad → OpBody
    op_update : OpUpdate → OpBody
    op_bulk : OpBulk → OpBody

  -- An operation, with the fields of `opBase` that are set before it is added.
  pub record Op : Type 0 where
    pub db_name : Text
    pub coll : Text
    pub has_deadline : Bool
    pub body : OpBody

  -- `NewOpWithContext`, with the body that the type gives.
  abbrev pub new_op : Bool → Text → Text → OpBody → Op
  new_op has_deadline db_name coll body = record {
    db_name = db_name;
    coll = coll;
    has_deadline = has_deadline;
    body = body;
  }

  -- An operation on its done channel, with its error and what was loaded.
  pub record Done : Type 0 where
    pub op : Op
    pub error : Option Error
    pub target : Option Value

  -- `opDone`, and `Err` of what it sends.
  abbrev pub op_done : Op → Option Error → Option Value → Done
  op_done op error target = record { op = op; error = error; target = target }

  -- The end of an operation, by itself or by the recovery of its worker.
  abbrev pub loaded : Op → Db × Reply Value Error → Db × Done
  loaded op (db, replied v) = (db, op_done op none (some v))
  loaded op (db, failed e) = (db, op_done op (some e) none)
  loaded op (db, panicked) = (db, op_done op (some panic_error) none)

  abbrev pub written : Op → Db × Reply (Unit {0}) Error → Db × Done
  written op (db, replied v) = (db, op_done op none none)
  written op (db, failed e) = (db, op_done op (some e) none)
  written op (db, panicked) = (db, op_done op (some panic_error) none)

  -- `OpLoad.exec`, `OpUpdate.exec` and `OpBulk.exec`.
  unfoldable pub exec_load : OpLoad → Op → Option ℤ → Db → Db × Done
  exec_load o op limit db =
      loaded op (find_one op.db_name op.coll o.primary o.load_filter o.projection limit db)

  unfoldable pub exec_update : OpUpdate → Op → Option ℤ → Db → Db × Done
  exec_update o op limit db =
      written op (update_one op.db_name op.coll o.update_filter o.update o.upsert limit db)

  unfoldable pub exec_bulk : OpBulk → Op → Option ℤ → Db → Db × Done
  exec_bulk o op limit db = written op (bulk_write op.db_name op.coll o.models o.ordered limit db)

  abbrev pub exec_op : OpBody → Op → Option ℤ → Db → Db × Done
  exec_op (op_load o) = exec_load o
  exec_op (op_update o) = exec_update o
  exec_op (op_bulk o) = exec_bulk o
