-- ===== src/Tests/Stores.antt =====
-- The theorems on the modules of an actor and on the background at concrete inputs.
use ggskit.Common.Int.{pos}
use mathlib.Core.Option
use mathlib.Core.Option.{some-injective}
use ggskit.Actor.Modules.{
  ModuleLib, pointer_to, ModuleRegistry, new_module_registry, register_module, holding, new_modules,
  marshal_bson, unmarshal_bson, elements,
}
use ggskit.Actor.Modules.Registration.{IsConsistent, register_module-IsConsistent, find_info}
use ggskit.Actor.Modules.Stored.{among, returned, IsDecodable, unmarshal_bson-marshal_bson}
use ggskit.Background.Ops.{Driver, replied, panicked, Op, op_update}
use ggskit.Background.{Bd, new_bd, add_op, int_key, get_hash_code, run_turn, stop}
use ggskit.Background.Queues.{IsOrdered}
use ggskit.Background.Order.{
  Reach, starts, adds, turns, IsFinished, Reach-IsOrdered, stop-IsFinished,
}
use ggskit.Common.{
  ℕ, suc, ◌≡◌, refl, sym, ap, true, false, none, some, List, [], ◌∷◌, nat_beq, nat_beq_iff,
  if◌then◌else◌, Text, codes, ◌==◌, nat_eq, text_eq, text_beq, Map, put, ok, assoc,
}

-- A module is its kind and one number, and a document the list of its elements.
abbrev plain : ModuleLib
plain = record {
  Kind = ℕ;
  Module = ℕ × ℕ;
  Doc = List (Text × (ℕ × ℕ));
  Raw = ℕ;
  kind_of = λ m. m.0;
  kind_beq = nat_beq;
  new_module = λ k. (k, 0);
  marshal = λ es. some es;
  lookup = λ doc key. Option.map (λ m. m.1) (assoc key doc);
  unmarshal_value = λ raw m. some (m.0, raw);
  raw_of = λ m. m.1;
  kind_of-new_module = λ k. refl;
  kind_beq_iff = nat_beq_iff;
  lookup-marshal =
      λ es doc e key. ap (λ d. Option.map (λ m. m.1) (assoc key d)) (sym (some-injective _ _ e));
}

abbrev bag_registry : ModuleRegistry plain
bag_registry = record {
  module_list = record { key = codes "bag"; typ = 4 } ∷ [];
  module_map = put (codes "bag") (record { key = codes "bag"; typ = 4 }) (λ key. none);
}

bag_registered :
    register_module plain (codes "bag") (pointer_to 4) (new_module_registry plain) ≡ ok bag_registry
unfolding register_module
bag_registered = refl

nothing-IsConsistent : IsConsistent plain (new_module_registry plain)
unfolding find_info
nothing-IsConsistent = (tt, λ key. refl)

register_module-IsConsistent_example : IsConsistent plain bag_registry
register_module-IsConsistent_example =
    register_module-IsConsistent plain (codes "bag") (pointer_to 4) (new_module_registry plain)
      bag_registry nothing-IsConsistent bag_registered

bag_consistent : IsConsistent plain bag_registry
bag_consistent =
    register_module-IsConsistent plain (codes "bag") (pointer_to 4) (new_module_registry plain)
      bag_registry nothing-IsConsistent bag_registered

abbrev filled : Map Text (ℕ × ℕ)
filled = put (codes "bag") (4, 17) (λ key. none)

abbrev bag_doc : List (Text × (ℕ × ℕ))
bag_doc = (codes "bag", (4, 17)) ∷ []

bag_marshalled : marshal_bson plain (holding bag_registry filled) ≡ ok (ok bag_doc)
unfolding marshal_bson elements text_beq
bag_marshalled = refl

abbrev bag_back : ℕ × ℕ → ℕ × ℕ
bag_back x = (4, x.1)

bag-IsDecodable : IsDecodable plain bag_back bag_registry filled
bag-IsDecodable = (λ x h. refl, tt)

unmarshal_bson-marshal_bson_example :
    (after : Map Text (ℕ × ℕ)) × (unmarshal_bson plain bag_doc (new_modules plain bag_registry)
      ≡ ok (holding bag_registry after, none))
    × ((key : Text)
        → after key
          ≡ among plain (bag_registry.module_map key) (returned plain bag_back filled key) none)
unmarshal_bson-marshal_bson_example =
    unmarshal_bson-marshal_bson plain bag_back bag_registry filled bag_doc bag_consistent
      bag-IsDecodable bag_marshalled

-- A database that counts the updates, and panics where the filter is 0.
abbrev counter : Driver
counter = record {
  Db = ℕ;
  Value = ℕ;
  Error = Text;
  panic_error = codes "panic";
  find_one = λ db_name coll primary filter projection limit db. (db, replied db);
  update_one = λ db_name coll filter update upsert limit db.
      if filter == 0 then (db, panicked) else (suc db, replied tt);
  bulk_write = λ db_name coll models ordered limit db. (db, replied tt);
}

abbrev touch : ℕ → Op counter
touch filter = record {
  db_name = codes "d";
  coll = codes "c";
  has_deadline = false;
  body = op_update (record { update_filter = filter; update = 5; upsert = false });
}

abbrev idle_bd : Bd counter
idle_bd = new_bd counter 2 1 (pos 9) 0

abbrev loaded_bd : Bd counter
loaded_bd = record idle_bd {
  wks = record { ops = []; done = [] } ∷ record { ops = touch 0 ∷ []; done = [] } ∷ [];
}

abbrev after_turn : Bd counter
after_turn = run_turn counter 1 none loaded_bd

first_added :
    add_op counter false true (int_key (pos 7)) (some (touch 0)) true idle_bd ≡ ok loaded_bd
unfolding add_op new_bd get_hash_code
first_added = refl

worked : Reach counter idle_bd ((7, touch 0) ∷ []) after_turn
unfolding get_hash_code
worked = turns (adds starts false true (int_key (pos 7)) 7 (touch 0) refl first_added) 1 none refl

Reach-IsOrdered_example : IsOrdered counter 2 ((7, touch 0) ∷ []) after_turn.wks
Reach-IsOrdered_example =
    Reach-IsOrdered counter 2 1 (pos 9) 0 ((7, touch 0) ∷ []) after_turn worked

stop-IsFinished_example :
    IsFinished counter 2 ((7, touch 0) ∷ []) (stop counter (λ op. none) after_turn).1
stop-IsFinished_example =
    stop-IsFinished counter 2 1 (pos 9) 0 ((7, touch 0) ∷ []) after_turn (λ op. none) worked
