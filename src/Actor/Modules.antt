-- ===== src/Actor/Modules.antt =====
-- The data modules of an actor: infra/actor/module.go. Reflection and BSON are a parameter; panics
-- are results. A Go map that holds nil under a key reads as one without that key.
pub mod Registration
pub mod Stored
use mathlib.Core.Option
use ggskit.Common.{
  [], ◌≡◌, ◌↔◌, Bool, true, false, Option, none, some, List, ◌∷◌, ◌++◌, map, if◌then◌else◌, Text,
  ◌==◌, Map, put, Result, ok, err, ◌>>=◌, assoc, nat_eq, text_eq,
}

-- A module's type, its instances (`reflect.New` with `OnInit`) and its BSON; `raw_of` is the
-- encoded value of an instance, which is decoded into a new instance of its type.
pub record ModuleLib : Type 1 where
  pub Kind : Type 0
  pub Module : Type 0
  pub Doc : Type 0
  pub Raw : Type 0
  pub kind_of : Module → Kind
  pub kind_beq : Kind → Kind → Bool
  pub new_module : Kind → Module
  pub marshal : List (Text × Module) → Option Doc
  pub lookup : Doc → Text → Option Raw
  pub unmarshal_value : Raw → Module → Option Module
  pub raw_of : Module → Raw
  pub kind_of-new_module : (k : Kind) → kind_of (new_module k) ≡ k
  pub kind_beq_iff : (a b : Kind) → (kind_beq a b ≡ true) ↔ (a ≡ b)
  -- A document has the encoded values under the keys of its elements, the first of each key.
  pub lookup-marshal :
      (elements : List (Text × Module)) (doc : Doc)
      → marshal elements ≡ some doc
      → (key : Text) → lookup doc key ≡ Option.map raw_of (assoc key elements)

pub data ModulePanic : Type 0 where
  already_registered must_be_pointer not_exists other_type : Text → ModulePanic
  nil_registry : ModulePanic

pub data BsonError : Type 0 where
  marshal_failed : BsonError
  unmarshal_failed : Text → BsonError

module _ (lib : ModuleLib) where
  open lib use {
    Kind, Module, Doc, Raw, kind_of, kind_beq, new_module, marshal, lookup, unmarshal_value,
  }

  -- What `reflect.TypeOf` gives.
  pub data GoType : Type 0 where
    pointer_to other_than_pointer : Kind → GoType

  -- `moduleInfo`.
  pub record ModuleInfo : Type 0 where
    pub key : Text
    pub typ : Kind

  -- `moduleInfo.create`.
  abbrev pub create_info : ModuleInfo → Module
  create_info mi = new_module mi.typ

  pub record ModuleRegistry : Type 0 where
    pub module_list : List ModuleInfo
    pub module_map : Map Text ModuleInfo

  -- `NewModuleRegistry`.
  abbrev pub new_module_registry : ModuleRegistry
  new_module_registry = record { module_list = []; module_map = λ key. none }

  abbrev pub add_info : Text → GoType → ModuleRegistry → Result ModulePanic ModuleRegistry
  add_info key (other_than_pointer k) mr = err (must_be_pointer key)
  add_info key (pointer_to k) mr =
      let mi : ModuleInfo = record { key = key; typ = k } in
      ok (record { module_list = mr.module_list ++ mi ∷ []; module_map = put key mi mr.module_map })

  -- `Register`.
  abbrev pub register_new :
      Text → GoType → ModuleRegistry → Option ModuleInfo → Result ModulePanic ModuleRegistry
  register_new key go_type mr (some mi) = err (already_registered key)
  register_new key go_type mr none = add_info key go_type mr

  unfoldable pub register_module :
      Text → GoType → ModuleRegistry → Result ModulePanic ModuleRegistry
  register_module key go_type mr = register_new key go_type mr (mr.module_map key)

  -- `Create`.
  unfoldable pub create_module : Text → ModuleRegistry → Option Module
  create_module key mr = Option.map create_info (mr.module_map key)

  -- `Modules`; `Release` sets both of its fields to nil.
  pub data Modules : Type 0 where
    holding : ModuleRegistry → Map Text Module → Modules
    released : Modules

  -- `NewModules`.
  abbrev pub new_modules : ModuleRegistry → Modules
  new_modules mr = holding mr (λ key. none)

  unfoldable pub init_infos : List ModuleInfo → Map Text Module → Map Text Module
  init_infos [] m = m
  init_infos (mi ∷ mis) m = init_infos mis (put mi.key (create_info mi) m)

  -- `InitAllModules`.
  unfoldable pub init_all_modules : Modules → Result ModulePanic Modules
  init_all_modules released = err nil_registry
  init_all_modules (holding mr m) = ok (holding mr (init_infos mr.module_list m))

  -- The assignment to a map, of nil too.
  abbrev pub assign : Text → Option Module → Map Text Module → Map Text Module
  assign key o m j = if key == j then o else m j

  -- `Modules.GetModule`.
  abbrev pub found_module :
      Text → Bool → ModuleRegistry → Map Text Module → Option Module → Option Module × Modules
  found_module key auto mr m (some found) = (some found, holding mr m)
  found_module key true mr m none =
      let made = create_module key mr in (made, holding mr (assign key made m))
  found_module key false mr m none = (none, holding mr m)

  unfoldable pub get_module : Text → Bool → Modules → Result ModulePanic (Option Module × Modules)
  get_module key auto (holding mr m) = ok (found_module key auto mr m (m key))
  get_module key true released = err nil_registry
  get_module key false released = ok (none, released)

  -- The generic `GetModule`, which asserts the type.
  abbrev pub as_type : Text → Kind → Option Module × Modules → Result ModulePanic (Module × Modules)
  as_type key want (none, ms) = err (not_exists key)
  as_type key want (some m, ms) =
      if kind_beq (kind_of m) want then ok (m, ms) else err (other_type key)

  unfoldable pub get_typed_module :
      Text → Kind → Bool → Modules → Result ModulePanic (Module × Modules)
  get_typed_module key want auto ms = get_module key auto ms >>= as_type key want

  -- `Release`.
  abbrev pub release_modules : Modules → Modules
  release_modules ms = released

  -- The elements of `MarshalBSON`, in the order of registration.
  abbrev pub element : Text → Option Module → List (Text × Module) → List (Text × Module)
  element key none es = es
  element key (some m) es = (key, m) ∷ es

  unfoldable pub elements : List ModuleInfo → Map Text Module → List (Text × Module)
  elements [] m = []
  elements (mi ∷ mis) m = element mi.key (m mi.key) (elements mis m)

  abbrev pub or_marshal_error : Option Doc → Result BsonError Doc
  or_marshal_error none = err marshal_failed
  or_marshal_error (some doc) = ok doc

  -- `MarshalBSON`.
  unfoldable pub marshal_bson : Modules → Result ModulePanic (Result BsonError Doc)
  marshal_bson released = err nil_registry
  marshal_bson (holding mr m) = ok (or_marshal_error (marshal (elements mr.module_list m)))

  -- The loop of `UnmarshalBSON`; an error ends it, with what was set before.
  abbrev pub set_decoded :
      ModuleInfo → Option Module → Map Text Module → Map Text Module × Option BsonError
  set_decoded mi none m = (m, some (unmarshal_failed mi.key))
  set_decoded mi (some decoded) m = (put mi.key decoded m, none)

  abbrev pub read_value :
      ModuleInfo → Option Raw → Map Text Module → Map Text Module × Option BsonError
  read_value mi none m = (m, none)
  read_value mi (some raw) m = set_decoded mi (unmarshal_value raw (create_info mi)) m

  abbrev pub unless_failed :
      (Map Text Module → Map Text Module × Option BsonError)
      → Map Text Module × Option BsonError
      → Map Text Module × Option BsonError
  unless_failed f (m, none) = f m
  unless_failed f (m, some e) = (m, some e)

  unfoldable pub read_values :
      Doc → List ModuleInfo → Map Text Module → Map Text Module × Option BsonError
  read_values doc [] m = (m, none)
  read_values doc (mi ∷ mis) m =
      unless_failed (read_values doc mis) (read_value mi (lookup doc mi.key) m)

  -- `UnmarshalBSON`.
  unfoldable pub unmarshal_bson : Doc → Modules → Result ModulePanic (Modules × Option BsonError)
  unmarshal_bson doc released = err nil_registry
  unmarshal_bson doc (holding mr m) =
      let (after, failed) = read_values doc mr.module_list m in ok (holding mr after, failed)
