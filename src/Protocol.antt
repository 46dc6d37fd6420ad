-- ===== src/Protocol.antt =====
-- The registry of message types: base/protocol/registry.go. A Go type is a value of `T`; the hash
-- of a name is a parameter.
pub mod OneToOne
use ggskit.Common.{
  [], ℕ, Bool, not, Option, none, some, ◌∷◌, ◌++◌, if◌then◌else◌, Text, Eq, ◌==◌, Map, put, Result,
  ok, err, nat_eq, text_eq,
}

-- What `reflect` and protobuf say of a message.
pub record MessageInfo (T : Type 0) : Type 0 where
  pub is_nil : Bool
  pub is_pointer : Bool
  pub elem_type : T
  pub proto_name : Text
  pub pkg_path : Text
  pub type_name : Text

pub data RegistryError : Type 0 where
  proto_nil proto_not_pointer pid_collision type_registered pid_unknown type_differs : RegistryError

pub record ProtoRegistry (T : Type 0) : Type 0 where
  pub pid2_type : Map ℕ T
  pub type2_pid : Map T ℕ

module _ {T : Type 0} ⦃e : Eq T⦄ where
  -- `NewRegistry`.
  unfoldable pub new_registry : ProtoRegistry T
  new_registry = record { pid2_type = λ p. none; type2_pid = λ t. none }

  -- `getMessageName`.
  unfoldable pub get_message_name : MessageInfo T → Text
  get_message_name msg =
      if not (msg.proto_name == [])
      then msg.proto_name
      else if not (msg.pkg_path == [])
      then msg.pkg_path ++ b'.' ∷ msg.type_name
      else msg.type_name

  abbrev pub by_type : ℕ → T → Option ℕ → ProtoRegistry T → ProtoRegistry T × Result RegistryError ℕ
  by_type pid t (some old) r = if not (old == pid) then (r, err type_registered) else (r, ok pid)
  by_type pid t none r =
      (record { pid2_type = put pid t r.pid2_type; type2_pid = put t pid r.type2_pid }, ok pid)

  abbrev pub by_pid : ℕ → T → Option T → ProtoRegistry T → ProtoRegistry T × Result RegistryError ℕ
  by_pid pid t (some old) r = if not (old == t) then (r, err pid_collision) else (r, ok pid)
  by_pid pid t none r = by_type pid t (r.type2_pid t) r

  -- `Register`; `hash_pid` is the hash of the name.
  unfoldable pub register :
      (Text → ℕ) → MessageInfo T → ProtoRegistry T → ProtoRegistry T × Result RegistryError ℕ
  register hash_pid msg r =
      let pid = hash_pid (get_message_name msg) in
      if msg.is_nil
      then (r, err proto_nil)
      else if not msg.is_pointer
      then (r, err proto_not_pointer)
      else by_pid pid msg.elem_type (r.pid2_type pid) r

  -- `GetPid`.
  unfoldable pub get_pid : MessageInfo T → ProtoRegistry T → Option ℕ
  get_pid msg r = if not msg.is_pointer then none else r.type2_pid msg.elem_type

  -- `Create`: the type of the new message.
  unfoldable pub create : ℕ → ProtoRegistry T → Result RegistryError T
  create pid r = elim (r.pid2_type pid) [ none ↦ err pid_unknown | some t ↦ ok t ]

  abbrev pub check_type : Option T → MessageInfo T → Option RegistryError
  check_type none msg = some pid_unknown
  check_type (some t) msg =
      if not msg.is_pointer
      then some proto_not_pointer
      else if not (msg.elem_type == t)
      then some type_differs
      else none

  -- `Check`.
  unfoldable pub check : ℕ → MessageInfo T → ProtoRegistry T → Option RegistryError
  check pid msg r = check_type (r.pid2_type pid) msg
