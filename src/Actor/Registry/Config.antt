-- ===== src/Actor/Registry/Config.antt =====
-- The configuration, the parameters of the calls and their checks: infra/actor/registry.go.
-- Durations and times are nanoseconds.
use ggskit.Common.{
  ℕ, ◌*◌, ◌^◌, Bool, true, false, not, [], if◌then◌else◌, Text, ◌==◌, nat_eq, text_eq, Result, ok,
  err, ◌>>◌,
}
use ggskit.Common.Int.{ℤ, pos, leb_ℤ, ltb_ℤ}
use ggskit.Actor.Uid.{ActorUid, UidLib}

-- `RegistryConfig`; `redis_cli` says whether a client is given.
pub record RegistryConfig : Type 0 where
  pub redis_cli : Bool
  pub change_stream_max_len : ℤ
  pub local_cache_max_ttl : ℤ
  pub local_cache_safety_window : ℤ

-- The errors of the registry. `WithMessage` keeps the cause, which is what is modelled.
pub data Error : Type 0 where
  redis_client_nil uid_required node_id_required lease_id_required source_lease_id_required : Error
  ttl_invalid redis_failure bad_script_result already_registered not_exists lease_mismatch : Error
  unexpected_code : ℤ → Error

abbrev pub second : ℕ
second = 10 ^ 9

abbrev pub or_default : ℤ → ℤ → ℤ
or_default z d = if leb_ℤ z (pos 0) then d else z

-- `RegistryConfig.init`.
unfoldable pub init : RegistryConfig → Result Error RegistryConfig
init c =
    if not c.redis_cli
    then err redis_client_nil
    else ok (record c {
      change_stream_max_len = or_default c.change_stream_max_len (pos 100000);
      local_cache_max_ttl = or_default c.local_cache_max_ttl (pos (5 * second));
      local_cache_safety_window = or_default c.local_cache_safety_window (pos second);
    })

pub record ActorRegisterParams : Type 0 where
  pub uid : ActorUid
  pub node_id : Text
  pub lease_id : Text
  pub ttl : ℤ

pub record ActorTakeOverParams : Type 0 where
  pub uid : ActorUid
  pub node_id : Text
  pub lease_id : Text
  pub source_lease_id : Text
  pub ttl : ℤ

pub record ActorUnregisterParams : Type 0 where
  pub uid : ActorUid
  pub node_id : Text
  pub lease_id : Text

pub record ActorKeepAliveParams : Type 0 where
  pub uid : ActorUid
  pub node_id : Text
  pub lease_id : Text
  pub ttl : ℤ

-- A check of the calls: the error, or none.
abbrev pub refuse_if : Bool → Error → Result Error (Unit {0})
refuse_if true e = err e
refuse_if false e = ok tt

unfoldable pub validate_uid : UidLib → ActorUid → Result Error (Unit {0})
validate_uid lib uid = refuse_if (lib.is_zero uid) uid_required

unfoldable pub validate_register : UidLib → ActorRegisterParams → Result Error (Unit {0})
unfolding validate_uid
validate_register lib p = do
  validate_uid lib p.uid
  refuse_if (p.node_id == []) node_id_required
  refuse_if (p.lease_id == []) lease_id_required
  refuse_if (ltb_ℤ p.ttl (pos 0)) ttl_invalid

unfoldable pub validate_take_over : UidLib → ActorTakeOverParams → Result Error (Unit {0})
unfolding validate_uid
validate_take_over lib p = do
  validate_uid lib p.uid
  refuse_if (p.node_id == []) node_id_required
  refuse_if (p.lease_id == []) lease_id_required
  refuse_if (p.source_lease_id == []) source_lease_id_required
  refuse_if (ltb_ℤ p.ttl (pos 0)) ttl_invalid

unfoldable pub validate_unregister : UidLib → ActorUnregisterParams → Result Error (Unit {0})
unfolding validate_uid
validate_unregister lib p = do
  validate_uid lib p.uid
  refuse_if (p.node_id == []) node_id_required
  refuse_if (p.lease_id == []) lease_id_required

unfoldable pub validate_keep_alive : UidLib → ActorKeepAliveParams → Result Error (Unit {0})
unfolding validate_uid
validate_keep_alive lib p = do
  validate_uid lib p.uid
  refuse_if (p.node_id == []) node_id_required
  refuse_if (p.lease_id == []) lease_id_required
  refuse_if (ltb_ℤ p.ttl (pos 0)) ttl_invalid

unfoldable pub validate_lookup : UidLib → ActorUid → Result Error (Unit {0})
validate_lookup lib uid = validate_uid lib uid
