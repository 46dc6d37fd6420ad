-- ===== src/Actor.antt =====
-- The package infra/actor.
pub mod Uid
pub mod Registry
pub mod Modules
pub mod ServerStore
pub mod Codec
pub mod Sugar
