-- ===== src/Actor/Registry.antt =====
-- The actor registry, infra/actor/registry.go: its Lua scripts, and the Go code around them.
pub mod Scripts
pub mod Config
pub mod Cache
pub mod Runs
pub mod View
pub mod Replies
pub mod Calls
pub mod Stream
