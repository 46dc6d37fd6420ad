-- ===== src/Tests.antt =====
-- The theorems at concrete inputs.
mod Registry
mod Rest
mod Parts
mod Routing
mod Centre
mod Stores
mod Messages
mod Announced
