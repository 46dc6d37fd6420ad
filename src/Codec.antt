-- ===== src/Codec.antt =====
-- Packets: base/codec. Messages and their encoding belong to protobuf and are parameters.
pub mod Head
pub mod Packets
