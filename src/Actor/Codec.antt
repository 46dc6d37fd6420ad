-- ===== src/Actor/Codec.antt =====
-- The codec of packets between actors: infra/actor/codec.go and infra/actor/payload.go. The buffers
-- and the allocator of packets belong to gactor and are a parameter; so is the registry of each
-- protocol. A type assertion that fails is an error.
pub mod Bytes
pub mod Delivered
use ggskit.Common.Int.{ℤ}
use ggskit.Codec.Head.{put_uint32, new_head, head_get_pt, head_get_seq, head_get_pid}
use ggskit.Codec.Packets.{
  Proto, CodecError, or_fail, index_panic, encode_payload, decode_payload, check_failed,
  marshal_failed, not_registered, unmarshal_failed,
}
use ggskit.Common.{
  [], ℕ, ◌+◌, ◌≤◌, ◌≡◌, Bool, true, false, Option, none, some, ◌++◌, Text, length, Result, ok, err,
  ◌>>=◌, map_err, ◌>>◌,
}

pub data PacketType : Type 0 where
  raw_req raw_resp raw_push s2s_rpc s2s_rpc_resp s2s_cast s2s_forward : PacketType
  other_packet : PacketType

-- `room` is what can still be written. An allocated buffer starts with the packet's own head; a
-- grown one is empty. Numbers are written in big-endian order.
pub record BufferLib : Type 1 where
  pub Buffer : Type 0
  pub alloc_buf : ℕ → Option Buffer
  pub grow : ℕ → Buffer
  pub write : Text → Buffer → Option Buffer
  pub write_uint32 : ℕ → Buffer → Option Buffer
  pub read_head : Buffer → Option (Text × Buffer)
  pub data_of : Buffer → Text
  pub unread_data : Buffer → Text
  pub room : Buffer → ℕ
  pub packet_head : Text
  pub alloc_buf_lem :
      (n : ℕ) (b : Buffer) → alloc_buf n ≡ some b → (room b ≡ n) × (data_of b ≡ packet_head)
  pub grow_lem : (n : ℕ) → (room (grow n) ≡ n) × (data_of (grow n) ≡ [])
  pub write_lem :
      (bs : Text) (b : Buffer)
      → length bs ≤ room b
      → (after : Buffer) × (write bs b ≡ some after)
        × (data_of after ≡ data_of b ++ bs)
        × (room after + length bs ≡ room b)
  pub write_uint32_lem : (n : ℕ) (b : Buffer) → write_uint32 n b ≡ write (put_uint32 n) b

pub data PacketError : Type 0 where
  not_implemented type_panic alloc_failed write_failed read_failed : PacketError
  in_codec : CodecError → PacketError
  msg_is_nil reg_is_nil msg_not_registered : PacketError

abbrev pub or_error : {A : Type 0} → Option A → PacketError → Result PacketError A
or_error none e = err e
or_error (some a) e = ok a

-- The type of the pointer that `DecodePayload` is given.
pub data PayloadType : Type 0 where
  to_c2s_pointer to_s2s_pointer : PayloadType

module _ (c2s s2s : Proto) where
  pub record C2SPayload : Type 0 where
    pub pt : ℤ
    pub seq : ℕ
    pub c2s_pid : ℕ
    pub c2s_msg : c2s.Msg

  pub record S2SPayload : Type 0 where
    pub s2s_pid : ℕ
    pub s2s_msg : s2s.Msg

  -- What is passed as `any`: a pointer to a payload, or a payload itself.
  pub data Payload : Type 0 where
    c2s_pointer : C2SPayload → Payload
    s2s_pointer s2s_value : S2SPayload → Payload

  -- `payload.(*C2SPayload)` and `payload.(*S2SPayload)`.
  abbrev pub as_c2s : Payload → Result PacketError C2SPayload
  as_c2s (c2s_pointer p) = ok p
  as_c2s (s2s_pointer p) = err type_panic
  as_c2s (s2s_value p) = err type_panic

  abbrev pub as_s2s : Payload → Result PacketError S2SPayload
  as_s2s (c2s_pointer p) = err type_panic
  as_s2s (s2s_pointer p) = ok p
  as_s2s (s2s_value p) = err type_panic

  -- `NewC2SPayload` and `NewS2SPayload`.
  unfoldable pub new_c2s_payload :
      ℤ → ℕ → Option c2s.Msg → (has_registry : Bool) → Result PacketError C2SPayload
  new_c2s_payload pt seq none has_registry = err msg_is_nil
  new_c2s_payload pt seq (some msg) false = err reg_is_nil
  new_c2s_payload pt seq (some msg) true = do
    pid ← or_error (c2s.get_pid msg) msg_not_registered
    ok (record { pt = pt; seq = seq; c2s_pid = pid; c2s_msg = msg })

  unfoldable pub new_s2s_payload :
      Option s2s.Msg → (has_registry : Bool) → Result PacketError S2SPayload
  new_s2s_payload none has_registry = err msg_is_nil
  new_s2s_payload (some msg) false = err reg_is_nil
  new_s2s_payload (some msg) true = do
    pid ← or_error (s2s.get_pid msg) msg_not_registered
    ok (record { s2s_pid = pid; s2s_msg = msg })

  module _ (lib : BufferLib) where
    open lib use {Buffer, alloc_buf, grow, write, write_uint32, read_head, data_of, unread_data}

    -- Two writes, with the data of the buffer after them.
    abbrev pub write_both : Text → Text → Buffer → Result PacketError Text
    write_both head body b = do
      b1 ← or_error (write head b) write_failed
      b2 ← or_error (write body b1) write_failed
      ok (data_of b2)

    -- The client packets of `Encode`.
    unfoldable pub encode_c2s : C2SPayload → Result PacketError Text
    encode_c2s p = do
      bytes ← or_error (c2s.marshal p.c2s_msg) (in_codec marshal_failed)
      head ← or_error (new_head p.pt p.seq p.c2s_pid) (in_codec index_panic)
      b ← or_error (alloc_buf (length head + length bytes)) alloc_failed
      write_both head bytes b

    -- The server packets of `Encode`.
    unfoldable pub encode_s2s : S2SPayload → Result PacketError Text
    encode_s2s p = do
      bytes ← or_error (s2s.marshal p.s2s_msg) (in_codec marshal_failed)
      b ← or_error (alloc_buf (4 + length bytes)) alloc_failed
      b1 ← or_error (write_uint32 p.s2s_pid b) write_failed
      b2 ← or_error (write bytes b1) write_failed
      ok (data_of b2)

    -- `Encode`.
    unfoldable pub encode : PacketType → Payload → Result PacketError Text
    encode raw_resp payload = as_c2s payload >>= encode_c2s
    encode raw_push payload = as_c2s payload >>= encode_c2s
    encode s2s_forward payload = as_c2s payload >>= encode_c2s
    encode s2s_rpc payload = as_s2s payload >>= encode_s2s
    encode s2s_rpc_resp payload = as_s2s payload >>= encode_s2s
    encode s2s_cast payload = as_s2s payload >>= encode_s2s
    encode raw_req payload = err not_implemented
    encode other_packet payload = err not_implemented

    -- The client packets of `EncodePayload`.
    unfoldable pub payload_c2s : C2SPayload → Result PacketError Text
    payload_c2s p = do
      bytes ← or_error (c2s.marshal p.c2s_msg) (in_codec marshal_failed)
      head ← or_error (new_head p.pt p.seq p.c2s_pid) (in_codec index_panic)
      write_both head bytes (grow (length head + length bytes))

    abbrev pub payload_s2s : S2SPayload → Result PacketError Text
    payload_s2s p = map_err in_codec (encode_payload s2s p.s2s_pid p.s2s_msg)

    -- `EncodePayload`.
    unfoldable pub encode_any : PacketType → Payload → Result PacketError Text
    encode_any raw_push payload = as_c2s payload >>= payload_c2s
    encode_any s2s_forward payload = as_c2s payload >>= payload_c2s
    encode_any s2s_rpc payload = as_s2s payload >>= payload_s2s
    encode_any s2s_cast payload = as_s2s payload >>= payload_s2s
    encode_any raw_req payload = err not_implemented
    encode_any raw_resp payload = err not_implemented
    encode_any s2s_rpc_resp payload = err not_implemented
    encode_any other_packet payload = err not_implemented

    -- `DecodePayload`, for a pointer of the type that its packet wants.
    unfoldable pub decode_c2s : Buffer → Result PacketError C2SPayload
    decode_c2s b = do
      got ← or_error (read_head b) read_failed
      pt ← or_error (head_get_pt got.0) (in_codec index_panic)
      seq ← or_error (head_get_seq got.0) (in_codec index_panic)
      pid ← or_error (head_get_pid got.0) (in_codec index_panic)
      blank ← or_error (c2s.create pid) (in_codec not_registered)
      msg ← or_error (c2s.unmarshal blank (unread_data got.1)) (in_codec unmarshal_failed)
      ok (record { pt = pt; seq = seq; c2s_pid = pid; c2s_msg = msg })

    unfoldable pub decode_s2s : Buffer → Result PacketError S2SPayload
    decode_s2s b = map_err in_codec (decode_payload s2s (unread_data b)) >>= λ got.
        ok (record { s2s_pid = got.0; s2s_msg = got.1 })

    abbrev pub decode_into_c2s : PayloadType → Buffer → Result PacketError Payload
    decode_into_c2s to_c2s_pointer b = decode_c2s b >>= λ p. ok (c2s_pointer p)
    decode_into_c2s to_s2s_pointer b = err type_panic

    abbrev pub decode_into_s2s : PayloadType → Buffer → Result PacketError Payload
    decode_into_s2s to_c2s_pointer b = err type_panic
    decode_into_s2s to_s2s_pointer b = decode_s2s b >>= λ p. ok (s2s_pointer p)

    unfoldable pub decode_any : PacketType → Buffer → PayloadType → Result PacketError Payload
    decode_any raw_req b target = decode_into_c2s target b
    decode_any s2s_rpc b target = decode_into_s2s target b
    decode_any s2s_rpc_resp b target = decode_into_s2s target b
    decode_any s2s_cast b target = decode_into_s2s target b
    decode_any raw_resp b target = err not_implemented
    decode_any raw_push b target = err not_implemented
    decode_any s2s_forward b target = err not_implemented
    decode_any other_packet b target = err not_implemented
