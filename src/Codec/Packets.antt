-- ===== src/Codec/Packets.antt =====
-- Packets between clients and servers and payloads between servers: base/codec/c2s/packet.go and
-- base/codec/s2s/packet.go.
use ggskit.Codec.Head.{
  put_uint32, uint32, head_len, set_head, set_head-zeros, head_bytes, write_at, head_get_pid,
  uint32-put_uint32, head_bytes_parts, put_uint32_parts,
}
use ggskit.Common.Int.{ℤ, pos}
use ggskit.Common.{
  ℕ, ◌^◌, ◌<◌, ◌≡◌, refl, Bool, true, not, Option, none, some, [], ◌∷◌, ◌++◌, ltb, if◌then◌else◌,
  Text, length, drop, replicate, nat_eq, text_eq, Result, ok, err, ◌>>=◌,
}

-- The registry of the protocol and protobuf: `blank` messages are those that `Create` returns.
pub record Proto : Type 1 where
  pub Msg : Type 0
  pub Blank : Type 0
  pub get_pid : Msg → Option ℕ
  pub create : ℕ → Option Blank
  pub check : ℕ → Msg → Bool
  pub marshal : Msg → Option Text
  pub unmarshal : Blank → Text → Option Msg

pub data CodecError : Type 0 where
  too_short pid_not_found not_registered check_failed marshal_failed unmarshal_failed : CodecError
  index_panic : CodecError

abbrev pub or_fail : {A : Type 0} → Option A → CodecError → Result CodecError A
or_fail none e = err e
or_fail (some a) e = ok a

module _ (proto : Proto) where
  open proto use {Msg, Blank, get_pid, create, check, marshal, unmarshal}

  abbrev pub decode_body : ℕ → Text → Result CodecError Msg
  decode_body pid body = do
    blank ← or_fail (create pid) not_registered
    or_fail (unmarshal blank body) unmarshal_failed

  -- `DecodeMessage`.
  unfoldable pub decode_message : Text → Result CodecError Msg
  decode_message p =
      if ltb (length p) head_len
      then err too_short
      else (or_fail (head_get_pid p) index_panic >>= λ pid. decode_body pid (drop head_len p))

  -- `EncodePacket`.
  unfoldable pub encode_packet : ℤ → ℕ → Msg → Result CodecError Text
  encode_packet pt seq msg = do
    pid ← or_fail (get_pid msg) pid_not_found
    bytes ← or_fail (marshal msg) marshal_failed
    p ←
        or_fail (set_head pt seq pid (replicate head_len 0 ++ replicate (length bytes) 0))
          index_panic
    or_fail (write_at head_len bytes p) index_panic

  -- `EncodeReqPacket`, `EncodeRespPacket` and `EncodePushPacket`.
  unfoldable pub encode_req_packet : ℕ → Msg → Result CodecError Text
  encode_req_packet seq msg = encode_packet (pos 1) seq msg

  unfoldable pub encode_resp_packet : ℕ → Msg → Result CodecError Text
  encode_resp_packet seq msg = encode_packet (pos 2) seq msg

  unfoldable pub encode_push_packet : Msg → Result CodecError Text
  encode_push_packet msg = encode_packet (pos 3) 0 msg

  -- `EncodePayload` of servers.
  unfoldable pub encode_payload : ℕ → Msg → Result CodecError Text
  encode_payload pid msg =
      if not (check pid msg)
      then err check_failed
      else (or_fail (marshal msg) marshal_failed >>= λ bytes. ok (put_uint32 pid ++ bytes))

  -- `DecodePayload` of servers; reading the id panics on fewer than four bytes.
  unfoldable pub decode_payload : Text → Result CodecError (ℕ × Msg)
  decode_payload p =
      if ltb (length p) 2
      then err too_short
      else (or_fail (uint32 p) index_panic >>= λ pid.
          decode_body pid (drop 4 p) >>= λ msg. ok (pid, msg))

write_all : (bs : Text) → write_at 0 bs (replicate (length bs) 0) ≡ some bs
unfolding write_at
write_all [] = refl
write_all (b ∷ bs) = rw (write_all bs) refl

write_body :
    (pt : ℤ) (seq pid : ℕ) (bs : Text)
    → write_at 9 bs (head_bytes pt seq pid ++ replicate (length bs) 0)
      ≡ some (head_bytes pt seq pid ++ bs)
unfolding write_at put_uint32
write_body pt seq pid bs = rw (write_all bs) refl

-- A message whose id fits 32 bits is encoded under any type and sequence number, and decoded from
-- the packet, if it can be marshalled and the protocol reads back what it marshals.
pub decode_message-encode_packet :
    (proto : Proto) (pt : ℤ) (seq pid : ℕ) (msg : proto.Msg) (blank : proto.Blank) (bytes : Text)
    → proto.get_pid msg ≡ some pid
    → pid < 2 ^ 32
    → proto.marshal msg ≡ some bytes
    → proto.create pid ≡ some blank
    → proto.unmarshal blank bytes ≡ some msg
    → (p : Text) × (encode_packet proto pt seq msg ≡ ok p) × (decode_message proto p ≡ ok msg)
unfolding encode_packet decode_message
decode_message-encode_packet proto pt seq pid msg blank bytes g s m c u =
    let (read, rest, long) = head_bytes_parts pt seq pid bytes s in
    (
      head_bytes pt seq pid ++ bytes,
      rw
          (
            encode_packet,
            g,
            m,
            set_head-zeros pt seq pid (replicate (length bytes) 0),
            write_body pt seq pid bytes,
          )
          refl,
      rw (decode_message, long, read, rest, c, u) refl,
    )

-- The same for a payload between servers that passes the check.
pub decode_payload-encode_payload :
    (proto : Proto) (pid : ℕ) (msg : proto.Msg) (blank : proto.Blank) (bytes : Text)
    → proto.check pid msg ≡ true
    → pid < 2 ^ 32
    → proto.marshal msg ≡ some bytes
    → proto.create pid ≡ some blank
    → proto.unmarshal blank bytes ≡ some msg
    → (p : Text) × (encode_payload proto pid msg ≡ ok p) × (decode_payload proto p ≡ ok (pid, msg))
unfolding encode_payload decode_payload
decode_payload-encode_payload proto pid msg blank bytes g s m c u =
    let (rest, long) = put_uint32_parts pid bytes in
    (
      put_uint32 pid ++ bytes,
      rw (encode_payload, g, m) refl,
      rw (decode_payload, long, uint32-put_uint32 pid bytes s, rest, c, u) refl,
    )
