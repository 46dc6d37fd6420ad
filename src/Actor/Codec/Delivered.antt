-- ===== src/Actor/Codec/Delivered.antt =====
-- A message that one server sends is the message that another one gets.
use ggskit.Codec.Head.{put_uint32, uint32-put_uint32, put_uint32_parts}
use ggskit.Codec.Packets.{Proto, decode_payload}
use ggskit.Actor.Codec.{
  PacketType, raw_req, raw_resp, raw_push, s2s_rpc, s2s_rpc_resp, s2s_cast, s2s_forward,
  other_packet, BufferLib, S2SPayload, s2s_pointer, new_s2s_payload, encode_s2s, encode, decode_s2s,
  decode_any, to_s2s_pointer, msg_not_registered,
}
use ggskit.Actor.Codec.Bytes.{or_error-some, encode_s2s-bytes}
use ggskit.Common.{
  ℕ, ◌+◌, ◌^◌, ◌<◌, ◌≡◌, refl, sym, ap, ◌∙◌, Bool, true, false, some, ◌++◌, Text, length, nat_eq,
  text_eq, ok, false-true,
}

abbrev pub between_servers : PacketType → Bool
between_servers s2s_rpc = true
between_servers s2s_rpc_resp = true
between_servers s2s_cast = true
between_servers raw_req = false
between_servers raw_resp = false
between_servers raw_push = false
between_servers s2s_forward = false
between_servers other_packet = false

module _ (c2s s2s : Proto) (lib : BufferLib) where
  open lib use {Buffer, alloc_buf, unread_data, packet_head}

  abbrev payload_of : ℕ → s2s.Msg → S2SPayload c2s s2s
  payload_of pid msg = record { s2s_pid = pid; s2s_msg = msg }

  server_case :
      (pt : PacketType) (p : S2SPayload c2s s2s)
      → between_servers pt ≡ true
      → encode c2s s2s lib pt (s2s_pointer p) ≡ encode_s2s c2s s2s lib p
  unfolding encode
  server_case s2s_rpc p h = refl
  server_case s2s_rpc_resp p h = refl
  server_case s2s_cast p h = refl
  server_case raw_req p h = absurd (false-true h)
  server_case raw_resp p h = absurd (false-true h)
  server_case raw_push p h = absurd (false-true h)
  server_case s2s_forward p h = absurd (false-true h)
  server_case other_packet p h = absurd (false-true h)

  decoded_case :
      (pt : PacketType) (b : Buffer) (p : S2SPayload c2s s2s)
      → between_servers pt ≡ true
      → decode_s2s c2s s2s lib b ≡ ok p
      → decode_any c2s s2s lib pt b to_s2s_pointer ≡ ok (s2s_pointer p)
  unfolding decode_any
  decoded_case s2s_rpc b p h e = rw e refl
  decoded_case s2s_rpc_resp b p h e = rw e refl
  decoded_case s2s_cast b p h e = rw e refl
  decoded_case raw_req b p h e = absurd (false-true h)
  decoded_case raw_resp b p h e = absurd (false-true h)
  decoded_case raw_push b p h e = absurd (false-true h)
  decoded_case s2s_forward b p h e = absurd (false-true h)
  decoded_case other_packet b p h e = absurd (false-true h)

  decode_s2s-bytes :
      (pid : ℕ) (msg : s2s.Msg) (blank : s2s.Blank) (bytes : Text) (b : Buffer)
      → pid < 2 ^ 32
      → s2s.create pid ≡ some blank
      → s2s.unmarshal blank bytes ≡ some msg
      → unread_data b ≡ put_uint32 pid ++ bytes
      → decode_s2s c2s s2s lib b ≡ ok (payload_of pid msg)
  unfolding decode_s2s decode_payload
  decode_s2s-bytes pid msg blank bytes b s c u e =
      let (rest, long) = put_uint32_parts pid bytes in
      rw (e, long, uint32-put_uint32 pid bytes s, rest, c, u) refl

  -- A message of a registered type with an id of 32 bits that is sent in a packet of a call, of its
  -- answer or of a cast is decoded on the other side, where the packet's own head is taken off, to
  -- the payload that was sent, if the packet is allocated and the protocol reads back what it
  -- marshals.
  pub decode_any-encode :
      (pt : PacketType) (pid : ℕ) (msg : s2s.Msg) (blank : s2s.Blank) (bytes : Text)
      (sent received : Buffer)
      → between_servers pt ≡ true
      → s2s.get_pid msg ≡ some pid
      → pid < 2 ^ 32
      → s2s.marshal msg ≡ some bytes
      → s2s.create pid ≡ some blank
      → s2s.unmarshal blank bytes ≡ some msg
      → alloc_buf (4 + length bytes) ≡ some sent
      → unread_data received ≡ put_uint32 pid ++ bytes
      → (p : S2SPayload c2s s2s) × (new_s2s_payload c2s s2s (some msg) true ≡ ok p)
        × (encode c2s s2s lib pt (s2s_pointer p) ≡ ok (packet_head ++ unread_data received))
        × (decode_any c2s s2s lib pt received to_s2s_pointer ≡ ok (s2s_pointer p))
  unfolding new_s2s_payload
  decode_any-encode pt pid msg blank bytes sent received k g s m c u a e = (
    payload_of pid msg,
    or_error-some (s2s.get_pid msg) pid msg_not_registered _ g,
    server_case pt (payload_of pid msg) k
        ∙ encode_s2s-bytes c2s s2s lib (payload_of pid msg) bytes sent m a
        ∙ ap (λ t. ok (packet_head ++ t)) (sym e),
    decoded_case pt received (payload_of pid msg) k
        (decode_s2s-bytes pid msg blank bytes received s c u e),
  )
