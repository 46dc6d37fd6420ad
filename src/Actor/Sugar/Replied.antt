-- ===== src/Actor/Sugar/Replied.antt =====
-- What a client reads of the reply to its request.
use ggskit.Common.Int.{pos}
use ggskit.Codec.Head.{
  put_uint32, uint32, head_len, head_bytes, set_head-zeros, new_head, head_get_pt, head_get_seq,
  head_get_pid,
}
use ggskit.Actor.Codec.{
  raw_resp, BufferLib, C2SPayload, Payload, c2s_pointer, new_c2s_payload, encode,
}
use ggskit.Actor.Codec.Bytes.{encode_c2s-bytes}
use ggskit.Actor.Sugar.{
  ProtoRegistries, c2s, s2s, Context, context_decode, context_reply, reply_client,
}
use ggskit.Common.{
  ℕ, ◌+◌, ◌^◌, ◌<◌, ◌≡◌, refl, ap, ◌∙◌, true, some, [], ◌++◌, arith, Text, length, drop, nat_eq,
  text_eq, ok,
}

-- A head with bytes behind it.
head_read :
    (seq pid : ℕ) (bytes : Text)
    → seq < 2 ^ 32
    → pid < 2 ^ 32
    → let body = head_bytes (pos 2) seq pid ++ bytes in
      (head_get_pt body ≡ some (pos 2))
      × (head_get_seq body ≡ some seq)
      × (head_get_pid body ≡ some pid)
      × (drop head_len body ≡ bytes)
unfolding head_get_pt head_get_seq head_get_pid put_uint32 uint32
head_read seq pid bytes a b = (refl, ap some (omega arith), ap some (omega arith), refl)

new_head-bytes : (seq pid : ℕ) → new_head (pos 2) seq pid ≡ some (head_bytes (pos 2) seq pid)
unfolding new_head put_uint32
new_head-bytes seq pid = set_head-zeros (pos 2) seq pid []

length-head_bytes : (seq pid : ℕ) → length (head_bytes (pos 2) seq pid) ≡ 9
unfolding put_uint32
length-head_bytes seq pid = refl

-- A packet of type response that carries a sequence number, an id and a message.
abbrev pub IsResponse : ℕ → ℕ → Text → Text → Type 0
IsResponse seq pid bytes body =
    (head_get_pt body ≡ some (pos 2))
    × (head_get_seq body ≡ some seq)
    × (head_get_pid body ≡ some pid)
    × (drop head_len body ≡ bytes)

abbrev pub response :
    (protos : ProtoRegistries) → ℕ → ℕ → protos.Msg → Payload (c2s protos) (s2s protos)
response protos seq pid msg =
    c2s_pointer (record { pt = pos 2; seq = seq; c2s_pid = pid; c2s_msg = msg })

module _ (protos : ProtoRegistries) (lib : BufferLib) {E : Type 0} where
  replies :
      (seq pid : ℕ) (msg : protos.Msg)
      → protos.c2s_get_pid msg ≡ some pid
      → reply_client protos {E = E} (some seq) (some msg) ≡ ok (response protos seq pid msg)
  unfolding new_c2s_payload
  replies seq pid msg g = rw g refl

  replied :
      (ctx : Context protos E) (p : C2SPayload (c2s protos) (s2s protos)) (pid : ℕ)
      (msg : protos.Msg)
      → ctx.is_client_request ≡ true
      → ctx.as_client ≡ ok p
      → protos.c2s_get_pid msg ≡ some pid
      → context_reply protos (some msg) (context_decode protos ctx).0
        ≡ ok (response protos p.seq pid msg)
  unfolding context_decode context_reply
  replied ctx p pid msg k d g = rw (k, d) (replies p.seq pid msg g)

  -- The reply to a request of a client that was decoded is passed on as a packet of type response
  -- with the sequence number of the request and the id and bytes of the reply, if the reply's type
  -- is registered, both numbers fit 32 bits, the reply can be marshalled and the packet is
  -- allocated.
  pub context_reply-context_decode :
      (ctx : Context protos E) (p : C2SPayload (c2s protos) (s2s protos)) (pid : ℕ)
      (msg : protos.Msg) (bytes : Text) (b : lib.Buffer)
      → ctx.is_client_request ≡ true
      → ctx.as_client ≡ ok p
      → protos.c2s_get_pid msg ≡ some pid
      → p.seq < 2 ^ 32
      → pid < 2 ^ 32
      → protos.marshal msg ≡ some bytes
      → lib.alloc_buf (9 + length bytes) ≡ some b
      → (payload : Payload (c2s protos) (s2s protos)) × (body : Text) × (context_reply protos
            (some msg)
            (context_decode protos ctx).0
          ≡ ok payload)
        × (encode (c2s protos) (s2s protos) lib raw_resp payload ≡ ok (lib.packet_head ++ body))
        × IsResponse p.seq pid bytes body
  unfolding encode
  context_reply-context_decode ctx p pid msg bytes b k d g s i m a = (
    response protos p.seq pid msg,
    head_bytes (pos 2) p.seq pid ++ bytes,
    replied ctx p pid msg k d g,
    encode_c2s-bytes (c2s protos) (s2s protos) lib
        (record { pt = pos 2; seq = p.seq; c2s_pid = pid; c2s_msg = msg }) bytes
        (head_bytes (pos 2) p.seq pid) b m (new_head-bytes p.seq pid)
        (ap (λ n. lib.alloc_buf (n + length bytes)) (length-head_bytes p.seq pid) ∙ a),
    head_read p.seq pid bytes s i,
  )
