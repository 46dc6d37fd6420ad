-- ===== src/Actor/Codec/Bytes.antt =====
-- The bytes of the two ways of encoding a payload.
use mathlib.Core.List.{append_assoc}
use ggskit.Codec.Head.{put_uint32, new_head}
use ggskit.Codec.Packets.{Proto, or_fail, check_failed, marshal_failed}
use ggskit.Actor.Codec.{
  BufferLib, PacketError, or_error, write_failed, C2SPayload, S2SPayload, write_both, encode_c2s,
  encode_s2s,
}
use ggskit.Common.{
  ℕ, ◌+◌, ◌≤◌, ◌≡◌, refl, sym, ap, ◌∙◌, Bool, true, false, not, Option, none, some, ◌++◌, arith,
  if◌then◌else◌, Text, length, nat_eq, text_eq, Result, ok, err, ◌>>=◌, ok-injective, err_ok,
}

-- The steps of a do block that ended well, and those that go well.
pub or_error-bind :
    {A B : Type 0} (o : Option A) (e : PacketError) (f : A → Result PacketError B) (x : B)
    → (or_error o e >>= f) ≡ ok x
    → (a : A) × (o ≡ some a) × (f a ≡ ok x)
or_error-bind none e f x h = absurd (err_ok h)
or_error-bind (some a) e f x h = (a, refl, h)

pub or_error-some :
    {A B : Type 0} (o : Option A) (a : A) (e : PacketError) (f : A → Result PacketError B)
    → o ≡ some a
    → (or_error o e >>= f) ≡ f a
or_error-some o a e f h = ap (λ p. or_error p e >>= f) h

module _ (c2s s2s : Proto) (lib : BufferLib) where
  open lib use {Buffer, alloc_buf, grow, write, write_uint32, data_of, room, packet_head}

  write_both_lem :
      (head body : Text) (b : Buffer)
      → length head + length body ≤ room b
      → write_both c2s s2s lib head body b ≡ ok (data_of b ++ (head ++ body))
  write_both_lem head body b h =
      let (b1, e1, d1, r1) = lib.write_lem head b (omega arith) in
      let (b2, e2, d2, r2) = lib.write_lem body b1 (omega arith) in
      or_error-some _ b1 write_failed _ e1
      ∙ or_error-some _ b2 write_failed _ e2
      ∙ ap ok (d2 ∙ ap (λ t. t ++ body) d1 ∙ append_assoc (data_of b) head body)

  pub encode_c2s-bytes :
      (p : C2SPayload c2s s2s) (bytes head : Text) (b : Buffer)
      → c2s.marshal p.c2s_msg ≡ some bytes
      → new_head p.pt p.seq p.c2s_pid ≡ some head
      → alloc_buf (length head + length bytes) ≡ some b
      → encode_c2s c2s s2s lib p ≡ ok (packet_head ++ (head ++ bytes))
  unfolding encode_c2s
  encode_c2s-bytes p bytes head b mb mh a =
      let (r, d) = lib.alloc_buf_lem (length head + length bytes) b a in
      or_error-some _ bytes _ _ mb
      ∙ or_error-some _ head _ _ mh
      ∙ or_error-some _ b _ _ a
      ∙ write_both_lem head bytes b (omega arith)
      ∙ ap (λ t. ok (t ++ (head ++ bytes))) d

  length-put_uint32 : (n : ℕ) → length (put_uint32 n) ≡ 4
  unfolding put_uint32
  length-put_uint32 n = refl

  pub encode_s2s-bytes :
      (p : S2SPayload c2s s2s) (bytes : Text) (b : Buffer)
      → s2s.marshal p.s2s_msg ≡ some bytes
      → alloc_buf (4 + length bytes) ≡ some b
      → encode_s2s c2s s2s lib p ≡ ok (packet_head ++ (put_uint32 p.s2s_pid ++ bytes))
  unfolding encode_s2s
  encode_s2s-bytes p bytes b mb a =
      let (r, d) = lib.alloc_buf_lem (4 + length bytes) b a in
      let four = length-put_uint32 p.s2s_pid in
      or_error-some _ bytes _ _ mb
      ∙ or_error-some _ b _ _ a
      ∙ ap
          (λ o. or_error o write_failed >>= λ b1.
            or_error (write bytes b1) write_failed >>= λ b2. ok (data_of b2))
          (lib.write_uint32_lem p.s2s_pid b)
      ∙ write_both_lem (put_uint32 p.s2s_pid) bytes b (omega arith)
      ∙ ap (λ t. ok (t ++ (put_uint32 p.s2s_pid ++ bytes))) d

  checked :
      (pid : ℕ) (b : Bool) (o : Option Text) (out : Text)
      → (if not b
          then err check_failed
          else (or_fail o marshal_failed >>= λ bytes. ok (put_uint32 pid ++ bytes)))
        ≡ ok out
      → (bytes : Text) × (o ≡ some bytes) × (out ≡ put_uint32 pid ++ bytes)
  checked pid false o out h = absurd (err_ok h)
  checked pid true none out h = absurd (err_ok h)
  checked pid true (some bytes) out h = (bytes, refl, sym (ok-injective h))
