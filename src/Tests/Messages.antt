-- ===== src/Tests/Messages.antt =====
-- The theorems on the codec of actors, the probes and the ciphers at concrete inputs.
use ggskit.Common.Int.{pos}
use mathlib.Core.Option.{some-injective}
use ggskit.Codec.Head.{put_uint32}
use ggskit.Codec.Packets.{Proto}
use ggskit.Actor.Codec.{
  raw_resp, Payload, s2s_cast, BufferLib, C2SPayload, S2SPayload, s2s_pointer, new_s2s_payload,
  encode, decode_any, to_s2s_pointer,
}
use ggskit.Crypto.{check_key_size}
use ggskit.Crypto.Modes.{CipherLib, CbcCryptor, new_cbc_cryptor, cbc_encrypted_len}
use ggskit.Crypto.Modes.Streams.{encrypt_all, decrypt_all, decrypt_all-encrypt_all}
use ggskit.Actor.Sugar.{ProtoRegistries, c2s, s2s, Context, context_decode, context_reply}
use ggskit.Actor.Sugar.Replied.{IsResponse, context_reply-context_decode}
use ggskit.Actor.Codec.Delivered.{decode_any-encode}
use ggskit.Probe.{
  gate_closed, Probe, initial, choose_checker, apply_choice, apply_choices, init_probe, readyz,
  set_ready, with_readiness_checker, check_initialized,
}
use ggskit.Probe.Verdict.{IsVerdict, readyz-IsVerdict}
use ggskit.Probe.Fixed.{IsDistinct, IsClosed, init_probe-IsClosed}
use ggskit.Common.{
  err, List, map, replicate, suc, ℕ, ◌+◌, ◌-◌, ◌≤◌, false, ◌⊎◌, inl, ◌≡◌, refl, sym, ap, true,
  Option, none, some, [], ◌∷◌, ◌++◌, arith, leb, if◌then◌else◌, Text, codes, length, nat_eq,
  text_eq, text_beq, ok,
}

-- Messages are texts, all with the id 7.
abbrev texts : Proto
texts = record {
  Msg = Text;
  Blank = Unit {0};
  get_pid = λ m. some 7;
  create = λ pid. some tt;
  check = λ pid m. true;
  marshal = λ m. some m;
  unmarshal = λ blank bytes. some bytes;
}

record Memory : Type 0 where
  written : Text
  left : ℕ
  unread : Text

abbrev write_memory : Text → Memory → Option Memory
write_memory bs b =
    if leb (length bs) b.left
    then some (record b { written = b.written ++ bs; left = b.left - length bs })
    else none

abbrev of_size : ℕ → Memory
of_size n = record { written = codes "P"; left = n; unread = [] }

write_memory_lem :
    (bs : Text) (b : Memory)
    → length bs ≤ b.left
    → (after : Memory) × (write_memory bs b ≡ some after)
      × (after.written ≡ b.written ++ bs)
      × (after.left + length bs ≡ b.left)
write_memory_lem bs b h =
    let fits : leb (length bs) b.left ≡ true = ground arith in
    (
      record b { written = b.written ++ bs; left = b.left - length bs },
      rw fits refl,
      refl,
      omega arith,
    )

abbrev memory : BufferLib
memory = record {
  Buffer = Memory;
  alloc_buf = λ n. some (of_size n);
  grow = λ n. record { written = []; left = n; unread = [] };
  write = write_memory;
  write_uint32 = λ n b. write_memory (put_uint32 n) b;
  read_head = λ b. none;
  data_of = λ b. b.written;
  unread_data = λ b. b.unread;
  room = λ b. b.left;
  packet_head = codes "P";
  alloc_buf_lem = λ n b h. (
    ap (λ m. m.left) (sym (some-injective _ _ h)),
    ap (λ m. m.written) (sym (some-injective _ _ h)),
  );
  grow_lem = λ n. (refl, refl);
  write_lem = write_memory_lem;
  write_uint32_lem = λ n b. refl;
}

abbrev push : C2SPayload texts texts
push = record { pt = pos 3; seq = 0; c2s_pid = 7; c2s_msg = codes "hi" }

abbrev push_bytes : Text
push_bytes = 3 ∷ 0 ∷ 0 ∷ 0 ∷ 0 ∷ 0 ∷ 0 ∷ 0 ∷ 7 ∷ codes "hi"

abbrev arrived : Memory
arrived = record { written = []; left = 0; unread = put_uint32 7 ++ codes "hi" }

decode_any-encode_example :
    (p : S2SPayload texts texts) × (new_s2s_payload texts texts (some (codes "hi")) true ≡ ok p)
    × (encode texts texts memory s2s_cast (s2s_pointer p) ≡ ok (codes "P" ++ arrived.unread))
    × (decode_any texts texts memory s2s_cast arrived to_s2s_pointer ≡ ok (s2s_pointer p))
decode_any-encode_example =
    decode_any-encode texts texts memory s2s_cast 7 (codes "hi") tt (codes "hi") (of_size 6) arrived
      refl refl (omega arith) refl refl refl refl refl

abbrev said : List (Text × Option Text)
said = (codes "db", none) ∷ (codes "mq", some (codes "down")) ∷ []

abbrev open_probe : Probe
open_probe = set_ready true initial

readyz-IsVerdict_example :
    let out = readyz (pos 50) (pos 60) said open_probe in
    (out.0 ≡ open_probe)
    × (((open_probe.ready_flag ≡ false) × (out.1 ≡ gate_closed))
        ⊎ ((open_probe.ready_flag ≡ true) × IsVerdict said out.1))
readyz-IsVerdict_example = readyz-IsVerdict (pos 50) (pos 60) said open_probe (inl refl)

abbrev started : Probe
started = record initial {
  initialized = true;
  start_at = pos 9;
  checkers = codes "mq" ∷ codes "db" ∷ [];
}

started_ok :
    init_probe true (pos 9) (choose_checker (codes "db") ∷ choose_checker (codes "mq") ∷ []) initial
    ≡ ok started
unfolding init_probe apply_choices apply_choice with_readiness_checker check_initialized text_beq
started_ok = refl

init_probe-IsClosed_example : IsDistinct started.checkers × IsClosed started
init_probe-IsClosed_example =
    init_probe-IsClosed true (pos 9)
      (choose_checker (codes "db") ∷ choose_checker (codes "mq") ∷ []) initial started tt started_ok

-- A cipher that changes nothing but counts its calls; the two modes are in step at the same count.
abbrev counting : CipherLib
counting = record {
  Block = Unit {0};
  Encrypter = ℕ;
  Decrypter = ℕ;
  Gcm = Unit {0};
  new_cipher = λ key. some tt;
  new_cbc_encrypter = λ b iv. 0;
  new_cbc_decrypter = λ b iv. 0;
  encrypt_blocks = λ t n. (suc n, t);
  decrypt_blocks = λ t n. (suc n, t);
  InStep = λ e d. e ≡ d;
  new_cbc_in_step = λ b iv h. refl;
  length-encrypt_blocks = λ t e. refl;
  decrypt_blocks-encrypt_blocks = λ t e d h whole. (refl, ap suc h);
  new_gcm = λ b. some tt;
  gcm_nonce_size = λ g. 12;
  overhead = λ g. 0;
  seal = λ g nonce t. t;
  unseal = λ g nonce t. some t;
  length-seal = λ g nonce t. omega arith;
  unseal-seal = λ g nonce t h. refl;
}

abbrev cryptor : CbcCryptor counting
cryptor = record { cbc_key = replicate 16 1; encrypter = 0; decrypter = 0 }

cryptor_made : new_cbc_cryptor counting (replicate 16 1) (replicate 16 2) ≡ ok cryptor
unfolding new_cbc_cryptor check_key_size
cryptor_made = refl

abbrev letters : List Text
letters = codes "one" ∷ [] ∷ codes "sixteen letters." ∷ []

decrypt_all-encrypt_all_example :
    (decrypt_all counting (encrypt_all counting letters cryptor) cryptor ≡ map ok letters)
    × (map length (encrypt_all counting letters cryptor)
        ≡ map (λ t. cbc_encrypted_len counting (length t)) letters)
decrypt_all-encrypt_all_example =
    decrypt_all-encrypt_all counting (replicate 16 1) (replicate 16 2) cryptor letters cryptor_made

-- One kind of message for clients and servers.
abbrev talk : ProtoRegistries
talk = record {
  Msg = Text;
  Blank = Unit {0};
  c2s_get_pid = λ m. some 7;
  c2s_create = λ pid. some tt;
  c2s_check = λ pid m. true;
  s2s_get_pid = λ m. some 8;
  s2s_create = λ pid. some tt;
  s2s_check = λ pid m. true;
  marshal = λ m. some m;
  unmarshal = λ blank bytes. some bytes;
}

abbrev asking : C2SPayload (c2s talk) (s2s talk)
asking = record { pt = pos 1; seq = 41; c2s_pid = 6; c2s_msg = codes "?" }

abbrev request : Context talk Text
request = record {
  is_client_request = true;
  as_client = ok asking;
  as_server = err (codes "no server");
  seq_value = none;
}

context_reply-context_decode_example :
    (payload : Payload (c2s talk) (s2s talk)) × (body : Text) × (context_reply talk
        (some (codes "yes"))
        (context_decode talk request).0
      ≡ ok payload)
    × (encode (c2s talk) (s2s talk) memory raw_resp payload ≡ ok (codes "P" ++ body))
    × IsResponse 41 7 (codes "yes") body
context_reply-context_decode_example =
    context_reply-context_decode talk memory request asking 7 (codes "yes") (codes "yes")
      (of_size 12) refl refl refl (omega arith) (omega arith) refl refl
