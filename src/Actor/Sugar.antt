-- ===== src/Actor/Sugar.antt =====
-- The calls around gactor: infra/actor/service.go, context.go and actor.go. The service, the actor
-- and the context of gactor are a parameter, with the calls that all three offer; what a callback
-- is told is a value.
pub mod Replied
use ggskit.Common.Int.{◌+ℤ◌, pos, ℤ}
use ggskit.Codec.Packets.{Proto}
use ggskit.Actor.Codec.{
  C2SPayload, S2SPayload, Payload, c2s_pointer, s2s_pointer, s2s_value, PacketError,
  new_c2s_payload, new_s2s_payload,
}
use ggskit.Common.{
  ℕ, Bool, true, Option, none, some, if◌then◌else◌, Text, Result, ok, err, ◌>>=◌, map_err,
}

-- `ProtoRegistry`: two registries of one kind of message.
pub record ProtoRegistries : Type 1 where
  pub Msg : Type 0
  pub Blank : Type 0
  pub c2s_get_pid : Msg → Option ℕ
  pub c2s_create : ℕ → Option Blank
  pub c2s_check : ℕ → Msg → Bool
  pub s2s_get_pid : Msg → Option ℕ
  pub s2s_create : ℕ → Option Blank
  pub s2s_check : ℕ → Msg → Bool
  pub marshal : Msg → Option Text
  pub unmarshal : Blank → Text → Option Msg

-- How long a call waits.
pub data Limit : Type 0 where
  by_default : Limit
  by_deadline : ℤ → Limit
  by_context : Limit

pub data CallFailure (E : Type 0) : Type 0 where
  in_payload : PacketError → CallFailure E
  in_call : E → CallFailure E
  no_seq_panic : CallFailure E

module _ (protos : ProtoRegistries) where
  abbrev pub c2s : Proto
  c2s = record {
    Msg = protos.Msg;
    Blank = protos.Blank;
    get_pid = protos.c2s_get_pid;
    create = protos.c2s_create;
    check = protos.c2s_check;
    marshal = protos.marshal;
    unmarshal = protos.unmarshal;
  }

  abbrev pub s2s : Proto
  s2s = record {
    Msg = protos.Msg;
    Blank = protos.Blank;
    get_pid = protos.s2s_get_pid;
    create = protos.s2s_create;
    check = protos.s2s_check;
    marshal = protos.marshal;
    unmarshal = protos.unmarshal;
  }

  -- The response of an asynchronous call, with what `DecodeReply` gives, and what a callback is
  -- told.
  pub record RpcResp (E : Type 0) : Type 0 where
    pub resp_error : Option E
    pub decoded : Result E (S2SPayload c2s s2s)

  pub record AsyncReply (E : Type 0) : Type 0 where
    pub reply : Option protos.Msg
    pub reply_error : Option E

  pub record Caller : Type 1 where
    pub State : Type 0
    pub Uid : Type 0
    pub CallError : Type 0
    pub rpc : Limit → Uid → Payload c2s s2s → State → State × Result CallError (S2SPayload c2s s2s)
    pub async_rpc :
        Limit
        → Uid
        → Payload c2s s2s
        → (RpcResp CallError → AsyncReply CallError)
        → State
        → State × Option CallError
    pub cast : Uid → Payload c2s s2s → State → State × Option CallError
    pub forward : Uid → Payload c2s s2s → State → State × Option CallError

  module _ (caller : Caller) where
    open caller use {State, Uid, CallError}

    abbrev pub replied :
        State × Result CallError (S2SPayload c2s s2s)
        → State × Result (CallFailure CallError) protos.Msg
    replied (s, err e) = (s, err (in_call e))
    replied (s, ok p) = (s, ok p.s2s_msg)

    abbrev pub call_with :
        Limit
        → Uid
        → Result PacketError (S2SPayload c2s s2s)
        → State
        → State × Result (CallFailure CallError) protos.Msg
    call_with limit to (err e) s = (s, err (in_payload e))
    call_with limit to (ok p) s = replied (caller.rpc limit to (s2s_pointer p) s)

    -- `RPCWithDeadline`, `RPCWithTimeout`, `RPC` and `RPCWithContext`.
    unfoldable pub rpc_with_deadline :
        Uid → Option protos.Msg → ℤ → State → State × Result (CallFailure CallError) protos.Msg
    rpc_with_deadline to args deadline =
        call_with (by_deadline deadline) to (new_s2s_payload c2s s2s args true)

    unfoldable pub rpc_with_timeout :
        ℤ → Uid → Option protos.Msg → ℤ → State → State × Result (CallFailure CallError) protos.Msg
    rpc_with_timeout now to args timeout = rpc_with_deadline to args (now +ℤ timeout)

    unfoldable pub rpc :
        Uid → Option protos.Msg → State → State × Result (CallFailure CallError) protos.Msg
    rpc to args = call_with by_default to (new_s2s_payload c2s s2s args true)

    unfoldable pub rpc_with_context :
        Uid → Option protos.Msg → State → State × Result (CallFailure CallError) protos.Msg
    rpc_with_context to args = call_with by_context to (new_s2s_payload c2s s2s args true)

    -- `handleAsyncRPCResp`.
    abbrev pub decoded_reply : Result CallError (S2SPayload c2s s2s) → AsyncReply CallError
    decoded_reply (err e) = record { reply = none; reply_error = some e }
    decoded_reply (ok p) = record { reply = some p.s2s_msg; reply_error = none }

    unfoldable pub handle_async_rpc_resp : RpcResp CallError → AsyncReply CallError
    handle_async_rpc_resp resp = elim resp.resp_error [
      | some e ↦ record { reply = none; reply_error = some e }
      | none ↦ decoded_reply resp.decoded
    ]

    abbrev pub sent : State × Option CallError → State × Option (CallFailure CallError)
    sent (s, none) = (s, none)
    sent (s, some e) = (s, some (in_call e))

    abbrev pub async_with :
        Limit
        → Uid
        → Result PacketError (S2SPayload c2s s2s)
        → State
        → State × Option (CallFailure CallError)
    async_with limit to (err e) s = (s, some (in_payload e))
    async_with limit to (ok p) s =
        sent (caller.async_rpc limit to (s2s_pointer p) handle_async_rpc_resp s)

    -- `AsyncRPCWithDeadline`, `AsyncRPCWithTimeout`, `AsyncRPC` and `AsyncRPCWithContext`.
    unfoldable pub async_rpc_with_deadline :
        Uid → Option protos.Msg → ℤ → State → State × Option (CallFailure CallError)
    async_rpc_with_deadline to args deadline =
        async_with (by_deadline deadline) to (new_s2s_payload c2s s2s args true)

    unfoldable pub async_rpc_with_timeout :
        ℤ → Uid → Option protos.Msg → ℤ → State → State × Option (CallFailure CallError)
    async_rpc_with_timeout now to args timeout = async_rpc_with_deadline to args (now +ℤ timeout)

    unfoldable pub async_rpc :
        Uid → Option protos.Msg → State → State × Option (CallFailure CallError)
    async_rpc to args = async_with by_default to (new_s2s_payload c2s s2s args true)

    unfoldable pub async_rpc_with_context :
        Uid → Option protos.Msg → State → State × Option (CallFailure CallError)
    async_rpc_with_context to args = async_with by_context to (new_s2s_payload c2s s2s args true)

    -- `Cast` of a service, and of a context, which passes the payload by its value.
    abbrev pub cast_as :
        (S2SPayload c2s s2s → Payload c2s s2s)
        → Uid
        → Result PacketError (S2SPayload c2s s2s)
        → State
        → State × Option (CallFailure CallError)
    cast_as pass to (err e) s = (s, some (in_payload e))
    cast_as pass to (ok p) s = sent (caller.cast to (pass p) s)

    unfoldable pub cast : Uid → Option protos.Msg → State → State × Option (CallFailure CallError)
    cast to msg = cast_as (λ p. s2s_pointer p) to (new_s2s_payload c2s s2s msg true)

    unfoldable pub context_cast :
        Uid → Option protos.Msg → State → State × Option (CallFailure CallError)
    context_cast to msg = cast_as (λ p. s2s_value p) to (new_s2s_payload c2s s2s msg true)

    -- `Forward`.
    abbrev pub forward_with :
        Uid
        → Result PacketError (C2SPayload c2s s2s)
        → State
        → State × Option (CallFailure CallError)
    forward_with to (err e) s = (s, some (in_payload e))
    forward_with to (ok p) s = sent (caller.forward to (c2s_pointer p) s)

    unfoldable pub forward :
        Uid → Option protos.Msg → State → State × Option (CallFailure CallError)
    forward to msg = forward_with to (new_c2s_payload c2s s2s (pos 3) 0 msg true)

  -- A context: the kind of its request, what `ctx.Decode` gives for each payload, and the value
  -- under `ctxKSeq`.
  pub record Context (E : Type 0) : Type 0 where
    pub is_client_request : Bool
    pub as_client : Result E (C2SPayload c2s s2s)
    pub as_server : Result E (S2SPayload c2s s2s)
    pub seq_value : Option ℕ

  module _ {E : Type 0} where
    abbrev pub decoded_client :
        Result E (C2SPayload c2s s2s) → Context E → Context E × Result E (ℕ × protos.Msg)
    decoded_client (err e) ctx = (ctx, err e)
    decoded_client (ok p) ctx = (record ctx { seq_value = some p.seq }, ok (p.c2s_pid, p.c2s_msg))

    abbrev pub decoded_server :
        Result E (S2SPayload c2s s2s) → Context E → Context E × Result E (ℕ × protos.Msg)
    decoded_server (err e) ctx = (ctx, err e)
    decoded_server (ok p) ctx = (ctx, ok (p.s2s_pid, p.s2s_msg))

    -- `ContextSugarUtil.Decode`.
    unfoldable pub context_decode : Context E → Context E × Result E (ℕ × protos.Msg)
    context_decode ctx =
        if ctx.is_client_request
        then decoded_client ctx.as_client ctx
        else decoded_server ctx.as_server ctx

    abbrev pub reply_client :
        Option ℕ → Option protos.Msg → Result (CallFailure E) (Payload c2s s2s)
    reply_client none msg = err no_seq_panic
    reply_client (some seq) msg =
        map_err in_payload (new_c2s_payload c2s s2s (pos 2) seq msg true) >>= λ p.
        ok (c2s_pointer p)

    -- `ContextSugarUtil.Reply`, up to the payload that it passes on.
    unfoldable pub context_reply :
        Option protos.Msg → Context E → Result (CallFailure E) (Payload c2s s2s)
    context_reply msg ctx =
        if ctx.is_client_request
        then reply_client ctx.seq_value msg
        else (map_err in_payload (new_s2s_payload c2s s2s msg true) >>= λ p. ok (s2s_pointer p))
