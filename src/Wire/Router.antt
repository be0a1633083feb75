-- ===== src/Wire/Router.antt =====
-- rpc/wire/router.ts: from a frame to a message, and from a message to its handler.
pub mod Routes
mod Tests
use capnp_deno.Base.{
  ℕ, Bool, Option, none, some, List, [], ◌∷◌, Bytes, Result, ok, err, ◌>>=◌, ◌==◌, ◌||◌,
  if◌then◌else◌,
}
use capnp_deno.Base.Int.{ℤ}
use capnp_deno.Wire.Errors.{
  ProtocolError, unknown_message_tag, bootstrap_failed, no_hosted_capability,
}
use capnp_deno.Wire.Codec.Layout
use capnp_deno.Wire.Codec.Decode.{
  FinishRequest, ReleaseRequest, decode_rpc_message_tag, decode_bootstrap_request_frame,
  decode_finish_frame, decode_release_frame,
}
use capnp_deno.Wire.Codec.Targets.{is_tag}
use capnp_deno.Wire.Codec.Caps.{CapDescriptor}
use capnp_deno.Wire.Codec.Messages.{
  ContentCodec, CallRequest, ReturnMessage, results, exception, canceled, decode_call_request_frame,
  decode_return_frame,
}

-- `RpcMessage`; the last two keep their frame.
pub data RpcMessage : Type 0 where
  bootstrap : ℕ → RpcMessage
  call : CallRequest → RpcMessage
  return : ReturnMessage → RpcMessage
  finish : FinishRequest → RpcMessage
  release : ReleaseRequest → RpcMessage
  resolve : Bytes → RpcMessage
  disembargo : Bytes → RpcMessage

-- `RpcMessageHandlers`
pub record RpcMessageHandlers {ℓ} (T : Type ℓ) : Type ℓ where
  pub on_bootstrap : ℕ → T
  pub on_call : CallRequest → T
  pub on_return : ReturnMessage → T
  pub on_finish : FinishRequest → T
  pub on_release : ReleaseRequest → T
  pub on_resolve : Option (Bytes → T)
  pub on_disembargo : Option (Bytes → T)

-- A call of an optional handler; `undefined` without one.
abbrev pub call_optional {ℓ} : {T : Type ℓ} → Option (Bytes → T) → Bytes → Option T
call_optional none frame = none
call_optional (some handler) frame = some (handler frame)

-- `dispatchRpcMessage`
unfoldable pub dispatch_rpc_message {ℓ} :
    {T : Type ℓ} → RpcMessage → RpcMessageHandlers T → Option T
dispatch_rpc_message (bootstrap id) handlers = some (handlers.on_bootstrap id)
dispatch_rpc_message (call request) handlers = some (handlers.on_call request)
dispatch_rpc_message (return message) handlers = some (handlers.on_return message)
dispatch_rpc_message (finish request) handlers = some (handlers.on_finish request)
dispatch_rpc_message (release request) handlers = some (handlers.on_release request)
dispatch_rpc_message (resolve frame) handlers = call_optional handlers.on_resolve frame
dispatch_rpc_message (disembargo frame) handlers = call_optional handlers.on_disembargo frame

module _ (codec : ContentCodec) where
  -- The `switch` of `decodeRpcMessage`
  unfoldable pub decode_tagged : Bytes → ℕ → Result ProtocolError RpcMessage
  decode_tagged frame tag =
      if tag == Layout.rpc_message_tag_bootstrap
      then (decode_bootstrap_request_frame frame >>= λ id. ok (bootstrap id))
      else if tag == Layout.rpc_message_tag_call
      then (decode_call_request_frame codec frame >>= λ request. ok (call request))
      else if tag == Layout.rpc_message_tag_return
      then (decode_return_frame codec frame >>= λ message. ok (return message))
      else if tag == Layout.rpc_message_tag_finish
      then (decode_finish_frame frame >>= λ request. ok (finish request))
      else if tag == Layout.rpc_message_tag_release
      then (decode_release_frame frame >>= λ request. ok (release request))
      else if tag == Layout.rpc_message_tag_resolve
      then ok (resolve frame)
      else if tag == Layout.rpc_message_tag_disembargo
      then ok (disembargo frame)
      else err unknown_message_tag

  -- `decodeRpcMessage`
  unfoldable pub decode_rpc_message : Bytes → Result ProtocolError RpcMessage
  decode_rpc_message frame = decode_rpc_message_tag frame >>= decode_tagged frame

-- `item.tag === CAP_DESCRIPTOR_TAG_SENDER_HOSTED || item.tag === CAP_DESCRIPTOR_TAG_RECEIVER_HOSTED`
abbrev pub is_hosted : CapDescriptor → Bool
is_hosted item =
    is_tag item.tag Layout.cap_descriptor_tag_sender_hosted
    || is_tag item.tag Layout.cap_descriptor_tag_receiver_hosted

-- `capTable.find`
unfoldable pub find_hosted : List CapDescriptor → Option CapDescriptor
find_hosted [] = none
find_hosted (item ∷ rest) =
    let found = find_hosted rest in if is_hosted item then some item else found

-- `extractBootstrapCapabilityIndex`
unfoldable pub extract_bootstrap_capability_index : ReturnMessage → Result ProtocolError ℤ
extract_bootstrap_capability_index (results base content cap_table) = elim (find_hosted cap_table) [
  | none ↦ err no_hosted_capability
  | some cap ↦ ok cap.id
]
extract_bootstrap_capability_index (exception base reason) = err bootstrap_failed
extract_bootstrap_capability_index (canceled base) = err bootstrap_failed
