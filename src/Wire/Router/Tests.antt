-- ===== src/Wire/Router/Tests.antt =====
-- The router at a concrete frame, with a codec for contents that are empty.
use capnp_deno.Base.{◌^◌, ◌+◌, ◌≡◌, ◌↔◌, true, [], ◌++◌, Bytes, ok, to_le}
use capnp_deno.Wire.Codec.Messages.{ContentCodec}
use capnp_deno.Wire.Router.{RpcMessage, finish, decode_rpc_message}
use capnp_deno.Wire.Router.Routes.{Decodes, decode_rpc_message-Decodes}

abbrev empty_contents : ContentCodec
empty_contents = record {
  encode_into = λ pointer_word content b. ok b;
  decode_from = λ reader loc. ok [];
}

abbrev some_frame : Bytes
some_frame =
    to_le 4 0
    ++ (to_le 4 4 ++ (to_le 8 (2 ^ 32 + 2 ^ 48) ++ (to_le 8 4 ++ (to_le 8 (2 ^ 32) ++ to_le 8 5))))

abbrev some_finish : RpcMessage
some_finish =
    finish
      (record { question_id = 5; release_result_caps = true; require_early_cancellation = true })

decode_rpc_message-Decodes_example :
    (decode_rpc_message empty_contents some_frame ≡ ok some_finish)
    ↔ Decodes empty_contents some_frame some_finish
decode_rpc_message-Decodes_example =
    decode_rpc_message-Decodes empty_contents some_frame some_finish
