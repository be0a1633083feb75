-- ===== src/Wire/Codec/Messages.antt =====
-- rpc/wire/encode.ts and rpc/wire/decode.ts: the messages with a payload. The content of a payload is
-- copied by encoding/runtime_codec.ts; the two functions called there are an interface here.
use capnp_deno.Base.{
  ℕ, ◌+◌, ◌*◌, ◌/◌, ◌%◌, Bool, true, false, Option, none, some, List, [], ◌∷◌, Bytes, Result, ok,
  err, ◌>>=◌, ◌>>◌, ◌==◌, not, ltb, throw_if, get_uint32, if◌then◌else◌, length, or_else,
}
use capnp_deno.Base.Int.{ℤ, pos, pos_part}
use capnp_deno.Wire.Errors.{
  ProtocolError, frame_too_short, frame_header_truncated, content_not_framed, target_is_null,
  exception_is_null, unsupported_return_tag,
}
use capnp_deno.Wire.Segments.{
  SegmentTable, StructRef, ensure_u16, ensure_u32, ensure_u64, read_u16_in_struct,
  read_u32_in_struct, read_u64_in_struct, segments_from_frame, cut,
}
use capnp_deno.Wire.Pointers.{
  PointerLocation, decode_struct_pointer, pointer_word_index, read_text_bytes,
}
use capnp_deno.Wire.Builder.{Builder, write_u16, write_u32, write_u64, to_message_bytes}
use capnp_deno.Wire.Codec.Layout
use capnp_deno.Wire.Codec.Encode.{add_struct, pointer_word_of, start_message, encode_return_flags}
use capnp_deno.Wire.Codec.Decode.{message_variant, require_pointer, bit0_clear, bit1_clear}
use capnp_deno.Wire.Codec.Targets.{
  CallTarget, imported_cap, promised_answer, normalize_call_target,
  encode_promised_answer_transform, decode_call_target,
}
use capnp_deno.Wire.Codec.Caps.{CapDescriptor, encode_cap_table, decode_cap_table_from_payload}

-- `encodeAnyPointerMessageIntoBuilder`, at a pointer's word, and `decodeAnyPointerMessageFromReader`, of the
-- segments of a reader at a pointer. An error of either is thrown as a `ProtocolError`.
pub record ContentCodec : Type 0 where
  pub encode_into : ℕ → Bytes → Builder → Result ProtocolError Builder
  pub decode_from : SegmentTable → PointerLocation → Result ProtocolError Bytes

-- The segment table's bytes, as the constructor of `MessageReader` counts them.
abbrev pub reader_header : ℕ → ℕ
reader_header segment_count = (1 + segment_count + (if segment_count % 2 == 0 then 1 else 0)) * 4

-- The constructor of `MessageReader`, in encoding/runtime_message.ts: its segments. Its loops are those of
-- `segmentsFromFrame`; its errors are not `ProtocolError`s, but it is called on frames that were parsed before.
unfoldable pub message_reader : Bytes → Result ProtocolError SegmentTable
message_reader frame = do
  throw_if (ltb (length frame) 8) frame_too_short
  let segment_count = get_uint32 frame 0 + 1
  throw_if (ltb (length frame) (reader_header segment_count)) frame_header_truncated
  cut frame (reader_header segment_count) 0 segment_count

-- `EMPTY_STRUCT_MESSAGE`: one segment of one zero word.
abbrev pub empty_struct_message : Bytes
empty_struct_message = 0 ∷ 0 ∷ 0 ∷ 0 ∷ 1 ∷ 0 ∷ 0 ∷ 0 ∷ 0 ∷ 0 ∷ 0 ∷ 0 ∷ 0 ∷ 0 ∷ 0 ∷ 0 ∷ []

-- `normalizePayloadContent`
abbrev pub normalize_payload_content : Option Bytes → Result ProtocolError Bytes
normalize_payload_content none = ok empty_struct_message
normalize_payload_content (some content) =
    if length content == 0 then err content_not_framed else ok content

-- `RpcCallFrameRequest`
pub record CallFrameRequest : Type 0 where
  pub question_id : ℤ
  pub interface_id : ℤ
  pub method_id : ℤ
  pub target_imported_cap : Option ℤ
  pub target : Option CallTarget
  pub params_content : Option Bytes
  pub params_cap_table : Option (List CapDescriptor)

-- `RpcCallRequest`; `targetImportedCap` is the id of an imported target.
pub record CallRequest : Type 0 where
  pub question_id : ℕ
  pub interface_id : ℕ
  pub method_id : ℕ
  pub target : CallTarget
  pub params_content : Bytes
  pub params_cap_table : List CapDescriptor

-- `RpcReturnResultsFrameRequest`
pub record ReturnResultsFrameRequest : Type 0 where
  pub answer_id : ℤ
  pub content : Option Bytes
  pub cap_table : Option (List CapDescriptor)
  pub release_param_caps : Option Bool
  pub no_finish_needed : Option Bool

-- `RpcReturnBase`
pub record ReturnBase : Type 0 where
  pub answer_id : ℕ
  pub release_param_caps : Bool
  pub no_finish_needed : Bool

-- `RpcReturnMessage`; the reason of an exception is its bytes.
pub data ReturnMessage : Type 0 where
  results : ReturnBase → Bytes → List CapDescriptor → ReturnMessage
  exception : ReturnBase → Bytes → ReturnMessage
  canceled : ReturnBase → ReturnMessage

-- The branches of `encodeCallRequestFrame` on the target.
unfoldable pub encode_call_target : ℕ → CallTarget → Builder → Result ProtocolError Builder
encode_call_target target_word (imported_cap id) b = do
  b ← write_u32 target_word Layout.message_target_imported_cap_byte_offset (pos_part id) b
  write_u16 target_word Layout.message_target_tag_byte_offset
      Layout.rpc_call_target_tag_imported_cap b
encode_call_target target_word (promised_answer question_id transform) b = do
  b ←
      write_u16 target_word Layout.message_target_tag_byte_offset
        Layout.rpc_call_target_tag_promised_answer b
  (promised_word, b) ←
      add_struct
        (pointer_word_of target_word Layout.message_target_data_word_count
          Layout.message_target_promised_answer_pointer_index)
        Layout.promised_answer_data_word_count Layout.promised_answer_pointer_count b
  b ←
      write_u32 promised_word Layout.promised_answer_question_id_byte_offset (pos_part question_id)
        b
  encode_promised_answer_transform
      (pointer_word_of promised_word Layout.promised_answer_data_word_count
        Layout.promised_answer_transform_pointer_index)
      transform b

-- `decodeReturnFlags`, with the id of the answer.
unfoldable pub decode_return_base : SegmentTable → StructRef → ℕ → Result ProtocolError ReturnBase
decode_return_base table ret answer_id = do
  flags ← read_u32_in_struct table ret Layout.return_flags_byte_offset
  ok (record {
    answer_id = answer_id;
    release_param_caps = bit0_clear flags;
    no_finish_needed = not (bit1_clear flags);
  })

-- The branch of `decodeReturnFrame` for an exception.
unfoldable pub decode_exception :
    SegmentTable → StructRef → ReturnBase → Result ProtocolError ReturnMessage
decode_exception table ret base = do
  ex ← require_pointer table exception_is_null ret Layout.return_variant_pointer_index
  loc ← pointer_word_index ex (pos Layout.exception_reason_pointer_index)
  reason ← read_text_bytes table loc
  ok (exception base (or_else reason []))

module _ (codec : ContentCodec) where
  -- `writePayloadContentPointer`
  unfoldable pub write_payload_content_pointer :
      ℕ → Option Bytes → Builder → Result ProtocolError Builder
  write_payload_content_pointer content_pointer_word content b = do
    payload ← normalize_payload_content content
    codec.encode_into content_pointer_word payload b

  -- The payload struct of a call or of a return, with its content and its capabilities.
  unfoldable pub encode_payload :
      ℕ → Option Bytes → Option (List CapDescriptor) → Builder → Result ProtocolError Builder
  encode_payload pointer_word content cap_table b = do
    (payload_word, b) ←
        add_struct pointer_word Layout.payload_data_word_count Layout.payload_pointer_count b
    b ←
        write_payload_content_pointer
          (pointer_word_of payload_word Layout.payload_data_word_count
            Layout.payload_content_pointer_index)
          content b
    encode_cap_table
        (pointer_word_of payload_word Layout.payload_data_word_count
          Layout.payload_cap_table_pointer_index)
        cap_table b

  -- `encodeCallRequestFrame`
  unfoldable pub encode_call_request_frame : CallFrameRequest → Result ProtocolError Bytes
  encode_call_request_frame request = do
    question_id ← ensure_u32 request.question_id
    interface_id ← ensure_u64 request.interface_id
    method_id ← ensure_u16 request.method_id
    target ← normalize_call_target request.target request.target_imported_cap
    (call_word, b) ←
        start_message Layout.rpc_message_tag_call Layout.call_data_word_count
          Layout.call_pointer_count
    b ← write_u32 call_word Layout.call_question_id_byte_offset question_id b
    b ← write_u16 call_word Layout.call_method_id_byte_offset method_id b
    b ←
        write_u16 call_word Layout.call_send_results_to_tag_byte_offset
          Layout.call_send_results_to_tag_caller b
    b ←
        write_u64 (call_word + Layout.call_interface_id_byte_offset / 8)
          (Layout.call_interface_id_byte_offset % 8) interface_id b
    (target_word, b) ←
        add_struct
          (pointer_word_of call_word Layout.call_data_word_count Layout.call_target_pointer_index)
          Layout.message_target_data_word_count Layout.message_target_pointer_count b
    b ← encode_call_target target_word target b
    b ←
        encode_payload
          (pointer_word_of call_word Layout.call_data_word_count Layout.call_params_pointer_index)
          request.params_content request.params_cap_table b
    ok (to_message_bytes b)

  -- `encodeReturnResultsFrame`
  unfoldable pub encode_return_results_frame :
      ReturnResultsFrameRequest → Result ProtocolError Bytes
  encode_return_results_frame request = do
    answer_id ← ensure_u32 request.answer_id
    (return_word, b) ←
        start_message Layout.rpc_message_tag_return Layout.return_data_word_count
          Layout.return_pointer_count
    b ← write_u32 return_word Layout.return_answer_id_byte_offset answer_id b
    b ←
        encode_return_flags return_word (or_else request.release_param_caps true)
          (or_else request.no_finish_needed false) b
    b ← write_u16 return_word Layout.return_tag_byte_offset Layout.return_tag_results b
    b ←
        encode_payload
          (pointer_word_of return_word Layout.return_data_word_count
            Layout.return_variant_pointer_index)
          request.content request.cap_table b
    ok (to_message_bytes b)

  -- `encodeBootstrapResponseFrame`
  unfoldable pub encode_bootstrap_response_frame : ℤ → ℤ → Result ProtocolError Bytes
  encode_bootstrap_response_frame answer_id capability_index = do
    id ← ensure_u32 capability_index
    encode_return_results_frame (record {
      answer_id = answer_id;
      content = none;
      cap_table = some (
          record {
            tag = pos Layout.cap_descriptor_tag_sender_hosted;
            id = pos id;
            vine_id = none;
            contact = none;
          }
          ∷ []);
      release_param_caps = none;
      no_finish_needed = none;
    })

  -- The payload behind a pointer: the empty message and no capabilities, when the pointer is null.
  unfoldable pub decode_payload :
      SegmentTable
      → SegmentTable
      → PointerLocation
      → Result ProtocolError (Bytes × List CapDescriptor)
  decode_payload reader table loc = decode_struct_pointer table loc >>= elim [
    | none ↦ ok (empty_struct_message, [])
    | some payload ↦ do
      content_loc ← pointer_word_index payload (pos Layout.payload_content_pointer_index)
      content ← codec.decode_from reader content_loc
      table_loc ← pointer_word_index payload (pos Layout.payload_cap_table_pointer_index)
      cap_table ← decode_cap_table_from_payload table table_loc
      ok (content, cap_table)
  ]

  -- `decodeCallRequestFrame`
  unfoldable pub decode_call_request_frame : Bytes → Result ProtocolError CallRequest
  decode_call_request_frame frame = do
    table ← segments_from_frame frame
    reader ← message_reader frame
    call ← message_variant Layout.rpc_message_tag_call table
    target_ref ← require_pointer table target_is_null call Layout.call_target_pointer_index
    target ← decode_call_target table target_ref
    params_loc ← pointer_word_index call (pos Layout.call_params_pointer_index)
    (content, cap_table) ← decode_payload reader table params_loc
    question_id ← read_u32_in_struct table call Layout.call_question_id_byte_offset
    interface_id ← read_u64_in_struct table call Layout.call_interface_id_byte_offset
    method_id ← read_u16_in_struct table call Layout.call_method_id_byte_offset
    ok (record {
      question_id = question_id;
      interface_id = interface_id;
      method_id = method_id;
      target = target;
      params_content = content;
      params_cap_table = cap_table;
    })

  -- The branch of `decodeReturnFrame` for results.
  unfoldable pub decode_results :
      SegmentTable → SegmentTable → StructRef → ReturnBase → Result ProtocolError ReturnMessage
  decode_results reader table ret base = do
    loc ← pointer_word_index ret (pos Layout.return_variant_pointer_index)
    (content, cap_table) ← decode_payload reader table loc
    ok (results base content cap_table)

  -- `decodeReturnFrame`
  unfoldable pub decode_return_frame : Bytes → Result ProtocolError ReturnMessage
  decode_return_frame frame = do
    table ← segments_from_frame frame
    reader ← message_reader frame
    ret ← message_variant Layout.rpc_message_tag_return table
    answer_id ← read_u32_in_struct table ret Layout.return_answer_id_byte_offset
    tag ← read_u16_in_struct table ret Layout.return_tag_byte_offset
    base ← decode_return_base table ret answer_id
    (if tag == Layout.return_tag_canceled
        then ok (canceled base)
        else if tag == Layout.return_tag_exception
        then decode_exception table ret base
        else if tag == Layout.return_tag_results
        then decode_results reader table ret base
        else err unsupported_return_tag)
