-- ===== src/Wire/Codec/Encode.antt =====
-- rpc/wire/encode.ts: the messages without a payload. The text encoder is the platform's, so the reason
-- of an exception is given as its bytes.
use capnp_deno.Base.{
  ℕ, ◌+◌, ◌/◌, Bool, true, false, Option, Bytes, Result, ok, ◌>>=◌, if◌then◌else◌, length, or_else,
}
use capnp_deno.Base.Int.{ℤ}
use capnp_deno.Wire.Errors.{ProtocolError}
use capnp_deno.Wire.Segments.{ensure_u32}
use capnp_deno.Wire.Builder.{
  Builder, new_builder, alloc_words, write_u16, write_u32, write_bytes, set_struct_pointer,
  set_list_pointer, to_message_bytes,
}
use capnp_deno.Wire.Codec.Layout

-- A struct behind a pointer, as every encoder adds one: its words, then the pointer. The struct's
-- first word comes back with the builder.
unfoldable pub add_struct : ℕ → ℕ → ℕ → Builder → Result ProtocolError (ℕ × Builder)
add_struct pointer_word data_words pointers b = do
  let (struct_word, b) = alloc_words (data_words + pointers) b
  b ← set_struct_pointer pointer_word struct_word data_words pointers b
  ok (struct_word, b)

-- `pointerWordIndex` of encode.ts
abbrev pub pointer_word_of : ℕ → ℕ → ℕ → ℕ
pointer_word_of struct_word data_words index = struct_word + data_words + index

-- The lines that every encoder begins with: the message struct behind the root pointer, its tag, and
-- the struct of the message's variant.
unfoldable pub start_message : ℕ → ℕ → ℕ → Result ProtocolError (ℕ × Builder)
start_message tag data_words pointers = do
  (message_word, b) ←
      add_struct 0 Layout.message_data_word_count Layout.message_pointer_count new_builder
  b ← write_u16 message_word Layout.message_union_tag_byte_offset tag b
  add_struct
      (pointer_word_of message_word Layout.message_data_word_count
        Layout.message_variant_pointer_index)
      data_words pointers b

-- `encodeBootstrapRequestFrame`
unfoldable pub encode_bootstrap_request_frame : ℤ → Result ProtocolError Bytes
encode_bootstrap_request_frame question_id = do
  question_id ← ensure_u32 question_id
  (bootstrap_word, b) ←
      start_message Layout.rpc_message_tag_bootstrap Layout.bootstrap_data_word_count
        Layout.bootstrap_pointer_count
  b ← write_u32 bootstrap_word Layout.bootstrap_question_id_byte_offset question_id b
  ok (to_message_bytes b)

-- A flag that is set when a test fails, as a number to add.
abbrev pub flag_unless : Bool → ℕ → ℕ
flag_unless test mask = if test then 0 else mask

-- `encodeFinishFrame`; the two flags share no bit.
unfoldable pub encode_finish_frame : ℤ → Option Bool → Option Bool → Result ProtocolError Bytes
encode_finish_frame question_id release_result_caps require_early_cancellation = do
  question_id ← ensure_u32 question_id
  (finish_word, b) ←
      start_message Layout.rpc_message_tag_finish Layout.finish_data_word_count
        Layout.finish_pointer_count
  b ← write_u32 finish_word Layout.finish_question_id_byte_offset question_id b
  b ←
      write_u32 finish_word Layout.finish_flags_byte_offset
        (flag_unless (or_else release_result_caps true) Layout.finish_release_result_caps_flag_mask
          + flag_unless (or_else require_early_cancellation false)
              Layout.finish_require_early_cancellation_workaround_flag_mask)
        b
  ok (to_message_bytes b)

-- `encodeReleaseFrame`
unfoldable pub encode_release_frame : ℤ → ℤ → Result ProtocolError Bytes
encode_release_frame id reference_count = do
  id ← ensure_u32 id
  reference_count ← ensure_u32 reference_count
  (release_word, b) ←
      start_message Layout.rpc_message_tag_release Layout.release_data_word_count
        Layout.release_pointer_count
  b ← write_u32 release_word Layout.release_id_byte_offset id b
  b ← write_u32 release_word Layout.release_reference_count_byte_offset reference_count b
  ok (to_message_bytes b)

-- `encodeReturnFlags`
abbrev pub encode_return_flags : ℕ → Bool → Bool → Builder → Result ProtocolError Builder
encode_return_flags return_word release_param_caps no_finish_needed =
    write_u32 return_word Layout.return_flags_byte_offset (
      flag_unless release_param_caps Layout.return_release_param_caps_flag_mask
      + (if no_finish_needed then Layout.return_no_finish_needed_flag_mask else 0))

-- `encodeReturnExceptionFrame`
unfoldable pub encode_return_exception_frame :
    ℤ → Bytes → Option Bool → Option Bool → Result ProtocolError Bytes
encode_return_exception_frame answer_id reason_bytes release_param_caps no_finish_needed = do
  answer_id ← ensure_u32 answer_id
  (return_word, b) ←
      start_message Layout.rpc_message_tag_return Layout.return_data_word_count
        Layout.return_pointer_count
  b ← write_u32 return_word Layout.return_answer_id_byte_offset answer_id b
  b ←
      encode_return_flags return_word (or_else release_param_caps true)
        (or_else no_finish_needed false) b
  b ← write_u16 return_word Layout.return_tag_byte_offset Layout.return_tag_exception b
  (ex_word, b) ←
      add_struct
        (pointer_word_of return_word Layout.return_data_word_count
          Layout.return_variant_pointer_index)
        Layout.exception_data_word_count Layout.exception_pointer_count b
  let text_element_count = length reason_bytes + 1
  let (text_word, b) = alloc_words ((text_element_count + 7) / 8) b
  b ←
      set_list_pointer
        (pointer_word_of ex_word Layout.exception_data_word_count
          Layout.exception_reason_pointer_index)
        text_word 2 text_element_count b
  b ← write_bytes text_word 0 reason_bytes b
  ok (to_message_bytes b)
