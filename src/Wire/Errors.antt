-- ===== src/Wire/Errors.antt =====
-- `ProtocolError` (src/errors.ts) as the wire layer throws it. A constructor stands for one kind of
-- message; the numbers and the context string that a message is built from are left out.

pub data ProtocolError : Type 0 where
  frame_too_short frame_header_truncated frame_payload_truncated frame_trailing_bytes :
      ProtocolError
  segment_count_exceeded frame_size_exceeded traversal_words_exceeded : ProtocolError
  buffer_size_exceeded invalid_buffer_limit invalid_segment_count : ProtocolError
  missing_segment invalid_word_bounds out_of_range : ProtocolError
  landing_pad_not_far landing_pad_double_far hop_limit_exceeded : ProtocolError
  nesting_depth_exceeded invalid_pointer_kind invalid_element_size : ProtocolError
  invalid_tag_kind payload_exceeds_word_count : ProtocolError
  segment_not_aligned not_single_segment : ProtocolError
  not_u16 not_u32 not_u64 offset_out_of_range : ProtocolError
  pointer_index_out_of_range far_pointer_unsupported : ProtocolError
  expected_struct_pointer expected_list_pointer unexpected_element_size : ProtocolError
  struct_out_of_range byte_list_out_of_range : ProtocolError
  builder_out_of_range builder_byte_offset_out_of_range not_word_aligned : ProtocolError
  root_pointer_is_null unexpected_message_tag variant_pointer_is_null : ProtocolError
  unsupported_call_target promised_answer_is_null unsupported_promised_op : ProtocolError
  third_party_is_null contact_is_null exception_is_null unsupported_return_tag : ProtocolError
  unknown_message_tag pointer_index_required target_required : ProtocolError
  contact_required content_not_framed return_is_null target_is_null : ProtocolError
  bootstrap_failed no_hosted_capability : ProtocolError
