-- ===== src/Wire/Codec/Layout.antt =====
-- The layout of the RPC messages, as rpc/wire/types.ts passes it on from
-- rpc/gen/capnp/rpc_wire_constants.ts.
use capnp_deno.Base.{ℕ}

abbrev pub rpc_message_tag_call : ℕ
rpc_message_tag_call = 2

abbrev pub rpc_message_tag_return : ℕ
rpc_message_tag_return = 3

abbrev pub rpc_message_tag_finish : ℕ
rpc_message_tag_finish = 4

abbrev pub rpc_message_tag_resolve : ℕ
rpc_message_tag_resolve = 5

abbrev pub rpc_message_tag_release : ℕ
rpc_message_tag_release = 6

abbrev pub rpc_message_tag_bootstrap : ℕ
rpc_message_tag_bootstrap = 8

abbrev pub rpc_message_tag_disembargo : ℕ
rpc_message_tag_disembargo = 13

abbrev pub rpc_call_target_tag_imported_cap : ℕ
rpc_call_target_tag_imported_cap = 0

abbrev pub rpc_call_target_tag_promised_answer : ℕ
rpc_call_target_tag_promised_answer = 1

abbrev pub rpc_promised_answer_op_tag_noop : ℕ
rpc_promised_answer_op_tag_noop = 0

abbrev pub rpc_promised_answer_op_tag_get_pointer_field : ℕ
rpc_promised_answer_op_tag_get_pointer_field = 1

abbrev pub return_tag_results : ℕ
return_tag_results = 0

abbrev pub return_tag_exception : ℕ
return_tag_exception = 1

abbrev pub cap_descriptor_tag_sender_hosted : ℕ
cap_descriptor_tag_sender_hosted = 1

abbrev pub cap_descriptor_tag_receiver_hosted : ℕ
cap_descriptor_tag_receiver_hosted = 3

abbrev pub message_data_word_count : ℕ
message_data_word_count = 1

abbrev pub message_pointer_count : ℕ
message_pointer_count = 1

abbrev pub message_union_tag_byte_offset : ℕ
message_union_tag_byte_offset = 0

abbrev pub message_variant_pointer_index : ℕ
message_variant_pointer_index = 0

abbrev pub bootstrap_data_word_count : ℕ
bootstrap_data_word_count = 1

abbrev pub bootstrap_pointer_count : ℕ
bootstrap_pointer_count = 1

abbrev pub bootstrap_question_id_byte_offset : ℕ
bootstrap_question_id_byte_offset = 0

abbrev pub message_target_data_word_count : ℕ
message_target_data_word_count = 1

abbrev pub message_target_pointer_count : ℕ
message_target_pointer_count = 1

abbrev pub message_target_tag_byte_offset : ℕ
message_target_tag_byte_offset = 4

abbrev pub message_target_imported_cap_byte_offset : ℕ
message_target_imported_cap_byte_offset = 0

abbrev pub message_target_promised_answer_pointer_index : ℕ
message_target_promised_answer_pointer_index = 0

abbrev pub promised_answer_data_word_count : ℕ
promised_answer_data_word_count = 1

abbrev pub promised_answer_pointer_count : ℕ
promised_answer_pointer_count = 1

abbrev pub promised_answer_question_id_byte_offset : ℕ
promised_answer_question_id_byte_offset = 0

abbrev pub promised_answer_transform_pointer_index : ℕ
promised_answer_transform_pointer_index = 0

abbrev pub promised_answer_op_data_word_count : ℕ
promised_answer_op_data_word_count = 1

abbrev pub promised_answer_op_pointer_count : ℕ
promised_answer_op_pointer_count = 0

abbrev pub promised_answer_op_tag_byte_offset : ℕ
promised_answer_op_tag_byte_offset = 0

abbrev pub promised_answer_op_get_pointer_field_byte_offset : ℕ
promised_answer_op_get_pointer_field_byte_offset = 2

abbrev pub return_data_word_count : ℕ
return_data_word_count = 2

abbrev pub return_pointer_count : ℕ
return_pointer_count = 1

abbrev pub return_answer_id_byte_offset : ℕ
return_answer_id_byte_offset = 0

abbrev pub return_flags_byte_offset : ℕ
return_flags_byte_offset = 4

abbrev pub return_release_param_caps_flag_mask : ℕ
return_release_param_caps_flag_mask = 1

abbrev pub return_no_finish_needed_flag_mask : ℕ
return_no_finish_needed_flag_mask = 2

abbrev pub return_tag_byte_offset : ℕ
return_tag_byte_offset = 6

abbrev pub return_variant_pointer_index : ℕ
return_variant_pointer_index = 0

abbrev pub finish_data_word_count : ℕ
finish_data_word_count = 1

abbrev pub finish_pointer_count : ℕ
finish_pointer_count = 0

abbrev pub finish_question_id_byte_offset : ℕ
finish_question_id_byte_offset = 0

abbrev pub finish_flags_byte_offset : ℕ
finish_flags_byte_offset = 4

abbrev pub finish_release_result_caps_flag_mask : ℕ
finish_release_result_caps_flag_mask = 1

abbrev pub finish_require_early_cancellation_workaround_flag_mask : ℕ
finish_require_early_cancellation_workaround_flag_mask = 2

abbrev pub release_data_word_count : ℕ
release_data_word_count = 1

abbrev pub release_pointer_count : ℕ
release_pointer_count = 0

abbrev pub release_id_byte_offset : ℕ
release_id_byte_offset = 0

abbrev pub release_reference_count_byte_offset : ℕ
release_reference_count_byte_offset = 4

abbrev pub exception_data_word_count : ℕ
exception_data_word_count = 1

abbrev pub exception_pointer_count : ℕ
exception_pointer_count = 3

abbrev pub exception_reason_pointer_index : ℕ
exception_reason_pointer_index = 0

abbrev pub cap_descriptor_data_word_count : ℕ
cap_descriptor_data_word_count = 1

abbrev pub cap_descriptor_pointer_count : ℕ
cap_descriptor_pointer_count = 1

abbrev pub cap_descriptor_tag_byte_offset : ℕ
cap_descriptor_tag_byte_offset = 0

abbrev pub cap_descriptor_id_byte_offset : ℕ
cap_descriptor_id_byte_offset = 4

abbrev pub call_data_word_count : ℕ
call_data_word_count = 3

abbrev pub call_pointer_count : ℕ
call_pointer_count = 3

abbrev pub call_question_id_byte_offset : ℕ
call_question_id_byte_offset = 0

abbrev pub call_interface_id_byte_offset : ℕ
call_interface_id_byte_offset = 8

abbrev pub call_method_id_byte_offset : ℕ
call_method_id_byte_offset = 4

abbrev pub call_send_results_to_tag_byte_offset : ℕ
call_send_results_to_tag_byte_offset = 6

abbrev pub call_send_results_to_tag_caller : ℕ
call_send_results_to_tag_caller = 0

abbrev pub call_target_pointer_index : ℕ
call_target_pointer_index = 0

abbrev pub call_params_pointer_index : ℕ
call_params_pointer_index = 1

abbrev pub payload_data_word_count : ℕ
payload_data_word_count = 0

abbrev pub payload_pointer_count : ℕ
payload_pointer_count = 2

abbrev pub payload_content_pointer_index : ℕ
payload_content_pointer_index = 0

abbrev pub payload_cap_table_pointer_index : ℕ
payload_cap_table_pointer_index = 1

-- Declared in rpc/wire/types.ts itself.
abbrev pub cap_descriptor_tag_third_party_hosted : ℕ
cap_descriptor_tag_third_party_hosted = 5

-- `Return.canceled`, written as a number in rpc/wire/decode.ts
abbrev pub return_tag_canceled : ℕ
return_tag_canceled = 2
