-- ===== src/Wire/Codec/Tests.antt =====
-- The codec of RPC messages at concrete messages.
use capnp_deno.Base.{
  ℕ, ◌^◌, ◌+◌, ◌≡◌, refl, ◌⊎◌, true, false, none, some, [], ◌∷◌, ◌++◌, Bytes, ok, err, to_le,
  to_le-AreBytes, or_else, arith,
}
use capnp_deno.Base.Int.{pos}
use capnp_deno.Wire.Errors.{not_u32}
use capnp_deno.Wire.Segments.{
  SegmentTable, StructRef, ensure_u16, ensure_u32, read_in_struct, ensure_segment_range,
  ensure_range,
}
use capnp_deno.Wire.Codec.Layout
use capnp_deno.Wire.Codec.Encode.{
  encode_return_exception_frame, encode_bootstrap_request_frame, encode_finish_frame,
  encode_release_frame,
}
use capnp_deno.Wire.Codec.Decode.{
  decode_rpc_message_tag, decode_bootstrap_request_frame, decode_finish_frame, decode_release_frame,
}
use capnp_deno.Wire.Codec.Targets.{
  PromisedAnswerOp, CallTarget, imported_cap, promised_answer, noop, get_pointer_field,
  normalize_promised_answer_op, normalize_ops, normalize_call_target, decode_call_target,
}
use capnp_deno.Wire.Codec.DecodedTargets.{IsByteTable, normalize_call_target-decode_call_target}
use capnp_deno.Wire.Codec.Refusal.{Refuses, decoders-Refuses}
use capnp_deno.Wire.Codec.Messages.{ContentCodec, decode_return_frame}
use capnp_deno.Wire.Codec.ReturnedErrors.{
  returned, decode_return_frame-encode_return_exception_frame,
}
use capnp_deno.Wire.Codec.RoundTrip.{
  IsU32, decode_bootstrap_request_frame-encode_bootstrap_request_frame,
  decode_finish_frame-encode_finish_frame, decode_release_frame-encode_release_frame,
}

decode_bootstrap_request_frame-encode_bootstrap_request_frame_example :
    ((encode_bootstrap_request_frame (pos 7) ≡ err not_u32) × (¬ IsU32 (pos 7)))
    ⊎ ((a : ℕ) × (pos 7 ≡ pos a)
        × (frame : Bytes) × (encode_bootstrap_request_frame (pos 7) ≡ ok frame)
        × (decode_rpc_message_tag frame ≡ ok Layout.rpc_message_tag_bootstrap)
        × (decode_bootstrap_request_frame frame ≡ ok a))
decode_bootstrap_request_frame-encode_bootstrap_request_frame_example =
    decode_bootstrap_request_frame-encode_bootstrap_request_frame (pos 7)

decode_release_frame-encode_release_frame_example :
    ((encode_release_frame (pos 3) (pos 2) ≡ err not_u32) × (¬ (IsU32 (pos 3) × IsU32 (pos 2))))
    ⊎ ((a b : ℕ) × (pos 3 ≡ pos a)
        × (pos 2 ≡ pos b)
        × (frame : Bytes) × (encode_release_frame (pos 3) (pos 2) ≡ ok frame)
        × (decode_rpc_message_tag frame ≡ ok Layout.rpc_message_tag_release)
        × (decode_release_frame frame ≡ ok (record { id = a; reference_count = b })))
decode_release_frame-encode_release_frame_example =
    decode_release_frame-encode_release_frame (pos 3) (pos 2)

decode_finish_frame-encode_finish_frame_example :
    ((encode_finish_frame (pos 5) (some false) none ≡ err not_u32) × (¬ IsU32 (pos 5)))
    ⊎ ((a : ℕ) × (pos 5 ≡ pos a)
        × (frame : Bytes) × (encode_finish_frame (pos 5) (some false) none ≡ ok frame)
        × (decode_rpc_message_tag frame ≡ ok Layout.rpc_message_tag_finish)
        × (decode_finish_frame frame
            ≡ ok (record {
              question_id = a;
              release_result_caps = or_else (some false) true;
              require_early_cancellation = or_else none false;
            })))
decode_finish_frame-encode_finish_frame_example =
    decode_finish_frame-encode_finish_frame (pos 5) (some false) none

-- A frame of a finish message.
abbrev some_frame : Bytes
some_frame =
    to_le 4 0
    ++ (to_le 4 4 ++ (to_le 8 (2 ^ 32 + 2 ^ 48) ++ (to_le 8 4 ++ (to_le 8 (2 ^ 32) ++ to_le 8 5))))

decoders-Refuses_example :
    Refuses Layout.rpc_message_tag_bootstrap
      (decode_bootstrap_request_frame some_frame)
      (decode_rpc_message_tag some_frame)
    × Refuses Layout.rpc_message_tag_finish
        (decode_finish_frame some_frame)
        (decode_rpc_message_tag some_frame)
    × Refuses Layout.rpc_message_tag_release
        (decode_release_frame some_frame)
        (decode_rpc_message_tag some_frame)
decoders-Refuses_example = decoders-Refuses some_frame

abbrev wordy_op : PromisedAnswerOp
wordy_op = record { tag = pos 0; pointer_index = some (pos 9) }

abbrev wordy : CallTarget
wordy = promised_answer (pos 3) (some (wordy_op ∷ get_pointer_field 2 ∷ []))

abbrev terse : CallTarget
terse = promised_answer (pos 3) (some (noop ∷ get_pointer_field 2 ∷ []))

normalized : normalize_call_target (some wordy) none ≡ ok terse
unfolding normalize_call_target normalize_ops normalize_promised_answer_op ensure_u16 ensure_u32
normalized = refl

-- A target that is the capability 9.
abbrev some_table : SegmentTable
some_table = (to_le 4 9 ++ to_le 12 0) ∷ []

abbrev some_target : StructRef
some_target = record { segment_id = 0; start_word = 0; data_word_count = 1; pointer_count = 1 }

decoded : decode_call_target some_table some_target ≡ ok (imported_cap (pos 9))
unfolding decode_call_target read_in_struct ensure_segment_range ensure_range
decoded = refl

some_table-IsByteTable : IsByteTable some_table
some_table-IsByteTable = (to_le-AreBytes 16 9, tt)

normalize_call_target-decode_call_target_example :
    normalize_call_target (some (imported_cap (pos 9))) none ≡ ok (imported_cap (pos 9))
normalize_call_target-decode_call_target_example =
    normalize_call_target-decode_call_target some_table some_target (imported_cap (pos 9))
      some_table-IsByteTable decoded

-- A codec for contents that are empty.
abbrev no_contents : ContentCodec
no_contents = record {
  encode_into = λ pointer_word content b. ok b;
  decode_from = λ reader loc. ok [];
}

abbrev two_bytes : Bytes
two_bytes = 110 ∷ 111 ∷ []

decode_return_frame-encode_return_exception_frame_example :
    ((encode_return_exception_frame (pos 5) two_bytes none (some true) ≡ err not_u32)
      × (¬ IsU32 (pos 5)))
    ⊎ ((a : ℕ) × (pos 5 ≡ pos a)
        × (frame : Bytes) × (encode_return_exception_frame (pos 5) two_bytes none (some true)
            ≡ ok frame)
        × (decode_return_frame no_contents frame
            ≡ ok (returned a (or_else none true) (or_else (some true) false) two_bytes)))
decode_return_frame-encode_return_exception_frame_example =
    decode_return_frame-encode_return_exception_frame no_contents (pos 5) two_bytes none (some true)
      (omega arith)
