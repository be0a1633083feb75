-- ===== src/Wire/Codec/Decode.antt =====
-- rpc/wire/decode.ts: the tag of a message, the messages without a payload, and the targets of calls.
use capnp_deno.Base.{
  ℕ, ◌/◌, ◌%◌, Bool, none, some, Bytes, Result, ok, err, ◌>>=◌, ◌>>◌, throw_if, not, ◌==◌,
}
use capnp_deno.Base.Int.{pos}
use capnp_deno.Wire.Errors.{
  ProtocolError, root_pointer_is_null, unexpected_message_tag, variant_pointer_is_null,
}
use capnp_deno.Wire.Segments.{
  SegmentTable, StructRef, segments_from_frame, read_u16_in_struct, read_u32_in_struct,
}
use capnp_deno.Wire.Pointers.{PointerLocation, decode_struct_pointer, pointer_word_index}
use capnp_deno.Wire.Codec.Layout

-- A struct whose pointer must not be null.
unfoldable pub require_struct :
    SegmentTable → ProtocolError → PointerLocation → Result ProtocolError StructRef
require_struct table error loc =
    decode_struct_pointer table loc >>= elim [ none ↦ err error | some s ↦ ok s ]

-- The struct behind a pointer of a struct, which must not be null.
unfoldable pub require_pointer :
    SegmentTable → ProtocolError → StructRef → ℕ → Result ProtocolError StructRef
require_pointer table error s index = do
  loc ← pointer_word_index s (pos index)
  require_struct table error loc

abbrev pub root_location : PointerLocation
root_location = record { segment_id = 0; word_index = 0 }

-- `decodeRpcMessageTag`
unfoldable pub decode_rpc_message_tag : Bytes → Result ProtocolError ℕ
decode_rpc_message_tag frame = do
  table ← segments_from_frame frame
  root ← require_struct table root_pointer_is_null root_location
  read_u16_in_struct table root Layout.message_union_tag_byte_offset

-- The lines that every decoder begins with: the struct of the message's variant, when the message has
-- the expected tag.
unfoldable pub message_variant : ℕ → SegmentTable → Result ProtocolError StructRef
message_variant expected table = do
  root ← require_struct table root_pointer_is_null root_location
  tag ← read_u16_in_struct table root Layout.message_union_tag_byte_offset
  throw_if (not (tag == expected)) unexpected_message_tag
  require_pointer table variant_pointer_is_null root Layout.message_variant_pointer_index

unfoldable pub open_message : ℕ → Bytes → Result ProtocolError (SegmentTable × StructRef)
open_message expected frame = do
  table ← segments_from_frame frame
  variant ← message_variant expected table
  ok (table, variant)

-- `decodeBootstrapRequestFrame`: the question id.
unfoldable pub decode_bootstrap_request_frame : Bytes → Result ProtocolError ℕ
decode_bootstrap_request_frame frame = do
  (table, bootstrap) ← open_message Layout.rpc_message_tag_bootstrap frame
  read_u32_in_struct table bootstrap Layout.bootstrap_question_id_byte_offset

-- `RpcFinishRequest`
pub record FinishRequest : Type 0 where
  pub question_id : ℕ
  pub release_result_caps : Bool
  pub require_early_cancellation : Bool

-- `(flags & mask) === 0` for a mask of the lowest bit and of the bit above it.
abbrev pub bit0_clear : ℕ → Bool
bit0_clear flags = flags % 2 == 0

abbrev pub bit1_clear : ℕ → Bool
bit1_clear flags = flags / 2 % 2 == 0

-- `decodeFinishFrame`
unfoldable pub decode_finish_frame : Bytes → Result ProtocolError FinishRequest
decode_finish_frame frame = do
  (table, finish) ← open_message Layout.rpc_message_tag_finish frame
  flags ← read_u32_in_struct table finish Layout.finish_flags_byte_offset
  question_id ← read_u32_in_struct table finish Layout.finish_question_id_byte_offset
  ok (record {
    question_id = question_id;
    release_result_caps = bit0_clear flags;
    require_early_cancellation = bit1_clear flags;
  })

-- `RpcReleaseRequest`
pub record ReleaseRequest : Type 0 where
  pub id : ℕ
  pub reference_count : ℕ

-- `decodeReleaseFrame`
unfoldable pub decode_release_frame : Bytes → Result ProtocolError ReleaseRequest
decode_release_frame frame = do
  (table, release) ← open_message Layout.rpc_message_tag_release frame
  id ← read_u32_in_struct table release Layout.release_id_byte_offset
  reference_count ← read_u32_in_struct table release Layout.release_reference_count_byte_offset
  ok (record { id = id; reference_count = reference_count })
