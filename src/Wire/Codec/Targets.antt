-- ===== src/Wire/Codec/Targets.antt =====
-- The targets of calls, in rpc/wire/encode.ts and rpc/wire/decode.ts: an imported capability, or a promised
-- answer with the pointer fields to follow in it. The ids of a request are numbers of the caller, so
-- they are integers.
use capnp_deno.Base.{
  ℕ, zero, suc, ◌+◌, ◌*◌, ◌^◌, ◌%◌, Bool, false, Option, none, some, List, [], ◌∷◌, Result, ok, err,
  ◌>>=◌, ◌==◌, if◌then◌else◌, length,
}
use capnp_deno.Base.Int.{ℤ, pos, negsuc, pos_part}
use capnp_deno.Wire.Errors.{
  ProtocolError, pointer_index_required, unsupported_promised_op, unsupported_call_target,
  target_required, promised_answer_is_null,
}
use capnp_deno.Wire.Segments.{
  SegmentTable, StructRef, ensure_u16, ensure_u32, read_u16_in_struct, read_u32_in_struct,
}
use capnp_deno.Wire.Pointers.{
  PointerLocation, StructListRef, decode_struct_list_pointer, pointer_word_index,
}
use capnp_deno.Wire.Builder.{Builder, alloc_words, write_word, write_u16, set_list_pointer}
use capnp_deno.Wire.Codec.Layout
use capnp_deno.Wire.Codec.Decode.{require_pointer}

-- `RpcPromisedAnswerOp`
pub record PromisedAnswerOp : Type 0 where
  pub tag : ℤ
  pub pointer_index : Option ℤ

-- `RpcCallTarget`, and the optional list of `RpcPromisedAnswerTarget` in it.
pub data CallTarget : Type 0 where
  imported_cap : ℤ → CallTarget
  promised_answer : ℤ → Option (List PromisedAnswerOp) → CallTarget

-- `tag === constant`
abbrev pub is_tag : ℤ → ℕ → Bool
is_tag (pos n) constant = n == constant
is_tag (negsuc n) constant = false

abbrev pub noop : PromisedAnswerOp
noop = record { tag = pos Layout.rpc_promised_answer_op_tag_noop; pointer_index = none }

abbrev pub get_pointer_field : ℕ → PromisedAnswerOp
get_pointer_field index = record {
  tag = pos Layout.rpc_promised_answer_op_tag_get_pointer_field;
  pointer_index = some (pos index);
}

-- `normalizePromisedAnswerOp`
unfoldable pub normalize_promised_answer_op :
    PromisedAnswerOp → Result ProtocolError PromisedAnswerOp
normalize_promised_answer_op op =
    if is_tag op.tag Layout.rpc_promised_answer_op_tag_noop
    then ok noop
    else if is_tag op.tag Layout.rpc_promised_answer_op_tag_get_pointer_field
    then elim op.pointer_index [
      | none ↦ err pointer_index_required
      | some index ↦ ensure_u16 index >>= λ index. ok (get_pointer_field index)
    ]
    else err unsupported_promised_op

-- The `map` over the operations, which stops at the first error.
unfoldable pub normalize_ops : List PromisedAnswerOp → Result ProtocolError (List PromisedAnswerOp)
normalize_ops [] = ok []
normalize_ops (op ∷ ops) = do
  op ← normalize_promised_answer_op op
  ops ← normalize_ops ops
  ok (op ∷ ops)

abbrev pub normalize_transform :
    Option (List PromisedAnswerOp) → Result ProtocolError (Option (List PromisedAnswerOp))
normalize_transform none = ok none
normalize_transform (some ops) = normalize_ops ops >>= λ ops. ok (some ops)

-- `normalizeCallTarget`: the two optional fields of the request, `target` and `targetImportedCap`.
unfoldable pub normalize_call_target :
    Option CallTarget → Option ℤ → Result ProtocolError CallTarget
normalize_call_target (some (imported_cap id)) _ =
    ensure_u32 id >>= λ id. ok (imported_cap (pos id))
normalize_call_target (some (promised_answer question_id transform)) _ = do
  question_id ← ensure_u32 question_id
  transform ← normalize_transform transform
  ok (promised_answer (pos question_id) transform)
normalize_call_target none none = err target_required
normalize_call_target none (some id) = ensure_u32 id >>= λ id. ok (imported_cap (pos id))

-- `inlineCompositeTag`, whose fields share no bit.
unfoldable pub inline_composite_tag : ℕ → ℕ → ℕ → Result ProtocolError ℕ
inline_composite_tag element_count data_words pointers = do
  count ← ensure_u32 (pos element_count)
  data_words ← ensure_u16 (pos data_words)
  pointers ← ensure_u16 (pos pointers)
  ok (count % 2 ^ 30 * 4 + data_words * 2 ^ 32 + pointers * 2 ^ 48)

-- The field of an operation that follows a pointer.
abbrev pub encode_pointer_field : ℕ → Option ℤ → Builder → Result ProtocolError Builder
encode_pointer_field element_word none b = err pointer_index_required
encode_pointer_field element_word (some index) b = ensure_u16 index >>= λ index.
    write_u16 element_word Layout.promised_answer_op_get_pointer_field_byte_offset index b

-- The loop over the operations; element `i` of the list stands in the word `element_word`.
unfoldable pub encode_ops : ℕ → List PromisedAnswerOp → Builder → Result ProtocolError Builder
encode_ops element_word [] b = ok b
encode_ops element_word (op ∷ ops) b = do
  normalized ← normalize_promised_answer_op op
  tag ← ensure_u16 normalized.tag
  b ← write_u16 element_word Layout.promised_answer_op_tag_byte_offset tag b
  b ←
      (if tag == Layout.rpc_promised_answer_op_tag_get_pointer_field
        then encode_pointer_field element_word normalized.pointer_index b
        else ok b)
  encode_ops (element_word + 1) ops b

-- `encodePromisedAnswerTransform`
unfoldable pub encode_promised_answer_transform :
    ℕ → Option (List PromisedAnswerOp) → Builder → Result ProtocolError Builder
encode_promised_answer_transform pointer_word none b = write_word pointer_word 0 b
encode_promised_answer_transform pointer_word (some []) b = write_word pointer_word 0 b
encode_promised_answer_transform pointer_word (some (op ∷ ops)) b = do
  let count = length (op ∷ ops)
  let (tag_word, b) = alloc_words (1 + count) b
  b ← set_list_pointer pointer_word tag_word 7 count b
  tag ←
      inline_composite_tag count Layout.promised_answer_op_data_word_count
        Layout.promised_answer_op_pointer_count
  b ← write_word tag_word tag b
  encode_ops (tag_word + 1) (op ∷ ops) b

-- Element `i` of a list of structs. The list's tag word was read, so its elements start past word 0.
abbrev pub element : StructListRef → ℕ → StructRef
element list i = record {
  segment_id = list.segment_id;
  start_word = pos_part list.elements_start_word + i * (list.data_word_count + list.pointer_count);
  data_word_count = list.data_word_count;
  pointer_count = list.pointer_count;
}

-- One turn of the loop of `decodePromisedAnswerTransform`
unfoldable pub decode_op : SegmentTable → StructRef → Result ProtocolError PromisedAnswerOp
decode_op table item = do
  tag ← read_u16_in_struct table item Layout.promised_answer_op_tag_byte_offset
  (if tag == Layout.rpc_promised_answer_op_tag_noop
      then ok noop
      else if tag == Layout.rpc_promised_answer_op_tag_get_pointer_field
      then (read_u16_in_struct table item Layout.promised_answer_op_get_pointer_field_byte_offset
          >>= λ index. ok (get_pointer_field index))
      else err unsupported_promised_op)

-- The loop, over the elements that are left from the `i`th on.
unfoldable pub decode_ops :
    SegmentTable → StructListRef → ℕ → ℕ → Result ProtocolError (List PromisedAnswerOp)
decode_ops table list i zero = ok []
decode_ops table list i (suc count) = do
  op ← decode_op table (element list i)
  ops ← decode_ops table list (i + 1) count
  ok (op ∷ ops)

-- `decodePromisedAnswerTransform`
unfoldable pub decode_promised_answer_transform :
    SegmentTable → PointerLocation → Result ProtocolError (List PromisedAnswerOp)
decode_promised_answer_transform table loc =
    decode_struct_list_pointer table loc
    >>= elim [ none ↦ ok [] | some list ↦ decode_ops table list 0 list.element_count ]

-- The branch of `decodeCallTarget` for a promised answer.
unfoldable pub decode_promised_answer : SegmentTable → StructRef → Result ProtocolError CallTarget
decode_promised_answer table target = do
  promised ←
      require_pointer table promised_answer_is_null target
        Layout.message_target_promised_answer_pointer_index
  question_id ← read_u32_in_struct table promised Layout.promised_answer_question_id_byte_offset
  loc ← pointer_word_index promised (pos Layout.promised_answer_transform_pointer_index)
  transform ← decode_promised_answer_transform table loc
  ok (promised_answer (pos question_id) (some transform))

-- `decodeCallTarget`
unfoldable pub decode_call_target : SegmentTable → StructRef → Result ProtocolError CallTarget
decode_call_target table target = do
  tag ← read_u16_in_struct table target Layout.message_target_tag_byte_offset
  (if tag == Layout.rpc_call_target_tag_imported_cap
      then (read_u32_in_struct table target Layout.message_target_imported_cap_byte_offset >>= λ id.
          ok (imported_cap (pos id)))
      else if tag == Layout.rpc_call_target_tag_promised_answer
      then decode_promised_answer table target
      else err unsupported_call_target)
