-- ===== src/Wire/Pointers.antt =====
-- rpc/wire/pointers.ts: far pointers, rebasing, and the decoders of struct and list pointers. The
-- deep copy of a message is not here. Word indices may be negative on the way, so they are integers.
pub mod Bounds
pub mod Rebase
pub mod DoubleFar
mod Tests
use capnp_deno.Base.{
  ℕ, zero, suc, ◌+◌, ◌-◌, ◌*◌, ◌/◌, ◌%◌, ◌^◌, Bool, true, false, Option, none, some, List, [], ◌∷◌,
  Bytes, Result, ok, err, ◌>>=◌, ◌>>◌, throw_if, ltb, ◌==◌, not, ◌||◌, if◌then◌else◌, length,
  get_elem?, take, drop, subarray,
}
use capnp_deno.Base.Int.{ℤ, pos, negsuc, pos_part, sub_ℕ, ◌+ℤ◌, ◌-ℤ◌}
use capnp_deno.Wire.Errors.{
  ProtocolError, landing_pad_not_far, landing_pad_double_far, hop_limit_exceeded,
  far_pointer_unsupported, pointer_index_out_of_range, expected_struct_pointer,
  expected_list_pointer, unexpected_element_size, struct_out_of_range, byte_list_out_of_range,
  invalid_tag_kind,
}
use capnp_deno.Wire.PointerWord.{
  kind, raw_offset, data_words, pointer_count, element_size, element_count, double_far_bit,
  landing_pad_word, landing_segment_id,
}
use capnp_deno.Wire.Segments.{
  SegmentTable, StructRef, ensure_range, ensure_segment_range, read_word_from_table, signed30,
  encode_signed30,
}

abbrev pub far_pointer_hop_limit : ℕ
far_pointer_hop_limit = 8

-- `PointerLocation`
pub record PointerLocation : Type 0 where
  pub segment_id : ℕ
  pub word_index : ℕ

-- `ResolvedPointer`
pub record Resolved : Type 0 where
  pub segment_id : ℕ
  pub pointer_word : ℤ
  pub word : ℕ

-- The branch of a double-far pointer: its tag, placed one word before the target.
unfoldable pub double_far : SegmentTable → ℕ → ℕ → Result ProtocolError Resolved
double_far table landing_segment landing_word = do
  ensure_segment_range table landing_segment (pos (landing_word * 8)) 16
  pad0 ← read_word_from_table table landing_segment (pos landing_word)
  throw_if (not (kind pad0 == 2)) landing_pad_not_far
  throw_if (double_far_bit pad0 == 1) landing_pad_double_far
  ensure_segment_range table (landing_segment_id pad0) (pos (landing_pad_word pad0 * 8)) 8
  tag ← read_word_from_table table landing_segment (pos (landing_word + 1))
  ok (record {
    segment_id = landing_segment_id pad0;
    pointer_word = sub_ℕ (landing_pad_word pad0) 1;
    word = tag;
  })

-- The landing pad of a single-far pointer.
unfoldable pub single_far : SegmentTable → ℕ → Result ProtocolError Resolved
single_far table word = do
  next ← read_word_from_table table (landing_segment_id word) (pos (landing_pad_word word))
  ok (record {
    segment_id = landing_segment_id word;
    pointer_word = pos (landing_pad_word word);
    word = next;
  })

-- The loop of `resolvePointer`, over the hops that are left.
unfoldable pub resolve_hops : SegmentTable → ℕ → Resolved → Result ProtocolError Resolved
resolve_hops table zero r = err hop_limit_exceeded
resolve_hops table (suc hops) r =
    if kind r.word == 2
    then (if double_far_bit r.word == 1
        then double_far table (landing_segment_id r.word) (landing_pad_word r.word)
        else (single_far table r.word >>= resolve_hops table hops))
    else ok r

-- `resolvePointer`
unfoldable pub resolve_pointer : SegmentTable → ℕ → ℤ → Result ProtocolError Resolved
resolve_pointer table segment_id pointer_word = do
  word ← read_word_from_table table segment_id pointer_word
  resolve_hops table far_pointer_hop_limit
      (record { segment_id = segment_id; pointer_word = pointer_word; word = word })

-- `(word & ~POINTER_OFFSET_MASK) | (field << 2)` for a field of 30 bits: the two share no bit.
abbrev pub with_offset : ℕ → ℕ → ℕ
with_offset word field = word / 2 ^ 32 * 2 ^ 32 + field * 4 + word % 4

-- `rebasePointerWord`
unfoldable pub rebase_pointer_word : ℕ → ℤ → ℤ → Result ProtocolError ℕ
rebase_pointer_word pointer_word from_word to_word =
    if pointer_word == 0
    then ok 0
    else if kind pointer_word == 0 || kind pointer_word == 1
    then (encode_signed30
          (from_word +ℤ pos 1 +ℤ signed30 (raw_offset pointer_word) -ℤ (to_word +ℤ pos 1))
        >>= λ field. ok (with_offset pointer_word field))
    else if kind pointer_word == 2
    then err far_pointer_unsupported
    else ok pointer_word

-- `rebaseCopiedRootPointer`
unfoldable pub rebase_copied_root_pointer : ℕ → ℤ → ℤ → Result ProtocolError ℕ
rebase_copied_root_pointer root copied_start destination =
    if root == 0
    then ok 0
    else if kind root == 0 || kind root == 1
    then (encode_signed30
          (copied_start +ℤ (pos 1 +ℤ signed30 (raw_offset root)) -ℤ (destination +ℤ pos 1))
        >>= λ field. ok (with_offset root field))
    else if kind root == 2
    then err far_pointer_unsupported
    else ok root

-- `pointerWordIndex`
unfoldable pub pointer_word_index : StructRef → ℤ → Result ProtocolError PointerLocation
pointer_word_index struct_ref (negsuc _) = err pointer_index_out_of_range
pointer_word_index struct_ref (pos offset) =
    if ltb offset struct_ref.pointer_count
    then ok (record {
      segment_id = struct_ref.segment_id;
      word_index = struct_ref.start_word + struct_ref.data_word_count + offset;
    })
    else err pointer_index_out_of_range

-- The words that follow a pointer, plus its offset.
abbrev pub target_word : Resolved → ℤ
target_word r = r.pointer_word +ℤ pos 1 +ℤ signed30 (raw_offset r.word)

-- `!seg || startWord < 0 || (startWord + words) * WORD_BYTES > seg.byteLength`
unfoldable pub out_of_segment : SegmentTable → ℕ → ℤ → ℕ → Bool
out_of_segment table segment_id (negsuc _) words = true
out_of_segment table segment_id (pos start_word) words = elim (get_elem? table segment_id) [
  | none ↦ true
  | some segment ↦ ltb (length segment) ((start_word + words) * 8)
]

-- `decodeStructPointer`
unfoldable pub decode_struct_pointer :
    SegmentTable → PointerLocation → Result ProtocolError (Option StructRef)
decode_struct_pointer table loc = resolve_pointer table loc.segment_id (pos loc.word_index) >>= λ r.
    if r.word == 0
    then ok none
    else if not (kind r.word == 0)
    then err expected_struct_pointer
    else if out_of_segment table r.segment_id (target_word r)
        (data_words r.word + pointer_count r.word)
    then err struct_out_of_range
    else ok (
        some (record {
          segment_id = r.segment_id;
          start_word = pos_part (target_word r);
          data_word_count = data_words r.word;
          pointer_count = pointer_count r.word;
        }))

-- `ByteListRef`
pub record ByteListRef : Type 0 where
  pub segment_id : ℕ
  pub start_word : ℕ
  pub element_count : ℕ

-- `decodeByteListPointer`
unfoldable pub decode_byte_list_pointer :
    SegmentTable → PointerLocation → Result ProtocolError (Option ByteListRef)
decode_byte_list_pointer table loc =
    resolve_pointer table loc.segment_id (pos loc.word_index) >>= λ r.
    if r.word == 0
    then ok none
    else if not (kind r.word == 1)
    then err expected_list_pointer
    else if not (element_size r.word == 2)
    then err unexpected_element_size
    else if out_of_segment table r.segment_id (target_word r) ((element_count r.word + 7) / 8)
    then err byte_list_out_of_range
    else ok (
        some (record {
          segment_id = r.segment_id;
          start_word = pos_part (target_word r);
          element_count = element_count r.word;
        }))

-- `StructListRef`
pub record StructListRef : Type 0 where
  pub segment_id : ℕ
  pub elements_start_word : ℤ
  pub element_count : ℕ
  pub data_word_count : ℕ
  pub pointer_count : ℕ

-- `decodeStructListPointer`
unfoldable pub decode_struct_list_pointer :
    SegmentTable → PointerLocation → Result ProtocolError (Option StructListRef)
decode_struct_list_pointer table loc =
    resolve_pointer table loc.segment_id (pos loc.word_index) >>= λ r.
    if r.word == 0
    then ok none
    else if not (kind r.word == 1)
    then err expected_list_pointer
    else if not (element_size r.word == 7)
    then err unexpected_element_size
    else (read_word_from_table table r.segment_id (target_word r) >>= λ tag.
        if not (kind tag == 0)
        then err invalid_tag_kind
        else ok (
            some (record {
              segment_id = r.segment_id;
              elements_start_word = target_word r +ℤ pos 1;
              element_count = raw_offset tag;
              data_word_count = data_words tag;
              pointer_count = pointer_count tag;
            })))

-- Without the zero byte that ends it.
unfoldable pub drop_terminator : Bytes → Bytes
drop_terminator [] = []
drop_terminator (b ∷ rest) = elim rest [
  | [] ↦ if b == 0 then [] else b ∷ []
  | c ∷ more ↦ b ∷ drop_terminator rest
]

-- `readTextFromPointer`, up to the text decoder, which is not part of the repository.
unfoldable pub read_text_bytes :
    SegmentTable → PointerLocation → Result ProtocolError (Option Bytes)
read_text_bytes table loc = decode_byte_list_pointer table loc >>= elim [
  | none ↦ ok none
  | some list ↦ do
    ensure_segment_range table list.segment_id (pos (list.start_word * 8)) list.element_count
    ok (elim (get_elem? table list.segment_id) [
      | none ↦ none
      | some segment ↦ some (
          drop_terminator
            (subarray segment (list.start_word * 8) (list.start_word * 8 + list.element_count)))
    ])
]
