-- ===== src/Wire/Pointers/Tests.antt =====
-- Pointers.ts at concrete inputs.
use capnp_deno.Base.{
  ◌*◌, ◌+◌, ◌/◌, ◌^◌, ◌≡◌, refl, ◌⊎◌, some, [], ◌∷◌, ◌++◌, Bytes, ok, arith, take, drop, get_elem?,
  of_le, to_le, subarray, get_uint64,
}
use capnp_deno.Base.Int.{pos, ◌+ℤ◌, ◌-ℤ◌}
use capnp_deno.Wire.PointerWord.{kind, raw_offset}
use capnp_deno.Wire.Segments.{
  SegmentTable, StructRef, signed30, encode_signed30, read_word_from_table, ensure_segment_range,
  ensure_range, read_in_struct,
}
use capnp_deno.Wire.FrameLimits.Walk
use capnp_deno.Wire.Pointers.{
  PointerLocation, Resolved, ByteListRef, double_far, single_far, resolve_hops, resolve_pointer,
  out_of_segment, decode_struct_pointer, decode_byte_list_pointer, rebase_pointer_word,
  rebase_copied_root_pointer, pointer_word_index, read_text_bytes, drop_terminator, target_word,
}
use capnp_deno.Wire.Pointers.Bounds.{
  InTable, decode_struct_pointer-InTable, read_in_struct-decode_struct_pointer,
  read_text_bytes-decode_byte_list_pointer,
}
use capnp_deno.Wire.Pointers.Rebase.{
  rebase_pointer_word-target, rebase_copied_root_pointer-rebase_pointer_word,
}
use capnp_deno.Wire.Pointers.DoubleFar.{double_far_shifted}

-- A root struct of one data word, 42, and one pointer, to the text "hi".
abbrev message : SegmentTable
message =
    (to_le 8 (2 ^ 32 + 2 ^ 48)
      ++ (to_le 8 42
          ++ (to_le 8 (1 + 2 * 2 ^ 32 + 3 * 2 ^ 35) ++ (104 ∷ 105 ∷ 0 ∷ 0 ∷ 0 ∷ 0 ∷ 0 ∷ 0 ∷ []))))
    ∷ []

abbrev root_pointer : PointerLocation
root_pointer = record { segment_id = 0; word_index = 0 }

abbrev text_pointer : PointerLocation
text_pointer = record { segment_id = 0; word_index = 2 }

abbrev root_struct : StructRef
root_struct = record { segment_id = 0; start_word = 1; data_word_count = 1; pointer_count = 1 }

abbrev text_list : ByteListRef
text_list = record { segment_id = 0; start_word = 3; element_count = 3 }

-- What an evaluation of the decoders opens.
decoding : Unit {0}
unfolding decode_struct_pointer decode_byte_list_pointer resolve_pointer resolve_hops double_far
    single_far out_of_segment read_word_from_table ensure_segment_range ensure_range signed30
    get_uint64 ◌+ℤ◌ read_text_bytes drop_terminator pointer_word_index
decoding = tt

root_decodes : decode_struct_pointer message root_pointer ≡ ok (some root_struct)
unfolding decoding
root_decodes = refl

text_decodes : decode_byte_list_pointer message text_pointer ≡ ok (some text_list)
unfolding decoding
text_decodes = refl

hi : read_text_bytes message text_pointer ≡ ok (some (104 ∷ 105 ∷ []))
unfolding decoding
hi = refl

text_of_root : pointer_word_index root_struct (pos 0) ≡ ok text_pointer
unfolding decoding
text_of_root = refl

decode_struct_pointer-InTable_example : InTable message 0 1 2
decode_struct_pointer-InTable_example =
    decode_struct_pointer-InTable message root_pointer root_struct root_decodes

read_in_struct-decode_struct_pointer_example :
    (segment : Bytes) × (get_elem? message 0 ≡ some segment)
    × (read_in_struct 2 message root_struct 6 ≡ ok (of_le (take 2 (drop 14 segment))))
read_in_struct-decode_struct_pointer_example =
    read_in_struct-decode_struct_pointer message root_pointer root_struct 2 6 root_decodes
      (omega arith)

read_text_bytes-decode_byte_list_pointer_example :
    (segment : Bytes) × (get_elem? message 0 ≡ some segment)
    × (read_text_bytes message text_pointer ≡ ok (some (drop_terminator (subarray segment 24 27))))
read_text_bytes-decode_byte_list_pointer_example =
    read_text_bytes-decode_byte_list_pointer message text_pointer text_list text_decodes

-- The text pointer's word, moved from word 2 to word 0.
text_moves : rebase_pointer_word (1 + 2 * 2 ^ 32) (pos 2) (pos 0) ≡ ok (1 + 2 * 4 + 2 * 2 ^ 32)
unfolding rebase_pointer_word encode_signed30 signed30 ◌+ℤ◌ ◌-ℤ◌
text_moves = refl

rebase_pointer_word-target_example :
    (((1 + 2 * 2 ^ 32 ≡ 0) ⊎ (kind (1 + 2 * 2 ^ 32) ≡ 3))
      × (1 + 2 * 4 + 2 * 2 ^ 32 ≡ 1 + 2 * 2 ^ 32))
    ⊎ (((kind (1 + 2 * 2 ^ 32) ≡ 0) ⊎ (kind (1 + 2 * 2 ^ 32) ≡ 1))
        × (pos 0 +ℤ pos 1 +ℤ signed30 (raw_offset (1 + 2 * 4 + 2 * 2 ^ 32))
            ≡ pos 2 +ℤ pos 1 +ℤ signed30 (raw_offset (1 + 2 * 2 ^ 32)))
        × (kind (1 + 2 * 4 + 2 * 2 ^ 32) ≡ kind (1 + 2 * 2 ^ 32))
        × ((1 + 2 * 4 + 2 * 2 ^ 32) / 2 ^ 32 ≡ (1 + 2 * 2 ^ 32) / 2 ^ 32))
rebase_pointer_word-target_example =
    rebase_pointer_word-target (1 + 2 * 2 ^ 32) (pos 2) (pos 0) (1 + 2 * 4 + 2 * 2 ^ 32) text_moves

rebase_copied_root_pointer-rebase_pointer_word_example :
    rebase_copied_root_pointer (2 ^ 32) (pos 0) (pos 7)
    ≡ rebase_pointer_word (2 ^ 32) (pos 0) (pos 7)
rebase_copied_root_pointer-rebase_pointer_word_example =
    rebase_copied_root_pointer-rebase_pointer_word (2 ^ 32) (pos 0) (pos 7)

-- A double-far pointer to the second word of segment 2, by a landing pad in segment 1.
abbrev far_table : SegmentTable
far_table =
    to_le 8 (6 + 2 ^ 32)
    ∷ (to_le 8 (2 + 1 * 8 + 2 * 2 ^ 32) ++ to_le 8 (2 ^ 32))
    ∷ (to_le 8 7 ++ to_le 8 8)
    ∷ []

abbrev far_target : Resolved
far_target = record { segment_id = 2; pointer_word = pos 0; word = 2 ^ 32 }

lands : double_far far_table 1 0 ≡ ok far_target
unfolding decoding
lands = refl

double_far_shifted_example :
    (v : Walk.Resolved) × (Walk.double_far far_table 1 0 ≡ ok v)
    × (v.segment_id ≡ 2)
    × (v.word ≡ 2 ^ 32)
    × (Walk.target_word v ≡ target_word far_target +ℤ pos 1)
double_far_shifted_example = double_far_shifted far_table 1 0 far_target lands
