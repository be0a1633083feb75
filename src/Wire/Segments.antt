-- ===== src/Wire/Segments.antt =====
-- rpc/wire/segments.ts: segment tables, words, and the checks on numbers. A table is the list of its
-- segments; its `views` are the same bytes. Word indices come from signed offsets, so they are
-- integers. The context strings of the messages are left out.
pub mod Signed
pub mod Words
pub mod Agreement
mod Tests
use capnp_deno.Base.{
  ℕ, zero, suc, ◌+◌, ◌-◌, ◌*◌, ◌/◌, ◌%◌, ◌^◌, Bool, Option, none, some, List, [], ◌∷◌, ◌++◌, Bytes,
  Result, ok, err, ◌>>=◌, ◌>>◌, throw_if, ltb, leb, ◌==◌, not, ◌||◌, if◌then◌else◌, length,
  get_elem?, to_le, get_uint32, get_uint64, of_le, take, drop, set_bytes, subarray,
}
use capnp_deno.Base.Int.{ℤ, pos, negsuc, sub_ℕ}
use capnp_deno.Wire.Errors.{
  ProtocolError, out_of_range, missing_segment, frame_too_short, frame_header_truncated,
  frame_payload_truncated, segment_not_aligned, not_single_segment, not_u16, not_u32, not_u64,
  offset_out_of_range,
}

-- `SegmentTable`
abbrev pub SegmentTable : Type 0
SegmentTable = List Bytes

-- `ensureRange`
unfoldable pub ensure_range : Bytes → ℤ → ℕ → Result ProtocolError (Unit {0})
ensure_range segment (negsuc _) len = err out_of_range
ensure_range segment (pos byte_offset) len =
    throw_if (ltb (length segment) (byte_offset + len)) out_of_range

-- `ensureSegmentRange`
unfoldable pub ensure_segment_range : SegmentTable → ℕ → ℤ → ℕ → Result ProtocolError (Unit {0})
ensure_segment_range table segment_id byte_offset len = elim (get_elem? table segment_id) [
  | none ↦ err missing_segment
  | some segment ↦ ensure_range segment byte_offset len
]

-- `wordIndex * WORD_BYTES`
abbrev pub byte_offset : ℤ → ℤ
byte_offset (pos n) = pos (n * 8)
byte_offset (negsuc n) = negsuc (n * 8 + 7)

-- The loop of `segmentsFromFrame`, over the segments that are left.
unfoldable pub cut : Bytes → ℕ → ℕ → ℕ → Result ProtocolError SegmentTable
cut frame cursor i zero = ok []
cut frame cursor i (suc count) = do
  let segment_bytes = get_uint32 frame (4 + i * 4) * 8
  throw_if (ltb (length frame) (cursor + segment_bytes)) frame_payload_truncated
  rest ← cut frame (cursor + segment_bytes) (i + 1) count
  ok (subarray frame cursor (cursor + segment_bytes) ∷ rest)

-- `Math.ceil((headerU32Count * 4) / WORD_BYTES) * WORD_BYTES`
abbrev pub padded_header : ℕ → ℕ
padded_header segment_count = ((1 + segment_count) * 4 + 7) / 8 * 8

-- `segmentsFromFrame`
unfoldable pub segments_from_frame : Bytes → Result ProtocolError SegmentTable
segments_from_frame frame = do
  throw_if (ltb (length frame) 8) frame_too_short
  let segment_count = get_uint32 frame 0 + 1
  throw_if (ltb (length frame) (padded_header segment_count)) frame_header_truncated
  cut frame (padded_header segment_count) 0 segment_count

-- `segmentFromFrame`
unfoldable pub segment_from_frame : Bytes → Result ProtocolError Bytes
segment_from_frame frame = segments_from_frame frame >>= elim [
  | [] ↦ err not_single_segment
  | segment ∷ rest ↦ elim rest [ [] ↦ ok segment | _ ∷ _ ↦ err not_single_segment ]
]

-- `frameFromSegment`
unfoldable pub frame_from_segment : Bytes → Result ProtocolError Bytes
frame_from_segment segment = do
  throw_if (not (length segment % 8 == 0)) segment_not_aligned
  ok (to_le 4 0 ++ (to_le 4 (length segment / 8) ++ segment))

-- `readWord`
unfoldable pub read_word : Bytes → ℕ → Result ProtocolError ℕ
read_word segment word_index = do
  ensure_range segment (pos (word_index * 8)) 8
  ok (get_uint64 segment (word_index * 8))

-- A read from a segment of the table, at an offset that has been checked.
abbrev pub uint64_at : SegmentTable → ℕ → ℤ → ℕ
uint64_at table segment_id (negsuc _) = 0
uint64_at table segment_id (pos offset) = elim (get_elem? table segment_id) [
  | none ↦ 0
  | some segment ↦ get_uint64 segment offset
]

-- `readWordFromTable`
unfoldable pub read_word_from_table : SegmentTable → ℕ → ℤ → Result ProtocolError ℕ
read_word_from_table table segment_id word_index = do
  ensure_segment_range table segment_id (byte_offset word_index) 8
  ok (uint64_at table segment_id (byte_offset word_index))

-- `writeWord`: the segment after the write. `setBigUint64` keeps the low 64 bits.
unfoldable pub write_word : Bytes → ℕ → ℕ → Result ProtocolError Bytes
write_word segment word_index value = do
  ensure_range segment (pos (word_index * 8)) 8
  ok (set_bytes segment (word_index * 8) (to_le 8 value))

-- `StructRef`
pub record StructRef : Type 0 where
  pub segment_id : ℕ
  pub start_word : ℕ
  pub data_word_count : ℕ
  pub pointer_count : ℕ

-- The three `readU…InStruct`: a field of `width` bytes in the data section. For a segment that the table
-- does not have, the code throws a TypeError, which is `missing_segment` here.
unfoldable pub read_in_struct : ℕ → SegmentTable → StructRef → ℕ → Result ProtocolError ℕ
read_in_struct width table struct_ref offset = do
  throw_if (ltb (struct_ref.data_word_count * 8) (offset + width)) out_of_range
  let absolute = struct_ref.start_word * 8 + offset
  ensure_segment_range table struct_ref.segment_id (pos absolute) width
  ok (elim (get_elem? table struct_ref.segment_id) [
    | none ↦ 0
    | some segment ↦ of_le (take width (drop absolute segment))
  ])

-- `readU16InStruct`, `readU32InStruct`, `readU64InStruct`
abbrev pub read_u16_in_struct : SegmentTable → StructRef → ℕ → Result ProtocolError ℕ
read_u16_in_struct = read_in_struct 2

abbrev pub read_u32_in_struct : SegmentTable → StructRef → ℕ → Result ProtocolError ℕ
read_u32_in_struct = read_in_struct 4

abbrev pub read_u64_in_struct : SegmentTable → StructRef → ℕ → Result ProtocolError ℕ
read_u64_in_struct = read_in_struct 8

-- `ensureU16`, `ensureU32` and `ensureU64` on an integer: the error, unless it is in range.
abbrev pub ensure_below : ℕ → ProtocolError → ℤ → Result ProtocolError ℕ
ensure_below limit error (negsuc _) = err error
ensure_below limit error (pos n) = if ltb n limit then ok n else err error

unfoldable pub ensure_u16 : ℤ → Result ProtocolError ℕ
ensure_u16 = ensure_below (2 ^ 16) not_u16

unfoldable pub ensure_u32 : ℤ → Result ProtocolError ℕ
ensure_u32 = ensure_below (2 ^ 32) not_u32

unfoldable pub ensure_u64 : ℤ → Result ProtocolError ℕ
ensure_u64 = ensure_below (2 ^ 64) not_u64

-- `signed30`
unfoldable pub signed30 : ℕ → ℤ
signed30 value =
    let raw = value % 2 ^ 30 in if raw / 2 ^ 29 % 2 == 0 then pos raw else sub_ℕ raw (2 ^ 30)

-- `encodeSigned30`
unfoldable pub encode_signed30 : ℤ → Result ProtocolError ℕ
encode_signed30 (pos n) = if ltb (2 ^ 29 - 1) n then err offset_out_of_range else ok (n % 2 ^ 30)
encode_signed30 (negsuc n) =
    if ltb (2 ^ 29) (n + 1) then err offset_out_of_range else ok ((2 ^ 30 - (n + 1)) % 2 ^ 30)
