-- ===== src/Wire/Builder.antt =====
-- `RpcWireMessageBuilder` of rpc/wire/encode.ts. A method returns the builder after the call. Word
-- indices and byte offsets are natural numbers: the callers in encode.ts compute them by sums.
pub mod Refine
pub mod Script
mod Tests
use capnp_deno.Base.{
  ℕ, zero, suc, ◌+◌, ◌*◌, ◌/◌, ◌%◌, ◌^◌, Bytes, Result, ok, err, ◌>>=◌, ◌>>◌, throw_if, ltb, leb,
  not, ◌==◌, if◌then◌else◌, length, replicate, set_bytes, subarray, to_le, ◌++◌,
}
use capnp_deno.Base.Int.{sub_ℕ}
use capnp_deno.Wire.Errors.{
  ProtocolError, builder_out_of_range, builder_byte_offset_out_of_range, not_word_aligned,
}
use capnp_deno.Wire.Segments.{encode_signed30}

-- The private fields. The cached view is a view of `bytes`.
pub record Builder : Type 0 where
  pub bytes : Bytes
  pub words : ℕ

-- The constructor, which reserves the root pointer's word.
abbrev pub new_builder : Builder
new_builder = record { bytes = replicate 8 0; words = 1 }

-- `while (next < requiredBytes) next *= 2`, on fuel.
unfoldable pub double_until : ℕ → ℕ → ℕ → ℕ
double_until zero required next = next
double_until (suc fuel) required next =
    let rest = double_until fuel required (next * 2) in if ltb next required then rest else next

-- The new allocation: zeros, with the old bytes copied to its front. The required bytes are enough
-- fuel, since each turn adds at least one byte.
abbrev pub grown : Bytes → ℕ → Bytes
grown bytes required =
    set_bytes (replicate (double_until required required (length bytes)) 0) 0 bytes

-- `ensureCapacity`
unfoldable pub ensure_capacity : ℕ → Builder → Builder
ensure_capacity required b =
    if leb required (length b.bytes) then b else record b { bytes = grown b.bytes required }

-- `allocWords`: the first word of the new ones, and the builder.
unfoldable pub alloc_words : ℕ → Builder → ℕ × Builder
alloc_words count b =
    (b.words, ensure_capacity ((b.words + count) * 8) (record b { words = b.words + count }))

-- `requireWordRange`
abbrev pub require_word_range : ℕ → ℕ → Builder → Result ProtocolError (Unit {0})
require_word_range word_index count b =
    throw_if (ltb b.words (word_index + count)) builder_out_of_range

-- `requireByteInWordRange`
abbrev pub require_byte_in_word_range : ℕ → ℕ → ℕ → Builder → Result ProtocolError (Unit {0})
require_byte_in_word_range word_index byte_offset len b = do
  require_word_range word_index 1 b
  throw_if (ltb 8 (byte_offset + len)) builder_byte_offset_out_of_range

-- `requireByteRange`
abbrev pub require_byte_range : ℕ → ℕ → Builder → Result ProtocolError (Unit {0})
require_byte_range byte_offset len b =
    throw_if (ltb (b.words * 8) (byte_offset + len)) builder_out_of_range

-- A write of bytes that the caller has checked.
abbrev pub store : ℕ → Bytes → Builder → Builder
store offset source b = record b { bytes = set_bytes b.bytes offset source }

-- `writeWord`
unfoldable pub write_word : ℕ → ℕ → Builder → Result ProtocolError Builder
write_word word_index value b = do
  require_word_range word_index 1 b
  ok (store (word_index * 8) (to_le 8 value) b)

-- `writeU16`, `writeU32` and `writeU64`: a field of `width` bytes.
unfoldable pub write_uint : ℕ → ℕ → ℕ → ℕ → Builder → Result ProtocolError Builder
write_uint width word_index byte_offset value b = do
  require_byte_in_word_range word_index byte_offset width b
  ok (store (word_index * 8 + byte_offset) (to_le width value) b)

abbrev pub write_u16 : ℕ → ℕ → ℕ → Builder → Result ProtocolError Builder
write_u16 = write_uint 2

abbrev pub write_u32 : ℕ → ℕ → ℕ → Builder → Result ProtocolError Builder
write_u32 = write_uint 4

abbrev pub write_u64 : ℕ → ℕ → ℕ → Builder → Result ProtocolError Builder
write_u64 = write_uint 8

-- `writeBytes`
unfoldable pub write_bytes : ℕ → ℕ → Bytes → Builder → Result ProtocolError Builder
write_bytes word_index byte_offset value b = do
  require_byte_range (word_index * 8 + byte_offset) (length value) b
  ok (store (word_index * 8 + byte_offset) value b)

-- `copyWords`
unfoldable pub copy_words : ℕ → Bytes → Builder → Result ProtocolError Builder
copy_words word_index value b = do
  throw_if (not (length value % 8 == 0)) not_word_aligned
  require_word_range word_index (length value / 8) b
  ok (store (word_index * 8) value b)

-- The fields of a pointer word share no bit, so `|` is a sum.
abbrev pub struct_pointer_word : ℕ → ℕ → ℕ → ℕ
struct_pointer_word offset data_words pointers =
    offset * 4 + data_words % 2 ^ 16 * 2 ^ 32 + pointers % 2 ^ 16 * 2 ^ 48

abbrev pub list_pointer_word : ℕ → ℕ → ℕ → ℕ
list_pointer_word offset element_size count =
    1 + offset * 4 + element_size % 8 * 2 ^ 32 + count % 2 ^ 29 * 2 ^ 35

-- `setStructPointer`
unfoldable pub set_struct_pointer : ℕ → ℕ → ℕ → ℕ → Builder → Result ProtocolError Builder
set_struct_pointer pointer_word target_word data_words pointers b = do
  offset ← encode_signed30 (sub_ℕ target_word (pointer_word + 1))
  write_word pointer_word (struct_pointer_word offset data_words pointers) b

-- `setListPointer`
unfoldable pub set_list_pointer : ℕ → ℕ → ℕ → ℕ → Builder → Result ProtocolError Builder
set_list_pointer pointer_word target_word element_size count b = do
  offset ← encode_signed30 (sub_ℕ target_word (pointer_word + 1))
  write_word pointer_word (list_pointer_word offset element_size count) b

-- `toMessageBytes`
unfoldable pub to_message_bytes : Builder → Bytes
to_message_bytes b = to_le 4 0 ++ (to_le 4 b.words ++ subarray b.bytes 0 (b.words * 8))
