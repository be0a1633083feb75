-- ===== src/Wire/Codec/Caps.antt =====
-- The capability tables of payloads, in rpc/wire/encode.ts and rpc/wire/decode.ts.
use capnp_deno.Base.{
  ℕ, zero, suc, ◌+◌, ◌*◌, ◌/◌, Option, none, some, List, [], ◌∷◌, Bytes, Result, ok, err, ◌>>=◌,
  ◌==◌, if◌then◌else◌, length, or_else, get_elem?, subarray,
}
use capnp_deno.Base.Int.{ℤ, pos}
use capnp_deno.Wire.Errors.{ProtocolError, contact_required, third_party_is_null, contact_is_null}
use capnp_deno.Wire.Segments.{
  SegmentTable, StructRef, ensure_u16, ensure_u32, read_u16_in_struct, read_u32_in_struct,
}
use capnp_deno.Wire.Pointers.{
  PointerLocation, StructListRef, ByteListRef, decode_struct_list_pointer, decode_byte_list_pointer,
  pointer_word_index,
}
use capnp_deno.Wire.Builder.{
  Builder, alloc_words, write_word, write_u16, write_u32, write_bytes, set_struct_pointer,
  set_list_pointer,
}
use capnp_deno.Wire.Codec.Layout
use capnp_deno.Wire.Codec.Decode.{require_pointer}
use capnp_deno.Wire.Codec.Targets.{is_tag, inline_composite_tag, element}

-- `RpcCapDescriptor`
pub record CapDescriptor : Type 0 where
  pub tag : ℤ
  pub id : ℤ
  pub vine_id : Option ℤ
  pub contact : Option Bytes

abbrev pub cap_stride : ℕ
cap_stride = Layout.cap_descriptor_data_word_count + Layout.cap_descriptor_pointer_count

-- The branch of a descriptor that a third party hosts.
unfoldable pub encode_third_party : ℕ → CapDescriptor → Builder → Result ProtocolError Builder
encode_third_party element_word entry b = do
  vine_id ← ensure_u32 (or_else entry.vine_id (pos 0))
  elim entry.contact [
    | none ↦ err contact_required
    | some contact ↦ do
      let (nested, b) = alloc_words 2 b
      b ← set_struct_pointer (element_word + Layout.cap_descriptor_data_word_count) nested 1 1 b
      b ← write_u32 nested 0 vine_id b
      let (contact_target, b) = alloc_words ((length contact + 7) / 8) b
      b ← write_bytes contact_target 0 contact b
      set_list_pointer (nested + 1) contact_target 2 (length contact) b
  ]

-- The loop over the entries; the first of them stands in the word `element_word`.
unfoldable pub encode_entries : ℕ → List CapDescriptor → Builder → Result ProtocolError Builder
encode_entries element_word [] b = ok b
encode_entries element_word (entry ∷ entries) b = do
  tag ← ensure_u16 entry.tag
  b ← write_u16 element_word Layout.cap_descriptor_tag_byte_offset tag b
  id ← ensure_u32 entry.id
  b ← write_u32 element_word Layout.cap_descriptor_id_byte_offset id b
  b ←
      (if is_tag entry.tag Layout.cap_descriptor_tag_third_party_hosted
        then encode_third_party element_word entry b
        else ok b)
  encode_entries (element_word + cap_stride) entries b

-- `encodeCapTable`
unfoldable pub encode_cap_table :
    ℕ → Option (List CapDescriptor) → Builder → Result ProtocolError Builder
encode_cap_table list_pointer_word cap_table b = do
  let entries = or_else cap_table []
  let count = length entries
  let (tag_word, b) = alloc_words (1 + count * cap_stride) b
  b ← set_list_pointer list_pointer_word tag_word 7 (count * cap_stride) b
  tag ←
      inline_composite_tag count Layout.cap_descriptor_data_word_count
        Layout.cap_descriptor_pointer_count
  b ← write_word tag_word tag b
  encode_entries (tag_word + 1) entries b

-- `seg.subarray`; the pointer was decoded, so the segment is there.
abbrev pub byte_list : SegmentTable → ByteListRef → Bytes
byte_list table list = elim (get_elem? table list.segment_id) [
  | none ↦ []
  | some segment ↦ subarray segment (list.start_word * 8) (list.start_word * 8 + list.element_count)
]

-- `decodeThirdPartyHostedDescriptor`
unfoldable pub decode_third_party_hosted_descriptor :
    SegmentTable → StructRef → Result ProtocolError (ℕ × Bytes)
decode_third_party_hosted_descriptor table item = do
  nested ← require_pointer table third_party_is_null item 0
  vine_id ← read_u32_in_struct table nested 0
  loc ← pointer_word_index nested (pos 0)
  contact ← decode_byte_list_pointer table loc
  elim contact [ none ↦ err contact_is_null | some list ↦ ok (vine_id, byte_list table list) ]

-- One turn of the loop of `decodeCapTableFromPayload`
unfoldable pub decode_entry : SegmentTable → StructRef → Result ProtocolError CapDescriptor
decode_entry table item = do
  tag ← read_u16_in_struct table item Layout.cap_descriptor_tag_byte_offset
  id ← read_u32_in_struct table item Layout.cap_descriptor_id_byte_offset
  (if tag == Layout.cap_descriptor_tag_third_party_hosted
      then (decode_third_party_hosted_descriptor table item >>= λ (vine_id, contact). ok (record {
        tag = pos tag;
        id = pos id;
        vine_id = some (pos vine_id);
        contact = some contact;
      }))
      else ok (record { tag = pos tag; id = pos id; vine_id = none; contact = none }))

unfoldable pub decode_entries :
    SegmentTable → StructListRef → ℕ → ℕ → Result ProtocolError (List CapDescriptor)
decode_entries table list i zero = ok []
decode_entries table list i (suc count) = do
  entry ← decode_entry table (element list i)
  entries ← decode_entries table list (i + 1) count
  ok (entry ∷ entries)

-- `decodeCapTableFromPayload`
unfoldable pub decode_cap_table_from_payload :
    SegmentTable → PointerLocation → Result ProtocolError (List CapDescriptor)
decode_cap_table_from_payload table loc =
    decode_struct_list_pointer table loc
    >>= elim [ none ↦ ok [] | some list ↦ decode_entries table list 0 list.element_count ]
