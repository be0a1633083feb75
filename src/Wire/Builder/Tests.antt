-- ===== src/Wire/Builder/Tests.antt =====
-- The builder at concrete calls.
use capnp_deno.Base.{
  ◌^◌, ◌≡◌, refl, ◌⊎◌, Bytes, List, [], ◌∷◌, ok, err, ◌>>=◌, set_bytes, to_le, ◌++◌,
}
use capnp_deno.Wire.Errors.{ProtocolError, builder_out_of_range}
use capnp_deno.Wire.Segments.{encode_signed30, frame_from_segment}
use capnp_deno.Wire.Builder.{
  Builder, new_builder, double_until, ensure_capacity, alloc_words, write_word, write_uint,
  set_struct_pointer, to_message_bytes,
}
use capnp_deno.Wire.Builder.Refine.{zeros}
use capnp_deno.Wire.Builder.Script.{
  Call, alloc, uint, struct_pointer, perform_all, plain_all, to_message_bytes-frame_from_segment,
}

-- A struct of one data word, with 6 in its first field.
abbrev one_struct : List Call
one_struct = alloc 1 ∷ struct_pointer 0 1 1 0 ∷ uint 2 1 0 6 ∷ []

one_struct_built :
    (perform_all one_struct new_builder >>= λ b. ok (to_message_bytes b))
    ≡ ok (to_le 4 0 ++ (to_le 4 2 ++ (to_le 8 (2 ^ 32) ++ to_le 8 6)))
unfolding alloc_words ensure_capacity double_until write_word write_uint set_struct_pointer
    encode_signed30 set_bytes to_message_bytes
one_struct_built = refl

-- A field that crosses the end of its word.
field_too_far : perform_all (uint 4 1 0 6 ∷ []) new_builder ≡ err builder_out_of_range
unfolding write_uint
field_too_far = refl

to_message_bytes-frame_from_segment_example :
    ((e : ProtocolError) × (perform_all one_struct new_builder ≡ err e)
      × (plain_all one_struct (zeros 8) ≡ err e))
    ⊎ ((b : Builder) × (c : Bytes) × (perform_all one_struct new_builder ≡ ok b)
        × (plain_all one_struct (zeros 8) ≡ ok c)
        × (frame_from_segment c ≡ ok (to_message_bytes b)))
to_message_bytes-frame_from_segment_example = to_message_bytes-frame_from_segment one_struct
