-- ===== src/Wire/Codec/ReturnedErrors.antt =====
-- Exceptions through both ends of the codec: `encodeReturnExceptionFrame` and `decodeReturnFrame`.
use capnp_deno.Base.{
  ℕ, ◌+◌, ◌*◌, ◌/◌, ◌^◌, ◌<◌, ◌≡◌, ap, ◌∙◌, ◌⊎◌, inl, inr, Bool, true, false, Option, [], ◌∷◌,
  Bytes, ok, err, ◌>>◌, arith, length, ltb, throw_if, get_uint32, or_else,
}
use capnp_deno.Base.Int.{ℤ, pos}
use capnp_deno.Wire.Errors.{not_u32, frame_too_short, frame_header_truncated}
use capnp_deno.Wire.Segments.{segments_from_frame, frame_from_segment, padded_header, cut}
use capnp_deno.Wire.Segments.Agreement.{segments_from_frame-frame_from_segment}
use capnp_deno.Wire.Pointers.{pointer_word_index}
use capnp_deno.Wire.Codec.Encode.{encode_return_exception_frame}
use capnp_deno.Wire.Codec.Messages.{
  reader_header, message_reader, ContentCodec, ReturnMessage, exception, decode_return_base,
  decode_exception, decode_return_frame,
}
use capnp_deno.Wire.Codec.RoundTrip.{IsU32, IsU32-cases}
use capnp_deno.Wire.Codec.Exceptions.{
  exception_segment, text_bytes, return_flags, exception_encoded,
}
use capnp_deno.Wire.Builder.{list_pointer_word}
use capnp_deno.Wire.Codec.ExceptionTrip.{
  return_reached, answer_read, tag_read, flags_read, exception_reached, reason_read, size,
  flags_back,
}

framed_segment :
    (answer flags : ℕ) (reason : Bytes)
    → length reason + 1 < 2 ^ 29
    → (frame : Bytes) × (frame_from_segment (exception_segment answer flags reason) ≡ ok frame)
      × (segments_from_frame frame ≡ ok (exception_segment answer flags reason ∷ []))
framed_segment answer flags reason small =
    let segment = exception_segment answer flags reason in
    let total : length segment ≡ 80 + (length reason + 8) / 8 * 8 =
      size answer flags reason small in
    elim (segments_from_frame-frame_from_segment segment (omega (arith, total))) [
      | inl (ragged, _) ↦ absurd (ragged (omega (arith, total)))
      | inr framed ↦ framed
    ]

-- The message that the decoder makes of an exception.
abbrev pub returned : ℕ → Bool → Bool → Bytes → ReturnMessage
returned answer release no_finish reason =
    exception
      (record { answer_id = answer; release_param_caps = release; no_finish_needed = no_finish })
      reason

reader_header-padded_header : (count : ℕ) → reader_header count ≡ padded_header count
reader_header-padded_header count = ground arith

-- `MessageReader` takes a frame apart as `segmentsFromFrame` does.
message_reader-segments_from_frame :
    (frame : Bytes) → message_reader frame ≡ segments_from_frame frame
unfolding message_reader segments_from_frame
message_reader-segments_from_frame frame =
    ap
      (λ header.
        throw_if (ltb (length frame) 8) frame_too_short
        >> (throw_if (ltb (length frame) header) frame_header_truncated
            >> cut frame header 0 (get_uint32 frame 0 + 1)))
      (reader_header-padded_header (get_uint32 frame 0 + 1))

exception_decoded :
    (codec : ContentCodec) (answer : ℕ) (release no_finish : Bool) (reason frame : Bytes)
    → answer < 2 ^ 32
    → length reason + 1 < 2 ^ 29
    → segments_from_frame frame
      ≡ ok (exception_segment answer (return_flags release no_finish) reason ∷ [])
    → decode_return_frame codec frame ≡ ok (returned answer release no_finish reason)
unfolding decode_return_frame decode_return_base decode_exception pointer_word_index
exception_decoded codec answer release no_finish reason frame h small cut_up =
    let flags = return_flags release no_finish in
    let word = list_pointer_word 2 2 (length reason + 1) in
    let text = text_bytes reason in
    let (release_same, finish_same, flags_fit) = flags_back release no_finish in
    rw (
      cut_up,
      message_reader-segments_from_frame frame ∙ cut_up,
      return_reached answer flags word text,
      answer_read answer flags word text h,
      tag_read answer flags word text,
      flags_read answer flags word text flags_fit,
      release_same,
      finish_same,
      exception_reached answer flags word text,
      reason_read answer flags reason small,
    )

-- Unless the id of the answer does not fit in 32 bits, which `encodeReturnExceptionFrame` refuses, the frame
-- that it makes of an exception is decoded by `decodeReturnFrame` to the same exception: the id, both flags
-- (true and false where they were left out) and the bytes of the reason. The reason has fewer than 2^29 - 1
-- bytes.
pub decode_return_frame-encode_return_exception_frame :
    (codec : ContentCodec) (id : ℤ) (reason : Bytes) (release no_finish : Option Bool)
    → length reason + 1 < 2 ^ 29
    → ((encode_return_exception_frame id reason release no_finish ≡ err not_u32) × (¬ IsU32 id))
      ⊎ ((a : ℕ) × (id ≡ pos a)
          × (frame : Bytes) × (encode_return_exception_frame id reason release no_finish ≡ ok frame)
          × (decode_return_frame codec frame
              ≡ ok (returned a (or_else release true) (or_else no_finish false) reason)))
unfolding encode_return_exception_frame
decode_return_frame-encode_return_exception_frame codec id reason release no_finish small =
    elim (IsU32-cases id) [
      | inl (refused, out) ↦ inl (rw refused, out)
      | inr (a, same, fits, test) ↦
          let r = or_else release true in
          let n = or_else no_finish false in
          let (frame, framed, cut_up) = framed_segment a (return_flags r n) reason small in
          inr (
            a,
            same,
            frame,
            rw same (exception_encoded a reason release no_finish test ∙ framed),
            exception_decoded codec a r n reason frame fits small cut_up,
          )
    ]
