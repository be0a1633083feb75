-- ===== src/Wire/Codec/RoundTrip.antt =====
-- What the encoders of rpc/wire/encode.ts write, the decoders of rpc/wire/decode.ts read back.
use capnp_deno.Base.{
  ℕ, ◌+◌, ◌^◌, ◌<◌, ◌≡◌, refl, ap, ap₂, ◌⊎◌, inl, inr, Bool, true, false, Option, ◌++◌, Bytes, ok,
  err, arith, ltb, Bool-cases, or_else, to_le, set_bytes, get_uint32, get_uint64, get_uint32-to_le,
}
use capnp_deno.Base.Int.{ℤ, pos, negsuc, pos_part, ◌+ℤ◌}
use capnp_deno.Wire.Errors.{not_u32}
use capnp_deno.Wire.Segments.{
  ensure_u32, segments_from_frame, cut, ensure_range, ensure_segment_range, read_word_from_table,
  read_in_struct, signed30, encode_signed30,
}
use capnp_deno.Wire.Pointers.{
  resolve_hops, resolve_pointer, pointer_word_index, out_of_segment, decode_struct_pointer,
}
use capnp_deno.Wire.Builder.{
  double_until, ensure_capacity, alloc_words, write_word, write_uint, set_struct_pointer,
  to_message_bytes,
}
use capnp_deno.Wire.Codec.Layout
use capnp_deno.Wire.Codec.Encode.{
  add_struct, start_message, encode_bootstrap_request_frame, encode_finish_frame,
  encode_release_frame, flag_unless,
}
use capnp_deno.Wire.Codec.Decode.{
  require_struct, require_pointer, decode_rpc_message_tag, open_message, message_variant,
  decode_bootstrap_request_frame, decode_release_frame, decode_finish_frame,
}

-- The frame of a message with one word of data behind the message struct.
abbrev small_frame : ℕ → ℕ → ℕ → Bytes → Bytes
small_frame words tag word fields =
    to_le 4 0
    ++ (to_le 4 words ++ (to_le 8 (2 ^ 32 + 2 ^ 48) ++ (to_le 8 tag ++ (to_le 8 word ++ fields))))

-- An integer that fits in 32 bits.
abbrev pub IsU32 : ℤ → Type 0
IsU32 n = (k : ℕ) × (n ≡ pos k) × (k < 2 ^ 32)

ensure_u32-ok : (a : ℕ) → ltb a (2 ^ 32) ≡ true → ensure_u32 (pos a) ≡ ok a
unfolding ensure_u32
ensure_u32-ok a small = rw small

too_large : (n k : ℕ) → pos n ≡ pos k → ltb n (2 ^ 32) ≡ false → ¬ (k < 2 ^ 32)
too_large n k same large h = let equal : n ≡ k = ap pos_part same in ground arith

pub IsU32-cases :
    (n : ℤ)
    → ((ensure_u32 n ≡ err not_u32) × (¬ IsU32 n))
      ⊎ ((k : ℕ) × (n ≡ pos k) × (k < 2 ^ 32) × (ltb k (2 ^ 32) ≡ true))
unfolding ensure_u32
IsU32-cases (negsuc n) = inl (refl, λ (k, same, h). cc)
IsU32-cases (pos n) = elim (Bool-cases (ltb n (2 ^ 32))) [
  | inl small ↦ inr (n, refl, ground arith, small)
  | inr large ↦ inl (rw large, λ (k, same, h). too_large n k same large h)
]

abbrev release_frame : ℕ → ℕ → Bytes
release_frame a b = small_frame 4 6 (2 ^ 32) (to_le 4 a ++ to_le 4 b)

release_refused_first :
    (id count : ℤ) → ensure_u32 id ≡ err not_u32 → encode_release_frame id count ≡ err not_u32
unfolding encode_release_frame
release_refused_first id count h = rw h

release_refused_second :
    (a : ℕ) (count : ℤ)
    → ltb a (2 ^ 32) ≡ true
    → ensure_u32 count ≡ err not_u32
    → encode_release_frame (pos a) count ≡ err not_u32
unfolding encode_release_frame
release_refused_second a count small refused = rw (ensure_u32-ok a small, refused)

release_written :
    (a b : ℕ)
    → ltb a (2 ^ 32) ≡ true
    → ltb b (2 ^ 32) ≡ true
    → encode_release_frame (pos a) (pos b) ≡ ok (release_frame a b)
unfolding encode_release_frame ensure_u32 start_message add_struct alloc_words ensure_capacity
    double_until write_uint write_word set_struct_pointer encode_signed30 set_bytes to_message_bytes
release_written a b ha hb = rw (ha, hb)

release_tag : (a b : ℕ) → decode_rpc_message_tag (release_frame a b) ≡ ok 6
unfolding decode_rpc_message_tag require_struct segments_from_frame cut get_uint32 get_uint64
    ensure_segment_range ensure_range read_word_from_table read_in_struct signed30 resolve_hops
    resolve_pointer out_of_segment decode_struct_pointer ◌+ℤ◌
release_tag a b = refl

release_read :
    (a b : ℕ)
    → a < 2 ^ 32
    → b < 2 ^ 32
    → decode_release_frame (release_frame a b) ≡ ok (record { id = a; reference_count = b })
unfolding decode_release_frame open_message message_variant require_struct require_pointer
    segments_from_frame cut get_uint32 get_uint64 ensure_segment_range ensure_range
    read_word_from_table read_in_struct signed30 resolve_hops resolve_pointer pointer_word_index
    out_of_segment decode_struct_pointer ◌+ℤ◌
release_read a b ha hb =
    ap₂ (λ i c. ok (record { id = i; reference_count = c })) (get_uint32-to_le a ha)
      (get_uint32-to_le b hb)

-- `encodeReleaseFrame` throws unless both numbers fit in 32 bits; otherwise its frame has the tag of a
-- release message, and `decodeReleaseFrame` reads the same two numbers from it.
pub decode_release_frame-encode_release_frame :
    (id count : ℤ)
    → ((encode_release_frame id count ≡ err not_u32) × (¬ (IsU32 id × IsU32 count)))
      ⊎ ((a b : ℕ) × (id ≡ pos a)
          × (count ≡ pos b)
          × (frame : Bytes) × (encode_release_frame id count ≡ ok frame)
          × (decode_rpc_message_tag frame ≡ ok Layout.rpc_message_tag_release)
          × (decode_release_frame frame ≡ ok (record { id = a; reference_count = b })))
decode_release_frame-encode_release_frame id count = elim (IsU32-cases id) [
  | inl (refused, out) ↦ inl (release_refused_first id count refused, λ (fits, _). out fits)
  | inr (a, same_a, fits_a, test_a) ↦ elim (IsU32-cases count) [
    | inl (refused, out) ↦
        inl (rw same_a (release_refused_second a count test_a refused), λ (_, fits). out fits)
    | inr (b, same_b, fits_b, test_b) ↦ inr (
      a,
      b,
      same_a,
      same_b,
      release_frame a b,
      rw (same_a, same_b) (release_written a b test_a test_b),
      release_tag a b,
      release_read a b fits_a fits_b,
    )
  ]
]

abbrev bootstrap_frame : ℕ → Bytes
bootstrap_frame a = small_frame 5 8 (2 ^ 32 + 2 ^ 48) (to_le 4 a ++ to_le 12 0)

bootstrap_written :
    (a : ℕ)
    → ltb a (2 ^ 32) ≡ true
    → encode_bootstrap_request_frame (pos a) ≡ ok (bootstrap_frame a)
unfolding encode_bootstrap_request_frame ensure_u32 start_message add_struct alloc_words
    ensure_capacity double_until write_uint write_word set_struct_pointer encode_signed30 set_bytes
    to_message_bytes
bootstrap_written a h = rw h

bootstrap_tag : (a : ℕ) → decode_rpc_message_tag (bootstrap_frame a) ≡ ok 8
unfolding decode_rpc_message_tag require_struct segments_from_frame cut get_uint32 get_uint64
    ensure_segment_range ensure_range read_word_from_table read_in_struct signed30 resolve_hops
    resolve_pointer out_of_segment decode_struct_pointer ◌+ℤ◌
bootstrap_tag a = refl

bootstrap_read : (a : ℕ) → a < 2 ^ 32 → decode_bootstrap_request_frame (bootstrap_frame a) ≡ ok a
unfolding decode_bootstrap_request_frame open_message message_variant require_struct require_pointer
    segments_from_frame cut get_uint32 get_uint64 ensure_segment_range ensure_range
    read_word_from_table read_in_struct signed30 resolve_hops resolve_pointer pointer_word_index
    out_of_segment decode_struct_pointer ◌+ℤ◌
bootstrap_read a h = ap ok (get_uint32-to_le a h)

-- `encodeBootstrapRequestFrame` throws unless the question id fits in 32 bits; otherwise its frame has
-- the tag of a bootstrap message, and `decodeBootstrapRequestFrame` reads the same id from it.
pub decode_bootstrap_request_frame-encode_bootstrap_request_frame :
    (id : ℤ)
    → ((encode_bootstrap_request_frame id ≡ err not_u32) × (¬ IsU32 id))
      ⊎ ((a : ℕ) × (id ≡ pos a)
          × (frame : Bytes) × (encode_bootstrap_request_frame id ≡ ok frame)
          × (decode_rpc_message_tag frame ≡ ok Layout.rpc_message_tag_bootstrap)
          × (decode_bootstrap_request_frame frame ≡ ok a))
unfolding encode_bootstrap_request_frame
decode_bootstrap_request_frame-encode_bootstrap_request_frame id = elim (IsU32-cases id) [
  | inl (refused, out) ↦ inl (rw refused, out)
  | inr (a, same, fits, test) ↦ inr (
    a,
    same,
    bootstrap_frame a,
    rw same (bootstrap_written a test),
    bootstrap_tag a,
    bootstrap_read a fits,
  )
]

abbrev finish_frame : ℕ → ℕ → Bytes
finish_frame a flags = small_frame 4 4 (2 ^ 32) (to_le 4 a ++ to_le 4 flags)

finish_tag : (a flags : ℕ) → decode_rpc_message_tag (finish_frame a flags) ≡ ok 4
unfolding decode_rpc_message_tag require_struct segments_from_frame cut get_uint32 get_uint64
    ensure_segment_range ensure_range read_word_from_table read_in_struct signed30 resolve_hops
    resolve_pointer out_of_segment decode_struct_pointer ◌+ℤ◌
finish_tag a flags = refl

abbrev finish_flags : Bool → Bool → ℕ
finish_flags release early = flag_unless release 1 + flag_unless early 2

finish_written :
    (a : ℕ) (release early : Option Bool)
    → ltb a (2 ^ 32) ≡ true
    → encode_finish_frame (pos a) release early
      ≡ ok (finish_frame a (finish_flags (or_else release true) (or_else early false)))
unfolding encode_finish_frame ensure_u32 start_message add_struct alloc_words ensure_capacity
    double_until write_uint write_word set_struct_pointer encode_signed30 set_bytes to_message_bytes
finish_written a release early h = rw h

finish_read :
    (a : ℕ) (release early : Bool)
    → a < 2 ^ 32
    → decode_finish_frame (finish_frame a (finish_flags release early))
      ≡ ok (record {
        question_id = a;
        release_result_caps = release;
        require_early_cancellation = early;
      })
unfolding decode_finish_frame open_message message_variant require_struct require_pointer
    segments_from_frame cut get_uint32 get_uint64 ensure_segment_range ensure_range
    read_word_from_table read_in_struct signed30 resolve_hops resolve_pointer pointer_word_index
    out_of_segment decode_struct_pointer ◌+ℤ◌
finish_read a true true h =
    ap
      (λ i.
        ok (record {
          question_id = i;
          release_result_caps = true;
          require_early_cancellation = true;
        }))
      (get_uint32-to_le a h)
finish_read a true false h =
    ap
      (λ i. ok (record {
        question_id = i;
        release_result_caps = true;
        require_early_cancellation = false;
      }))
      (get_uint32-to_le a h)
finish_read a false true h =
    ap
      (λ i. ok (record {
        question_id = i;
        release_result_caps = false;
        require_early_cancellation = true;
      }))
      (get_uint32-to_le a h)
finish_read a false false h =
    ap
      (λ i. ok (record {
        question_id = i;
        release_result_caps = false;
        require_early_cancellation = false;
      }))
      (get_uint32-to_le a h)

-- `encodeFinishFrame` throws unless the question id fits in 32 bits; otherwise its frame has the tag of a
-- finish message, and `decodeFinishFrame` reads the same id from it and both flags as they were given,
-- true and false where they were left out.
pub decode_finish_frame-encode_finish_frame :
    (id : ℤ) (release early : Option Bool)
    → ((encode_finish_frame id release early ≡ err not_u32) × (¬ IsU32 id))
      ⊎ ((a : ℕ) × (id ≡ pos a)
          × (frame : Bytes) × (encode_finish_frame id release early ≡ ok frame)
          × (decode_rpc_message_tag frame ≡ ok Layout.rpc_message_tag_finish)
          × (decode_finish_frame frame
              ≡ ok (record {
                question_id = a;
                release_result_caps = or_else release true;
                require_early_cancellation = or_else early false;
              })))
unfolding encode_finish_frame
decode_finish_frame-encode_finish_frame id release early = elim (IsU32-cases id) [
  | inl (refused, out) ↦ inl (rw refused, out)
  | inr (a, same, fits, test) ↦ inr (
    a,
    same,
    finish_frame a (finish_flags (or_else release true) (or_else early false)),
    rw same (finish_written a release early test),
    finish_tag a (finish_flags (or_else release true) (or_else early false)),
    finish_read a (or_else release true) (or_else early false) fits,
  )
]
