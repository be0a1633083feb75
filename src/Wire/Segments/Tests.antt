-- ===== src/Wire/Segments/Tests.antt =====
-- Segments.ts at concrete inputs.
use capnp_deno.Base.{
  ℕ, ◌*◌, ◌+◌, ◌-◌, ◌^◌, ◌%◌, ◌<◌, ◌≡◌, ◌≢◌, refl, ◌⊎◌, [], ◌∷◌, ◌++◌, Bytes, ok, err, arith,
  length, to_le, none, get_uint32, set_bytes,
}
use capnp_deno.Base.Int.{negsuc}
use capnp_deno.Wire.Errors.{offset_out_of_range, segment_not_aligned}
use capnp_deno.Wire.FrameLimits.{LimitsOptions, ParsedFrame, parse_frame, word_counts, cut_segments}
use capnp_deno.Wire.Segments.{
  signed30, encode_signed30, read_word, write_word, segments_from_frame, frame_from_segment,
  ensure_range,
}
use capnp_deno.Wire.Segments.Signed.{InRange, signed30-encode_signed30, encode_signed30-signed30}
use capnp_deno.Wire.Segments.Words.{read_word-write_word}
use capnp_deno.Wire.Segments.Agreement.{
  segments_from_frame-parse_frame, segments_from_frame-frame_from_segment,
}

minus_three : encode_signed30 (negsuc 2) ≡ ok (2 ^ 30 - 3)
unfolding encode_signed30
minus_three = refl

signed30-encode_signed30_example :
    ((encode_signed30 (negsuc 2) ≡ err offset_out_of_range) × (¬ InRange (negsuc 2)))
    ⊎ ((w : ℕ) × (encode_signed30 (negsuc 2) ≡ ok w)
        × InRange (negsuc 2)
        × (w < 2 ^ 30)
        × ((high : ℕ) → signed30 (high * 2 ^ 30 + w) ≡ negsuc 2))
signed30-encode_signed30_example = signed30-encode_signed30 (negsuc 2)

encode_signed30-signed30_example :
    encode_signed30 (signed30 (2 ^ 29 + 1)) ≡ ok ((2 ^ 29 + 1) % 2 ^ 30)
encode_signed30-signed30_example = encode_signed30-signed30 (2 ^ 29 + 1)

abbrev two_words : Bytes
two_words = to_le 8 5 ++ to_le 8 6

abbrev rewritten : Bytes
rewritten = to_le 8 5 ++ to_le 8 9

written : write_word two_words 1 9 ≡ ok rewritten
unfolding write_word ensure_range set_bytes
written = refl

read_word-write_word_example :
    (read_word rewritten 1 ≡ ok (9 % 2 ^ 64))
    × ((◌≡◌ {A = ℕ} 1 0) ⊎ (read_word rewritten 0 ≡ read_word two_words 0))
    × (length rewritten ≡ length two_words)
read_word-write_word_example = read_word-write_word two_words rewritten 1 0 9 written

abbrev one_segment : Bytes
one_segment = to_le 4 0 ++ (to_le 4 2 ++ two_words)

abbrev no_limits : LimitsOptions
no_limits = record {
  max_segment_count = none;
  max_frame_bytes = none;
  max_traversal_words = none;
  max_nesting_depth = none;
}

abbrev one_parsed : ParsedFrame
one_parsed = record { segments = two_words ∷ []; total_words = 2 }

one_parses : parse_frame one_segment no_limits ≡ ok one_parsed
unfolding parse_frame word_counts cut_segments get_uint32
one_parses = refl

segments_from_frame-parse_frame_example : segments_from_frame one_segment ≡ ok one_parsed.segments
segments_from_frame-parse_frame_example =
    segments_from_frame-parse_frame one_segment no_limits one_parsed one_parses

segments_from_frame-frame_from_segment_example :
    ((length two_words % 8 ≢ 0) × (frame_from_segment two_words ≡ err segment_not_aligned))
    ⊎ ((frame : Bytes) × (frame_from_segment two_words ≡ ok frame)
        × (segments_from_frame frame ≡ ok (two_words ∷ [])))
segments_from_frame-frame_from_segment_example =
    segments_from_frame-frame_from_segment two_words (omega arith)
