-- ===== src/Wire/FrameLimits/Tests.antt =====
-- Frames to test rpc/wire/frame_limits.ts with, and the theorems at them.
use capnp_deno.Base.{
  ℕ, ◌*◌, ◌≤◌, ◌≡◌, refl, none, some, [], ◌∷◌, ◌++◌, Bytes, Result, ok, err, arith, length, take,
  concat, get_uint32, get_uint64,
}
use capnp_deno.Base.Int.{◌+ℤ◌}
use capnp_deno.Wire.Errors.{ProtocolError, nesting_depth_exceeded}
use capnp_deno.Wire.FrameLimits.{LimitsOptions, ParsedFrame, word_counts, cut_segments, parse_frame}
use capnp_deno.Wire.FrameLimits.Table.{HasWords, parse_frame-tiles}
use capnp_deno.Wire.FrameLimits.Walk.{
  validate_capnp_frame, validate, enforce_nesting_depth, walk, walk_step, has, resolve_pointer,
  read_word_at, require_word_range, resolve_hops, visit, visit_struct, visit_composite, visit_flat,
  push_pointers, push_elements, state_key, double_far, follow_far, words_for_flat_list,
}
use capnp_deno.Wire.FrameLimits.Walk.Total.{validate_capnp_frame-total}

-- One segment of one word, a null root pointer.
abbrev pub null_frame : Bytes
null_frame = 0 ∷ 0 ∷ 0 ∷ 0 ∷ 1 ∷ 0 ∷ 0 ∷ 0 ∷ 0 ∷ 0 ∷ 0 ∷ 0 ∷ 0 ∷ 0 ∷ 0 ∷ 0 ∷ []

-- One segment of three words: the root struct has one pointer, to an empty struct.
abbrev pub nested_frame : Bytes
nested_frame =
    0 ∷ 0 ∷ 0 ∷ 0 ∷ 2 ∷ 0 ∷ 0 ∷ 0 ∷ 0 ∷ 0 ∷ 0 ∷ 0 ∷ 0 ∷ 0 ∷ 1 ∷ 0 ∷ 252 ∷ 255 ∷ 255 ∷ 255 ∷ 0 ∷ 0
    ∷ 0 ∷ 0 ∷ []

abbrev pub depth_limit : ℕ → LimitsOptions
depth_limit depth = record {
  max_segment_count = none;
  max_frame_bytes = none;
  max_traversal_words = some 4;
  max_nesting_depth = some depth;
}

nested_parsed : ParsedFrame
nested_parsed = record {
  segments = (0 ∷ 0 ∷ 0 ∷ 0 ∷ 0 ∷ 0 ∷ 1 ∷ 0 ∷ 252 ∷ 255 ∷ 255 ∷ 255 ∷ 0 ∷ 0 ∷ 0 ∷ 0 ∷ []) ∷ [];
  total_words = 2;
}

nested_parses : parse_frame nested_frame (depth_limit 2) ≡ ok nested_parsed
unfolding parse_frame nested_parsed word_counts cut_segments get_uint32
nested_parses = refl

-- What an evaluation of the validation opens.
unfoldable pub validation : Unit {0}
unfolding parse_frame word_counts cut_segments get_uint32 get_uint64 validate_capnp_frame validate
    enforce_nesting_depth walk walk_step has resolve_pointer read_word_at require_word_range
    resolve_hops visit visit_struct visit_composite visit_flat push_pointers push_elements state_key
    double_far follow_far words_for_flat_list ◌+ℤ◌
validation = tt

nested_passes : validate_capnp_frame 200 nested_frame (depth_limit 2) ≡ some (ok tt)
unfolding validation
nested_passes = refl

nested_fails :
    validate_capnp_frame 200 nested_frame (depth_limit 1) ≡ some (err nesting_depth_exceeded)
unfolding validation
nested_fails = refl

parse_frame-tiles_example :
    (take 8 nested_frame ++ concat nested_parsed.segments ≡ nested_frame)
    × (length nested_parsed.segments ≡ 1)
    × HasWords nested_parsed.segments (2 ∷ [])
    × (length nested_parsed.segments ≤ 512)
    × (nested_parsed.total_words ≤ 4)
    × (length nested_frame ≤ 64 * 1024 * 1024)
unfolding nested_parsed word_counts get_uint32
parse_frame-tiles_example =
    parse_frame-tiles nested_frame (depth_limit 2) nested_parsed nested_parses

validate_capnp_frame-total_example :
    (r : Result ProtocolError (Unit {0})) × (validate_capnp_frame 126 nested_frame (depth_limit 2)
      ≡ some r)
validate_capnp_frame-total_example =
    validate_capnp_frame-total nested_frame (depth_limit 2) 126 (omega arith)
