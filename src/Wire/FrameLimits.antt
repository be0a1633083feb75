-- ===== src/Wire/FrameLimits.antt =====
-- rpc/wire/frame_limits.ts: the limits on a frame, and the parser of the segment table. The walk
-- over the pointers is in `Walk`. A limit that is given is a natural number, which is what
-- `assertNonNegativeInteger` lets pass.
pub mod Walk
pub mod Table
pub mod Tests
use capnp_deno.Base.{
  ℕ, zero, suc, ◌+◌, ◌*◌, ◌%◌, Option, List, [], ◌∷◌, Bytes, Result, ok, ◌>>=◌, ◌>>◌, throw_if, ltb,
  ◌==◌, if◌then◌else◌, or_else, length, get_uint32, subarray,
}
use capnp_deno.Wire.Errors.{
  ProtocolError, frame_too_short, frame_header_truncated, frame_payload_truncated,
  frame_trailing_bytes, segment_count_exceeded, frame_size_exceeded, traversal_words_exceeded,
}

-- `CapnpFrameLimitsOptions`
pub record LimitsOptions : Type 0 where
  pub max_segment_count : Option ℕ
  pub max_frame_bytes : Option ℕ
  pub max_traversal_words : Option ℕ
  pub max_nesting_depth : Option ℕ

abbrev pub default_max_segment_count : ℕ
default_max_segment_count = 512

abbrev pub default_max_frame_bytes : ℕ
default_max_frame_bytes = 64 * 1024 * 1024

abbrev pub default_max_traversal_words : ℕ
default_max_traversal_words = 8 * 1024 * 1024

abbrev pub default_max_nesting_depth : ℕ
default_max_nesting_depth = 64

module _ (limits : LimitsOptions) where
  -- The limits with the defaults filled in.
  abbrev pub segment_limit : ℕ
  segment_limit = or_else limits.max_segment_count default_max_segment_count

  abbrev pub frame_limit : ℕ
  frame_limit = or_else limits.max_frame_bytes default_max_frame_bytes

  abbrev pub traversal_limit : ℕ
  traversal_limit = or_else limits.max_traversal_words default_max_traversal_words

  abbrev pub nesting_limit : ℕ
  nesting_limit = or_else limits.max_nesting_depth default_max_nesting_depth

-- `ParsedCapnpFrame`
pub record ParsedFrame : Type 0 where
  pub segments : List Bytes
  pub total_words : ℕ

-- The segment count that the first word of a frame declares.
abbrev pub declared_count : Bytes → ℕ
declared_count frame = get_uint32 frame 0 + 1

-- The segment table's size, padded to a whole word.
abbrev pub header_words : ℕ → ℕ
header_words segment_count = 1 + segment_count + (if segment_count % 2 == 0 then 1 else 0)

abbrev pub header_bytes : ℕ → ℕ
header_bytes segment_count = header_words segment_count * 4

-- `view.getUint32(4 + i * 4, true)` for `count` values of `i`.
unfoldable pub word_counts : Bytes → ℕ → ℕ → List ℕ
word_counts frame i zero = []
word_counts frame i (suc count) = get_uint32 frame (4 + i * 4) ∷ word_counts frame (i + 1) count

abbrev pub sum : List ℕ → ℕ
sum [] = 0
sum (x ∷ xs) = x + sum xs

-- The loop that cuts the segments out of the frame.
unfoldable pub cut_segments : Bytes → ℕ → List ℕ → List Bytes
cut_segments frame cursor [] = []
cut_segments frame cursor (words ∷ rest) =
    subarray frame cursor (cursor + words * 8) ∷ cut_segments frame (cursor + words * 8) rest

-- The bytes that a header declares, header included.
abbrev pub total_bytes : ℕ → List ℕ → ℕ
total_bytes segment_count words = header_bytes segment_count + sum words * 8

-- `parseFrame`
unfoldable pub parse_frame : Bytes → LimitsOptions → Result ProtocolError ParsedFrame
parse_frame frame limits = do
  throw_if (ltb (length frame) 4) frame_too_short
  let segment_count = declared_count frame
  throw_if (ltb (segment_limit limits) segment_count) segment_count_exceeded
  throw_if (ltb (length frame) (header_bytes segment_count)) frame_header_truncated
  let words = word_counts frame 0 segment_count
  throw_if (ltb (traversal_limit limits) (sum words)) traversal_words_exceeded
  let total = total_bytes segment_count words
  throw_if (ltb (frame_limit limits) total) frame_size_exceeded
  throw_if (ltb (length frame) total) frame_payload_truncated
  throw_if (ltb total (length frame)) frame_trailing_bytes
  ok (record {
    segments = cut_segments frame (header_bytes segment_count) words;
    total_words = sum words;
  })
