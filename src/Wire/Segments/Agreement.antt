-- ===== src/Wire/Segments/Agreement.antt =====
-- The two parsers of a segment table, of rpc/wire/segments.ts and of rpc/wire/frame_limits.ts, agree.
use capnp_deno.Base.{
  ℕ, zero, suc, ◌+◌, ◌-◌, ◌*◌, ◌/◌, ◌%◌, ◌^◌, ◌≤◌, ◌<◌, ◌≡◌, ◌≢◌, refl, sym, ap, ◌∙◌, ◌⊎◌, inl, inr,
  [], ◌∷◌, ◌++◌, Bytes, ok, err, arith, length, take, ◌==◌, ==_iff, Bool-cases, take_of_length-le,
}
use capnp_deno.Base.{get_uint32, of_le, to_le}
use capnp_deno.Wire.Errors.{segment_not_aligned}
use capnp_deno.Wire.FrameLimits.{
  LimitsOptions, ParsedFrame, declared_count, header_bytes, word_counts, sum, cut_segments,
  parse_frame,
}
use capnp_deno.Wire.FrameLimits.Table.{parsed, parse_frame-Accepts}
use capnp_deno.Wire.Segments.{segments_from_frame, cut, padded_header, frame_from_segment}

padded_header-header_bytes : (count : ℕ) → padded_header count ≡ header_bytes count
padded_header-header_bytes count = ground arith

cut-cut_segments :
    (frame : Bytes) (cursor i count : ℕ)
    → cursor + sum (word_counts frame i count) * 8 ≤ length frame
    → cut frame cursor i count ≡ ok (cut_segments frame cursor (word_counts frame i count))
unfolding cut cut_segments word_counts
cut-cut_segments frame cursor i zero h = refl
cut-cut_segments frame cursor i (suc count) h =
    ground (arith, cut-cut_segments frame (cursor + get_uint32 frame (4 + i * 4) * 8) (i + 1) count)

-- Every frame that `parseFrame` accepts, under whatever limits, `segmentsFromFrame` takes apart into
-- the same segments.
pub segments_from_frame-parse_frame :
    (frame : Bytes) (limits : LimitsOptions) (p : ParsedFrame)
    → parse_frame frame limits ≡ ok p
    → segments_from_frame frame ≡ ok p.segments
unfolding segments_from_frame
segments_from_frame-parse_frame frame limits p e =
    let (a, same) = parse_frame-Accepts frame limits p e in
    let count = declared_count frame in
    let whole : segments_from_frame frame ≡ ok (parsed frame).segments = ground (
      arith,
      a.exact,
      padded_header-header_bytes count,
      cut-cut_segments frame (header_bytes count) 0 count,
    ) in
    whole ∙ ap (λ (q : ParsedFrame). ok q.segments) (sym same)

-- The segment behind a table of one entry.
abbrev framed : Bytes → Bytes
framed segment = to_le 4 0 ++ (to_le 4 (length segment / 8) ++ segment)

framed_cuts :
    (segment : Bytes)
    → length segment < 2 ^ 35
    → length segment % 8 ≡ 0
    → segments_from_frame (framed segment) ≡ ok (segment ∷ [])
unfolding segments_from_frame cut get_uint32
framed_cuts segment small aligned =
    let declared : of_le (to_le 4 (length segment / 8)) * 8 ≡ length segment = omega arith in
    ground (
      arith,
      declared,
      take_of_length-le (length segment) segment,
      ap (λ n. take n segment) {x = 8 + of_le (to_le 4 (length segment / 8)) * 8 - 8}
          {y = length segment} (omega arith),
    )

-- `frameFromSegment` refuses a segment that is not a whole number of words, and frames every other
-- one (of fewer than 2^32 words) so that `segmentsFromFrame` gives back that segment alone.
pub segments_from_frame-frame_from_segment :
    (segment : Bytes)
    → length segment < 2 ^ 35
    → ((length segment % 8 ≢ 0) × (frame_from_segment segment ≡ err segment_not_aligned))
      ⊎ ((frame : Bytes) × (frame_from_segment segment ≡ ok frame)
          × (segments_from_frame frame ≡ ok (segment ∷ [])))
unfolding frame_from_segment
segments_from_frame-frame_from_segment segment small = elim (Bool-cases (length segment % 8 == 0)) [
  | inr ragged ↦ inl ((λ (h : length segment % 8 ≡ 0). ground arith), rw ragged)
  | inl aligned ↦
      inr (framed segment, rw aligned, framed_cuts segment small ((==_iff _ _).0 aligned))
]
