-- ===== src/Wire/FrameLimits/Table.antt =====
-- What `parseFrame` accepts: the segment table tiles the frame.
use capnp_deno.Base.{
  ℕ, zero, suc, ◌+◌, ◌-◌, ◌*◌, ◌≤◌, ◌≡◌, refl, sym, ap, ap₂, ◌∙◌, List, [], ◌∷◌, ◌++◌, Bytes, ok,
  arith, length, take, drop, concat, take-add, drop-drop, take_of_length-le, length-take,
  length-drop, take-append-drop,
}
use capnp_deno.Wire.FrameLimits.{
  LimitsOptions, segment_limit, frame_limit, traversal_limit, ParsedFrame, declared_count,
  header_bytes, word_counts, sum, cut_segments, total_bytes, parse_frame,
}
use capnp_deno.Wire.FrameLimits.Walk.Termination.{AllWithin}

pub length-word_counts : (frame : Bytes) (i count : ℕ) → length (word_counts frame i count) ≡ count
unfolding word_counts
length-word_counts frame i zero = refl
length-word_counts frame i (suc count) = ap suc (length-word_counts frame (i + 1) count)

pub length-cut_segments :
    (frame : Bytes) (cursor : ℕ) (words : List ℕ)
    → length (cut_segments frame cursor words) ≡ length words
unfolding cut_segments
length-cut_segments frame cursor [] = refl
length-cut_segments frame cursor (w ∷ ws) = ap suc (length-cut_segments frame (cursor + w * 8) ws)

-- The lengths of the segments, in words, are those of the table.
abbrev pub HasWords : List Bytes → List ℕ → Type 0
HasWords [] [] = Unit {0}
HasWords [] (w ∷ ws) = ⊥
HasWords (s ∷ ss) [] = ⊥
HasWords (s ∷ ss) (w ∷ ws) = (length s ≡ w * 8) × HasWords ss ws

pub cut_segments-HasWords :
    (frame : Bytes) (cursor : ℕ) (words : List ℕ)
    → cursor + sum words * 8 ≤ length frame
    → HasWords (cut_segments frame cursor words) words
unfolding cut_segments
cut_segments-HasWords frame cursor [] h = tt
cut_segments-HasWords frame cursor (w ∷ ws) h = (
  omega
      (arith, length-take (cursor + w * 8 - cursor) (drop cursor frame), length-drop cursor frame),
  cut_segments-HasWords frame (cursor + w * 8) ws (omega arith),
)

-- The segments follow one another without a gap.
pub concat-cut_segments :
    (frame : Bytes) (cursor : ℕ) (words : List ℕ)
    → concat (cut_segments frame cursor words) ≡ take (sum words * 8) (drop cursor frame)
unfolding cut_segments
concat-cut_segments frame cursor [] = refl
concat-cut_segments frame cursor (w ∷ ws) =
    ap₂ ◌++◌ (ap (λ k. take k (drop cursor frame)) {y = w * 8} (omega arith)) (
      concat-cut_segments frame (cursor + w * 8) ws
      ∙ ap (take (sum ws * 8)) (sym (drop-drop cursor (w * 8) frame)))
    ∙ sym (take-add (w * 8) (sum ws * 8) (drop cursor frame))
    ∙ ap (λ k. take k (drop cursor frame)) (omega arith)

pub AllWithin-of_HasWords :
    (limit : ℕ) (segments : List Bytes) (words : List ℕ)
    → HasWords segments words
    → sum words ≤ limit
    → AllWithin limit segments
AllWithin-of_HasWords limit [] [] h k = tt
AllWithin-of_HasWords limit [] (w ∷ ws) h k = elim h [ ]
AllWithin-of_HasWords limit (s ∷ ss) [] h k = elim h [ ]
AllWithin-of_HasWords limit (s ∷ ss) (w ∷ ws) h k =
    (omega arith, AllWithin-of_HasWords limit ss ws h.1 (omega arith))

-- The checks that a frame passes, as facts.
pub record Accepts (limits : LimitsOptions) (frame : Bytes) : Type 0 where
  pub has_count : 4 ≤ length frame
  pub count_within : declared_count frame ≤ segment_limit limits
  pub words_within : sum (word_counts frame 0 (declared_count frame)) ≤ traversal_limit limits
  pub bytes_within :
      total_bytes (declared_count frame) (word_counts frame 0 (declared_count frame))
      ≤ frame_limit limits
  pub exact :
      length frame ≡ total_bytes (declared_count frame) (word_counts frame 0 (declared_count frame))

-- The result that `parseFrame` has for a frame that passes.
abbrev pub parsed : Bytes → ParsedFrame
parsed frame = record {
  segments =
      cut_segments frame (header_bytes (declared_count frame))
        (word_counts frame 0 (declared_count frame));
  total_words = sum (word_counts frame 0 (declared_count frame));
}

pub parse_frame-Accepts :
    (frame : Bytes) (limits : LimitsOptions) (p : ParsedFrame)
    → parse_frame frame limits ≡ ok p
    → Accepts limits frame × (p ≡ parsed frame)
unfolding parse_frame
parse_frame-Accepts frame limits p e = ground arith

pub Accepts-parse_frame :
    (frame : Bytes) (limits : LimitsOptions)
    → Accepts limits frame
    → parse_frame frame limits ≡ ok (parsed frame)
unfolding parse_frame
Accepts-parse_frame frame limits a = ground arith

-- A frame that `parseFrame` accepts is its segment table followed by its segments, with nothing
-- between them and nothing after them; there are as many segments as the table declares, each of
-- the declared length; and the number of segments, the word count and the frame's length are
-- within the limits.
pub parse_frame-tiles :
    (frame : Bytes) (limits : LimitsOptions) (p : ParsedFrame)
    → parse_frame frame limits ≡ ok p
    → (take (header_bytes (declared_count frame)) frame ++ concat p.segments ≡ frame)
      × (length p.segments ≡ declared_count frame)
      × HasWords p.segments (word_counts frame 0 (declared_count frame))
      × (length p.segments ≤ segment_limit limits)
      × (p.total_words ≤ traversal_limit limits)
      × (length frame ≤ frame_limit limits)
parse_frame-tiles frame limits p e =
    let (a, same) = parse_frame-Accepts frame limits p e in
    let count = declared_count frame in
    let words = word_counts frame 0 count in
    let header = header_bytes count in
    rw same (
      ap (◌++◌ (take header frame)) (
            concat-cut_segments frame header words
            ∙ take_of_length-le (sum words * 8) (drop header frame)
                (omega (arith, a.exact, length-drop header frame)))
          ∙ take-append-drop header frame,
      length-cut_segments frame header words ∙ length-word_counts frame 0 count,
      cut_segments-HasWords frame header words (omega (arith, a.exact)),
      omega (
        arith,
        a.count_within,
        length-cut_segments frame header words,
        length-word_counts frame 0 count,
      ),
      a.words_within,
      omega (arith, a.exact, a.bytes_within),
    )
