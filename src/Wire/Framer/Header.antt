-- ===== src/Wire/Framer/Header.antt =====
-- The segment table at the front of a stream, and that more bytes behind it do not change it.
use capnp_deno.Base.{
  ℕ, zero, suc, ◌+◌, ◌*◌, ◌≤◌, ◌≡◌, refl, ap, ap₂, ◌∙◌, false, ◌∷◌, ◌++◌, Bytes, arith, length,
  take, drop, of_le, get_uint32, take-append-le, drop-append-le, length-drop, length-append,
}
use capnp_deno.Wire.FrameLimits.{
  LimitsOptions, segment_limit, frame_limit, traversal_limit, declared_count, header_bytes,
  word_counts, sum, total_bytes,
}
use capnp_deno.Wire.Framer.{Bound, exceeds}

pub get_uint32-append :
    (bs more : Bytes) (offset : ℕ)
    → offset + 4 ≤ length bs
    → get_uint32 (bs ++ more) offset ≡ get_uint32 bs offset
unfolding get_uint32
get_uint32-append bs more offset h = ap of_le (
    ap (take 4) (drop-append-le offset bs more (omega arith))
    ∙ take-append-le 4 (drop offset bs) more (omega (arith, length-drop offset bs)))

pub word_counts-append :
    (bs more : Bytes) (i count : ℕ)
    → 4 + (i + count) * 4 ≤ length bs
    → word_counts (bs ++ more) i count ≡ word_counts bs i count
unfolding word_counts
word_counts-append bs more i zero h = refl
word_counts-append bs more i (suc count) h =
    ap₂ ◌∷◌ (get_uint32-append bs more (4 + i * 4) (omega arith))
      (word_counts-append bs more (i + 1) count (omega arith))

-- A whole segment table within the limits, which declares a frame of `total` bytes.
pub record Header (limits : LimitsOptions) (bound : Bound) (bs : Bytes) (total : ℕ) : Type 0 where
  pub has_table : header_bytes (declared_count bs) ≤ length bs
  pub count_within : declared_count bs ≤ segment_limit limits
  pub words_within : sum (word_counts bs 0 (declared_count bs)) ≤ traversal_limit limits
  pub declares : total ≡ total_bytes (declared_count bs) (word_counts bs 0 (declared_count bs))
  pub bytes_within : total ≤ frame_limit limits
  pub fits : exceeds total bound ≡ false

module _ (limits : LimitsOptions) (bound : Bound) (bs more : Bytes) where
  pub declared_count-append : 4 ≤ length bs → declared_count (bs ++ more) ≡ declared_count bs
  declared_count-append h = ap (λ n. n + 1) (get_uint32-append bs more 0 h)

  pub table-append :
      (count : ℕ)
      → header_bytes count ≤ length bs
      → word_counts (bs ++ more) 0 count ≡ word_counts bs 0 count
  table-append count h = word_counts-append bs more 0 count (omega arith)

  -- More bytes leave the table as it is.
  pub Header-append :
      (total : ℕ) → Header limits bound bs total → Header limits bound (bs ++ more) total
  Header-append total h =
      let same = declared_count-append (omega (arith, h.has_table)) in
      let words = table-append (declared_count bs) h.has_table in
      record {
        has_table = rw same (omega (arith, h.has_table, length-append bs more));
        count_within = rw same h.count_within;
        words_within = rw (same, words) h.words_within;
        declares = rw (same, words) h.declares;
        bytes_within = h.bytes_within;
        fits = h.fits;
      }

  -- A table that is whole in a front part is the table of that part.
  pub Header-front :
      (total : ℕ)
      → 4 ≤ length bs
      → header_bytes (declared_count bs) ≤ length bs
      → Header limits bound (bs ++ more) total
      → Header limits bound bs total
  Header-front total long table h =
      let same = declared_count-append long in
      let words = table-append (declared_count bs) table in
      record {
        has_table = table;
        count_within = rw same at h.count_within;
        words_within = rw (same, words) at h.words_within;
        declares = rw (same, words) at h.declares;
        bytes_within = h.bytes_within;
        fits = h.fits;
      }
