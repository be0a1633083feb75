-- ===== src/Wire/Pointers/DoubleFar.antt =====
-- A double-far pointer, as the decoder and the frame validator resolve it.
use capnp_deno.Base.{
  ℕ, ◌+◌, ◌*◌, ◌%◌, ◌^◌, ◌≡◌, ap, ◌∙◌, ok, throw_if, arith, ◌==◌, not, Option-cases, ok-injective,
  >>=-eq-ok,
}
use capnp_deno.Base.{get_elem?}
use capnp_deno.Base.Int.{ℤ, pos, sub_ℕ, ◌+ℤ◌, int_laws}
use capnp_deno.Wire.PointerWord.{
  kind, raw_offset, double_far_bit, landing_pad_word, landing_segment_id,
}
use capnp_deno.Wire.Segments.{
  SegmentTable, ensure_range, ensure_segment_range, read_word_from_table, signed30,
}
use capnp_deno.Wire.Pointers
use capnp_deno.Wire.FrameLimits.Walk
use capnp_deno.Wire.FrameLimits.Walk.{require_word_range, read_word_at, word_of, as_signed30}

ensure_range-require_word_range :
    (table : SegmentTable) (segment_id start words : ℕ)
    → ensure_segment_range table segment_id (pos (start * 8)) (words * 8) ≡ ok tt
    → require_word_range table segment_id (pos start) words ≡ ok tt
unfolding ensure_segment_range ensure_range require_word_range
ensure_range-require_word_range table id start words e =
    ground (arith, Option-cases (get_elem? table id))

read_word_from_table-read_word_at :
    (table : SegmentTable) (segment_id i w : ℕ)
    → read_word_from_table table segment_id (pos i) ≡ ok w
    → read_word_at table segment_id i ≡ ok w
unfolding read_word_from_table read_word_at ensure_segment_range ensure_range require_word_range
read_word_from_table-read_word_at table id i w e = ground (arith, Option-cases (get_elem? table id))

as_signed30-signed30 : (w : ℕ) → as_signed30 (raw_offset w) ≡ signed30 (raw_offset w)
unfolding signed30
as_signed30-signed30 w = let small : raw_offset w % 2 ^ 30 ≡ raw_offset w = omega arith in rw small

before_pad : (p : ℕ) → pos (p + 1) ≡ sub_ℕ p 1 +ℤ pos 1 +ℤ pos 1
unfolding ◌+ℤ◌
before_pad p = ground arith

shifted : (p : ℕ) (offset : ℤ) → pos (p + 1) +ℤ offset ≡ sub_ℕ p 1 +ℤ pos 1 +ℤ offset +ℤ pos 1
shifted p offset = rw (before_pad p) (grind int_laws)

-- Where `resolvePointer` of pointers.ts resolves the landing pad of a double-far pointer, the one of
-- frame_limits.ts resolves it as well, to the same tag word and segment, but to a pointer whose
-- target begins one word later.
pub double_far_shifted :
    (table : SegmentTable) (landing_segment landing_word : ℕ) (r : Pointers.Resolved)
    → Pointers.double_far table landing_segment landing_word ≡ ok r
    → (v : Walk.Resolved) × (Walk.double_far table landing_segment landing_word ≡ ok v)
      × (v.segment_id ≡ r.segment_id)
      × (v.word ≡ r.word)
      × (Walk.target_word v ≡ Pointers.target_word r +ℤ pos 1)
unfolding Pointers.double_far Walk.double_far
double_far_shifted table ls lw r e =
    let (_, range0, e₁) = >>=-eq-ok (ensure_segment_range table ls (pos (lw * 8)) 16) _ e in
    let (pad0, read0, e₂) = >>=-eq-ok (read_word_from_table table ls (pos lw)) _ e₁ in
    let (_, far, e₃) = >>=-eq-ok (throw_if (not (kind pad0 == 2)) _) _ e₂ in
    let (_, single, e₄) = >>=-eq-ok (throw_if (double_far_bit pad0 == 1) _) _ e₃ in
    let (_, range1, e₅) =
      >>=-eq-ok (ensure_segment_range table (landing_segment_id pad0) _ 8) _ e₄ in
    let (tag, read1, made) = >>=-eq-ok (read_word_from_table table ls (pos (lw + 1))) _ e₅ in
    let is_r = ok-injective made in
    (
      record {
        segment_id = landing_segment_id pad0;
        pointer_word = landing_pad_word pad0;
        word = tag;
      },
      rw (
        ensure_range-require_word_range table ls lw 2 range0,
        read_word_from_table-read_word_at table ls lw pad0 read0,
        far,
        single,
        ensure_range-require_word_range table (landing_segment_id pad0) (landing_pad_word pad0) 1
            range1,
        read_word_from_table-read_word_at table ls (lw + 1) tag read1,
      ),
      ap (λ (q : Pointers.Resolved). q.segment_id) is_r,
      ap (λ (q : Pointers.Resolved). q.word) is_r,
      rw (as_signed30-signed30 tag) (
          shifted (landing_pad_word pad0) (signed30 (raw_offset tag))
          ∙ ap (λ (q : Pointers.Resolved). Pointers.target_word q +ℤ pos 1) is_r),
    )
