-- ===== src/Wire/Segments/Words.antt =====
-- Words in a segment: what is written is read back, and a read in range does not throw.
use capnp_deno.Base.{
  ℕ, ◌+◌, ◌*◌, ◌%◌, ◌^◌, ◌≤◌, ◌≡◌, sym, ap, ap₂, ◌∙◌, ◌⊎◌, inl, inr, Bytes, ok, ◌>>◌, throw_if,
  arith, length, take, drop, ltb, ◌==◌, ==_iff, Bool-cases, set_bytes, take-set_bytes_self,
  take-set_bytes_below, take-set_bytes_above, length-set_bytes,
}
use capnp_deno.Base.{get_uint64, of_le, to_le}
use capnp_deno.Base.Int.{pos}
use capnp_deno.Wire.Errors.{out_of_range}
use capnp_deno.Wire.Segments.{read_word, write_word, ensure_range}

ensure_range-ok :
    (segment : Bytes) (offset len : ℕ)
    → offset + len ≤ length segment
    → ensure_range segment (pos offset) len ≡ ok tt
unfolding ensure_range
ensure_range-ok segment offset len h = ground arith

write_word_lem :
    (segment written : Bytes) (i value : ℕ)
    → write_word segment i value ≡ ok written
    → (i * 8 + 8 ≤ length segment) × (set_bytes segment (i * 8) (to_le 8 value) ≡ written)
unfolding write_word ensure_range
write_word_lem segment written i value e = ground arith

read_word_congr :
    (a b : Bytes) (j : ℕ)
    → length a ≡ length b
    → take 8 (drop (j * 8) a) ≡ take 8 (drop (j * 8) b)
    → read_word a j ≡ read_word b j
unfolding read_word ensure_range get_uint64
read_word_congr a b j p q =
    ap₂ (λ l bs. throw_if (ltb l (j * 8 + 8)) out_of_range >> ok (of_le bs)) p q

read_word_self :
    (segment : Bytes) (i value : ℕ)
    → i * 8 + 8 ≤ length segment
    → read_word (set_bytes segment (i * 8) (to_le 8 value)) i ≡ ok (value % 2 ^ 64)
unfolding read_word get_uint64
read_word_self segment i value fits =
    let written = set_bytes segment (i * 8) (to_le 8 value) in
    let size : length written ≡ length segment =
      length-set_bytes segment (to_le 8 value) (i * 8) fits in
    let stored : take 8 (drop (i * 8) written) ≡ to_le 8 value =
      take-set_bytes_self segment (to_le 8 value) (i * 8) (omega arith) in
    let back : of_le (to_le 8 value) ≡ value % 2 ^ 64 = omega arith in
    rw (ensure_range-ok written (i * 8) 8 (omega arith)) (ap ok (ap of_le stored ∙ back))

-- A word that `writeWord` wrote is read back by `readWord` at its index, cut to 64 bits; every
-- other word of the segment reads as before, and the segment keeps its length.
pub read_word-write_word :
    (segment written : Bytes) (i j value : ℕ)
    → write_word segment i value ≡ ok written
    → (read_word written i ≡ ok (value % 2 ^ 64))
      × ((i ≡ j) ⊎ (read_word written j ≡ read_word segment j))
      × (length written ≡ length segment)
read_word-write_word segment written i j value e =
    let (fits, made) = write_word_lem segment written i value e in
    let new = to_le 8 value in
    let size : length written ≡ length segment =
      ap length (sym made) ∙ length-set_bytes segment new (i * 8) fits in
    (rw (sym made) (read_word_self segment i value fits), other fits made size, size)
  where
    other :
        i * 8 + 8 ≤ length segment
        → set_bytes segment (i * 8) (to_le 8 value) ≡ written
        → length written ≡ length segment
        → (i ≡ j) ⊎ (read_word written j ≡ read_word segment j)
    other fits made size = elim (Bool-cases (i == j)) [
      | inl same ↦ inl ((==_iff i j).0 same)
      | inr apart ↦ inr (
          read_word_congr written segment j size (
            ap (λ bs. take 8 (drop (j * 8) bs)) (sym made) ∙ elim (Bool-cases (ltb j i)) [
              | inl below ↦
                  take-set_bytes_below segment (to_le 8 value) (i * 8) (j * 8) 8 (omega arith)
                    (ground arith)
              | inr above ↦
                  take-set_bytes_above segment (to_le 8 value) (i * 8) (j * 8) 8 fits (ground arith)
            ]))
    ]
