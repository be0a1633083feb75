-- ===== src/Wire/Framer/Update.antt =====
-- `updateExpectedTotal` finds the total that the segment table declares.
use capnp_deno.Base.{
  ℕ, ◌≤◌, ◌<◌, ◌≡◌, ◌≢◌, refl, subst, ◌⊎◌, inl, inr, none, some, ◌++◌, Bytes, ok, err, arith,
  length, Option-cases, Result-cases,
}
use capnp_deno.Wire.Errors.{ProtocolError}
use capnp_deno.Wire.FrameLimits.{
  segment_limit, declared_count, header_bytes, total_bytes, word_counts,
}
use capnp_deno.Wire.Framer.{Framer, update_expected_total, read_table, sum_table}
use capnp_deno.Wire.Framer.Header.{Header, Header-front, declared_count-append}
use capnp_deno.Wire.Framer.Refine.{contents, IsValid, KnownTotal, length-contents}

-- The segment table is not whole yet.
abbrev pub Missing : Bytes → Type 0
Missing bs = (length bs < 4) ⊎ (length bs < header_bytes (declared_count bs))

-- The framer with its total known.
abbrev pub knowing : Framer → ℕ → Framer
knowing f total = record f { expected_total = some total }

abbrev pub HeaderOf : Framer → ℕ → Type 0
HeaderOf f total = Header f.limits f.max_buffered (contents f) total

-- `updateExpectedTotal` finds the total that the table declares, or the table is not whole.
abbrev pub Updated : Framer → Framer → Type 0
Updated f g =
    ((g ≡ f) × (f.expected_total ≡ none) × Missing (contents f))
    ⊎ ((total : ℕ) × (g ≡ knowing f total) × HeaderOf f total)

sum_table-Updated :
    (f g : Framer)
    → IsValid f
    → header_bytes (declared_count (contents f)) ≤ f.used
    → declared_count (contents f) ≤ segment_limit f.limits
    → sum_table f (declared_count (contents f)) ≡ ok g
    → (total : ℕ) × (g ≡ knowing f total) × HeaderOf f total
unfolding sum_table
sum_table-Updated f g v table count e =
    let total =
      total_bytes (declared_count (contents f))
        (word_counts (contents f) 0 (declared_count (contents f))) in
    (
      total,
      ground arith,
      record {
        has_table = rw (length-contents f v) table;
        count_within = count;
        words_within = ground arith;
        declares = refl;
        bytes_within = ground arith;
        fits = ground arith;
      },
    )

-- The total is the one that is known, the one that the table declares, or none yet.
pub update-Updated : (f g : Framer) → IsValid f → update_expected_total f ≡ ok g → Updated f g
unfolding update_expected_total read_table
update-Updated f g v e = elim (Option-cases f.expected_total) [
  | inr (total, known) ↦
      inr
        (total, ground arith, subst (KnownTotal f.limits f.max_buffered (contents f)) known v.known)
  | inl unknown ↦ ground (arith, length-contents f v, sum_table-Updated f g v)
]

-- At the front of a stream that begins with a good table nothing is thrown.
pub update-ne-err :
    (f : Framer) (more : Bytes) (total : ℕ) (error : ProtocolError)
    → IsValid f
    → Header f.limits f.max_buffered (contents f ++ more) total
    → update_expected_total f ≢ err error
unfolding update_expected_total read_table sum_table
update-ne-err f more total error v h e = ground (
  arith,
  length-contents f v,
  declared_count-append f.limits f.max_buffered (contents f) more,
  Header-front f.limits f.max_buffered (contents f) more total,
)

pub update-front :
    (f : Framer) (more : Bytes) (total : ℕ)
    → IsValid f
    → Header f.limits f.max_buffered (contents f ++ more) total
    → (g : Framer) × (update_expected_total f ≡ ok g) × Updated f g
update-front f more total v h = elim (Result-cases (update_expected_total f)) [
  | inl (g, e) ↦ (g, e, update-Updated f g v e)
  | inr (error, e) ↦ absurd (update-ne-err f more total error v h e)
]

-- Only a framer that holds the segment count throws.
pub update-err-le :
    (f : Framer) (error : ProtocolError) → update_expected_total f ≡ err error → 4 ≤ f.used
unfolding update_expected_total read_table
update-err-le f error e = ground arith
