-- ===== src/Wire/Framer/Consume.antt =====
-- Taking bytes off the front of the framer, and what the bytes that are taken are.
use capnp_deno.Base.{
  take-set_bytes, length-set_bytes, ℕ, ◌+◌, ◌-◌, ◌≤◌, ◌≡◌, refl, sym, ap, ◌∙◌, inl, inr, false,
  ◌++◌, Bytes, arith, length, take, drop, subarray, length-drop, length-take, take-append-drop,
  Bool-cases, ◌==◌, set_bytes, take-nil, drop_of_length-le, drop-take, ==_iff,
}
use capnp_deno.Wire.FrameLimits.{LimitsOptions, declared_count, header_bytes}
use capnp_deno.Wire.FrameLimits.Table.{Accepts}
use capnp_deno.Wire.Framer.{Bound, finite, infinity, exceeds, Framer, consume}
use capnp_deno.Wire.Framer.Header.{Header, Header-front, declared_count-append}
use capnp_deno.Wire.Framer.Refine.{contents, IsValid, length-contents}
use capnp_deno.Wire.Framer.Update.{HeaderOf, knowing}

pub exceeds_mono : (b : Bound) (m n : ℕ) → m ≤ n → exceeds n b ≡ false → exceeds m b ≡ false
unfolding exceeds
exceeds_mono (finite k) m n h e = ground arith
exceeds_mono infinity m n h e = refl

-- Taking `total` bytes leaves the bytes behind them, and a valid framer under the same limits.
abbrev pub Consumed : Framer → ℕ → Framer → Type 0
Consumed f total g =
    (contents g ≡ drop total (contents f))
    × IsValid g
    × (g.limits ≡ f.limits)
    × (g.max_buffered ≡ f.max_buffered)

moved_length :
    (f : Framer) (total : ℕ) → IsValid f → length (subarray f.buffer total f.used) ≡ f.used - total
moved_length f total v = omega (
  arith,
  v.in_buffer,
  length-take (f.used - total) (drop total f.buffer),
  length-drop total f.buffer,
)

contents-consume :
    (f : Framer) (total : ℕ)
    → IsValid f
    → total ≤ f.used
    → contents (consume f total) ≡ drop total (contents f)
unfolding consume
contents-consume f total v h = elim (Bool-cases (f.used - total == 0)) [
  | inl all ↦
      let none_left : f.used - total ≡ 0 = (==_iff _ _).0 all in
      rw all (
        take-nil ℕ (f.used - total)
        ∙ sym (drop_of_length-le total (contents f) (omega (arith, length-contents f v))))
  | inr left ↦
      let moved = subarray f.buffer total f.used in
      let size : f.used - total ≡ 0 + length moved = omega (arith, moved_length f total v) in
      rw left (
        ap (λ n. take n (set_bytes f.buffer 0 moved)) size
        ∙ take-set_bytes f.buffer moved 0 (omega arith)
        ∙ sym (drop-take total f.used f.buffer))
]

pub consume-Consumed :
    (f : Framer) (total : ℕ) → IsValid f → total ≤ f.used → Consumed f total (consume f total)
unfolding consume
consume-Consumed f total v h = (
  contents-consume f total v h,
  record {
    in_buffer = in_room;
    within = exceeds_mono f.max_buffered (f.used - total) f.used (omega arith) v.within;
    known = tt;
  },
  refl,
  refl,
)
  where
    in_room : f.used - total ≤ length (consume f total).buffer
    in_room = ground (
      arith,
      moved_length f total v,
      length-set_bytes f.buffer (subarray f.buffer total f.used) 0,
      v.in_buffer,
    )

-- An accepted frame begins with a good table for its length.
pub Accepts-Header :
    (limits : LimitsOptions) (bound : Bound) (frame : Bytes)
    → Accepts limits frame
    → exceeds (length frame) bound ≡ false
    → Header limits bound frame (length frame)
Accepts-Header limits bound frame a fits = record {
  has_table = omega (arith, a.exact);
  count_within = a.count_within;
  words_within = a.words_within;
  declares = a.exact;
  bytes_within = omega (arith, a.exact, a.bytes_within);
  fits = fits;
}

-- The bytes that a table declares are a frame that `parseFrame` accepts.
pub Header-Accepts :
    (limits : LimitsOptions) (bound : Bound) (bs : Bytes) (total : ℕ)
    → Header limits bound bs total
    → total ≤ length bs
    → Accepts limits (take total bs)
Header-Accepts limits bound bs total h enough =
    let front = take total bs in
    let front_length : length front ≡ total = omega (arith, length-take total bs) in
    let whole : front ++ drop total bs ≡ bs = take-append-drop total bs in
    let long : 4 ≤ length front = omega (arith, h.declares) in
    let count : declared_count bs ≡ declared_count front =
      ap declared_count (sym whole)
      ∙ declared_count-append limits bound front (drop total bs) long in
    let table : header_bytes (declared_count front) ≤ length front =
      rw (← count) (omega (arith, h.declares)) in
    let f = Header-front limits bound front (drop total bs) total long table (rw whole h) in
    record {
      has_count = long;
      count_within = f.count_within;
      words_within = f.words_within;
      bytes_within = omega (arith, f.declares, f.bytes_within);
      exact = omega (arith, f.declares);
    }

pub IsValid-knowing :
    (f : Framer) (total : ℕ) → IsValid f → HeaderOf f total → IsValid (knowing f total)
IsValid-knowing f total v h = record { in_buffer = v.in_buffer; within = v.within; known = h }

pub exceeds_infinity : (n : ℕ) → exceeds n infinity ≡ false
unfolding exceeds
exceeds_infinity n = refl
