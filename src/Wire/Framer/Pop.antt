-- ===== src/Wire/Framer/Pop.antt =====
-- The four things that `popFrame` does.
use capnp_deno.Base.{
  ℕ, ◌≤◌, ◌<◌, ◌≡◌, ◌≢◌, refl, inl, inr, Option, none, some, Bytes, Result, ok, err, arith, take,
  ltb, Bool-cases, Result-cases, take-take-le,
}
use capnp_deno.Wire.Errors.{ProtocolError}
use capnp_deno.Wire.FrameLimits.{LimitsOptions}
use capnp_deno.Wire.Framer.{Framer, consume, update_expected_total, take_frame, pop_frame, checked}
use capnp_deno.Wire.Framer.Refine.{contents, IsValid}
use capnp_deno.Wire.Framer.Update.{HeaderOf, knowing, Missing, update-Updated}

pub checked-some :
    (limits : LimitsOptions) (frame popped : Bytes)
    → checked limits frame ≡ ok (some popped)
    → popped ≡ frame
unfolding checked
checked-some limits frame popped e = ground arith

pub checked-ne-none : (limits : LimitsOptions) (frame : Bytes) → checked limits frame ≢ ok none
unfolding checked
checked-ne-none limits frame e = ground arith

-- The four things that `popFrame` does.
pub data PopCase (f : Framer) (r : Framer × Result ProtocolError (Option Bytes)) : Type 0 where
  refused : (e : ProtocolError) → update_expected_total f ≡ err e → r ≡ (f, err e) → PopCase f r
  waits : Missing (contents f) → r ≡ (f, ok none) → PopCase f r
  short :
      (total : ℕ) → HeaderOf f total → f.used < total → r ≡ (knowing f total, ok none) → PopCase f r
  whole :
      (total : ℕ)
      → HeaderOf f total
      → total ≤ f.used
      → r ≡ (consume f total, checked f.limits (take total (contents f)))
      → PopCase f r

take_frame-knowing :
    (f : Framer) (total : ℕ)
    → HeaderOf f total
    → PopCase f (take_frame (knowing f total) (some total))
unfolding take_frame consume
take_frame-knowing f total h = elim (Bool-cases (ltb f.used total)) [
  | inl less ↦ short total h (ground arith) (rw less)
  | inr enough ↦
      let fits : total ≤ f.used = ground arith in
      whole total h fits (rw (enough, take-take-le total f.used f.buffer fits))
]

take_frame-unknown : (f : Framer) (o : Option ℕ) → o ≡ none → take_frame f o ≡ (f, ok none)
unfolding take_frame
take_frame-unknown f none e = refl
take_frame-unknown f (some total) e = cc

pub pop_frame-PopCase : (f : Framer) → IsValid f → PopCase f (pop_frame f)
unfolding pop_frame
pop_frame-PopCase f v = elim (Result-cases (update_expected_total f)) [
  | inr (error, bad) ↦ refused error bad (rw (bad, pop_frame))
  | inl (u, good) ↦ elim (update-Updated f u v good) [
    | inl (same, unknown, missing) ↦
        waits missing
          (rw (good, pop_frame) (rw same (take_frame-unknown f f.expected_total unknown)))
    | inr (total, same, header) ↦ rw (good, pop_frame) (rw same (take_frame-knowing f total header))
  ]
]
