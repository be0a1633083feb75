-- ===== src/Wire/FrameLimits/Walk/Total.antt =====
-- `validateCapnpFrame` ends: the limits bound the work of the walk.
use capnp_deno.Base.{
  ℕ, suc, ◌+◌, ◌^◌, ◌<◌, ◌≡◌, ap, inl, inr, some, Bytes, ok, err, arith, Option-cases, Result-cases,
  Result, throw_if, ltb,
}
use capnp_deno.Wire.Errors.{ProtocolError, traversal_words_exceeded}
use capnp_deno.Wire.FrameLimits.{
  LimitsOptions, traversal_limit, nesting_limit, ParsedFrame, parse_frame, declared_count,
  word_counts,
}
use capnp_deno.Wire.FrameLimits.Table.{
  parse_frame-tiles, parse_frame-Accepts, AllWithin-of_HasWords,
}
use capnp_deno.Wire.FrameLimits.Walk.{
  validate_capnp_frame, enforce_nesting_depth, validate, enough_fuel,
}
use capnp_deno.Wire.FrameLimits.Walk.Termination.{AllWithin, enforce-ne-none}

parsed-AllWithin :
    (frame : Bytes) (limits : LimitsOptions) (p : ParsedFrame)
    → parse_frame frame limits ≡ ok p
    → AllWithin (traversal_limit limits) p.segments
parsed-AllWithin frame limits p e =
    let (_, _, sizes, _, within, _) = parse_frame-tiles frame limits p e in
    let (_, same) = parse_frame-Accepts frame limits p e in
    AllWithin-of_HasWords (traversal_limit limits) p.segments
      (word_counts frame 0 (declared_count frame)) sizes
      (omega (arith, ap (λ (q : ParsedFrame). q.total_words) same))

-- On every frame and under every limits the validation ends, with success or with an error, once
-- the fuel exceeds (traversal limit + 1) ^ (nesting limit + 1).
pub validate_capnp_frame-total :
    (frame : Bytes) (limits : LimitsOptions) (fuel : ℕ)
    → suc (traversal_limit limits) ^ (nesting_limit limits + 1) < fuel
    → (r : Result ProtocolError (Unit {0})) × (validate_capnp_frame fuel frame limits ≡ some r)
unfolding validate_capnp_frame
validate_capnp_frame-total frame limits fuel h = elim (Result-cases (parse_frame frame limits)) [
  | inr (e, bad) ↦ (err e, rw (bad, validate_capnp_frame))
  | inl (p, good) ↦
      elim (Option-cases (enforce_nesting_depth fuel p.segments (nesting_limit limits))) [
        | inl stuck ↦ absurd (
            enforce-ne-none (traversal_limit limits) (nesting_limit limits) p.segments fuel
              (parsed-AllWithin frame limits p good) h stuck)
        | inr (err e, deep) ↦ (err e, rw (good, validate_capnp_frame) (rw deep))
        | inr (ok u, fine) ↦ (
          throw_if (ltb (traversal_limit limits) p.total_words) traversal_words_exceeded,
          rw (good, validate_capnp_frame) (rw fine),
        )
      ]
]

pub validate_lem :
    (frame : Bytes) (limits : LimitsOptions)
    → validate_capnp_frame (enough_fuel limits) frame limits ≡ some (validate frame limits)
unfolding validate
validate_lem frame limits =
    let (r, e) = validate_capnp_frame-total frame limits (enough_fuel limits) (omega arith) in rw e
