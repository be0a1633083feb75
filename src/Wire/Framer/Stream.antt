-- ===== src/Wire/Framer/Stream.antt =====
-- A stream of frames, cut into chunks at any places, comes out of the framer as it went in.
use capnp_deno.Base.{
  ℕ, zero, suc, ◌+◌, ◌≤◌, ◌<◌, ◌≡◌, refl, sym, ap, subst, subst₂, ◌∙◌, inl, inr, false, Option,
  none, some, List, [], ◌∷◌, ◌++◌, Bytes, Result, ok, arith, length, take, drop, concat,
  length-drop, take-append-drop, take-append_length, ltb, Bool-cases, Result-cases, take-append-le,
  drop-append-le, drop-append_length,
}
use capnp_deno.Wire.Errors.{ProtocolError}
use capnp_deno.Wire.FrameLimits.{LimitsOptions}
use capnp_deno.Wire.FrameLimits.Table.{Accepts}
use capnp_deno.Wire.Framer.{Bound, exceeds, Framer, push, pop_frame, checked, drain}
use capnp_deno.Wire.Framer.Refine.{contents, IsValid, length-contents}
use capnp_deno.Wire.Framer.Update.{update-err-le, knowing}
use capnp_deno.Wire.Framer.Consume.{IsValid-knowing}
use capnp_deno.Wire.Framer.Pop.{PopCase, refused, waits, short, whole, pop_frame-PopCase}
use capnp_deno.Wire.Framer.Frames.{Kept}
use capnp_deno.Wire.Framer.Complete.{pop_frame_complete, pop_frame_incomplete}

-- A frame that the limits and the validation let pass and that fits the buffer limit.
pub record IsGood (limits : LimitsOptions) (bound : Bound) (frame : Bytes) : Type 0 where
  pub accepted : Accepts limits frame
  pub validated : checked limits frame ≡ ok (some frame)
  pub fits : exceeds (length frame) bound ≡ false

abbrev pub AllGood : LimitsOptions → Bound → List Bytes → Type 0
AllGood limits bound [] = Unit {0}
AllGood limits bound (frame ∷ frames) = IsGood limits bound frame × AllGood limits bound frames

-- The contents do not hold the next frame whole.
abbrev pub Partial : Bytes → List Bytes → Type 0
Partial bs [] = bs ≡ []
Partial bs (frame ∷ frames) = length bs < length frame

pub split_front :
    (bs more frame rest : Bytes)
    → bs ++ more ≡ frame ++ rest
    → length frame ≤ length bs
    → (bs ≡ frame ++ drop (length frame) bs) × (drop (length frame) bs ++ more ≡ rest)
split_front bs more frame rest e h =
    let front : take (length frame) bs ≡ frame =
      sym (take-append-le (length frame) bs more h)
      ∙ ap (take (length frame)) e
      ∙ take-append_length frame rest in
    (
      sym (take-append-drop (length frame) bs) ∙ ap (λ xs. xs ++ drop (length frame) bs) front,
      sym (drop-append-le (length frame) bs more h)
          ∙ ap (drop (length frame)) e
          ∙ drop-append_length frame rest,
    )

pub left-empty : (bs more : Bytes) → bs ++ more ≡ [] → bs ≡ []
left-empty [] more e = refl
left-empty (b ∷ bs) more e = cc

-- What draining makes of a framer at the front of a stream of frames.
pub record Drained (f : Framer) (more : Bytes) (frames : List Bytes)
    (r : Framer × List Bytes × Option ProtocolError) : Type 0 where
  pub left : List Bytes
  pub splits : frames ≡ r.1 ++ left
  pub no_failure : r.2 ≡ none
  pub rest : contents r.0 ++ more ≡ concat left
  pub waiting : Partial (contents r.0) left
  pub good : AllGood f.limits f.max_buffered left
  pub kept : Kept f r.0

pop_empty_case :
    (f g : Framer) (r : Result ProtocolError (Option Bytes))
    → IsValid f
    → contents f ≡ []
    → PopCase f (g, r)
    → (r ≡ ok none) × (contents g ≡ []) × Kept f g
pop_empty_case f g r v e (refused error bad eq) =
    absurd (omega (arith, update-err-le f error bad, length-contents f v, ap length e))
pop_empty_case f g r v e (waits missing eq) =
    let same : f ≡ g = ap (λ r. r.0) (sym eq) in
    (ap (λ r. r.1) eq, ap contents (sym same) ∙ e, subst (Kept f) same (v, refl, refl))
pop_empty_case f g r v e (short total h under eq) =
    let same : knowing f total ≡ g = ap (λ r. r.0) (sym eq) in
    (
      ap (λ r. r.1) eq,
      ap contents (sym same) ∙ e,
      subst (Kept f) same (IsValid-knowing f total v h, refl, refl),
    )
pop_empty_case f g r v e (whole total h enough eq) =
    absurd (omega (arith, length-contents f v, ap length e, h.has_table, h.declares))

-- When nothing whole is there, draining stops at once.
drain_stops :
    (fuel : ℕ) (f : Framer) (more : Bytes) (frames : List Bytes)
    → AllGood f.limits f.max_buffered frames
    → (pop_frame f).1 ≡ ok none
    → contents (pop_frame f).0 ++ more ≡ concat frames
    → Partial (contents (pop_frame f).0) frames
    → Kept f (pop_frame f).0
    → Drained f more frames (drain (suc fuel) f)
unfolding drain
drain_stops fuel f more frames good e rest waiting kept =
    rw (e, drain)
      record {
        left = frames;
        splits = refl;
        no_failure = refl;
        rest = rest;
        waiting = waiting;
        good = good;
        kept = kept;
      }

Kept-trans : (f g h : Framer) → Kept f g → Kept g h → Kept f h
Kept-trans f g h (_, l, b) (v, l', b') = (v, l' ∙ l, b' ∙ b)

pub AllGood-Kept :
    (f g : Framer) (frames : List Bytes)
    → Kept f g
    → AllGood f.limits f.max_buffered frames
    → AllGood g.limits g.max_buffered frames
AllGood-Kept f g frames (_, l, b) good = rw (l, b) good

-- One frame more in front of what a drain makes of the rest.
drain_takes :
    (fuel : ℕ) (f : Framer) (more frame : Bytes) (frames : List Bytes)
    → (pop_frame f).1 ≡ ok (some frame)
    → Kept f (pop_frame f).0
    → Drained (pop_frame f).0 more frames (drain fuel (pop_frame f).0)
    → Drained f more (frame ∷ frames) (drain (suc fuel) f)
unfolding drain
drain_takes fuel f more frame frames e (v, l, b) d =
    rw (e, drain)
      record {
        left = d.left;
        splits = ap (◌∷◌ frame) d.splits;
        no_failure = d.no_failure;
        rest = d.rest;
        waiting = d.waiting;
        good = subst₂ (λ limits bound. AllGood limits bound d.left) l b d.good;
        kept = Kept-trans f (pop_frame f).0 (drain fuel (pop_frame f).0).0 (v, l, b) d.kept;
      }

pub drain_lem :
    (fuel : ℕ) (f : Framer) (more : Bytes) (frames : List Bytes)
    → IsValid f
    → length (contents f) < fuel
    → contents f ++ more ≡ concat frames
    → AllGood f.limits f.max_buffered frames
    → Drained f more frames (drain fuel f)
drain_lem zero f more frames v h e good = absurd (omega arith)
drain_lem (suc fuel) f more [] v h e good =
    let (popped, empty, kept) =
      pop_empty_case f (pop_frame f).0 (pop_frame f).1 v (left-empty (contents f) more e)
        (pop_frame-PopCase f v) in
    drain_stops fuel f more [] good popped
      (ap (λ bs. bs ++ more) (empty ∙ sym (left-empty (contents f) more e)) ∙ e) empty kept
drain_lem (suc fuel) f more (frame ∷ frames) v h e (good, goods) =
    elim (Bool-cases (ltb (length (contents f)) (length frame))) [
      | inl less ↦
          let (popped, same, kept) =
            pop_frame_incomplete f more frame (concat frames) v e good.accepted good.fits
              (ground arith) in
          drain_stops fuel f more (frame ∷ frames) (good, goods) popped
            (ap (λ bs. bs ++ more) same ∙ e) (rw same (ground arith)) kept
      | inr enough ↦
          let long : length frame ≤ length (contents f) = ground arith in
          let (front, behind) = split_front (contents f) more frame (concat frames) e long in
          let (popped, rest, kept) =
            pop_frame_complete f frame (drop (length frame) (contents f)) v front good.accepted
              good.fits in
          drain_takes fuel f more frame frames (popped ∙ good.validated) kept (
            drain_lem fuel (pop_frame f).0 more frames kept.0
              (omega (
                arith,
                ap length rest,
                length-drop (length frame) (contents f),
                good.accepted.has_count,
              ))
              (ap (λ bs. bs ++ more) rest ∙ behind)
              (AllGood-Kept f (pop_frame f).0 frames kept goods))
    ]

pub push-ok :
    (f : Framer) (chunk : Bytes)
    → exceeds (f.used + length chunk) f.max_buffered ≡ false
    → (g : Framer) × (push f chunk ≡ ok g)
unfolding push
push-ok f chunk fits = elim (Result-cases (push f chunk)) [
  | inl r ↦ r
  | inr (error, e) ↦ absurd (ground arith)
]
