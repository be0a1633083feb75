-- ===== src/Wire/Framer/Complete.antt =====
-- `popFrame` at the front of a stream that begins with an accepted frame.
use capnp_deno.Base.{
  ℕ, ◌<◌, ◌≡◌, refl, sym, ap, ap₂, subst, ◌∙◌, false, Option, none, [], ◌++◌, Bytes, Result, ok,
  arith, length, take, drop, take-append_length, length-append, drop-append_length,
}
use capnp_deno.Wire.Errors.{ProtocolError}
use capnp_deno.Wire.FrameLimits.{LimitsOptions}
use capnp_deno.Wire.FrameLimits.Table.{Accepts}
use capnp_deno.Wire.Framer.{Bound, infinity, exceeds, Framer, consume, pop_frame, checked}
use capnp_deno.Wire.Framer.Header.{Header, Header-append}
use capnp_deno.Wire.Framer.Refine.{contents, IsValid, length-contents}
use capnp_deno.Wire.Framer.Update.{Missing, knowing, update-ne-err}
use capnp_deno.Wire.Framer.Consume.{
  consume-Consumed, Accepts-Header, IsValid-knowing, exceeds_infinity,
}
use capnp_deno.Wire.Framer.Pop.{PopCase, refused, waits, short, whole, pop_frame-PopCase}
use capnp_deno.Wire.Framer.Frames.{Kept}

-- A whole table at the front of the contents declares one total.
Header-unique :
    (limits : LimitsOptions) (bound : Bound) (bs more : Bytes) (m n : ℕ)
    → Header limits bound bs m
    → Header limits bound (bs ++ more) n
    → m ≡ n
Header-unique limits bound bs more m n h k =
    let long = Header-append limits bound bs more m h in omega (arith, long.declares, k.declares)

stream_Header :
    (limits : LimitsOptions) (bound : Bound) (frame rest bs : Bytes)
    → bs ≡ frame ++ rest
    → Accepts limits frame
    → exceeds (length frame) bound ≡ false
    → Header limits bound bs (length frame)
stream_Header limits bound frame rest bs e a fits = rw e (
    Header-append limits bound frame rest (length frame) (Accepts-Header limits bound frame a fits))

-- The table of an accepted frame is not missing from a front that holds the frame.
not-Missing :
    (limits : LimitsOptions) (frame rest bs : Bytes)
    → bs ≡ frame ++ rest
    → Accepts limits frame
    → ¬ Missing bs
not-Missing limits frame rest bs e a missing =
    let h = stream_Header limits infinity frame rest bs e a (exceeds_infinity (length frame)) in
    omega (arith, h.has_table, missing)

complete_case :
    (f g : Framer) (r : Result ProtocolError (Option Bytes)) (frame rest : Bytes)
    → IsValid f
    → contents f ≡ frame ++ rest
    → Accepts f.limits frame
    → exceeds (length frame) f.max_buffered ≡ false
    → PopCase f (g, r)
    → (r ≡ checked f.limits frame) × (contents g ≡ rest) × Kept f g
complete_case f g r frame rest v e a fits (refused error bad eq) =
    let h = stream_Header f.limits f.max_buffered frame rest (contents f) e a fits in
    absurd (
      update-ne-err f [] (length frame) error v
        (Header-append f.limits f.max_buffered (contents f) [] (length frame) h) bad)
complete_case f g r frame rest v e a fits (waits missing eq) =
    absurd (not-Missing f.limits frame rest (contents f) e a missing)
complete_case f g r frame rest v e a fits (short total h less eq) =
    let k = stream_Header f.limits f.max_buffered frame rest (contents f) e a fits in
    absurd (
      omega
        (arith, length-contents f v, h.declares, k.declares, ap length e, length-append frame rest))
complete_case f g r frame rest v e a fits (whole total h enough eq) =
    let k = stream_Header f.limits f.max_buffered frame rest (contents f) e a fits in
    let size : total ≡ length frame = omega (arith, h.declares, k.declares) in
    let front : take total (contents f) ≡ frame = ap₂ take size e ∙ take-append_length frame rest in
    let (left, valid, same_limits, same_bound) = consume-Consumed f total v enough in
    let moved : consume f total ≡ g = ap (λ r. r.0) (sym eq) in
    (
      ap (λ r. r.1) eq ∙ ap (checked f.limits) front,
      ap contents (sym moved) ∙ left ∙ ap₂ drop size e ∙ drop-append_length frame rest,
      subst (Kept f) moved (valid, same_limits, same_bound),
    )

-- When an accepted frame that fits the buffer limit stands at the front of the contents, `popFrame`
-- returns that frame, or what its validation throws, and leaves the bytes behind it.
pub pop_frame_complete :
    (f : Framer) (frame rest : Bytes)
    → IsValid f
    → contents f ≡ frame ++ rest
    → Accepts f.limits frame
    → exceeds (length frame) f.max_buffered ≡ false
    → ((pop_frame f).1 ≡ checked f.limits frame)
      × (contents (pop_frame f).0 ≡ rest)
      × Kept f (pop_frame f).0
pop_frame_complete f frame rest v e a fits =
    complete_case f (pop_frame f).0 (pop_frame f).1 frame rest v e a fits (pop_frame-PopCase f v)

incomplete_case :
    (f g : Framer) (r : Result ProtocolError (Option Bytes)) (more frame rest : Bytes)
    → IsValid f
    → contents f ++ more ≡ frame ++ rest
    → Accepts f.limits frame
    → exceeds (length frame) f.max_buffered ≡ false
    → length (contents f) < length frame
    → PopCase f (g, r)
    → (r ≡ ok none) × (contents g ≡ contents f) × Kept f g
incomplete_case f g r more frame rest v e a fits less (refused error bad eq) = absurd (
    update-ne-err f more (length frame) error v
      (stream_Header f.limits f.max_buffered frame rest (contents f ++ more) e a fits) bad)
incomplete_case f g r more frame rest v e a fits less (waits missing eq) =
    let same : f ≡ g = ap (λ r. r.0) (sym eq) in
    (ap (λ r. r.1) eq, ap contents (sym same), subst (Kept f) same (v, refl, refl))
incomplete_case f g r more frame rest v e a fits less (short total h under eq) =
    let same : knowing f total ≡ g = ap (λ r. r.0) (sym eq) in
    (
      ap (λ r. r.1) eq,
      ap contents (sym same),
      subst (Kept f) same (IsValid-knowing f total v h, refl, refl),
    )
incomplete_case f g r more frame rest v e a fits less (whole total h enough eq) =
    let k = stream_Header f.limits f.max_buffered frame rest (contents f ++ more) e a fits in
    absurd (
      omega (
        arith,
        length-contents f v,
        Header-unique f.limits f.max_buffered (contents f) more total (length frame) h k,
      ))

-- While only a part of an accepted frame has arrived, whatever part it is, `popFrame` returns null,
-- throws nothing and keeps the contents.
pub pop_frame_incomplete :
    (f : Framer) (more frame rest : Bytes)
    → IsValid f
    → contents f ++ more ≡ frame ++ rest
    → Accepts f.limits frame
    → exceeds (length frame) f.max_buffered ≡ false
    → length (contents f) < length frame
    → ((pop_frame f).1 ≡ ok none) × (contents (pop_frame f).0 ≡ contents f) × Kept f (pop_frame f).0
pop_frame_incomplete f more frame rest v e a fits less =
    incomplete_case f (pop_frame f).0 (pop_frame f).1 more frame rest v e a fits less
      (pop_frame-PopCase f v)
