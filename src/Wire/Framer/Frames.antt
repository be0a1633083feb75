-- ===== src/Wire/Framer/Frames.antt =====
-- What `popFrame` returns, for the bytes that the framer holds.
use capnp_deno.Base.{
  ◌≡◌, sym, ap, ap₂, subst, ◌∙◌, some, ◌++◌, Bytes, ok, arith, take, take-append-drop,
}
use capnp_deno.Wire.FrameLimits.Table.{Accepts}
use capnp_deno.Wire.Framer.{Framer, consume, pop_frame}
use capnp_deno.Wire.Framer.Refine.{contents, IsValid, length-contents}
use capnp_deno.Wire.Framer.Consume.{consume-Consumed, Header-Accepts}
use capnp_deno.Wire.Framer.Pop.{
  PopCase, refused, waits, short, whole, pop_frame-PopCase, checked-some,
}

-- What stays when `popFrame` returns.
abbrev pub Kept : Framer → Framer → Type 0
Kept f g = IsValid g × (g.limits ≡ f.limits) × (g.max_buffered ≡ f.max_buffered)

pop_some_case :
    (f g : Framer) (frame : Bytes)
    → IsValid f
    → PopCase f (g, ok (some frame))
    → (contents f ≡ frame ++ contents g) × Accepts f.limits frame × Kept f g
pop_some_case f g frame v (refused error bad e) = cc
pop_some_case f g frame v (waits missing e) = cc
pop_some_case f g frame v (short total h less e) = cc
pop_some_case f g frame v (whole total h fits e) =
    let popped : frame ≡ take total (contents f) =
      checked-some f.limits (take total (contents f)) frame (ap (λ r. r.1) (sym e)) in
    let (rest, valid, same_limits, same_bound) = consume-Consumed f total v fits in
    let moved : consume f total ≡ g = ap (λ r. r.0) (sym e) in
    subst (λ h. (contents f ≡ frame ++ contents h) × Accepts f.limits frame × Kept f h) moved
      (
        sym (take-append-drop total (contents f)) ∙ ap₂ ◌++◌ (sym popped) (sym rest),
        rw popped (
            Header-Accepts f.limits f.max_buffered (contents f) total h
              (omega (arith, length-contents f v))),
        (valid, same_limits, same_bound),
      )

-- A frame that `popFrame` returns is accepted by `parseFrame` under the same limits; it and the new
-- contents are the old contents, and the framer stays valid under the same limits.
pub pop_frame-some :
    (f g : Framer) (frame : Bytes)
    → IsValid f
    → pop_frame f ≡ (g, ok (some frame))
    → (contents f ≡ frame ++ contents g) × Accepts f.limits frame × Kept f g
pop_frame-some f g frame v e =
    pop_some_case f g frame v (subst (PopCase f) e (pop_frame-PopCase f v))
