-- ===== src/Wire/Framer/Reassembly.antt =====
-- The read loop of a transport gives back the frames that were sent, however the bytes were cut.
use capnp_deno.Base.{
  suc, ◌+◌, ◌≤◌, ◌≡◌, refl, sym, ap, subst, ◌∙◌, false, Option, none, List, [], ◌∷◌, ◌++◌, Bytes,
  ok, throw_if, arith, length, concat, length-append, ok-injective, append_assoc, >>=-eq-ok,
}
use capnp_deno.Wire.Errors.{ProtocolError, invalid_buffer_limit}
use capnp_deno.Wire.FrameLimits.{LimitsOptions}
use capnp_deno.Wire.Framer.{
  Bound, finite, infinity, exceeds, FramerOptions, Framer, fresh, buffer_bound, unsafe_bound,
  new_framer, push, drain, read_loop,
}
use capnp_deno.Wire.Framer.Refine.{contents, IsValid, length-contents, push_refines}
use capnp_deno.Wire.Framer.Consume.{exceeds_mono}
use capnp_deno.Wire.Framer.Stream.{AllGood, AllGood-Kept, Partial, Drained, drain_lem, push-ok}

concat-append : (xs ys : List Bytes) → concat (xs ++ ys) ≡ concat xs ++ concat ys
concat-append [] ys = refl
concat-append (x ∷ xs) ys =
    ap (◌++◌ x) (concat-append xs ys) ∙ sym (append_assoc x (concat xs) (concat ys))

-- What the loop is to give: the frames in order, no failure, and nothing left over.
abbrev pub Reassembles : List Bytes → Framer × List Bytes × Option ProtocolError → Type 0
Reassembles frames r = (r.1 ≡ frames) × (r.2 ≡ none) × (contents r.0 ≡ [])

nothing_left :
    (f : Framer) (frames : List Bytes)
    → Partial (contents f) frames
    → contents f ++ [] ≡ concat frames
    → Reassembles frames (f, [], none)
nothing_left f [] p e = (refl, refl, p)
nothing_left f (frame ∷ frames) p e =
    absurd (
      omega
        (arith, ap length e, length-append (contents f) [], length-append frame (concat frames)))

read_loop_ends :
    (f : Framer) (frames : List Bytes)
    → Reassembles frames (f, [], none)
    → Reassembles frames (read_loop f [])
unfolding read_loop
read_loop_ends f frames r = r

read_loop_step :
    (f g : Framer) (chunk : Bytes) (chunks frames : List Bytes)
    → push f chunk ≡ ok g
    → (d : Drained g (concat chunks) frames (drain (suc g.used) g))
    → Reassembles d.left (read_loop (drain (suc g.used) g).0 chunks)
    → Reassembles frames (read_loop f (chunk ∷ chunks))
unfolding read_loop
read_loop_step f g chunk chunks frames pushed d (more, fine, done) =
    rw (pushed, read_loop)
      (rw (d.no_failure, read_loop)
        (ap (◌++◌ (drain (suc g.used) g).1) more ∙ sym d.splits, fine, done))

read_loop_lem :
    (f : Framer) (chunks frames : List Bytes)
    → IsValid f
    → Partial (contents f) frames
    → contents f ++ concat chunks ≡ concat frames
    → AllGood f.limits f.max_buffered frames
    → exceeds (length (concat frames)) f.max_buffered ≡ false
    → Reassembles frames (read_loop f chunks)
read_loop_lem f [] frames v p e good fits = read_loop_ends f frames (nothing_left f frames p e)
read_loop_lem f (chunk ∷ chunks) frames v p e good fits =
    let size : f.used + length chunk ≤ length (concat frames) = omega (
      arith,
      length-contents f v,
      ap length e,
      length-append (contents f) (chunk ++ concat chunks),
      length-append chunk (concat chunks),
    ) in
    let (g, pushed) = push-ok f chunk (exceeds_mono f.max_buffered _ _ size fits) in
    let (appended, valid, limits, bound) = push_refines f g chunk v pushed in
    let stream : contents g ++ concat chunks ≡ concat frames =
      ap (λ bs. bs ++ concat chunks) appended
      ∙ append_assoc (contents f) chunk (concat chunks)
      ∙ e in
    let d : Drained g (concat chunks) frames (drain (suc g.used) g) =
      drain_lem (suc g.used) g (concat chunks) frames valid (omega (arith, length-contents g valid))
        stream (AllGood-Kept f g frames (valid, limits, bound) good) in
    let h = (drain (suc g.used) g).0 in
    let smaller : length (concat d.left) ≤ length (concat frames) = omega (
      arith,
      ap length (ap concat d.splits ∙ concat-append (drain (suc g.used) g).1 d.left),
      length-append (concat (drain (suc g.used) g).1) (concat d.left),
    ) in
    read_loop_step f g chunk chunks frames pushed d (
      read_loop_lem h chunks d.left d.kept.0 d.waiting d.rest
        (AllGood-Kept g h d.left d.kept d.good)
        (exceeds_mono h.max_buffered _ _ smaller (rw (d.kept.2, bound) fits)))

exceeds_zero : (bound : Bound) → exceeds 0 bound ≡ false
unfolding exceeds
exceeds_zero (finite n) = ground arith
exceeds_zero infinity = refl

fresh-IsValid : (limits : LimitsOptions) (bound : Bound) → IsValid (fresh limits bound)
fresh-IsValid limits bound = record {
  in_buffer = omega arith;
  within = exceeds_zero bound;
  known = tt;
}

new_framer-IsValid :
    (options : FramerOptions) (f : Framer)
    → new_framer options ≡ ok f
    → IsValid f × (contents f ≡ [])
unfolding new_framer
new_framer-IsValid options f e =
    let (_, _, made) =
      >>=-eq-ok (throw_if (unsafe_bound (buffer_bound options)) invalid_buffer_limit) _ e in
    subst (λ g. IsValid g × (contents g ≡ [])) (ok-injective made)
      (fresh-IsValid options.limits (buffer_bound options), refl)

starts-Partial :
    (limits : LimitsOptions) (bound : Bound) (bs : Bytes) (frames : List Bytes)
    → bs ≡ []
    → AllGood limits bound frames
    → Partial bs frames
starts-Partial limits bound bs [] e good = e
starts-Partial limits bound bs (frame ∷ frames) e (good, goods) =
    omega (arith, ap length e, good.accepted.has_count)

-- A fresh framer whose limits let every frame of a stream pass, and whose buffer limit the stream
-- does not exceed, hands on exactly the frames of the stream, in order, throws nothing and keeps no
-- byte, wherever the stream is cut into chunks.
pub read_loop-Reassembles :
    (options : FramerOptions) (f : Framer) (chunks frames : List Bytes)
    → new_framer options ≡ ok f
    → concat chunks ≡ concat frames
    → AllGood f.limits f.max_buffered frames
    → exceeds (length (concat frames)) f.max_buffered ≡ false
    → Reassembles frames (read_loop f chunks)
read_loop-Reassembles options f chunks frames made e good fits =
    let (valid, empty) = new_framer-IsValid options f made in
    read_loop_lem f chunks frames valid
      (starts-Partial f.limits f.max_buffered (contents f) frames empty good)
      (ap (λ bs. bs ++ concat chunks) empty ∙ e) good fits
