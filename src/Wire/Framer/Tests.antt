-- ===== src/Wire/Framer/Tests.antt =====
-- The theorems on rpc/wire/framer.ts at two frames that arrive in three chunks.
use capnp_deno.Base.{
  ◌≡◌, refl, false, none, some, List, [], ◌∷◌, ◌++◌, Bytes, ok, arith, length, take, drop, concat,
  set_bytes,
}
use capnp_deno.Wire.FrameLimits.Table.{Accepts, parsed, parse_frame-Accepts}
use capnp_deno.Wire.FrameLimits.Tests.{null_frame, nested_frame, depth_limit, validation}
use capnp_deno.Wire.Framer.{
  finite, exceeds, FramerOptions, Framer, fresh, new_framer, push, grow, pop_frame, take_frame,
  update_expected_total, read_table, sum_table, consume, checked, drain, read_loop, at_most,
}
use capnp_deno.Wire.Framer.Refine.{contents, IsValid, push_refines}
use capnp_deno.Wire.Framer.Frames.{Kept, pop_frame-some}
use capnp_deno.Wire.Framer.Complete.{pop_frame_complete, pop_frame_incomplete}
use capnp_deno.Wire.Framer.Stream.{AllGood}
use capnp_deno.Wire.Framer.Reassembly.{Reassembles, read_loop-Reassembles}

abbrev options : FramerOptions
options = record { limits = depth_limit 2; max_buffered_bytes = some (finite 100) }

abbrev empty_framer : Framer
empty_framer = fresh (depth_limit 2) (finite 100)

made : new_framer options ≡ ok empty_framer
unfolding new_framer
made = refl

-- The two frames, cut in the middle of the first table and of the second body.
abbrev chunks : List Bytes
chunks = take 6 null_frame ∷ (drop 6 null_frame ++ take 13 nested_frame) ∷ drop 13 nested_frame ∷ []

abbrev frames : List Bytes
frames = null_frame ∷ nested_frame ∷ []

abbrev loaded : Framer
loaded = record {
  limits = depth_limit 2;
  max_buffered = finite 100;
  buffer = null_frame ++ (1 ∷ 2 ∷ 3 ∷ []);
  used = 18;
  expected_total = none;
}

opened : Unit {0}
unfolding validation new_framer push grow at_most exceeds set_bytes pop_frame take_frame
    update_expected_total read_table sum_table consume checked drain read_loop
opened = tt

loop_runs : (read_loop empty_framer chunks).1 ≡ frames
unfolding opened
loop_runs = refl

null-Accepts : Accepts (depth_limit 2) null_frame
unfolding validation
null-Accepts = (parse_frame-Accepts null_frame (depth_limit 2) (parsed null_frame) refl).0

nested-Accepts : Accepts (depth_limit 2) nested_frame
unfolding validation
nested-Accepts = (parse_frame-Accepts nested_frame (depth_limit 2) (parsed nested_frame) refl).0

frames-AllGood : AllGood (depth_limit 2) (finite 100) frames
unfolding opened
frames-AllGood = (
  record { accepted = null-Accepts; validated = refl; fits = refl },
  (record { accepted = nested-Accepts; validated = refl; fits = refl }, tt),
)

loaded-IsValid : IsValid loaded
unfolding exceeds
loaded-IsValid = record { in_buffer = omega arith; within = refl; known = tt }

fits_example : exceeds 16 (finite 100) ≡ false
unfolding exceeds
fits_example = refl

stream_fits : exceeds (length (concat frames)) (finite 100) ≡ false
unfolding exceeds
stream_fits = refl

read_loop-Reassembles_example : Reassembles frames (read_loop empty_framer chunks)
read_loop-Reassembles_example =
    read_loop-Reassembles options empty_framer chunks frames made refl frames-AllGood stream_fits

pushed : Framer
unfolding set_bytes
pushed = record loaded { buffer = set_bytes loaded.buffer 18 (9 ∷ []); used = 19 }

pushed_lem : push loaded (9 ∷ []) ≡ ok pushed
unfolding opened pushed
pushed_lem = refl

push_refines_example :
    (contents pushed ≡ contents loaded ++ (9 ∷ []))
    × IsValid pushed
    × (pushed.limits ≡ depth_limit 2)
    × (pushed.max_buffered ≡ finite 100)
push_refines_example = push_refines loaded pushed (9 ∷ []) loaded-IsValid pushed_lem

popped : Framer
unfolding opened
popped = consume loaded 16

popped_lem : pop_frame loaded ≡ (popped, ok (some null_frame))
unfolding opened popped
popped_lem = refl

pop_frame-some_example :
    (contents loaded ≡ null_frame ++ contents popped)
    × Accepts (depth_limit 2) null_frame
    × Kept loaded popped
pop_frame-some_example = pop_frame-some loaded popped null_frame loaded-IsValid popped_lem

pop_frame_complete_example :
    ((pop_frame loaded).1 ≡ checked (depth_limit 2) null_frame)
    × (contents (pop_frame loaded).0 ≡ 1 ∷ 2 ∷ [])
    × Kept loaded (pop_frame loaded).0
pop_frame_complete_example =
    pop_frame_complete loaded null_frame (1 ∷ 2 ∷ []) loaded-IsValid refl null-Accepts fits_example

abbrev started : Framer
started = record loaded { used = 6 }

started-IsValid : IsValid started
unfolding exceeds
started-IsValid = record { in_buffer = omega arith; within = refl; known = tt }

pop_frame_incomplete_example :
    ((pop_frame started).1 ≡ ok none)
    × (contents (pop_frame started).0 ≡ take 6 null_frame)
    × Kept started (pop_frame started).0
pop_frame_incomplete_example =
    pop_frame_incomplete started (drop 6 null_frame) null_frame [] started-IsValid refl null-Accepts
      fits_example (omega arith)
