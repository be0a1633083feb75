-- ===== src/Wire/Framer.antt =====
-- rpc/wire/framer.ts: `CapnpFrameFramer`, which cuts a byte stream into frames.
pub mod Header
pub mod Refine
pub mod Update
pub mod Consume
pub mod Pop
pub mod Frames
pub mod Complete
pub mod Stream
pub mod Reassembly
mod Tests
use capnp_deno.Base.{
  ℕ, zero, suc, ◌+◌, ◌-◌, ◌*◌, ◌^◌, Bool, true, false, Option, none, some, List, [], ◌∷◌, ◌++◌,
  Bytes, Result, ok, err, ◌>>=◌, ◌>>◌, throw_if, ltb, ◌==◌, if◌then◌else◌, or_else, length, take,
  replicate, min, max, get_uint32, set_bytes, subarray,
}
use capnp_deno.Wire.Errors.{
  ProtocolError, segment_count_exceeded, invalid_segment_count, traversal_words_exceeded,
  frame_size_exceeded, buffer_size_exceeded, invalid_buffer_limit,
}
use capnp_deno.Wire.FrameLimits.{
  LimitsOptions, segment_limit, frame_limit, traversal_limit, default_max_frame_bytes,
  declared_count, header_bytes, word_counts, sum, total_bytes,
}
use capnp_deno.Wire.FrameLimits.Walk.{validate}

-- A limit on the buffer: a number of bytes, or `Infinity`.
pub data Bound : Type 0 where
  finite : ℕ → Bound
  infinity : Bound

-- `n > bound`
pub exceeds : ℕ → Bound → Bool
exceeds n (finite m) = ltb m n
exceeds n infinity = false

-- `Math.min(bound, n)`
pub at_most : Bound → ℕ → ℕ
at_most (finite m) n = min m n
at_most infinity n = n

-- `CapnpFrameFramerOptions`
pub record FramerOptions : Type 0 where
  pub limits : LimitsOptions
  pub max_buffered_bytes : Option Bound

-- The private fields. `buffer` is the whole allocation, of which `length` bytes are in use.
pub record Framer : Type 0 where
  pub limits : LimitsOptions
  pub max_buffered : Bound
  pub buffer : Bytes
  pub used : ℕ
  pub expected_total : Option ℕ

abbrev pub max_safe_integer : ℕ
max_safe_integer = 2 ^ 53 - 1

-- The fields as they are declared, under the given limits.
abbrev pub fresh : LimitsOptions → Bound → Framer
fresh limits bound = record {
  limits = limits;
  max_buffered = bound;
  buffer = [];
  used = 0;
  expected_total = none;
}

-- `options.maxBufferedBytes ?? Math.max(...)`
abbrev pub buffer_bound : FramerOptions → Bound
buffer_bound options = or_else options.max_buffered_bytes (
    finite (
      max default_max_frame_bytes (or_else options.limits.max_frame_bytes default_max_frame_bytes)))

-- A number that is no safe integer.
abbrev pub unsafe_bound : Bound → Bool
unsafe_bound (finite n) = ltb max_safe_integer n
unsafe_bound infinity = false

-- The constructor.
pub new_framer : FramerOptions → Result ProtocolError Framer
new_framer options = do
  throw_if (unsafe_bound (buffer_bound options)) invalid_buffer_limit
  ok (fresh options.limits (buffer_bound options))

-- The new allocation of `push`: zeros, with the bytes in use copied to its front.
pub grow : Framer → ℕ → Bytes
grow f needed =
    set_bytes (replicate (at_most f.max_buffered (max needed (length f.buffer * 2))) 0) 0
      (take f.used f.buffer)

-- `push`
pub push : Framer → Bytes → Result ProtocolError Framer
push f chunk =
    if length chunk == 0
    then ok f
    else (throw_if (exceeds (f.used + length chunk) f.max_buffered) buffer_size_exceeded
        >> (let needed = f.used + length chunk in
            let room = if ltb (length f.buffer) needed then grow f needed else f.buffer in
            ok (record f { buffer = set_bytes room f.used chunk; used = needed })))

-- `bufferedBytes`
abbrev pub buffered_bytes : Framer → ℕ
buffered_bytes f = f.used

-- The bytes that a `DataView` of `updateExpectedTotal` covers.
abbrev pub view : Framer → Bytes
view f = take f.used f.buffer

-- The rest of `updateExpectedTotal`, once the whole segment table is there.
pub sum_table : Framer → ℕ → Result ProtocolError Framer
sum_table f segment_count = do
  let words = word_counts (view f) 0 segment_count
  throw_if (ltb (traversal_limit f.limits) (sum words)) traversal_words_exceeded
  let total = total_bytes segment_count words
  throw_if (ltb (frame_limit f.limits) total) frame_size_exceeded
  throw_if (exceeds total f.max_buffered) buffer_size_exceeded
  ok (record f { expected_total = some total })

-- `updateExpectedTotal` when no total is known. What it throws leaves the framer as it was.
pub read_table : Framer → Result ProtocolError Framer
read_table f =
    if ltb f.used 4
    then ok f
    else (throw_if (ltb (declared_count (view f)) 1) invalid_segment_count
        >> (throw_if (ltb (segment_limit f.limits) (declared_count (view f))) segment_count_exceeded
            >> (if ltb f.used (header_bytes (declared_count (view f)))
                then ok f
                else sum_table f (declared_count (view f)))))

-- `updateExpectedTotal`
pub update_expected_total : Framer → Result ProtocolError Framer
update_expected_total f = elim f.expected_total [ some total ↦ ok f | none ↦ read_table f ]

-- The framer once `total` bytes are taken off its front.
pub consume : Framer → ℕ → Framer
consume f total = record f {
  buffer =
      if f.used - total == 0 then [] else set_bytes f.buffer 0 (subarray f.buffer total f.used);
  used = f.used - total;
  expected_total = none;
}

-- The validation of a frame, which runs only when a nesting limit is set.
pub checked : LimitsOptions → Bytes → Result ProtocolError (Option Bytes)
checked limits frame = elim limits.max_nesting_depth [
  | none ↦ ok (some frame)
  | some _ ↦ validate frame limits >> ok (some frame)
]

-- The rest of `popFrame`, when the total is known or not.
pub take_frame : Framer → Option ℕ → Framer × Result ProtocolError (Option Bytes)
take_frame f none = (f, ok none)
take_frame f (some total) =
    if ltb f.used total
    then (f, ok none)
    else (consume f total, checked f.limits (take total f.buffer))

-- `popFrame`. The frame has left the framer when its validation fails.
pub pop_frame : Framer → Framer × Result ProtocolError (Option Bytes)
pop_frame f = elim (update_expected_total f) [
  | err e ↦ (f, err e)
  | ok g ↦ take_frame g g.expected_total
]

-- The inner loop of `TcpTransport.readLoop` (rpc/transports/tcp.ts): frames are taken and handed on
-- until there is none, or until `popFrame` throws. The frames that were handed on come back, and
-- what was thrown. Each frame has at least a byte, so the bytes at hand are enough fuel.
pub drain : ℕ → Framer → Framer × List Bytes × Option ProtocolError
drain zero f = (f, [], none)
drain (suc fuel) f =
    let (g, popped) = pop_frame f in
    elim popped [
      | err e ↦ (g, [], some e)
      | ok none ↦ (g, [], none)
      | ok (some frame) ↦ let (h, frames, failure) = drain fuel g in (h, frame ∷ frames, failure)
    ]

-- The outer loop, over the chunks that the connection reads.
pub read_loop : Framer → List Bytes → Framer × List Bytes × Option ProtocolError
read_loop f [] = (f, [], none)
read_loop f (chunk ∷ chunks) = elim (push f chunk) [
  | err e ↦ (f, [], some e)
  | ok g ↦
      let (h, frames, failure) = drain (suc g.used) g in
      elim failure [
        | some e ↦ (h, frames, some e)
        | none ↦ let (last, more, outcome) = read_loop h chunks in (last, frames ++ more, outcome)
      ]
]
