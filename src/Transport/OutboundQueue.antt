-- ===== src/Transport/OutboundQueue.antt =====
-- `OutboundFrameQueue` of rpc/transports/internal/transport_internal.ts. A transport's `drain` dequeues a
-- frame, sends it and settles it; `enqueue` is called by its `send`. A counter that falls below
-- zero is an integer.
pub mod Trace
pub mod Accounting
mod Tests
use capnp_deno.Base.{
  ℕ, ◌+◌, Bool, false, Option, none, some, List, [], ◌∷◌, ◌++◌, Bytes, Result, ok, err, ◌>>=◌, ◌>>◌,
  throw_if, length, ltb,
}
use capnp_deno.Base.Int.{ℤ, pos, ◌+ℤ◌, ◌-ℤ◌, ltb_ℤ}

-- `QueuedOutboundFrame`: the frame, and which promise its two callbacks settle.
pub record QueuedFrame : Type 0 where
  pub frame : Bytes
  pub promise : ℕ

-- The fields of the class, and the options that `assertCapacity` reads.
pub record Queue : Type 0 where
  pub max_frames : Option ℕ
  pub max_bytes : Option ℕ
  pub queue : List QueuedFrame
  pub queued_bytes : ℤ
  pub inflight_frames : ℤ
  pub inflight_bytes : ℤ

abbrev pub new_queue : Option ℕ → Option ℕ → Queue
new_queue max_frames max_bytes = record {
  max_frames = max_frames;
  max_bytes = max_bytes;
  queue = [];
  queued_bytes = pos 0;
  inflight_frames = pos 0;
  inflight_bytes = pos 0;
}

pub data QueueError : Type 0 where
  frame_limit_exceeded : QueueError
  byte_limit_exceeded : QueueError

-- A limit that may be left out, against what would be used.
abbrev pub over : Option ℕ → ℤ → Bool
over none used = false
over (some limit) used = ltb_ℤ (pos limit) used

-- `assertCapacity`
unfoldable pub assert_capacity : Queue → ℕ → Result QueueError (Unit {0})
assert_capacity q frame_bytes = do
  throw_if (over q.max_frames (q.inflight_frames +ℤ pos (length q.queue) +ℤ pos 1))
      frame_limit_exceeded
  throw_if (over q.max_bytes (q.inflight_bytes +ℤ q.queued_bytes +ℤ pos frame_bytes))
      byte_limit_exceeded

-- `enqueue`
unfoldable pub enqueue : Queue → QueuedFrame → Result QueueError Queue
enqueue q frame = do
  assert_capacity q (length frame.frame)
  ok (record q {
    queue = q.queue ++ frame ∷ [];
    queued_bytes = q.queued_bytes +ℤ pos (length frame.frame);
  })

-- The queue once its first frame is taken by `dequeue`.
abbrev pub taken : Queue → QueuedFrame → List QueuedFrame → Queue
taken q next rest = record q {
  queue = rest;
  queued_bytes = q.queued_bytes -ℤ pos (length next.frame);
  inflight_frames = q.inflight_frames +ℤ pos 1;
  inflight_bytes = q.inflight_bytes +ℤ pos (length next.frame);
}

-- `dequeue`
unfoldable pub dequeue : Queue → Queue × Option QueuedFrame
dequeue q = elim q.queue [ [] ↦ (q, none) | next ∷ rest ↦ (taken q next rest, some next) ]

-- `settle`
unfoldable pub settle : Queue → ℕ → Queue
settle q frame_bytes = record q {
  inflight_frames = q.inflight_frames -ℤ pos 1;
  inflight_bytes = q.inflight_bytes -ℤ pos frame_bytes;
}

-- The loop of `rejectQueued`: the bytes that are left, and the frames rejected, in their order.
unfoldable pub reject_all : ℤ → List QueuedFrame → ℤ × List QueuedFrame
reject_all bytes [] = (bytes, [])
reject_all bytes (next ∷ rest) =
    let (left, rejected) = reject_all (bytes -ℤ pos (length next.frame)) rest in
    (left, next ∷ rejected)

-- `rejectQueued`
unfoldable pub reject_queued : Queue → Queue × List QueuedFrame
reject_queued q =
    let (left, rejected) = reject_all q.queued_bytes q.queue in
    (record q { queue = []; queued_bytes = left }, rejected)
