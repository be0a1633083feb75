-- ===== src/Transport/OutboundQueue/Tests.antt =====
-- The outbound queue at two frames, of which the limit admits both.
use capnp_deno.Base.{◌≡◌, refl, some, [], ◌∷◌, ok}
use capnp_deno.Base.Int.{pos, ◌+ℤ◌}
use capnp_deno.Transport.OutboundQueue.{
  QueuedFrame, Queue, new_queue, enqueue, assert_capacity, dequeue, taken,
}
use capnp_deno.Transport.OutboundQueue.Accounting.{Reachable-IsAccounted}
use capnp_deno.Transport.OutboundQueue.Trace.{
  Trace, new_trace, enqueues, dequeues, starts, steps, IsAccounted,
}

abbrev ping : QueuedFrame
ping = record { frame = 1 ∷ 2 ∷ []; promise = 7 }

abbrev with_ping : Queue
with_ping = record (new_queue (some 2) (some 16)) { queue = ping ∷ []; queued_bytes = pos 2 }

abbrev waiting : Trace
waiting = record (new_trace (some 2) (some 16)) { queue = with_ping; accepted = ping ∷ [] }

enqueued : enqueue (new_queue (some 2) (some 16)) ping ≡ ok with_ping
unfolding enqueue assert_capacity ◌+ℤ◌
enqueued = refl

abbrev sending : Trace
sending = record waiting { queue = taken with_ping ping []; flight = ping ∷ []; gone = ping ∷ [] }

dequeued : dequeue with_ping ≡ (taken with_ping ping [], some ping)
unfolding dequeue
dequeued = refl

Reachable-IsAccounted_example : IsAccounted (some 2) (some 16) sending
Reachable-IsAccounted_example = Reachable-IsAccounted (some 2) (some 16) sending (
    steps waiting sending
      (steps (new_trace (some 2) (some 16)) waiting starts
        (enqueues (new_trace (some 2) (some 16)) ping with_ping enqueued))
      (dequeues waiting ping (taken with_ping ping []) dequeued))
