-- ===== src/Session/FrameQueue/Tests.antt =====
-- The frame queue with a frame that came early, a frame for a waiter, and a waiter at the close.
use capnp_deno.Base.{◌≡◌, refl, true, false, [], ◌∷◌, Bytes, arith}
use capnp_deno.Session.FrameQueue.{
  closed_with, failed, delivered, FrameQueue, new_queue, is_settled, enqueue, next, close,
  settle_waiter, remove_waiter, reject_waiters,
}
use capnp_deno.Session.FrameQueue.Delivery.{IsConsistent}
use capnp_deno.Session.FrameQueue.History.{
  Reachable, starts, enqueues, nexts, closes, Reachable-IsConsistent, closed_settles,
}

abbrev early : Bytes
early = 1 ∷ 2 ∷ []

abbrev late : Bytes
late = 3 ∷ []

-- Promise 0 takes the early frame, promise 1 the late one, and promise 2 fails.
abbrev after_events : FrameQueue
after_events =
    close (closed_with 9)
      (next false (enqueue late (next false (next false (enqueue early new_queue)))))

history : Reachable (early ∷ late ∷ []) after_events
unfolding enqueue next settle_waiter is_settled remove_waiter
history =
    closes (early ∷ late ∷ [])
      (next false (enqueue late (next false (next false (enqueue early new_queue)))))
      (closed_with 9)
      (nexts (early ∷ late ∷ []) (enqueue late (next false (next false (enqueue early new_queue))))
        false
        (enqueues (early ∷ []) (next false (next false (enqueue early new_queue))) late (
          nexts (early ∷ []) (next false (enqueue early new_queue)) false (
            nexts (early ∷ []) (enqueue early new_queue) false
              (enqueues [] new_queue early starts)))))

logged :
    after_events.log ≡ (0, delivered early) ∷ (1, delivered late) ∷ (2, failed (closed_with 9)) ∷ []
unfolding enqueue next close reject_waiters settle_waiter is_settled remove_waiter
logged = refl

Reachable-IsConsistent_example : IsConsistent (early ∷ late ∷ []) after_events
Reachable-IsConsistent_example = Reachable-IsConsistent (early ∷ late ∷ []) after_events history

is_over : after_events.closed ≡ true
unfolding enqueue next close reject_waiters settle_waiter is_settled remove_waiter
is_over = refl

closed_settles_example : is_settled 2 after_events.log ≡ true
unfolding enqueue next close reject_waiters settle_waiter is_settled remove_waiter
closed_settles_example =
    closed_settles (early ∷ late ∷ []) after_events 2 history is_over (omega arith)
