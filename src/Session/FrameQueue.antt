-- ===== src/Session/FrameQueue.antt =====
-- `HarnessFrameQueue` of rpc/session/harness_frame_queue.ts. A call of `next` makes a promise, a number
-- given out in order; the log holds the promises that are settled, the latest last. A timer that
-- runs out and a signal that is aborted later both call the waiter's `reject`.
pub mod Counts
pub mod Delivery
pub mod History
mod Tests
use capnp_deno.Base.{
  ℕ, ◌+◌, Bool, true, false, List, [], ◌∷◌, ◌++◌, Bytes, ◌==◌, ◌||◌, if◌then◌else◌,
}

-- The `SessionError`s that a wait may end with.
pub data WaitError : Type 0 where
  transport_is_closed : WaitError
  closed_with : ℕ → WaitError
  wait_aborted : WaitError
  wait_timed_out : WaitError

pub data Outcome : Type 0 where
  delivered : Bytes → Outcome
  failed : WaitError → Outcome

-- The private fields; a waiter is known by its promise.
pub record FrameQueue : Type 0 where
  pub frames : List Bytes
  pub waiters : List ℕ
  pub closed : Bool
  pub close_error : WaitError
  pub promises : ℕ
  pub log : List (ℕ × Outcome)

abbrev pub new_queue : FrameQueue
new_queue = record {
  frames = [];
  waiters = [];
  closed = false;
  close_error = transport_is_closed;
  promises = 0;
  log = [];
}

-- `waiter.settled`
unfoldable pub is_settled : ℕ → List (ℕ × Outcome) → Bool
is_settled promise [] = false
is_settled promise ((p, _) ∷ log) = promise == p || is_settled promise log

-- `#removeWaiter`
unfoldable pub remove_waiter : ℕ → List ℕ → List ℕ
remove_waiter promise [] = []
remove_waiter promise (w ∷ waiters) =
    let rest = remove_waiter promise waiters in if promise == w then waiters else w ∷ rest

-- A promise that settles where no waiter was made.
abbrev pub settled_at_once : Outcome → FrameQueue → FrameQueue
settled_at_once outcome q = record q {
  promises = q.promises + 1;
  log = q.log ++ (q.promises, outcome) ∷ [];
}

-- `waiter.resolve` and `waiter.reject`, which differ in the promise's callback only.
unfoldable pub settle_waiter : ℕ → Outcome → FrameQueue → FrameQueue
settle_waiter promise outcome q = if is_settled promise q.log then q else record q {
  waiters = remove_waiter promise q.waiters;
  log = q.log ++ (promise, outcome) ∷ [];
}

-- `enqueue`
unfoldable pub enqueue : Bytes → FrameQueue → FrameQueue
enqueue frame q = if q.closed then q else elim q.waiters [
  | [] ↦ record q { frames = q.frames ++ frame ∷ [] }
  | waiter ∷ rest ↦ settle_waiter waiter (delivered frame) (record q { waiters = rest })
]

-- The loop of `close`, over the waiters that were spliced out.
unfoldable pub reject_waiters : WaitError → List ℕ → FrameQueue → FrameQueue
reject_waiters error [] q = q
reject_waiters error (waiter ∷ rest) q =
    reject_waiters error rest (settle_waiter waiter (failed error) q)

-- `close`
unfoldable pub close : WaitError → FrameQueue → FrameQueue
close error q =
    if q.closed
    then q
    else reject_waiters error q.waiters
        (record q { waiters = []; closed = true; close_error = error })

-- `next`, with a signal that is aborted already or is not.
unfoldable pub next : Bool → FrameQueue → FrameQueue
next aborted q = elim q.frames [
  | frame ∷ rest ↦ settled_at_once (delivered frame) (record q { frames = rest })
  | [] ↦
      if q.closed
      then settled_at_once (failed q.close_error) q
      else if aborted
      then settled_at_once (failed wait_aborted) q
      else record q { waiters = q.waiters ++ q.promises ∷ []; promises = q.promises + 1 }
]
