-- ===== src/Session/FrameQueue/History.antt =====
-- The frame queue in every history of its calls and events.
use capnp_deno.Base.{
  count, count-append, ℕ, ◌+◌, ◌<◌, ◌≡◌, refl, sym, ap, subst, ◌∙◌, inl, inr, Bool, true, false,
  List, [], ◌∷◌, ◌++◌, Bytes, arith, if◌then◌else◌, Bool-cases, append_assoc,
}
use capnp_deno.Session.FrameQueue.{
  WaitError, wait_aborted, delivered, failed, FrameQueue, new_queue, is_settled, settled_at_once,
  settle_waiter, enqueue, close, next,
}
use capnp_deno.Session.FrameQueue.Counts.{
  frames_of, count_settled, frames_of-append, settled_counts,
}
use capnp_deno.Session.FrameQueue.Delivery.{
  IsConsistent, no_frame, close-IsConsistent, fail-IsConsistent, enqueue-IsConsistent,
  settled_at_once-OneEach,
}

-- A queue that gives a promise an outcome at once, when it has no frame to give.
failed_at_once :
    (accepted : List Bytes) (error : WaitError) (q : FrameQueue)
    → IsConsistent accepted q
    → IsConsistent accepted (settled_at_once (failed error) q)
failed_at_once accepted error q v = record {
  in_order = ap (λ fs. fs ++ q.frames) (no_frame q.log q.promises error) ∙ v.in_order;
  one_side = v.one_side;
  nobody_waits = v.nobody_waits;
  one_each = settled_at_once-OneEach (failed error) q v.one_each;
}

first_frame :
    (accepted : List Bytes) (frame : Bytes) (rest : List Bytes) (q : FrameQueue)
    → q.frames ≡ frame ∷ rest
    → IsConsistent accepted q
    → IsConsistent accepted (settled_at_once (delivered frame) (record q { frames = rest }))
unfolding frames_of
first_frame accepted frame rest q is v =
    let none : q.waiters ≡ [] = elim v.one_side [ inl e ↦ cc | inr e ↦ e ] in
    record {
      in_order =
          ap (λ fs. fs ++ rest) (frames_of-append q.log ((q.promises, delivered frame) ∷ []))
          ∙ append_assoc (frames_of q.log) (frame ∷ []) rest
          ∙ ap (λ fs. frames_of q.log ++ fs) (sym is)
          ∙ v.in_order;
      one_side = inr none;
      nobody_waits = inr none;
      one_each = settled_at_once-OneEach (delivered frame) (record q { frames = rest }) v.one_each;
    }

new_waiter :
    (accepted : List Bytes) (q : FrameQueue)
    → q.frames ≡ []
    → q.closed ≡ false
    → IsConsistent accepted q
    → IsConsistent accepted
        (record q { waiters = q.waiters ++ q.promises ∷ []; promises = q.promises + 1 })
unfolding count
new_waiter accepted q none going v = record {
  in_order = v.in_order;
  one_side = inl none;
  nobody_waits = inl going;
  one_each = λ p. ground (arith, v.one_each p, count-append p q.waiters (q.promises ∷ []));
}

next-IsConsistent :
    (accepted : List Bytes) (aborted : Bool) (q : FrameQueue)
    → IsConsistent accepted q
    → IsConsistent accepted (next aborted q)
unfolding next
next-IsConsistent accepted aborted q v = from_frames q.frames refl
  where
    from_frames : (fs : List Bytes) → q.frames ≡ fs → IsConsistent accepted (next aborted q)
    from_frames (frame ∷ rest) is =
        let same : next aborted q ≡ settled_at_once (delivered frame) (record q { frames = rest }) =
          cc in
        subst (IsConsistent accepted) (sym same) (first_frame accepted frame rest q is v)
    from_frames [] is = elim (Bool-cases q.closed) [
      | inl over ↦
          let same : next aborted q ≡ settled_at_once (failed q.close_error) q = cc in
          subst (IsConsistent accepted) (sym same) (failed_at_once accepted q.close_error q v)
      | inr going ↦ elim (Bool-cases aborted) [
        | inl ended ↦
            let same : next aborted q ≡ settled_at_once (failed wait_aborted) q = cc in
            subst (IsConsistent accepted) (sym same) (failed_at_once accepted wait_aborted q v)
        | inr live ↦
            let same : next aborted q
                ≡ record q { waiters = q.waiters ++ q.promises ∷ []; promises = q.promises + 1 } =
              cc in
            subst (IsConsistent accepted) (sym same) (new_waiter accepted q is going v)
      ]
    ]

-- What the queue may go through, with the frames that came while it was open.
pub data Reachable : List Bytes → FrameQueue → Type 0 where
  starts : Reachable [] new_queue
  enqueues :
      (accepted : List Bytes) (q : FrameQueue) (frame : Bytes)
      → Reachable accepted q
      → Reachable (if q.closed then accepted else accepted ++ frame ∷ []) (enqueue frame q)
  closes :
      (accepted : List Bytes) (q : FrameQueue) (error : WaitError)
      → Reachable accepted q
      → Reachable accepted (close error q)
  nexts :
      (accepted : List Bytes) (q : FrameQueue) (aborted : Bool)
      → Reachable accepted q
      → Reachable accepted (next aborted q)
  fails :
      (accepted : List Bytes) (q : FrameQueue) (p : ℕ) (error : WaitError)
      → p < q.promises
      → Reachable accepted q
      → Reachable accepted (settle_waiter p (failed error) q)

-- In every history: the frames delivered so far, with those that are queued behind them, are the
-- frames that came while the queue was open, in order; there are never both frames and waiters,
-- and no waiter once the queue is closed; and every promise that was made is settled exactly once
-- or still waits exactly once, never both.
pub Reachable-IsConsistent :
    (accepted : List Bytes) (q : FrameQueue) → Reachable accepted q → IsConsistent accepted q
unfolding frames_of count count_settled
Reachable-IsConsistent _ _ starts = record {
  in_order = refl;
  one_side = inl refl;
  nobody_waits = inl refl;
  one_each = λ p. ground arith;
}
Reachable-IsConsistent _ _ (enqueues accepted q frame before) =
    enqueue-IsConsistent accepted frame q (Reachable-IsConsistent accepted q before)
Reachable-IsConsistent _ _ (closes accepted q error before) =
    close-IsConsistent accepted error q (Reachable-IsConsistent accepted q before)
Reachable-IsConsistent _ _ (nexts accepted q aborted before) =
    next-IsConsistent accepted aborted q (Reachable-IsConsistent accepted q before)
Reachable-IsConsistent _ _ (fails accepted q p error made before) =
    fail-IsConsistent accepted p error q made (Reachable-IsConsistent accepted q before)

-- Once the queue is closed every promise that `next` has made is settled.
pub closed_settles :
    (accepted : List Bytes) (q : FrameQueue) (p : ℕ)
    → Reachable accepted q
    → q.closed ≡ true
    → p < q.promises
    → is_settled p q.log ≡ true
unfolding count
closed_settles accepted q p history over made =
    let v = Reachable-IsConsistent accepted q history in
    let none : q.waiters ≡ [] = elim v.nobody_waits [ inl e ↦ cc | inr e ↦ e ] in
    let nowhere : count p q.waiters ≡ 0 = ap (count p) none in
    elim (Bool-cases (is_settled p q.log)) [
      | inl done ↦ done
      | inr waiting ↦ ground (arith, v.one_each p, settled_counts p q.log waiting)
    ]
