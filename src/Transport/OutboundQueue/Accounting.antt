-- ===== src/Transport/OutboundQueue/Accounting.antt =====
-- The counters of the outbound queue, against the frames that are queued and in flight.
use capnp_deno.Base.{
  ℕ, ◌+◌, ◌≡◌, refl, sym, ap, ap₂, subst, ◌∙◌, Bool, false, true, Option, some, List, [], ◌∷◌, ◌++◌,
  ok, throw_if, arith, length, length-append, append_assoc, append-nil, >>=-eq-ok, ok-injective,
}
use capnp_deno.Base.Int.{ℤ, pos, ◌+ℤ◌, ◌-ℤ◌}
use capnp_deno.Transport.OutboundQueue.{
  QueuedFrame, Queue, over, assert_capacity, enqueue, dequeue, taken, settle, reject_all,
  reject_queued, QueueError,
}
use capnp_deno.Transport.OutboundQueue.Trace.{
  bytes, bytes-append, pos_add, pos_sub, Within, Within-mono, over-Within, zero_Within,
  dequeue-some, Trace, Reachable, IsAccounted, enqueues, dequeues, settles, rejects, starts, steps,
}

reject_all_lem : (fs : List QueuedFrame) → reject_all (pos (bytes fs)) fs ≡ (pos 0, fs)
unfolding reject_all bytes
reject_all_lem [] = refl
reject_all_lem (f ∷ fs) = rw (pos_sub (length f.frame) (bytes fs), reject_all_lem fs) refl

sum_of_pos : (x y : ℤ) (a b c : ℕ) → x ≡ pos a → y ≡ pos b → x +ℤ y +ℤ pos c ≡ pos (a + b + c)
sum_of_pos x y a b c p q =
    ap₂ (λ x y. x +ℤ y +ℤ pos c) p q ∙ ap (λ z. z +ℤ pos c) (pos_add a b) ∙ pos_add (a + b) c

not_thrown : (b : Bool) (e : QueueError) (u : Unit) → throw_if b e ≡ ok u → b ≡ false
not_thrown true e u h = cc
not_thrown false e u h = refl

module _ (max_frames max_bytes : Option ℕ) where
  -- The capacity check, over the sums that the counters stand for.
  capacity_checked :
      (t : Trace) (n : ℕ)
      → IsAccounted max_frames max_bytes t
      → assert_capacity t.queue n ≡ ok tt
      → Within max_frames (length t.flight + length t.queue.queue + 1)
        × Within max_bytes (bytes t.flight + bytes t.queue.queue + n)
  unfolding assert_capacity
  capacity_checked t n v e =
      let (_, frames, rest) = >>=-eq-ok (throw_if (over t.queue.max_frames _) _) _ e in
      let used = sum_of_pos _ (pos (length t.queue.queue)) _ _ 1 v.inflight_frames refl in
      let used_bytes = sum_of_pos _ _ _ _ n v.inflight_bytes v.queued_bytes in
      (
        over-Within max_frames _
            (ap₂ over (sym v.frame_limit) (sym used) ∙ not_thrown _ _ _ frames),
        over-Within max_bytes _
            (ap₂ over (sym v.byte_limit) (sym used_bytes) ∙ not_thrown _ _ _ rest),
      )

  enqueues-IsAccounted :
      (t : Trace) (f : QueuedFrame) (q : Queue)
      → enqueue t.queue f ≡ ok q
      → IsAccounted max_frames max_bytes t
      → IsAccounted max_frames max_bytes (record t { queue = q; accepted = t.accepted ++ f ∷ [] })
  unfolding enqueue bytes
  enqueues-IsAccounted t f q e v =
      let (_, allowed, made) = >>=-eq-ok (assert_capacity t.queue (length f.frame)) _ e in
      let (frames, octets) = capacity_checked t (length f.frame) v allowed in
      let old = t.queue.queue in
      let grown : bytes (old ++ f ∷ []) ≡ bytes old + length f.frame =
        omega (arith, bytes-append old (f ∷ [])) in
      let longer : length (old ++ f ∷ []) ≡ length old + 1 = length-append old (f ∷ []) in
      subst
        (λ r.
          IsAccounted max_frames max_bytes
            (record t { queue = r; accepted = t.accepted ++ f ∷ [] }))
        (ok-injective made)
        (record {
          frame_limit = v.frame_limit;
          byte_limit = v.byte_limit;
          queued_bytes =
              ap (λ z. z +ℤ pos (length f.frame)) v.queued_bytes ∙ pos_add _ _ ∙ ap pos (sym grown);
          inflight_frames = v.inflight_frames;
          inflight_bytes = v.inflight_bytes;
          frames_within = Within-mono max_frames _ _ (omega arith) frames;
          bytes_within = Within-mono max_bytes _ _ (omega arith) octets;
          in_order = ap (λ fs. fs ++ f ∷ []) v.in_order ∙ append_assoc t.gone old (f ∷ []);
        })

  taken-IsAccounted :
      (t : Trace) (next : QueuedFrame) (rest : List QueuedFrame)
      → t.queue.queue ≡ next ∷ rest
      → IsAccounted max_frames max_bytes t
      → IsAccounted max_frames max_bytes (record t {
        queue = taken t.queue next rest;
        flight = next ∷ t.flight;
        gone = t.gone ++ next ∷ [];
      })
  unfolding bytes
  taken-IsAccounted t next rest is v =
      let shorter : length t.queue.queue ≡ length rest + 1 = ap length is ∙ omega arith in
      let less : bytes t.queue.queue ≡ length next.frame + bytes rest = ap bytes is in
      record {
        frame_limit = v.frame_limit;
        byte_limit = v.byte_limit;
        queued_bytes =
            ap (λ z. z -ℤ pos (length next.frame)) (v.queued_bytes ∙ ap pos less)
            ∙ pos_sub (length next.frame) (bytes rest);
        inflight_frames =
            ap (λ z. z +ℤ pos 1) v.inflight_frames ∙ pos_add _ _ ∙ ap pos (omega arith);
        inflight_bytes =
            ap (λ z. z +ℤ pos (length next.frame)) v.inflight_bytes
            ∙ pos_add _ _
            ∙ ap pos (omega arith);
        frames_within = Within-mono max_frames _ _ (omega arith) v.frames_within;
        bytes_within = Within-mono max_bytes _ _ (omega arith) v.bytes_within;
        in_order =
            v.in_order ∙ ap (λ fs. t.gone ++ fs) is ∙ sym (append_assoc t.gone (next ∷ []) rest);
      }

  dequeues-IsAccounted :
      (t : Trace) (next : QueuedFrame) (q : Queue)
      → dequeue t.queue ≡ (q, some next)
      → IsAccounted max_frames max_bytes t
      → IsAccounted max_frames max_bytes
          (record t { queue = q; flight = next ∷ t.flight; gone = t.gone ++ next ∷ [] })
  dequeues-IsAccounted t next q e v =
      let (rest, is, made) = dequeue-some t.queue next q e in
      subst
        (λ r.
          IsAccounted max_frames max_bytes
            (record t { queue = r; flight = next ∷ t.flight; gone = t.gone ++ next ∷ [] }))
        (sym made) (taken-IsAccounted t next rest is v)

  settles-IsAccounted :
      (t : Trace) (before after : List QueuedFrame) (f : QueuedFrame)
      → t.flight ≡ before ++ f ∷ after
      → IsAccounted max_frames max_bytes t
      → IsAccounted max_frames max_bytes
          (record t { queue = settle t.queue (length f.frame); flight = before ++ after })
  unfolding settle bytes
  settles-IsAccounted t before after f is v =
      let fewer : length t.flight ≡ 1 + length (before ++ after) =
        ap length is
        ∙ omega (arith, length-append before (f ∷ after), length-append before after) in
      let less : bytes t.flight ≡ length f.frame + bytes (before ++ after) =
        ap bytes is ∙ omega (arith, bytes-append before (f ∷ after), bytes-append before after) in
      record {
        frame_limit = v.frame_limit;
        byte_limit = v.byte_limit;
        queued_bytes = v.queued_bytes;
        inflight_frames = ap (λ z. z -ℤ pos 1) (v.inflight_frames ∙ ap pos fewer) ∙ pos_sub 1 _;
        inflight_bytes =
            ap (λ z. z -ℤ pos (length f.frame)) (v.inflight_bytes ∙ ap pos less)
            ∙ pos_sub (length f.frame) _;
        frames_within = Within-mono max_frames _ _ (omega arith) v.frames_within;
        bytes_within = Within-mono max_bytes _ _ (omega arith) v.bytes_within;
        in_order = v.in_order;
      }

  rejects-IsAccounted :
      (t : Trace)
      → IsAccounted max_frames max_bytes t
      → IsAccounted max_frames max_bytes (record t {
        queue = (reject_queued t.queue).0;
        gone = t.gone ++ (reject_queued t.queue).1;
      })
  unfolding reject_queued bytes
  rejects-IsAccounted t v =
      let all : reject_all t.queue.queued_bytes t.queue.queue ≡ (pos 0, t.queue.queue) =
        ap (λ z. reject_all z t.queue.queue) v.queued_bytes ∙ reject_all_lem t.queue.queue in
      record {
        frame_limit = v.frame_limit;
        byte_limit = v.byte_limit;
        queued_bytes = ap (λ p. p.0) all;
        inflight_frames = v.inflight_frames;
        inflight_bytes = v.inflight_bytes;
        frames_within = Within-mono max_frames _ _ (omega arith) v.frames_within;
        bytes_within = Within-mono max_bytes _ _ (omega arith) v.bytes_within;
        in_order =
            v.in_order
            ∙ ap (λ fs. t.gone ++ fs) (ap (λ p. p.1) (sym all))
            ∙ sym (append-nil (t.gone ++ (reject_all t.queue.queued_bytes t.queue.queue).1));
      }

  -- Through every sequence of calls: the counters are exact, and so never negative; the frames and
  -- the bytes that are queued or in flight never exceed their limits; and every accepted frame
  -- leaves the queue once, dequeued or rejected, in the order of acceptance, or is still queued.
  pub Reachable-IsAccounted :
      (t : Trace) → Reachable max_frames max_bytes t → IsAccounted max_frames max_bytes t
  unfolding bytes
  Reachable-IsAccounted _ starts = record {
    frame_limit = refl;
    byte_limit = refl;
    queued_bytes = refl;
    inflight_frames = refl;
    inflight_bytes = refl;
    frames_within = zero_Within max_frames;
    bytes_within = zero_Within max_bytes;
    in_order = refl;
  }
  Reachable-IsAccounted _ (steps s _ before (enqueues _ f q e)) =
      enqueues-IsAccounted s f q e (Reachable-IsAccounted s before)
  Reachable-IsAccounted _ (steps s _ before (dequeues _ next q e)) =
      dequeues-IsAccounted s next q e (Reachable-IsAccounted s before)
  Reachable-IsAccounted _ (steps s _ before (settles _ first after f is)) =
      settles-IsAccounted s first after f is (Reachable-IsAccounted s before)
  Reachable-IsAccounted _ (steps s _ before (rejects _)) =
      rejects-IsAccounted s (Reachable-IsAccounted s before)
