-- ===== src/Transport/OutboundQueue/Trace.antt =====
-- The outbound queue with what happened to its frames, and the sums that its counters stand for.
use capnp_deno.Base.{
  ℕ, ◌+◌, ◌≤◌, ◌≡◌, refl, sym, ap, ◌∙◌, false, Option, none, some, List, [], ◌∷◌, ◌++◌, ok, arith,
  length,
}
use capnp_deno.Base.Int.{pos, ◌+ℤ◌, ◌-ℤ◌}
use capnp_deno.Transport.OutboundQueue.{
  QueuedFrame, Queue, new_queue, over, enqueue, dequeue, taken, settle, reject_queued,
}

unfoldable pub bytes : List QueuedFrame → ℕ
bytes [] = 0
bytes (f ∷ fs) = length f.frame + bytes fs

pub bytes-append : (fs gs : List QueuedFrame) → bytes (fs ++ gs) ≡ bytes fs + bytes gs
unfolding bytes
bytes-append [] gs = omega arith
bytes-append (f ∷ fs) gs = rw (bytes-append fs gs) (omega arith)

pub pos_add : (a b : ℕ) → pos a +ℤ pos b ≡ pos (a + b)
unfolding ◌+ℤ◌
pos_add a b = ground arith

pub pos_sub : (a b : ℕ) → pos (a + b) -ℤ pos a ≡ pos b
unfolding ◌-ℤ◌
pos_sub a b = ground arith

-- A count that a limit, if there is one, allows.
abbrev pub Within : Option ℕ → ℕ → Type 0
Within none n = Unit
Within (some limit) n = n ≤ limit

pub Within-mono : (limit : Option ℕ) (m n : ℕ) → m ≤ n → Within limit n → Within limit m
Within-mono none m n h w = w
Within-mono (some limit) m n h w = omega arith

pub over-Within : (limit : Option ℕ) (n : ℕ) → over limit (pos n) ≡ false → Within limit n
over-Within none n e = tt
over-Within (some limit) n e = ground arith

pub zero_Within : (limit : Option ℕ) → Within limit 0
zero_Within none = tt
zero_Within (some limit) = omega arith

pub dequeue-some :
    (q : Queue) (next : QueuedFrame) (r : Queue)
    → dequeue q ≡ (r, some next)
    → (rest : List QueuedFrame) × (q.queue ≡ next ∷ rest) × (r ≡ taken q next rest)
unfolding dequeue
dequeue-some q next r e = from_list q.queue refl
  where
    from_list :
        (fs : List QueuedFrame)
        → q.queue ≡ fs
        → (rest : List QueuedFrame) × (q.queue ≡ next ∷ rest) × (r ≡ taken q next rest)
    from_list [] is = cc (rw is at e)
    from_list (f ∷ rest) is =
        let h : ◌≡◌ {A = Queue × Option QueuedFrame} (taken q f rest, some f) (r, some next) =
          rw is at e in
        let same : f ≡ next = cc (ap (λ p. p.1) h) in
        (rest, is ∙ ap (λ x. x ∷ rest) same, sym (ap (λ p. p.0) h) ∙ ap (λ x. taken q x rest) same)

-- The queue with what happened to its frames: those in flight, those that were accepted, and those
-- that left the queue, dequeued or rejected, in the order in which they left.
pub record Trace : Type 0 where
  pub queue : Queue
  pub flight : List QueuedFrame
  pub accepted : List QueuedFrame
  pub gone : List QueuedFrame

abbrev pub new_trace : Option ℕ → Option ℕ → Trace
new_trace max_frames max_bytes = record {
  queue = new_queue max_frames max_bytes;
  flight = [];
  accepted = [];
  gone = [];
}

-- One call of the queue. A transport settles only a frame that it has dequeued.
pub data Step : Trace → Trace → Type 0 where
  enqueues :
      (t : Trace) (f : QueuedFrame) (q : Queue)
      → enqueue t.queue f ≡ ok q
      → Step t (record t { queue = q; accepted = t.accepted ++ f ∷ [] })
  dequeues :
      (t : Trace) (next : QueuedFrame) (q : Queue)
      → dequeue t.queue ≡ (q, some next)
      → Step t (record t { queue = q; flight = next ∷ t.flight; gone = t.gone ++ next ∷ [] })
  settles :
      (t : Trace) (before after : List QueuedFrame) (f : QueuedFrame)
      → t.flight ≡ before ++ f ∷ after
      → Step t (record t { queue = settle t.queue (length f.frame); flight = before ++ after })
  rejects :
      (t : Trace)
      → Step t (record t {
        queue = (reject_queued t.queue).0;
        gone = t.gone ++ (reject_queued t.queue).1;
      })

pub data Reachable (max_frames max_bytes : Option ℕ) : Trace → Type 0 where
  starts : Reachable max_frames max_bytes (new_trace max_frames max_bytes)
  steps :
      (s t : Trace) → Reachable max_frames max_bytes s → Step s t → Reachable max_frames max_bytes t

-- The counters are the sums they stand for, both limits hold, and the queue holds the accepted
-- frames that have not left it, in order.
pub record IsAccounted (max_frames max_bytes : Option ℕ) (t : Trace) : Type 0 where
  pub frame_limit : t.queue.max_frames ≡ max_frames
  pub byte_limit : t.queue.max_bytes ≡ max_bytes
  pub queued_bytes : t.queue.queued_bytes ≡ pos (bytes t.queue.queue)
  pub inflight_frames : t.queue.inflight_frames ≡ pos (length t.flight)
  pub inflight_bytes : t.queue.inflight_bytes ≡ pos (bytes t.flight)
  pub frames_within : Within max_frames (length t.flight + length t.queue.queue)
  pub bytes_within : Within max_bytes (bytes t.flight + bytes t.queue.queue)
  pub in_order : t.accepted ≡ t.gone ++ t.queue.queue
