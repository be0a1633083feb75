-- ===== src/Session/FrameQueue/Delivery.antt =====
-- Every frame is delivered once and in order, and every promise settles once.
use capnp_deno.Base.{
  count, ℕ, ◌+◌, ◌≤◌, ◌<◌, ◌≡◌, refl, sym, ap, ap₂, subst, subst₂, ◌∙◌, ◌⊎◌, inl, inr, true, false,
  List, [], ◌∷◌, ◌++◌, Bytes, arith, ltb, if◌then◌else◌, Bool-cases, append-nil, append_assoc,
}
use capnp_deno.Session.FrameQueue.{
  WaitError, Outcome, delivered, failed, FrameQueue, is_settled, remove_waiter, settled_at_once,
  settle_waiter, enqueue, reject_waiters, close,
}
use capnp_deno.Session.FrameQueue.Counts.{
  frames_of, count_settled, frames_of-append, count_settled-append, is_settled-count_settled,
  settled_counts, count-remove_waiter, remove_waiter_absent,
}

-- Each promise that was made is settled once or waits once, never both; no other one is there.
abbrev pub OneEach : FrameQueue → Type 0
OneEach q =
    (p : ℕ) → count_settled p q.log + count p q.waiters ≡ (if ltb p q.promises then 1 else 0)

-- The queue, after the frames of `accepted` came while it was open.
pub record IsConsistent (accepted : List Bytes) (q : FrameQueue) : Type 0 where
  pub in_order : frames_of q.log ++ q.frames ≡ accepted
  pub one_side : (q.frames ≡ []) ⊎ (q.waiters ≡ [])
  pub nobody_waits : (q.closed ≡ false) ⊎ (q.waiters ≡ [])
  pub one_each : OneEach q

settle_waiter-unsettled :
    (w : ℕ) (outcome : Outcome) (q : FrameQueue)
    → count_settled w q.log ≡ 0
    → settle_waiter w outcome q
      ≡ record q { waiters = remove_waiter w q.waiters; log = q.log ++ (w, outcome) ∷ [] }
unfolding settle_waiter
settle_waiter-unsettled w outcome q e =
    let fresh : is_settled w q.log ≡ false = is_settled-count_settled w q.log e in rw fresh refl

-- The first of several promises that all wait.
first_waits :
    (n w : ℕ) (log : List (ℕ × Outcome)) (rest : List ℕ)
    → count_settled w log + count w (w ∷ rest) ≡ (if ltb w n then 1 else 0)
    → (count_settled w log ≡ 0) × (count w rest ≡ 0)
unfolding count
first_waits n w log rest e = (ground arith, ground arith)

moved_over :
    (n p w : ℕ) (outcome : Outcome) (log : List (ℕ × Outcome)) (rest : List ℕ)
    → count_settled p log + count p (w ∷ rest) ≡ (if ltb p n then 1 else 0)
    → count_settled p (log ++ (w, outcome) ∷ []) + count p rest ≡ (if ltb p n then 1 else 0)
unfolding count
moved_over n p w outcome log rest e = omega (arith, count_settled-append p log w outcome)

pub no_frame :
    (log : List (ℕ × Outcome)) (p : ℕ) (error : WaitError)
    → frames_of (log ++ (p, failed error) ∷ []) ≡ frames_of log
unfolding frames_of
no_frame log p error = frames_of-append log _ ∙ append-nil (frames_of log)

-- `close` on its way through the waiters.
reject_waiters-IsConsistent :
    (accepted : List Bytes) (error : WaitError) (pending : List ℕ) (q : FrameQueue)
    → frames_of q.log ++ q.frames ≡ accepted
    → q.waiters ≡ []
    → ((p : ℕ) → count_settled p q.log + count p pending ≡ (if ltb p q.promises then 1 else 0))
    → IsConsistent accepted (reject_waiters error pending q)
unfolding reject_waiters count
reject_waiters-IsConsistent accepted error [] q order none one = record {
  in_order = order;
  one_side = inr none;
  nobody_waits = inr none;
  one_each = λ p. ap (λ ws. count_settled p q.log + count p ws) none ∙ one p;
}
reject_waiters-IsConsistent accepted error (w ∷ rest) q order none one =
    let (fresh, _) = first_waits q.promises w q.log rest (one w) in
    subst (λ r. IsConsistent accepted (reject_waiters error rest r))
      (sym (settle_waiter-unsettled w (failed error) q fresh))
      (reject_waiters-IsConsistent accepted error rest
        (record q { waiters = remove_waiter w q.waiters; log = q.log ++ (w, failed error) ∷ [] })
        (ap (λ fs. fs ++ q.frames) (no_frame q.log w error) ∙ order)
        (remove_waiter_absent w q.waiters (ap (count w) none) ∙ none)
        (λ p. moved_over q.promises p w (failed error) q.log rest (one p)))

pub close-IsConsistent :
    (accepted : List Bytes) (error : WaitError) (q : FrameQueue)
    → IsConsistent accepted q
    → IsConsistent accepted (close error q)
unfolding close
close-IsConsistent accepted error q v = elim (Bool-cases q.closed) [
  | inl over ↦ subst (IsConsistent accepted) (sym (closed_stays over)) v
  | inr going ↦ subst (IsConsistent accepted) (sym (closes_now going)) (
      reject_waiters-IsConsistent accepted error q.waiters
        (record q { waiters = []; closed = true; close_error = error }) v.in_order refl v.one_each)
]
  where
    closed_stays : q.closed ≡ true → close error q ≡ q
    closed_stays over = rw over refl

    closes_now :
        q.closed ≡ false
        → close error q
          ≡ reject_waiters error q.waiters
              (record q { waiters = []; closed = true; close_error = error })
    closes_now going = rw going refl

-- A promise that settles at once.
pub settled_at_once-OneEach :
    (outcome : Outcome) (q : FrameQueue) → OneEach q → OneEach (settled_at_once outcome q)
settled_at_once-OneEach outcome q one p =
    ground (arith, one p, count_settled-append p q.log q.promises outcome)

-- A waiter that an abort or a timer rejects.
pub fail-IsConsistent :
    (accepted : List Bytes) (p : ℕ) (error : WaitError) (q : FrameQueue)
    → p < q.promises
    → IsConsistent accepted q
    → IsConsistent accepted (settle_waiter p (failed error) q)
unfolding settle_waiter remove_waiter
fail-IsConsistent accepted p error q made v = elim (Bool-cases (is_settled p q.log)) [
  | inl done ↦ subst (IsConsistent accepted) (sym (stays done)) v
  | inr waiting ↦
      let fresh = settled_counts p q.log waiting in
      let waits : 1 ≤ count p q.waiters = ground (arith, v.one_each p) in
      subst (IsConsistent accepted) (sym (settle_waiter-unsettled p (failed error) q fresh))
        (record {
          in_order = ap (λ fs. fs ++ q.frames) (no_frame q.log p error) ∙ v.in_order;
          one_side = elim v.one_side [ inl e ↦ inl e | inr e ↦ inr (ap (remove_waiter p) e) ];
          nobody_waits = elim v.nobody_waits [
            | inl e ↦ inl e
            | inr e ↦ inr (ap (remove_waiter p) e)
          ];
          one_each = λ x. omega (
            arith,
            v.one_each x,
            count-remove_waiter x p q.waiters waits,
            count_settled-append x q.log p (failed error),
          );
        })
]
  where
    stays : is_settled p q.log ≡ true → settle_waiter p (failed error) q ≡ q
    stays done = rw done refl

handed_over :
    (accepted : List Bytes) (frame : Bytes) (w : ℕ) (rest : List ℕ) (q : FrameQueue)
    → IsConsistent accepted q
    → q.closed ≡ false
    → q.waiters ≡ w ∷ rest
    → IsConsistent
        (accepted ++ frame ∷ [])
        (settle_waiter w (delivered frame) (record q { waiters = rest }))
unfolding frames_of
handed_over accepted frame w rest q v going is =
    let none : q.frames ≡ [] = elim v.one_side [ inl e ↦ e | inr e ↦ cc ] in
    let one = λ (p : ℕ). ap (λ ws. count_settled p q.log + count p ws) (sym is) ∙ v.one_each p in
    let (fresh, absent) = first_waits q.promises w q.log rest (one w) in
    let all : frames_of q.log ≡ accepted =
      sym (append-nil (frames_of q.log))
      ∙ ap (λ fs. frames_of q.log ++ fs) (sym none)
      ∙ v.in_order in
    subst (IsConsistent (accepted ++ frame ∷ []))
      (sym (settle_waiter-unsettled w (delivered frame) (record q { waiters = rest }) fresh))
      (record {
        in_order =
            ap₂ (λ fs gs. fs ++ gs) (frames_of-append q.log ((w, delivered frame) ∷ [])) none
            ∙ append-nil (frames_of q.log ++ frame ∷ [])
            ∙ ap (λ fs. fs ++ frame ∷ []) all;
        one_side = inl none;
        nobody_waits = inl going;
        one_each = λ p.
            ap (λ ws. count_settled p (q.log ++ (w, delivered frame) ∷ []) + count p ws)
              (remove_waiter_absent w rest absent)
            ∙ moved_over q.promises p w (delivered frame) q.log rest (one p);
      })

pub enqueue-IsConsistent :
    (accepted : List Bytes) (frame : Bytes) (q : FrameQueue)
    → IsConsistent accepted q
    → IsConsistent (if q.closed then accepted else accepted ++ frame ∷ []) (enqueue frame q)
unfolding enqueue
enqueue-IsConsistent accepted frame q v = elim (Bool-cases q.closed) [
  | inl over ↦ subst₂ IsConsistent (sym (chosen over)) (sym (stays over)) v
  | inr going ↦
      subst (λ fs. IsConsistent fs (enqueue frame q)) (sym (grown going))
        (opened going q.waiters refl)
]
  where
    chosen : q.closed ≡ true → (if q.closed then accepted else accepted ++ frame ∷ []) ≡ accepted
    chosen over = rw over refl

    grown :
        q.closed ≡ false
        → (if q.closed then accepted else accepted ++ frame ∷ []) ≡ accepted ++ frame ∷ []
    grown going = rw going refl

    stays : q.closed ≡ true → enqueue frame q ≡ q
    stays over = rw over refl

    queued :
        q.closed ≡ false
        → q.waiters ≡ []
        → enqueue frame q ≡ record q { frames = q.frames ++ frame ∷ [] }
    queued going is = simp (going, is)

    handed :
        (w : ℕ) (rest : List ℕ)
        → q.closed ≡ false
        → q.waiters ≡ w ∷ rest
        → enqueue frame q ≡ settle_waiter w (delivered frame) (record q { waiters = rest })
    handed w rest going is = simp (going, is)

    opened :
        q.closed ≡ false
        → (ws : List ℕ) → q.waiters ≡ ws
        → IsConsistent (accepted ++ frame ∷ []) (enqueue frame q)
    opened going [] is =
        subst (IsConsistent (accepted ++ frame ∷ [])) (sym (queued going is)) (record {
          in_order =
              sym (append_assoc (frames_of q.log) q.frames (frame ∷ []))
              ∙ ap (λ fs. fs ++ frame ∷ []) v.in_order;
          one_side = inr is;
          nobody_waits = inr is;
          one_each = v.one_each;
        })
    opened going (w ∷ rest) is =
        subst (IsConsistent (accepted ++ frame ∷ [])) (sym (handed w rest going is))
          (handed_over accepted frame w rest q v going is)
