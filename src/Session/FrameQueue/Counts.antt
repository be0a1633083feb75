-- ===== src/Session/FrameQueue/Counts.antt =====
-- Promises counted, and frames collected, in the log of a frame queue.
use capnp_deno.Base.{
  count, ℕ, ◌+◌, ◌≤◌, ◌≡◌, refl, ap, false, List, [], ◌∷◌, ◌++◌, Bytes, arith, ◌==◌, if◌then◌else◌,
}
use capnp_deno.Session.FrameQueue.{Outcome, delivered, failed, is_settled, remove_waiter}

-- The frames among the outcomes, in the order of delivery.
unfoldable pub frames_of : List (ℕ × Outcome) → List Bytes
frames_of [] = []
frames_of ((_, delivered frame) ∷ log) = frame ∷ frames_of log
frames_of ((_, failed _) ∷ log) = frames_of log

-- How often a promise stands in a log.
unfoldable pub count_settled : ℕ → List (ℕ × Outcome) → ℕ
count_settled p [] = 0
count_settled p ((x, _) ∷ log) = (if p == x then 1 else 0) + count_settled p log

pub frames_of-append :
    (log more : List (ℕ × Outcome)) → frames_of (log ++ more) ≡ frames_of log ++ frames_of more
unfolding frames_of
frames_of-append [] more = refl
frames_of-append ((_, delivered frame) ∷ log) more = ap (◌∷◌ frame) (frames_of-append log more)
frames_of-append ((_, failed _) ∷ log) more = frames_of-append log more

pub count_settled-append :
    (p : ℕ) (log : List (ℕ × Outcome)) (x : ℕ) (outcome : Outcome)
    → count_settled p (log ++ (x, outcome) ∷ []) ≡ count_settled p log + (if p == x then 1 else 0)
unfolding count_settled
count_settled-append p [] x outcome = omega arith
count_settled-append p ((y, _) ∷ log) x outcome =
    omega (arith, count_settled-append p log x outcome)

pub is_settled-count_settled :
    (p : ℕ) (log : List (ℕ × Outcome)) → count_settled p log ≡ 0 → is_settled p log ≡ false
unfolding is_settled count_settled
is_settled-count_settled p [] e = refl
is_settled-count_settled p ((x, o) ∷ log) e = ground (arith, is_settled-count_settled p log)

pub settled_counts :
    (p : ℕ) (log : List (ℕ × Outcome)) → is_settled p log ≡ false → count_settled p log ≡ 0
unfolding is_settled count_settled
settled_counts p [] e = refl
settled_counts p ((x, o) ∷ log) e = ground (arith, settled_counts p log)

pub count-remove_waiter :
    (p w : ℕ) (waiters : List ℕ)
    → 1 ≤ count w waiters
    → count p (remove_waiter w waiters) + (if p == w then 1 else 0) ≡ count p waiters
unfolding count remove_waiter
count-remove_waiter p w [] h = absurd (omega arith)
count-remove_waiter p w (x ∷ xs) h = ground (arith, count-remove_waiter p w xs)

pub remove_waiter_absent :
    (w : ℕ) (waiters : List ℕ) → count w waiters ≡ 0 → remove_waiter w waiters ≡ waiters
unfolding count remove_waiter
remove_waiter_absent w [] h = refl
remove_waiter_absent w (x ∷ xs) h = ground (arith, remove_waiter_absent w xs)
