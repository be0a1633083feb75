-- ===== src/Transport/CircuitBreaker/Invariant.antt =====
-- What holds of the breaker's state in every history of calls and resets.
use capnp_deno.Base.{
  ℕ, ◌+◌, ◌≤◌, ◌<◌, ◌≡◌, refl, Bool, true, false, Option, none, some, List, [], ◌∷◌, Result, ok,
  err, arith, ltb, leb, Bool-cases, not, inl, inr,
}
use capnp_deno.Transport.CircuitBreaker.{
  BreakerState, closed, opened, half_open, same_state, Config, Breaker, BreakerError, transition_to,
  on_success, reset, on_failure, enter, begin, settle, System, after_begin, begins, settles, Step,
  calls, resets, Reachable, starts, steps,
}

-- The failures and the opening time that go with a state, for a threshold.
abbrev pub Standing : ℕ → BreakerState → ℕ → Option ℕ → Type 0
Standing limit closed failures none = failures < limit
Standing limit closed failures (some _) = ⊥
Standing limit _ failures none = ⊥
Standing limit _ failures (some _) = limit ≤ failures

-- The changes of state that a circuit breaker may make.
abbrev pub is_legal : BreakerState → BreakerState → Bool
is_legal closed to = same_state to opened
is_legal opened to = not (same_state to opened)
is_legal half_open to = not (same_state to half_open)

-- A list of state changes, the latest first, that leads from CLOSED to a state by legal changes.
abbrev pub IsHistory : BreakerState → List (BreakerState × BreakerState) → Type 0
IsHistory state [] = state ≡ closed
IsHistory state ((from, to) ∷ changes) =
    (to ≡ state) × (is_legal from to ≡ true) × IsHistory from changes

abbrev pub IsValid : Config → Breaker → Type 0
IsValid config b =
    Standing config.max_consecutive_failures b.state b.consecutive_failures b.opened_at_ms
    × IsHistory b.state b.changes

-- A breaker from its fields, to split on two of them.
abbrev made : BreakerState → ℕ → Option ℕ → Bool → List (BreakerState × BreakerState) → Breaker
made state failures at probe changes = record {
  state = state;
  consecutive_failures = failures;
  opened_at_ms = at;
  half_open_probe_in_flight = probe;
  changes = changes;
}

module _ (config : Config) where
  on_failure-made :
      (now : ℕ) (s : BreakerState) (n : ℕ) (at : Option ℕ) (probe : Bool)
      (changes : List (BreakerState × BreakerState))
      → IsValid config (made s n at probe changes)
      → IsValid config (on_failure config now (made s n at probe changes))
  unfolding on_failure transition_to
  on_failure-made now closed n none p cs (low, history) =
      elim (Bool-cases (leb config.max_consecutive_failures (n + 1))) [
        | inl reached ↦ rw reached (ground arith, (refl, refl, history))
        | inr below ↦ rw below (ground arith, history)
      ]
  on_failure-made now closed n (some t) p cs (low, history) = elim low [ ]
  on_failure-made now opened n none p cs (low, history) = elim low [ ]
  on_failure-made now opened n (some t) p cs (low, history) = (omega arith, history)
  on_failure-made now half_open n none p cs (low, history) = elim low [ ]
  on_failure-made now half_open n (some t) p cs (low, history) =
      (omega arith, (refl, refl, history))

  enter-made :
      (s : BreakerState) (n : ℕ) (at : Option ℕ) (probe : Bool)
      (changes : List (BreakerState × BreakerState))
      → IsValid config (made s n at probe changes)
      → IsValid config (enter config (made s n at probe changes)).0
  unfolding enter
  enter-made closed n at p cs v = v
  enter-made opened n at p cs v = v
  enter-made half_open n at true cs v = v
  enter-made half_open n at false cs v = v

  begin-made :
      (first_now now : ℕ) (s : BreakerState) (n : ℕ) (at : Option ℕ) (probe : Bool)
      (changes : List (BreakerState × BreakerState))
      → IsValid config (made s n at probe changes)
      → IsValid config (begin config first_now now (made s n at probe changes)).0
  unfolding begin transition_to
  begin-made f now closed n at p cs v = enter-made closed n at p cs v
  begin-made f now half_open n at p cs v = enter-made half_open n at p cs v
  begin-made f now opened n none p cs (low, history) = elim low [ ]
  begin-made f now opened n (some t) p cs (high, history) =
      elim (Bool-cases (ltb now (t + config.cooldown_ms))) [
        | inl early ↦ rw early (high, history)
        | inr over ↦ rw over (enter-made half_open n (some t) p _ (high, (refl, refl, history)))
      ]

  module _ (positive : 0 < config.max_consecutive_failures) where
    on_success-made :
        (s : BreakerState) (n : ℕ) (at : Option ℕ) (probe : Bool)
        (changes : List (BreakerState × BreakerState))
        → IsHistory s changes
        → IsValid config (on_success (made s n at probe changes))
    unfolding on_success transition_to
    on_success-made closed n at p cs history = (positive, history)
    on_success-made opened n at p cs history = (positive, (refl, refl, history))
    on_success-made half_open n at p cs history = (positive, (refl, refl, history))

    reset-made :
        (s : BreakerState) (n : ℕ) (at : Option ℕ) (probe : Bool)
        (changes : List (BreakerState × BreakerState))
        → IsHistory s changes
        → IsValid config (reset (made s n at probe changes))
    unfolding reset transition_to
    reset-made closed n at p cs history = (positive, history)
    reset-made opened n at p cs history = (positive, (refl, refl, history))
    reset-made half_open n at p cs history = (positive, (refl, refl, history))

    settle-IsValid :
        (probe success : Bool) (now : ℕ) (b : Breaker)
        → IsValid config b
        → IsValid config (settle config probe success now b)
    unfolding settle
    settle-IsValid true true now b (standing, history) =
        on_success-made b.state b.consecutive_failures b.opened_at_ms b.half_open_probe_in_flight
          b.changes history
    settle-IsValid false true now b (standing, history) =
        on_success-made b.state b.consecutive_failures b.opened_at_ms b.half_open_probe_in_flight
          b.changes history
    settle-IsValid true false now b v =
        on_failure-made now b.state b.consecutive_failures b.opened_at_ms
          b.half_open_probe_in_flight b.changes v
    settle-IsValid false false now b v =
        on_failure-made now b.state b.consecutive_failures b.opened_at_ms
          b.half_open_probe_in_flight b.changes v

    after_begin-IsValid :
        (r : Breaker × Result BreakerError Bool) (pending : List Bool)
        → IsValid config r.0
        → IsValid config (after_begin r pending).breaker
    after_begin-IsValid (b, ok probe) pending v = v
    after_begin-IsValid (b, err e) pending v = v

    Step-IsValid :
        (s t : System) → Step config s t → IsValid config s.breaker → IsValid config t.breaker
    Step-IsValid _ _ (calls _ _ (begins f now b pending)) v =
        after_begin-IsValid (begin config f now b) pending (
          begin-made f now b.state b.consecutive_failures b.opened_at_ms b.half_open_probe_in_flight
            b.changes v)
    Step-IsValid _ _ (calls _ _ (settles before after probe success now b)) v =
        settle-IsValid probe success now b v
    Step-IsValid _ _ (resets s) (standing, history) =
        let b = s.breaker in
        reset-made b.state b.consecutive_failures b.opened_at_ms b.half_open_probe_in_flight
          b.changes history

    -- With a threshold of at least one, in every history of calls and resets and with calls in
    -- flight side by side: the breaker is CLOSED exactly when it counts fewer failures than the
    -- threshold, it has an opening time exactly when it is not CLOSED, and the changes that it
    -- reported lead from CLOSED to its state by the legal changes only.
    pub Reachable-IsValid : (s : System) → Reachable (Step config) s → IsValid config s.breaker
    Reachable-IsValid _ starts = (positive, refl)
    Reachable-IsValid _ (steps s t before step) = Step-IsValid s t step (Reachable-IsValid s before)
