-- ===== src/Transport/CircuitBreaker.antt =====
-- rpc/transports/resilience/circuit_breaker.ts. `call` is cut at its await: `begin` is what runs before
-- the factory's promise, `settle` what runs once it settles. Times are whole milliseconds.
pub mod Invariant
pub mod Probes
pub mod Cooldown
mod Tests
use capnp_deno.Base.{
  ℕ, ◌+◌, ◌-◌, ◌≤◌, Bool, true, false, Option, none, some, List, [], ◌∷◌, ◌++◌, Result, ok, err,
  ltb, leb, not, ◌&&◌, if◌then◌else◌, or_else,
}

-- `CircuitBreakerState`
pub data BreakerState : Type 0 where
  closed : BreakerState
  opened : BreakerState
  half_open : BreakerState

-- `from === newState`
abbrev pub same_state : BreakerState → BreakerState → Bool
same_state closed closed = true
same_state opened opened = true
same_state half_open half_open = true
same_state _ _ = false

-- The two options that `call` reads, with the defaults filled in. The constructor refuses a zero.
pub record Config : Type 0 where
  pub max_consecutive_failures : ℕ
  pub cooldown_ms : ℕ

-- The checks and defaults of the constructor: an option of zero is refused.
unfoldable pub new_config : Option ℕ → Option ℕ → Option Config
new_config max_failures cooldown =
    let failures = or_else max_failures 5 in
    let wait = or_else cooldown 30000 in
    if ltb failures 1
    then none
    else if ltb wait 1
    then none
    else some (record { max_consecutive_failures = failures; cooldown_ms = wait })

-- The private fields, and the calls of `onStateChange` so far, the latest first. What an observer
-- throws is swallowed; an observer that calls the breaker is not modelled.
pub record Breaker : Type 0 where
  pub state : BreakerState
  pub consecutive_failures : ℕ
  pub opened_at_ms : Option ℕ
  pub half_open_probe_in_flight : Bool
  pub changes : List (BreakerState × BreakerState)

abbrev pub new_breaker : Breaker
new_breaker = record {
  state = closed;
  consecutive_failures = 0;
  opened_at_ms = none;
  half_open_probe_in_flight = false;
  changes = [];
}

-- The two `TransportError`s of `call`.
pub data BreakerError : Type 0 where
  circuit_open : ℕ → BreakerError
  probe_in_progress : BreakerError

-- `#transitionTo`
unfoldable pub transition_to : BreakerState → Breaker → Breaker
transition_to new b =
    if same_state b.state new
    then b
    else record b { state = new; changes = (b.state, new) ∷ b.changes }

-- `#onSuccess`
unfoldable pub on_success : Breaker → Breaker
on_success b =
    let b₁ = record b { consecutive_failures = 0; opened_at_ms = none } in
    if not (same_state b₁.state closed) then transition_to closed b₁ else b₁

-- `reset`
unfoldable pub reset : Breaker → Breaker
reset b =
    let b₁ = record b {
      half_open_probe_in_flight = false;
      consecutive_failures = 0;
      opened_at_ms = none;
    } in
    if not (same_state b₁.state closed) then transition_to closed b₁ else b₁

-- A breaker with the calls that wait for their factory, each with its `halfOpenProbe`.
pub record System : Type 0 where
  pub breaker : Breaker
  pub in_flight : List Bool

abbrev pub new_system : System
new_system = record { breaker = new_breaker; in_flight = [] }

-- The system after a call has begun or was rejected.
abbrev pub after_begin : Breaker × Result BreakerError Bool → List Bool → System
after_begin (b, ok probe) calls = record { breaker = b; in_flight = probe ∷ calls }
after_begin (b, err _) calls = record { breaker = b; in_flight = calls }

-- The systems that a relation reaches from a new one.
pub data Reachable {ℓ} (R : System → System → Type ℓ) : System → Type ℓ where
  starts : Reachable R new_system
  steps : (s t : System) → Reachable R s → R s t → Reachable R t

module _ (config : Config) where
  -- `#onFailure`
  unfoldable pub on_failure : ℕ → Breaker → Breaker
  on_failure now b =
      let b₁ = record b { consecutive_failures = b.consecutive_failures + 1 } in
      let tripped = transition_to opened (record b₁ { opened_at_ms = some now }) in
      if same_state b₁.state half_open
      then tripped
      else if same_state b₁.state closed
          && leb config.max_consecutive_failures b₁.consecutive_failures
      then tripped
      else b₁

  -- The rest of `call` before the await: whether the call is a probe.
  unfoldable pub enter : Breaker → Breaker × Result BreakerError Bool
  enter b =
      if same_state b.state half_open
      then (if b.half_open_probe_in_flight
          then (b, err probe_in_progress)
          else (record b { half_open_probe_in_flight = true }, ok true))
      else (b, ok false)

  -- `call` up to the await. The clock is read twice, first only where `#openedAtMs` is null. For
  -- a positive cooldown `elapsed < cooldown` holds as well when the clock went back.
  unfoldable pub begin : ℕ → ℕ → Breaker → Breaker × Result BreakerError Bool
  begin first_now now b =
      let opened_at = or_else b.opened_at_ms first_now in
      let over = enter (transition_to half_open b) in
      if same_state b.state opened
      then (if ltb now (opened_at + config.cooldown_ms)
          then (b, err (circuit_open (opened_at + config.cooldown_ms - now)))
          else over)
      else enter b

  -- `cooldownRemainingMs` of `stats`. A negative difference is 0 by `Math.max`.
  unfoldable pub cooldown_remaining_ms : ℕ → Breaker → ℕ
  cooldown_remaining_ms now b =
      if same_state b.state opened
      then elim b.opened_at_ms [ none ↦ 0 | some opened_at ↦ opened_at + config.cooldown_ms - now ]
      else 0

  -- `call` from the await on: the factory's outcome, then `finally`.
  unfoldable pub settle : Bool → Bool → ℕ → Breaker → Breaker
  settle probe success now b =
      let b₁ = if success then on_success b else on_failure now b in
      if probe then record b₁ { half_open_probe_in_flight = false } else b₁

  -- A call begins, or one in flight settles.
  pub data CallStep : System → System → Type 0 where
    begins :
        (first_now now : ℕ) (b : Breaker) (calls : List Bool)
        → CallStep
            (record { breaker = b; in_flight = calls })
            (after_begin (begin first_now now b) calls)
    settles :
        (before after : List Bool) (probe success : Bool) (now : ℕ) (b : Breaker)
        → CallStep
            (record { breaker = b; in_flight = before ++ probe ∷ after })
            (record { breaker = settle probe success now b; in_flight = before ++ after })

  -- A call's step, or a manual reset.
  pub data Step : System → System → Type 0 where
    calls : (s t : System) → CallStep s t → Step s t
    resets : (s : System) → Step s (record s { breaker = reset s.breaker })
