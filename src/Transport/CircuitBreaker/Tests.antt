-- ===== src/Transport/CircuitBreaker/Tests.antt =====
-- The theorems on circuit_breaker.ts at a breaker with a threshold of two.
use capnp_deno.Base.{
  refl, none, some, ◌≤◌, ◌≡◌, true, false, [], ◌∷◌, ok, err, arith, ltb, if◌then◌else◌,
}
use capnp_deno.Transport.CircuitBreaker.{
  settles, new_config, enter, on_failure, transition_to, Step, Reachable, closed, opened, half_open,
  Config, circuit_open, new_system, System, begins, calls, resets, CallStep, starts, steps, begin,
  settle, after_begin, reset, new_breaker,
}
use capnp_deno.Transport.CircuitBreaker.Invariant.{IsValid, Reachable-IsValid}
use capnp_deno.Transport.CircuitBreaker.Probes.{probes_bounded, IsCounted, probes}
use capnp_deno.Transport.CircuitBreaker.Cooldown.{
  begin-cooldown_remaining_ms, Waits, begin-fail_calls, begin-fail_calls_below, closed_breaker,
  probing_breaker, fail_calls,
}

abbrev twice : Config
twice = record { max_consecutive_failures = 2; cooldown_ms = 100 }

-- A new breaker after one call has begun.
abbrev busy : System
busy = after_begin (begin twice 0 0 new_breaker) []

begun : CallStep twice new_system busy
begun = begins 0 0 new_breaker []

Reachable-IsValid_example : IsValid twice (reset busy.breaker)
Reachable-IsValid_example =
    Reachable-IsValid twice (omega arith) (record busy { breaker = reset busy.breaker })
      (steps busy _ (steps new_system busy starts (calls new_system busy begun)) (resets busy))

probes_bounded_example : IsCounted busy × (probes busy.in_flight ≤ 1)
probes_bounded_example = probes_bounded twice busy (steps new_system busy starts begun)

begin-fail_calls_example :
    begin twice 0 80 (fail_calls twice (10 ∷ 20 ∷ []) (closed_breaker 0 [])) ≡ (
      if ltb 80 120
      then (fail_calls twice (10 ∷ 20 ∷ []) (closed_breaker 0 []), err (circuit_open 40))
      else (probing_breaker 2 20 ((opened, half_open) ∷ (closed, opened) ∷ []), ok true))
begin-fail_calls_example = begin-fail_calls twice [] (10 ∷ []) 20 0 80 (omega arith)

begin-fail_calls_below_example :
    begin twice 0 80 (fail_calls twice (10 ∷ []) (closed_breaker 0 []))
    ≡ (closed_breaker 1 [], ok false)
begin-fail_calls_below_example = begin-fail_calls_below twice [] (10 ∷ []) 0 80 (omega arith)

abbrev once : Config
once = record { max_consecutive_failures = 1; cooldown_ms = 100 }

-- A new breaker after one call has failed.
abbrev tripped : System
tripped = record { breaker = settle once false false 5 new_breaker; in_flight = [] }

trips : Reachable (Step once) tripped
unfolding begin enter
trips =
    steps (record new_system { in_flight = false ∷ [] }) tripped
      (steps new_system (record new_system { in_flight = false ∷ [] }) starts
        (calls new_system _ (begins 0 0 new_breaker [])))
      (calls _ tripped (settles [] [] false false 5 new_breaker))

is_open : tripped.breaker.state ≡ opened
unfolding settle on_failure transition_to
is_open = refl

begin-cooldown_remaining_ms_example : Waits once 0 20 tripped.breaker
begin-cooldown_remaining_ms_example =
    begin-cooldown_remaining_ms once tripped 0 20 (omega arith) trips is_open

defaults :
    new_config none (some 100) ≡ some (record { max_consecutive_failures = 5; cooldown_ms = 100 })
unfolding new_config
defaults = refl
