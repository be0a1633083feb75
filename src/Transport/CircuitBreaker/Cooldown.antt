-- ===== src/Transport/CircuitBreaker/Cooldown.antt =====
-- From the failures that trip the breaker to the outcome of the probe.
use capnp_deno.Base.{
  subst, Bool-cases, inl, inr, Option, ℕ, ◌+◌, ◌-◌, ◌<◌, ◌≡◌, refl, ap, ◌∙◌, true, false, none,
  some, List, [], ◌∷◌, ok, err, arith, ltb, leb, length, ◌++◌, if◌then◌else◌,
}
use capnp_deno.Transport.CircuitBreaker.Invariant.{Standing, Reachable-IsValid}
use capnp_deno.Transport.CircuitBreaker.{
  System, Step, Reachable, cooldown_remaining_ms, BreakerState, closed, opened, half_open, Config,
  Breaker, circuit_open, transition_to, on_failure, enter, begin, settle,
}

-- Calls that fail one after the other, by the times at which they fail.
unfoldable pub fail_calls : Config → List ℕ → Breaker → Breaker
fail_calls config [] b = b
fail_calls config (now ∷ times) b =
    fail_calls config times (settle config false false now (begin config now now b).0)

-- Breakers with no probe in flight.
abbrev pub Changes : Type 0
Changes = List (BreakerState × BreakerState)

abbrev pub closed_breaker : ℕ → Changes → Breaker
closed_breaker failures changes = record {
  state = closed;
  consecutive_failures = failures;
  opened_at_ms = none;
  half_open_probe_in_flight = false;
  changes = changes;
}

abbrev pub opened_breaker : ℕ → ℕ → Changes → Breaker
opened_breaker failures now changes = record {
  state = opened;
  consecutive_failures = failures;
  opened_at_ms = some now;
  half_open_probe_in_flight = false;
  changes = changes;
}

abbrev pub probing_breaker : ℕ → ℕ → Changes → Breaker
probing_breaker failures now changes = record {
  state = half_open;
  consecutive_failures = failures;
  opened_at_ms = some now;
  half_open_probe_in_flight = true;
  changes = changes;
}

module _ (config : Config) (changes : Changes) where
  fails_below :
      (now n : ℕ)
      → n + 1 < config.max_consecutive_failures
      → settle config false false now (begin config now now (closed_breaker n changes)).0
        ≡ closed_breaker (n + 1) changes
  unfolding settle begin enter on_failure
  fails_below now n below =
      let no : leb config.max_consecutive_failures (n + 1) ≡ false = ground arith in rw no refl

  fails_at :
      (now n : ℕ)
      → n + 1 ≡ config.max_consecutive_failures
      → settle config false false now (begin config now now (closed_breaker n changes)).0
        ≡ opened_breaker (n + 1) now ((closed, opened) ∷ changes)
  unfolding settle begin enter on_failure transition_to
  fails_at now n at =
      let yes : leb config.max_consecutive_failures (n + 1) ≡ true = ground arith in rw yes refl

  opens :
      (times : List ℕ) (last n : ℕ)
      → n + length times + 1 ≡ config.max_consecutive_failures
      → fail_calls config (times ++ last ∷ []) (closed_breaker n changes)
        ≡ opened_breaker config.max_consecutive_failures last ((closed, opened) ∷ changes)
  unfolding fail_calls
  opens [] last n at =
      let at₁ : n + 1 ≡ config.max_consecutive_failures = omega arith in
      fails_at last n at₁ ∙ ap (λ m. opened_breaker m last ((closed, opened) ∷ changes)) at₁
  opens (now ∷ times) last n at =
      ap (fail_calls config (times ++ last ∷ [])) (fails_below now n (omega arith))
      ∙ opens times last (n + 1) (omega arith)

  -- As many failing calls as the threshold, one after the other, open a CLOSED breaker with no
  -- probe in flight and no failure on its count; from then on a call is rejected, and changes
  -- nothing, until the cooldown has passed since the last failure, and is let through as the probe
  -- after that.
  pub begin-fail_calls :
      (times : List ℕ) (last first_now now : ℕ)
      → length times + 1 ≡ config.max_consecutive_failures
      → (let limit = config.max_consecutive_failures in
          let b = fail_calls config (times ++ last ∷ []) (closed_breaker 0 changes) in
          begin config first_now now b ≡ (
            if ltb now (last + config.cooldown_ms)
            then (b, err (circuit_open (last + config.cooldown_ms - now)))
            else (
              probing_breaker limit last ((opened, half_open) ∷ (closed, opened) ∷ changes),
              ok true,
            )))
  unfolding begin enter transition_to
  begin-fail_calls times last first_now now at = rw (opens times last 0 (omega arith)) refl

  counts :
      (times : List ℕ) (n : ℕ)
      → n + length times < config.max_consecutive_failures
      → fail_calls config times (closed_breaker n changes)
        ≡ closed_breaker (n + length times) changes
  unfolding fail_calls
  counts [] n h = ap (λ m. closed_breaker m changes) (omega arith)
  counts (t ∷ ts) n h =
      ap (fail_calls config ts) (fails_below t n (omega arith))
      ∙ counts ts (n + 1) (omega arith)
      ∙ ap (λ m. closed_breaker m changes) (omega arith)

  -- As long as fewer calls have failed, one after the other, than the threshold, a breaker that was
  -- CLOSED with no failure on its count lets every call through.
  pub begin-fail_calls_below :
      (times : List ℕ) (first_now now : ℕ)
      → length times < config.max_consecutive_failures
      → begin config first_now now (fail_calls config times (closed_breaker 0 changes))
        ≡ (closed_breaker (length times) changes, ok false)
  unfolding begin enter
  begin-fail_calls_below times first_now now below =
      rw (counts times 0 (omega arith))
        (ap (λ m. (closed_breaker m changes, ok false)) (omega arith))

-- An OPEN breaker has an opening time.
Standing-opened :
    (limit : ℕ) (state : BreakerState) (n : ℕ) (at : Option ℕ)
    → Standing limit state n at
    → state ≡ opened
    → (since : ℕ) × (at ≡ some since)
Standing-opened limit state n (some since) standing e = (since, refl)
Standing-opened limit closed n none standing e = cc
Standing-opened limit opened n none standing e = elim standing [ ]
Standing-opened limit half_open n none standing e = cc

-- What `begin` makes of a breaker that is OPEN.
abbrev pub Waits : Config → ℕ → ℕ → Breaker → Type 0
Waits config first_now now b = begin config first_now now b ≡ (
    if ltb 0 (cooldown_remaining_ms config now b)
    then (b, err (circuit_open (cooldown_remaining_ms config now b)))
    else enter config (transition_to half_open b))

opened-Waits :
    (config : Config) (b : Breaker) (since first_now now : ℕ)
    → Waits config first_now now (record b { state = opened; opened_at_ms = some since })
unfolding begin cooldown_remaining_ms
opened-Waits config b since first_now now =
    elim (Bool-cases (ltb now (since + config.cooldown_ms))) [
      | inl early ↦
          let left : ltb 0 (since + config.cooldown_ms - now) ≡ true = ground arith in
          rw (early, left) refl
      | inr over ↦
          let left : ltb 0 (since + config.cooldown_ms - now) ≡ false = ground arith in
          rw (over, left) refl
    ]

-- In every history, for a threshold of at least one: an OPEN breaker rejects a call exactly as long as its stats report a cooldown
-- that remains, with that number in the error and no change of state; after that the call goes
-- the way of a half-open breaker's.
pub begin-cooldown_remaining_ms :
    (config : Config) (s : System) (first_now now : ℕ)
    → 0 < config.max_consecutive_failures
    → Reachable (Step config) s
    → s.breaker.state ≡ opened
    → Waits config first_now now s.breaker
begin-cooldown_remaining_ms config s first_now now positive history is_open =
    let b = s.breaker in
    let (standing, _) = Reachable-IsValid config positive s history in
    let (since, at) = Standing-opened _ b.state _ b.opened_at_ms standing is_open in
    let same : record b { state = opened; opened_at_ms = some since } ≡ b = cc in
    subst (Waits config first_now now) same (opened-Waits config b since first_now now)
