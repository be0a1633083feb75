-- ===== src/Transport/CircuitBreaker/Probes.antt =====
-- The half-open probe: at most one is in flight as long as nobody resets the breaker.
use capnp_deno.Base.{
  ℕ, not, ◌+◌, ◌-◌, ◌≤◌, ◌≡◌, refl, sym, ap, ◌∙◌, Bool, true, false, List, [], ◌∷◌, ◌++◌, err,
  arith, ltb, Bool-cases, inl, inr, if◌then◌else◌, or_else,
}
use capnp_deno.Transport.CircuitBreaker.{
  BreakerState, closed, opened, half_open, Config, Breaker, circuit_open, same_state, transition_to,
  on_success, on_failure, enter, begin, settle, System, after_begin, CallStep, begins, settles,
  Reachable, starts, steps,
}

-- How many of the calls in flight are probes.
abbrev pub as_number : Bool → ℕ
as_number true = 1
as_number false = 0

unfoldable pub probes : List Bool → ℕ
probes [] = 0
probes (call ∷ calls) = as_number call + probes calls

probes-append : (before after : List Bool) → probes (before ++ after) ≡ probes before + probes after
unfolding probes
probes-append [] after = omega arith
probes-append (call ∷ calls) after = rw (probes-append calls after) (omega arith)

-- What holds of both branches of a test holds of the test.
both {ℓ κ} :
    {A : Type ℓ} → (P : A → Type κ) (c : Bool) (x y : A) → P x → P y → P (if c then x else y)
both P true x y p q = p
both P false x y p q = q

abbrev Keeps : Bool → Breaker → Type 0
Keeps flag b = b.half_open_probe_in_flight ≡ flag

transition_to-Keeps :
    (new : BreakerState) (b : Breaker) → Keeps b.half_open_probe_in_flight (transition_to new b)
unfolding transition_to
transition_to-Keeps new b = both (Keeps _) (same_state b.state new) _ _ refl refl

on_success-Keeps : (b : Breaker) → Keeps b.half_open_probe_in_flight (on_success b)
unfolding on_success
on_success-Keeps b =
    both (Keeps _) (not (same_state b.state closed)) _ _ (transition_to-Keeps closed _) refl

-- The invariant: the flag says whether there is a probe among the calls in flight.
abbrev pub IsCounted : System → Type 0
IsCounted s = probes s.in_flight ≡ as_number s.breaker.half_open_probe_in_flight

IsCounted-probe :
    (flag : Bool) (before after : List Bool)
    → probes (before ++ true ∷ after) ≡ as_number flag
    → probes (before ++ after) ≡ 0
unfolding probes
IsCounted-probe true before after e =
    rw (probes-append before after) (omega (arith, probes-append before (true ∷ after)))
IsCounted-probe false before after e =
    rw (probes-append before after) (omega (arith, probes-append before (true ∷ after)))

IsCounted-other :
    (before after : List Bool) → probes (before ++ false ∷ after) ≡ probes (before ++ after)
unfolding probes
IsCounted-other before after =
    probes-append before (false ∷ after)
    ∙ ap (λ n. probes before + n) (omega arith)
    ∙ sym (probes-append before after)

module _ (config : Config) where
  on_failure-Keeps :
      (now : ℕ) (b : Breaker) → Keeps b.half_open_probe_in_flight (on_failure config now b)
  unfolding on_failure
  on_failure-Keeps now b =
      both (Keeps _) (same_state b.state half_open) _ _ (transition_to-Keeps opened _)
        (both (Keeps _) _ _ _ (transition_to-Keeps opened _) refl)

  enter-IsCounted :
      (b : Breaker) (pending : List Bool)
      → IsCounted (record { breaker = b; in_flight = pending })
      → IsCounted (after_begin (enter config b) pending)
  unfolding enter probes
  enter-IsCounted b pending c =
      both (λ r. IsCounted (after_begin r pending)) (same_state b.state half_open) _ _
        (elim (Bool-cases b.half_open_probe_in_flight) [
          | inl busy ↦ rw busy (c ∙ ap as_number busy)
          | inr free ↦ rw free (omega (arith, c ∙ ap as_number free))
        ])
        (omega (arith, c))

  begin-IsCounted :
      (first_now now : ℕ) (b : Breaker) (pending : List Bool)
      → IsCounted (record { breaker = b; in_flight = pending })
      → IsCounted (after_begin (begin config first_now now b) pending)
  unfolding begin
  begin-IsCounted first_now now b pending c =
      both (λ r. IsCounted (after_begin r pending)) (same_state b.state opened) _ _
        (both (λ r. IsCounted (after_begin r pending))
          (ltb now (or_else b.opened_at_ms first_now + config.cooldown_ms))
          (b, err (circuit_open (or_else b.opened_at_ms first_now + config.cooldown_ms - now)))
          (enter config (transition_to half_open b)) c
          (enter-IsCounted (transition_to half_open b) pending
            (c ∙ ap as_number (sym (transition_to-Keeps half_open b)))))
        (enter-IsCounted b pending c)

  settle-Keeps :
      (success : Bool) (now : ℕ) (b : Breaker)
      → Keeps b.half_open_probe_in_flight (settle config false success now b)
  unfolding settle
  settle-Keeps success now b =
      both (Keeps _) success _ _ (on_success-Keeps b) (on_failure-Keeps now b)

  step-IsCounted : (s t : System) → CallStep config s t → IsCounted s → IsCounted t
  unfolding settle
  step-IsCounted _ _ (begins first_now now b pending) c = begin-IsCounted first_now now b pending c
  step-IsCounted _ _ (settles before after true success now b) c =
      IsCounted-probe b.half_open_probe_in_flight before after c
  step-IsCounted _ _ (settles before after false success now b) c =
      sym (IsCounted-other before after) ∙ c ∙ ap as_number (sym (settle-Keeps success now b))

  -- As long as nobody calls `reset`, and however calls begin and settle, the breaker's flag says
  -- whether there is a probe in flight, and there is never more than one.
  pub probes_bounded :
      (s : System) → Reachable (CallStep config) s → IsCounted s × (probes s.in_flight ≤ 1)
  unfolding probes
  probes_bounded s r = (counted s r, at_most_one s (counted s r))
    where
      counted : (s : System) → Reachable (CallStep config) s → IsCounted s
      counted _ starts = refl
      counted _ (steps s t before step) = step-IsCounted s t step (counted s before)

      at_most_one : (s : System) → IsCounted s → probes s.in_flight ≤ 1
      at_most_one s c = elim (Bool-cases s.breaker.half_open_probe_in_flight) [
        | inl one ↦ omega (arith, c ∙ ap as_number one)
        | inr zero ↦ omega (arith, c ∙ ap as_number zero)
      ]
