-- ===== src/Transport/Reconnect/Attempts.antt =====
-- The reconnect loop under the exponential policy: it ends, at the first turn that decides.
use capnp_deno.Base.{
  ℕ, zero, suc, ◌+◌, ◌≤◌, ◌≡◌, refl, ap, ◌∙◌, inl, inr, Option, none, some, arith, ltb, Bool-cases,
  Option-cases, Result-cases,
}
use capnp_deno.Transport.Reconnect.{
  Ending, Turn, BackoffOptions, should_retry, after_failure, take_turn, connect_with_reconnect,
}

module _ {ℓ κ} {A : Type ℓ} {E : Type κ} (options : BackoffOptions) (started : ℕ)
    (turns : ℕ → Turn A E) where
  -- What the turn after so many failures decides.
  abbrev pub decided : ℕ → Option (Ending A E)
  decided attempts = take_turn (should_retry options) started attempts (turns attempts)

  -- That many turns in a row, from one on, end in another attempt.
  abbrev pub Undecided : ℕ → ℕ → Type (ℓ ⊔ κ)
  Undecided first zero = Unit
  Undecided first (suc count) = (decided first ≡ none) × Undecided (first + 1) count

  undecided_turn : (attempts : ℕ) → decided attempts ≡ none → attempts + 1 ≤ options.max_attempts
  unfolding take_turn after_failure should_retry
  undecided_turn attempts e =
      let turn = turns attempts in
      elim (Bool-cases turn.aborted_before) [
        | inl stopped ↦ cc (rw stopped at e)
        | inr going ↦ elim (Result-cases turn.connect) [
          | inl (connection, opened) ↦ cc (rw (going, opened) at e)
          | inr (error, failed) ↦ elim (Bool-cases (ltb options.max_attempts (attempts + 1))) [
            | inl over ↦ cc (rw (going, failed, after_failure, should_retry, over) at e)
            | inr within ↦ ground arith
          ]
        ]
      ]

  ends :
      (fuel attempts : ℕ)
      → attempts + fuel ≡ options.max_attempts
      → (count : ℕ) × (ending : Ending A E) × (attempts + count ≤ options.max_attempts)
        × Undecided attempts count
        × (decided (attempts + count) ≡ some ending)
        × (connect_with_reconnect (should_retry options) (suc fuel) started attempts turns
            ≡ some ending)
  unfolding connect_with_reconnect
  ends zero attempts at = elim (Option-cases (decided attempts)) [
    | inl on ↦ absurd (omega (arith, undecided_turn attempts on))
    | inr (ending, is) ↦ (
      0,
      ending,
      omega arith,
      tt,
      ap decided (omega arith) ∙ is,
      rw (connect_with_reconnect, is) refl,
    )
  ]
  ends (suc fuel) attempts at = elim (Option-cases (decided attempts)) [
    | inr (ending, is) ↦ (
      0,
      ending,
      omega arith,
      tt,
      ap decided (omega arith) ∙ is,
      rw (connect_with_reconnect, is) refl,
    )
    | inl on ↦
        let (count, ending, bound, before, last, run) = ends fuel (attempts + 1) (omega arith) in
        (
          suc count,
          ending,
          omega arith,
          (on, before),
          ap decided (omega arith) ∙ last,
          rw (connect_with_reconnect, on) run,
        )
  ]

  -- Under the exponential policy the loop ends whatever the connections, the sleeps, the signal and
  -- the clock do: after at most the policy's number of retries, with what the first turn decides
  -- that does not end in another attempt.
  pub connect_with_reconnect-ends :
      (count : ℕ) × (ending : Ending A E) × (count ≤ options.max_attempts)
      × Undecided 0 count
      × (decided count ≡ some ending)
      × (connect_with_reconnect (should_retry options) (suc options.max_attempts) started 0 turns
          ≡ some ending)
  connect_with_reconnect-ends =
      let (count, ending, bound, before, last, run) = ends options.max_attempts 0 (omega arith) in
      (count, ending, omega arith, before, ap decided (omega arith) ∙ last, run)
