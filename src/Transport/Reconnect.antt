-- ===== src/Transport/Reconnect.antt =====
-- `connectWithReconnect` of rpc/transports/resilience/reconnect.ts, with `shouldRetry` of the policy
-- that `createExponentialBackoffReconnectPolicy` returns. What `connect`, `sleep`, `nextDelayMs`,
-- the signal and the clock give comes from outside, once for each turn of the loop. Times are whole
-- milliseconds; the retry observers, whose errors are swallowed, are left out.
pub mod Attempts
mod Tests
use capnp_deno.Base.{
  ℕ, zero, suc, ◌+◌, ◌-◌, Bool, true, false, Option, none, some, Result, ok, err, ltb,
  if◌then◌else◌,
}

-- What ends the loop.
pub data Ending {ℓ κ} (A : Type ℓ) (E : Type κ) : Type (ℓ ⊔ κ) where
  connected : A → Ending A E
  gave_up : E → Ending A E
  aborted : Ending A E
  policy_failed : E → Ending A E
  invalid_delay : Ending A E
  sleep_failed : E → Ending A E

-- What the outside gives in one turn. A delay is `none` when it is negative or not finite.
pub record Turn {ℓ κ} (A : Type ℓ) (E : Type κ) : Type (ℓ ⊔ κ) where
  pub aborted_before : Bool
  pub connect : Result E A
  pub now : ℕ
  pub delay : Result E (Option ℕ)
  pub aborted_after : Bool
  pub sleep : Result E (Unit {0})

-- `ReconnectPolicyContext`
pub record Context {κ} (E : Type κ) : Type κ where
  pub attempt : ℕ
  pub elapsed_ms : ℕ
  pub error : E

-- The two options of the exponential policy that `shouldRetry` reads.
pub record BackoffOptions : Type 0 where
  pub max_attempts : ℕ
  pub max_elapsed_ms : Option ℕ

-- `maxElapsedMs !== undefined && context.elapsedMs > maxElapsedMs`
abbrev pub too_late : Option ℕ → ℕ → Bool
too_late none elapsed = false
too_late (some limit) elapsed = ltb limit elapsed

-- `shouldRetry`, on a context whose two numbers are non-negative integers.
unfoldable pub should_retry {κ} : {E : Type κ} → BackoffOptions → Context E → Result E Bool
should_retry options context =
    if ltb options.max_attempts context.attempt
    then ok false
    else if too_late options.max_elapsed_ms context.elapsed_ms
    then ok false
    else ok true

module _ {ℓ κ} {A : Type ℓ} {E : Type κ} (retry : Context E → Result E Bool) where
  -- From the computed delay to the next turn: `none` goes on.
  unfoldable pub pause : Turn A E → Option (Ending A E)
  pause turn = elim turn.delay [
    | err e ↦ some (policy_failed e)
    | ok none ↦ some invalid_delay
    | ok (some _) ↦
        if turn.aborted_after
        then some aborted
        else elim turn.sleep [ err e ↦ some (sleep_failed e) | ok _ ↦ none ]
  ]

  -- The `catch` of `connect`.
  unfoldable pub after_failure : Context E → Turn A E → Option (Ending A E)
  after_failure context turn = elim (retry context) [
    | err e ↦ some (policy_failed e)
    | ok false ↦ some (gave_up context.error)
    | ok true ↦ pause turn
  ]

  -- One turn of the loop, after `attempts` failures.
  unfoldable pub take_turn : ℕ → ℕ → Turn A E → Option (Ending A E)
  take_turn started attempts turn =
      if turn.aborted_before then some aborted else elim turn.connect [
        | ok connection ↦ some (connected connection)
        | err e ↦
            after_failure
              (record { attempt = attempts + 1; elapsed_ms = turn.now - started; error = e }) turn
      ]

  -- `connectWithReconnect`, on fuel.
  unfoldable pub connect_with_reconnect : ℕ → ℕ → ℕ → (ℕ → Turn A E) → Option (Ending A E)
  connect_with_reconnect zero started attempts turns = none
  connect_with_reconnect (suc fuel) started attempts turns =
      elim (take_turn started attempts (turns attempts)) [
        | some ending ↦ some ending
        | none ↦ connect_with_reconnect fuel started (attempts + 1) turns
      ]
