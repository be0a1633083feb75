-- ===== src/Transport/Reconnect/Tests.antt =====
-- The reconnect loop: two failures, then a connection, under a policy of three attempts.
use capnp_deno.Base.{ℕ, ◌≤◌, ◌≡◌, refl, false, some, ok, err, ltb, if◌then◌else◌}
use capnp_deno.Transport.Reconnect.{
  Ending, connected, Turn, BackoffOptions, should_retry, connect_with_reconnect, take_turn,
  after_failure, pause,
}
use capnp_deno.Transport.Reconnect.Attempts.{decided, Undecided, connect_with_reconnect-ends}

abbrev three : BackoffOptions
three = record { max_attempts = 3; max_elapsed_ms = some 1000 }

abbrev turns : ℕ → Turn ℕ ℕ
turns n = record {
  aborted_before = false;
  connect = if ltb n 2 then err n else ok 7;
  now = 100;
  delay = ok (some 10);
  aborted_after = false;
  sleep = ok tt;
}

connects : connect_with_reconnect (should_retry three) 4 50 0 turns ≡ some (connected 7)
unfolding connect_with_reconnect take_turn after_failure pause should_retry
connects = refl

connect_with_reconnect-ends_example :
    (count : ℕ) × (ending : Ending ℕ ℕ) × (count ≤ 3)
    × Undecided three 50 turns 0 count
    × (decided three 50 turns count ≡ some ending)
    × (connect_with_reconnect (should_retry three) 4 50 0 turns ≡ some ending)
connect_with_reconnect-ends_example = connect_with_reconnect-ends three 50 turns
