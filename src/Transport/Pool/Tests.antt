-- ===== src/Transport/Pool/Tests.antt =====
-- The connection pool at concrete runs.
use capnp_deno.Base.{◌≡◌, refl, true, false, [], ◌∷◌, ◌++◌, count}
use capnp_deno.Base.Int.{pos}
use capnp_deno.Transport.Pool.{
  PoolOptions, Pool, new_pool, has, add, delete, take_loop, finish_take, take_next_pending_acquire,
  hand_to, handoff_pending_acquire, hand_or_park, compact_pending, release, can_create_connection,
  acquire_new, acquire_idle, acquire_first, acquire_loop, acquire, health_checked, attempt_settled,
  connection_created, begin_close, do_close, waiting_ids,
}
use capnp_deno.Transport.Pool.Steps.{
  System, started, acquired, created, takes_back, acquires, settles, creates, releases, Reachable,
  starts, steps,
}
use capnp_deno.Transport.Pool.Exact.{IsExact}
use capnp_deno.Transport.Pool.Held.{handouts, IsHeld, Reachable-IsHeld}
use capnp_deno.Transport.Pool.Told.{IsTold, Reachable-IsTold}
use capnp_deno.Transport.Pool.Order.{Served, release_first}

-- One connection at most, whose health is checked at every use.
abbrev careful : PoolOptions
careful = record {
  min_connections = 0;
  max_connections = 1;
  has_health_check = true;
  health_check_idle_ms = 0;
}

-- An acquire connects, a second one waits and gets the first one's connection.
abbrev first_asked : System
first_asked = acquired started 0 (acquire careful 0 0 false started.pool)

abbrev first_settled : System
first_settled = record first_asked { pool = attempt_settled first_asked.pool }

abbrev first_served : System
first_served = created first_settled (connection_created first_settled.known first_settled.pool)

abbrev second_asked : System
second_asked = acquired first_served 1 (acquire careful 5 1 false first_served.pool)

abbrev second_served : System
second_served = record second_asked {
  pool = release 0 6 second_asked.pool;
  taken_back = takes_back 0 second_asked.pool ++ second_asked.taken_back;
}

second_served-Reachable : Reachable careful second_served
second_served-Reachable =
    steps _ _
      (steps _ _
        (steps _ _ (steps _ _ (steps _ _ starts (acquires started 0 0 false)) (settles first_asked))
          (creates first_settled))
        (acquires first_served 5 1 false))
      (releases second_asked 0 6)

second_has_it : second_served.pool.resolved ≡ (1, 0) ∷ []
unfolding acquire acquire_loop acquire_first acquire_new can_create_connection connection_created
    release has add delete hand_or_park handoff_pending_acquire hand_to take_next_pending_acquire
    finish_take take_loop compact_pending
second_has_it = refl

handed_twice : handouts 0 second_served ≡ 2
unfolding acquire acquire_loop acquire_first acquire_new can_create_connection connection_created
    release has add delete hand_or_park handoff_pending_acquire hand_to take_next_pending_acquire
    finish_take take_loop compact_pending count
handed_twice = refl

Reachable-IsHeld_example : IsExact second_served × IsHeld second_served
Reachable-IsHeld_example = Reachable-IsHeld careful second_served second_served-Reachable

Reachable-IsTold_example : IsTold second_served
Reachable-IsTold_example = Reachable-IsTold careful second_served second_served-Reachable

abbrev two_wait : Pool
two_wait = record new_pool {
  active = 4 ∷ [];
  pending =
      record { id = 7; settled = true }
      ∷ record { id = 8; settled = false }
      ∷ record { id = 9; settled = false }
      ∷ [];
  pending_settled = pos 1;
}

four_held : has 4 two_wait.active ≡ true
unfolding has
four_held = refl

four_not_idle : count 4 [] ≡ 0
unfolding count
four_not_idle = refl

release_first_example : Served 4 (waiting_ids two_wait.pending) two_wait (release 4 0 two_wait)
release_first_example = release_first 4 0 two_wait four_held refl four_not_idle

-- While the health of the only connection is checked, a second acquire makes another one.
abbrev one_idle : Pool
one_idle = record new_pool { idle = record { conn = 0; last_used_at = 0 } ∷ [] }

abbrev in_check_then_new : Pool
in_check_then_new = (acquire careful 9 1 false (acquire careful 9 0 false one_idle).0).0

abbrev both_held : Pool
both_held =
    (connection_created 1
      (attempt_settled (health_checked careful 9 0 0 true false in_check_then_new).0)).0

over_capacity : both_held.active ≡ 0 ∷ 1 ∷ []
unfolding acquire acquire_loop acquire_first acquire_new acquire_idle can_create_connection
    connection_created health_checked has add
over_capacity = refl

-- A connection whose check ends after the pool was closed and swept is handed out.
abbrev closed_in_check : Pool
closed_in_check = do_close (begin_close (acquire careful 9 0 false one_idle).0)

handed_after_close : (health_checked careful 9 0 0 true false closed_in_check).0.active ≡ 0 ∷ []
unfolding acquire acquire_loop acquire_first acquire_idle health_checked has add do_close
    waiting_ids
handed_after_close = refl
