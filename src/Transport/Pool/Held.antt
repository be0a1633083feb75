-- ===== src/Transport/Pool/Held.antt =====
-- Who has every connection, in every interleaving of the pool's steps.
use capnp_deno.Base.{ℕ, ◌+◌, ◌≡◌, refl, false, List, ◌++◌, arith, count, count-append}
use capnp_deno.Transport.Pool.{
  PoolOptions, Pool, Acquire, acquire, health_checked, release, connection_created,
  reject_pending_acquire, do_close,
}
use capnp_deno.Transport.Pool.Drain.{schedule_pending_create_drain, drain_failed, drain_finished}
use capnp_deno.Transport.Pool.Places.{
  SamePlaces, reject_pending_acquire-SamePlaces, schedule_pending_create_drain-SamePlaces,
  drain_failed-SamePlaces,
}
use capnp_deno.Transport.Pool.Steps.{
  System, gives, takes_back, Step, Reachable, acquires, finishes_check, releases, evicts, gives_up,
  settles, creates, fails, abandons, drains, drain_fails, drain_ends, warms, begins_warmup, closes,
  sweeps, starts, steps,
}
use capnp_deno.Transport.Pool.Handouts.{
  handed, Hands, HandsBack, HandsOut, Apart, SamePlaces-Hands, release-HandsBack, evict_idle-Hands,
  acquire-HandsOut, health_checked-HandsOut, connection_created-HandsOut, drain_connected-Hands,
  abandoned_connected-Hands, warmup_connected-Hands, do_close-HandsBack,
}
use capnp_deno.Transport.Pool.Exact.{IsExact, Reachable-IsExact}

-- How often a connection was handed to an acquire.
abbrev pub handouts : ℕ → System → ℕ
handouts c s = count c s.given + handed c s.pool

-- A connection was handed out as often as it was taken back, and once more while it is active.
abbrev pub IsHeld : System → Type 0
IsHeld s = (c : ℕ) → handouts c s ≡ count c s.taken_back + count c s.pool.active

apart : (s : System) → IsExact s → Apart s.pool
apart s exact c = ground (arith, exact c)

loose : (s : System) → IsExact s → count s.known s.pool.active ≡ 0
loose s exact = ground (arith, exact s.known)

kept-IsHeld :
    (s t : System)
    → IsHeld s
    → Hands t.pool s.pool
    → t.given ≡ s.given
    → t.taken_back ≡ s.taken_back
    → IsHeld t
kept-IsHeld s t v hands given back c = rw (given, back) (omega (arith, hands c, v c))

back-IsHeld :
    (s : System) (back : List ℕ) (p : Pool)
    → IsHeld s
    → HandsBack back p s.pool
    → IsHeld (record s { pool = p; taken_back = back ++ s.taken_back })
back-IsHeld s back p v hands c = omega (arith, hands c, v c, count-append c back s.taken_back)

out-IsHeld :
    (s t : System) (result : Pool × Acquire)
    → IsHeld s
    → HandsOut s.pool result
    → t.pool ≡ result.0
    → t.given ≡ gives result.1 ++ s.given
    → t.taken_back ≡ s.taken_back
    → IsHeld t
out-IsHeld s t result v hands pool given back c =
    rw (pool, given, back) (omega (arith, hands c, v c, count-append c (gives result.1) s.given))

same-IsHeld :
    (s : System) (p : Pool) → IsHeld s → SamePlaces p s.pool → IsHeld (record s { pool = p })
same-IsHeld s p v same =
    kept-IsHeld s (record s { pool = p }) v (SamePlaces-Hands p s.pool same) refl refl

Step-IsHeld :
    (options : PoolOptions) (s t : System) → Step options s t → IsExact s → IsHeld s → IsHeld t
unfolding drain_finished
Step-IsHeld options _ t (acquires s now id aborted) exact v =
    out-IsHeld s t (acquire options now id aborted s.pool) v
      (acquire-HandsOut options now id aborted s.pool (apart s exact)) refl refl refl
Step-IsHeld options _ t (finishes_check s now id conn healthy aborted there) exact v =
    let out : count conn s.pool.active ≡ 0 = ground (arith, exact conn) in
    out-IsHeld s t (health_checked options now id conn healthy aborted s.pool) v
      (health_checked-HandsOut options now id conn healthy aborted s.pool (apart s exact) out) refl
      refl refl
Step-IsHeld options _ _ (releases s conn now) exact v =
    back-IsHeld s (takes_back conn s.pool) (release conn now s.pool) v
      (release-HandsBack conn now s.pool (apart s exact))
Step-IsHeld options _ t (evicts s conn) exact v =
    kept-IsHeld s t v (evict_idle-Hands options conn s.pool) refl refl
Step-IsHeld options _ _ (gives_up s id) exact v =
    same-IsHeld s (reject_pending_acquire id s.pool) v (reject_pending_acquire-SamePlaces id s.pool)
Step-IsHeld options _ _ (settles s) exact v = v
Step-IsHeld options _ t (creates s) exact v =
    out-IsHeld s t (connection_created s.known s.pool) v
      (connection_created-HandsOut s.known s.pool (loose s exact)) refl refl refl
Step-IsHeld options _ _ (fails s) exact v =
    same-IsHeld s (schedule_pending_create_drain options s.pool) v
      (schedule_pending_create_drain-SamePlaces options s.pool)
Step-IsHeld options _ t (abandons s) exact v =
    kept-IsHeld s t v (abandoned_connected-Hands options s.known s.pool (loose s exact)) refl refl
Step-IsHeld options _ t (drains s now) exact v =
    kept-IsHeld s t v (drain_connected-Hands options s.known now s.pool (loose s exact)) refl refl
Step-IsHeld options _ _ (drain_fails s) exact v =
    same-IsHeld s (drain_failed options s.pool) v (drain_failed-SamePlaces options s.pool)
Step-IsHeld options _ _ (drain_ends s) exact v =
    same-IsHeld s (drain_finished options s.pool) v
      (schedule_pending_create_drain-SamePlaces options (record s.pool { drain_running = false }))
Step-IsHeld options _ t (warms s now) exact v =
    kept-IsHeld s t v (warmup_connected-Hands s.known now s.pool (loose s exact)) refl refl
Step-IsHeld options _ _ (begins_warmup s _) exact v = v
Step-IsHeld options _ _ (closes s) exact v = v
Step-IsHeld options _ _ (sweeps s _) exact v =
    back-IsHeld s s.pool.active (do_close s.pool) v (do_close-HandsBack s.pool)

IsHeld-always : (options : PoolOptions) (s : System) → Reachable options s → IsHeld s
unfolding count
IsHeld-always options _ starts = λ c. refl
IsHeld-always options _ (steps s t r step) =
    Step-IsHeld options s t step (Reachable-IsExact options s r) (IsHeld-always options s r)

-- In every interleaving of calls, timers, aborts and arrivals, from an empty pool on, each connection that
-- was made is in exactly one place: idle, active, under a health check, or closed. It was handed to acquires
-- as often as it was taken back, by a release while it was active or by the sweep of the close, and
-- once more exactly while it is active.
pub Reachable-IsHeld :
    (options : PoolOptions) (s : System) → Reachable options s → IsExact s × IsHeld s
Reachable-IsHeld options s r = (Reachable-IsExact options s r, IsHeld-always options s r)
