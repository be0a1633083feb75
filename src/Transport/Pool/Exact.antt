-- ===== src/Transport/Pool/Exact.antt =====
-- Where every connection is, in every interleaving of the pool's steps.
use capnp_deno.Base.{
  ℕ, ◌+◌, ◌<◌, ◌≡◌, ap, ◌∙◌, false, arith, ltb, if◌then◌else◌, count, count-append,
}
use capnp_deno.Transport.Pool.{
  PoolOptions, Pool, Acquire, acquire, health_checked, release, evict_idle, connection_created,
  reject_pending_acquire, do_close, delete,
}
use capnp_deno.Transport.Pool.Drain.{
  schedule_pending_create_drain, drain_connected, drain_failed, drain_finished, abandoned_connected,
  warmup_connected,
}
use capnp_deno.Transport.Pool.Places.{
  one, placed, Gains, SamePlaces-placed, count-delete, reject_pending_acquire-SamePlaces,
  schedule_pending_create_drain-SamePlaces, drain_failed-SamePlaces, drain_connected-Gains,
  abandoned_connected-Gains, warmup_connected-Gains, connection_created-Gains,
}
use capnp_deno.Transport.Pool.Moves.{
  Single, Keeps, KeepsChecked, in_check, release-Keeps, evict_idle-Keeps, acquire-Keeps,
  health_checked-Keeps, do_close-Keeps,
}
use capnp_deno.Transport.Pool.Steps.{
  System, acquired, arrived, Step, Reachable, acquires, finishes_check, releases, evicts, gives_up,
  settles, creates, fails, abandons, drains, drain_fails, drain_ends, warms, begins_warmup, closes,
  sweeps, starts, steps,
}

-- In how many places a connection is: idle, active, closed, or under a health check.
abbrev pub places : ℕ → System → ℕ
places c s = placed c s.pool + count c s.checks

-- Every connection that was made is in exactly one place, and no other is anywhere.
abbrev pub IsExact : System → Type 0
IsExact s = (c : ℕ) → places c s ≡ (if ltb c s.known then 1 else 0)

IsExact-Single : (s : System) → IsExact s → Single s.pool
IsExact-Single s v c = ground (arith, v c)

loose : (s : System) → IsExact s → placed s.known s.pool ≡ 0
loose s v = ground (arith, v s.known)

arrived-IsExact :
    (s : System) (p : Pool) → IsExact s → Gains s.known p s.pool → IsExact (arrived s p)
arrived-IsExact s p v gains c = ground (arith, v c, gains c)

kept-IsExact :
    (s : System) (p : Pool) → IsExact s → Keeps p s.pool → IsExact (record s { pool = p })
kept-IsExact s p v same c = ap (λ n. n + count c s.checks) (same c) ∙ v c

acquired-IsExact :
    (s : System) (id : ℕ) (result : Pool × Acquire)
    → IsExact s
    → KeepsChecked result (λ c. placed c s.pool)
    → IsExact (acquired s id result)
acquired-IsExact s id result v keeps c =
    omega (arith, keeps c, count-append c (in_check result.1) s.checks) ∙ v c

checked-IsExact :
    (s : System) (id conn : ℕ) (result : Pool × Acquire)
    → IsExact s
    → 0 < count conn s.checks
    → KeepsChecked result (λ c. placed c s.pool + one c conn)
    → IsExact (acquired (record s { checks = delete conn s.checks }) id result)
checked-IsExact s id conn result v there keeps c =
    let same : places c (acquired (record s { checks = delete conn s.checks }) id result)
        ≡ places c s =
      ground (
        arith,
        keeps c,
        v c,
        v conn,
        count-append c (in_check result.1) (delete conn s.checks),
        count-delete c conn s.checks,
      ) in
    same ∙ v c

Step-IsExact : (options : PoolOptions) (s t : System) → Step options s t → IsExact s → IsExact t
unfolding drain_finished
Step-IsExact options _ _ (acquires s now id aborted) v =
    acquired-IsExact s id (acquire options now id aborted s.pool) v
      (acquire-Keeps options now id aborted s.pool (IsExact-Single s v))
Step-IsExact options _ _ (finishes_check s now id conn healthy aborted there) v =
    let outside : placed conn s.pool ≡ 0 = ground (arith, v conn) in
    checked-IsExact s id conn (health_checked options now id conn healthy aborted s.pool) v there
      (health_checked-Keeps options now id conn healthy aborted s.pool (IsExact-Single s v) outside)
Step-IsExact options _ _ (releases s conn now) v =
    kept-IsExact s (release conn now s.pool) v (release-Keeps conn now s.pool (IsExact-Single s v))
Step-IsExact options _ _ (evicts s conn) v =
    kept-IsExact s (evict_idle options conn s.pool) v
      (evict_idle-Keeps options conn s.pool (IsExact-Single s v))
Step-IsExact options _ _ (gives_up s id) v = kept-IsExact s (reject_pending_acquire id s.pool) v (
    SamePlaces-placed (reject_pending_acquire id s.pool) s.pool
      (reject_pending_acquire-SamePlaces id s.pool))
Step-IsExact options _ _ (settles s) v = v
Step-IsExact options _ _ (creates s) v =
    arrived-IsExact s (connection_created s.known s.pool).0 v
      (connection_created-Gains s.known s.pool (loose s v))
Step-IsExact options _ _ (fails s) v =
    kept-IsExact s (schedule_pending_create_drain options s.pool) v (
      SamePlaces-placed (schedule_pending_create_drain options s.pool) s.pool
        (schedule_pending_create_drain-SamePlaces options s.pool))
Step-IsExact options _ _ (abandons s) v =
    arrived-IsExact s (abandoned_connected options s.known s.pool) v
      (abandoned_connected-Gains options s.known s.pool (loose s v))
Step-IsExact options _ _ (drains s now) v =
    arrived-IsExact s (drain_connected options s.known now s.pool) v
      (drain_connected-Gains options s.known now s.pool (loose s v))
Step-IsExact options _ _ (drain_fails s) v = kept-IsExact s (drain_failed options s.pool) v (
    SamePlaces-placed (drain_failed options s.pool) s.pool (drain_failed-SamePlaces options s.pool))
Step-IsExact options _ _ (drain_ends s) v = kept-IsExact s (drain_finished options s.pool) v (
    SamePlaces-placed (drain_finished options s.pool) s.pool
      (schedule_pending_create_drain-SamePlaces options (record s.pool { drain_running = false })))
Step-IsExact options _ _ (warms s now) v =
    arrived-IsExact s (warmup_connected s.known now s.pool) v
      (warmup_connected-Gains s.known now s.pool (loose s v))
Step-IsExact options _ _ (begins_warmup s _) v = v
Step-IsExact options _ _ (closes s) v = v
Step-IsExact options _ _ (sweeps s _) v = kept-IsExact s (do_close s.pool) v (do_close-Keeps s.pool)

pub Reachable-IsExact : (options : PoolOptions) (s : System) → Reachable options s → IsExact s
unfolding count
Reachable-IsExact options _ starts = λ c. ground arith
Reachable-IsExact options _ (steps s t r step) =
    Step-IsExact options s t step (Reachable-IsExact options s r)
