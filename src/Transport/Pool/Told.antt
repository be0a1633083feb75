-- ===== src/Transport/Pool/Told.antt =====
-- What became of every acquire that waited, in every interleaving of the pool's steps.
use capnp_deno.Base.{ℕ, ◌≡◌, refl, sym, ap, ◌∙◌, false, List, arith, count, count-append}
use capnp_deno.Transport.Pool.{
  PoolOptions, Pool, Acquire, acquire, health_checked, delete, waiting_ids,
}
use capnp_deno.Transport.Pool.Drain.{drain_finished}
use capnp_deno.Transport.Pool.Waiters.{
  settled_in, IsCounted, told, Remembers, reject_pending_acquire-Remembers, do_close-Remembers,
}
use capnp_deno.Transport.Pool.Accounts.{
  queues, RemembersQueued, release-Remembers, evict_idle-Remembers,
  schedule_pending_create_drain-Remembers, drain_connected-Remembers, drain_failed-Remembers,
  abandoned_connected-Remembers, warmup_connected-Remembers, connection_created-Remembers,
  acquire-Remembers, health_checked-Remembers,
}
use capnp_deno.Transport.Pool.Steps.{
  System, acquired, Step, Reachable, acquires, finishes_check, releases, evicts, gives_up, settles,
  creates, fails, abandons, drains, drain_fails, drain_ends, warms, begins_warmup, closes, sweeps,
  starts, steps,
}

-- The count of settled entries is right, and each acquire that had to wait still waits, was given a
-- connection, or was rejected.
abbrev pub IsTold : System → Type 0
IsTold s = IsCounted s.pool × ((id : ℕ) → told id s.pool ≡ count id s.queued)

Remembers-IsTold :
    (s t : System) → Remembers t.pool s.pool → t.queued ≡ s.queued → IsTold s → IsTold t
Remembers-IsTold s t (keeps, same) queue (right, v) =
    (keeps right, λ id. same id ∙ v id ∙ ap (count id) (sym queue))

acquired-IsTold :
    (s : System) (id : ℕ) (checks : List ℕ) (result : Pool × Acquire)
    → RemembersQueued id s.pool result
    → IsTold s
    → IsTold (acquired (record s { checks = checks }) id result)
acquired-IsTold s id checks result (keeps, same) (right, v) =
    (keeps right, λ c. omega (arith, same c, v c, count-append c (queues result.1 id) s.queued))

Step-IsTold : (options : PoolOptions) (s t : System) → Step options s t → IsTold s → IsTold t
unfolding drain_finished
Step-IsTold options _ _ (acquires s now id aborted) =
    acquired-IsTold s id s.checks (acquire options now id aborted s.pool)
      (acquire-Remembers options now id aborted s.pool)
Step-IsTold options _ _ (finishes_check s now id conn healthy aborted there) =
    acquired-IsTold s id (delete conn s.checks)
      (health_checked options now id conn healthy aborted s.pool)
      (health_checked-Remembers options now id conn healthy aborted s.pool)
Step-IsTold options _ t (releases s conn now) =
    Remembers-IsTold s t (release-Remembers conn now s.pool) refl
Step-IsTold options _ t (evicts s conn) =
    Remembers-IsTold s t (evict_idle-Remembers options conn s.pool) refl
Step-IsTold options _ t (gives_up s id) =
    Remembers-IsTold s t (reject_pending_acquire-Remembers id s.pool) refl
Step-IsTold options _ t (settles s) = Remembers-IsTold s t (λ h. h, λ id. refl) refl
Step-IsTold options _ t (creates s) =
    Remembers-IsTold s t (connection_created-Remembers s.known s.pool) refl
Step-IsTold options _ t (fails s) =
    Remembers-IsTold s t (schedule_pending_create_drain-Remembers options s.pool) refl
Step-IsTold options _ t (abandons s) =
    Remembers-IsTold s t (abandoned_connected-Remembers options s.known s.pool) refl
Step-IsTold options _ t (drains s now) =
    Remembers-IsTold s t (drain_connected-Remembers options s.known now s.pool) refl
Step-IsTold options _ t (drain_fails s) =
    Remembers-IsTold s t (drain_failed-Remembers options s.pool) refl
Step-IsTold options _ t (drain_ends s) =
    Remembers-IsTold s t
      (schedule_pending_create_drain-Remembers options (record s.pool { drain_running = false }))
      refl
Step-IsTold options _ t (warms s now) =
    Remembers-IsTold s t (warmup_connected-Remembers s.known now s.pool) refl
Step-IsTold options _ t (begins_warmup s _) = Remembers-IsTold s t (λ h. h, λ id. refl) refl
Step-IsTold options _ t (closes s) = Remembers-IsTold s t (λ h. h, λ id. refl) refl
Step-IsTold options _ t (sweeps s _) = Remembers-IsTold s t (do_close-Remembers s.pool) refl

-- In every interleaving, from an empty pool on, the count of settled entries of the queue is right, and each
-- acquire that was put into the queue is there unsettled, was given a connection, or was rejected, one of the
-- three and once for each time that it was put there.
pub Reachable-IsTold : (options : PoolOptions) (s : System) → Reachable options s → IsTold s
unfolding count settled_in waiting_ids
Reachable-IsTold options _ starts = (refl, λ id. refl)
Reachable-IsTold options _ (steps s t r step) =
    Step-IsTold options s t step (Reachable-IsTold options s r)
