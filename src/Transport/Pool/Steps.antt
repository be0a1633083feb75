-- ===== src/Transport/Pool/Steps.antt =====
-- The pool with what goes on around it: connections under a health check, and attempts that connect, in any
-- order.
use capnp_deno.Base.{ℕ, ◌+◌, ◌<◌, ◌≡◌, Bool, true, List, [], ◌∷◌, ◌++◌, if◌then◌else◌, count}
use capnp_deno.Transport.Pool.{
  PoolOptions, Pool, Acquire, returned, checking, creating, waiting, thrown, new_pool, has, acquire,
  health_checked, release, evict_idle, attempt_settled, connection_created, reject_pending_acquire,
  begin_close, do_close, can_create_connection, delete,
}
use capnp_deno.Transport.Pool.Drain.{
  schedule_pending_create_drain, drain_connected, drain_failed, drain_finished, abandoned_connected,
  warmup_connected,
}
use capnp_deno.Transport.Pool.Accounts.{queues}
use capnp_deno.Transport.Pool.Moves.{in_check}

-- The connections made so far are the numbers below `known`; `queued` are the acquires that had to wait.
-- `given` are the connections that acquires returned without a wait in the queue, and `taken_back` those that were
-- released while they were active, or active when the close swept them up.
pub record System : Type 0 where
  pub pool : Pool
  pub checks : List ℕ
  pub known : ℕ
  pub queued : List ℕ
  pub given : List ℕ
  pub taken_back : List ℕ

abbrev pub started : System
started = record {
  pool = new_pool;
  checks = [];
  known = 0;
  queued = [];
  given = [];
  taken_back = [];
}

-- The connection that a call gives to its acquire.
abbrev pub gives : Acquire → List ℕ
gives (returned conn) = conn ∷ []
gives (checking conn) = []
gives creating = []
gives waiting = []
gives thrown = []

-- The connection that a call of `release` takes back.
abbrev pub takes_back : ℕ → Pool → List ℕ
takes_back conn p = if has conn p.active then conn ∷ [] else []

abbrev pub acquired : System → ℕ → Pool × Acquire → System
acquired s id result = record s {
  pool = result.0;
  checks = in_check result.1 ++ s.checks;
  queued = queues result.1 id ++ s.queued;
  given = gives result.1 ++ s.given;
}

-- A new connection has come to the pool.
abbrev pub arrived : System → Pool → System
arrived s p = record s { pool = p; known = s.known + 1 }

abbrev pub created : System → Pool × Acquire → System
created s result = arrived (record s { given = gives result.1 ++ s.given }) result.0

-- One turn of the event loop: a call of the pool, a timer, an abort, or the end of something that it awaits. The
-- factory makes a new connection each time.
pub data Step (options : PoolOptions) : System → System → Type 0 where
  acquires :
      (s : System) (now id : ℕ) (aborted : Bool)
      → Step options s (acquired s id (acquire options now id aborted s.pool))
  finishes_check :
      (s : System) (now id conn : ℕ) (healthy aborted : Bool)
      → 0 < count conn s.checks
      → Step options s (
          acquired
            (record s { checks = delete conn s.checks })
            id
            (health_checked options now id conn healthy aborted s.pool))
  releases :
      (s : System) (conn now : ℕ)
      → Step options s (record s {
        pool = release conn now s.pool;
        taken_back = takes_back conn s.pool ++ s.taken_back;
      })
  evicts :
      (s : System) (conn : ℕ) → Step options s (record s { pool = evict_idle options conn s.pool })
  gives_up :
      (s : System) (id : ℕ) → Step options s (record s { pool = reject_pending_acquire id s.pool })
  settles : (s : System) → Step options s (record s { pool = attempt_settled s.pool })
  creates : (s : System) → Step options s (created s (connection_created s.known s.pool))
  fails :
      (s : System)
      → Step options s (record s { pool = schedule_pending_create_drain options s.pool })
  abandons : (s : System) → Step options s (arrived s (abandoned_connected options s.known s.pool))
  drains :
      (s : System) (now : ℕ)
      → Step options s (arrived s (drain_connected options s.known now s.pool))
  drain_fails : (s : System) → Step options s (record s { pool = drain_failed options s.pool })
  drain_ends : (s : System) → Step options s (record s { pool = drain_finished options s.pool })
  warms : (s : System) (now : ℕ) → Step options s (arrived s (warmup_connected s.known now s.pool))
  begins_warmup :
      (s : System)
      → can_create_connection options s.pool ≡ true
      → Step options s (record s { pool = record s.pool { connecting = s.pool.connecting + 1 } })
  closes : (s : System) → Step options s (record s { pool = begin_close s.pool })
  sweeps :
      (s : System)
      → s.pool.closed ≡ true
      → Step options s
          (record s { pool = do_close s.pool; taken_back = s.pool.active ++ s.taken_back })

pub data Reachable (options : PoolOptions) : System → Type 0 where
  starts : Reachable options started
  steps : (s t : System) → Reachable options s → Step options s t → Reachable options t
