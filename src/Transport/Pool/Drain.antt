-- ===== src/Transport/Pool/Drain.antt =====
-- connection_pool.ts: the attempts to connect that the pool makes by itself, for acquires that wait and for the
-- warm-up, and the attempts whose acquire was aborted.
use capnp_deno.Base.{
  ℕ, ◌+◌, Bool, true, false, not, ◌&&◌, ◌||◌, Option, none, some, [], ◌∷◌, ◌++◌, length,
  if◌then◌else◌,
}
use capnp_deno.Base.Int.{pos, ltb_ℤ}
use capnp_deno.Transport.Pool.{
  PoolOptions, Pool, can_create_connection, close_connection, take_next_pending_acquire,
  handoff_pending_acquire, hand_or_park, park_idle_connection,
}

-- `#hasPendingAcquires`
abbrev pub has_pending_acquires : Pool → Bool
has_pending_acquires p = ltb_ℤ p.pending_settled (pos (length p.pending))

-- The test of the loop of `#drainPendingAcquires`, and the attempt that a turn begins. When the loop ends, the
-- flag is cleared in a later turn of the event loop (`drain_finished`).
unfoldable pub drain_turn : PoolOptions → Pool → Pool
drain_turn options p =
    if not p.closed && (has_pending_acquires p && can_create_connection options p)
    then record p { connecting = p.connecting + 1 }
    else p

-- `#schedulePendingCreateDrain`
unfoldable pub schedule_pending_create_drain : PoolOptions → Pool → Pool
schedule_pending_create_drain options p =
    if p.drain_running
      || (p.closed || (not (has_pending_acquires p) || not (can_create_connection options p)))
    then p
    else drain_turn options (record p { drain_running = true })

-- The loop after its attempt has connected; the attempt was taken off the count before.
unfoldable pub drain_connected : PoolOptions → ℕ → ℕ → Pool → Pool
drain_connected options conn now p =
    if p.closed
    then close_connection conn p
    else let (after, handed) = handoff_pending_acquire conn p in
      if handed then drain_turn options after else park_idle_connection conn now after

-- A waiting acquire, if there is one, gets the error.
abbrev pub reject_taken : Pool × Option ℕ → Pool
reject_taken (p, none) = p
reject_taken (p, some id) = record p { rejected = p.rejected ++ id ∷ [] }

-- The loop after its attempt has failed.
unfoldable pub drain_failed : PoolOptions → Pool → Pool
drain_failed options p = drain_turn options (reject_taken (take_next_pending_acquire p))

-- The `finally` of the drain.
unfoldable pub drain_finished : PoolOptions → Pool → Pool
drain_finished options p =
    schedule_pending_create_drain options (record p { drain_running = false })

-- `#createConnection` when its attempt has failed or its acquire was aborted.
abbrev pub connection_failed : PoolOptions → Pool → Pool
connection_failed = schedule_pending_create_drain

-- `#awaitConnectAttempt`, when the attempt of an aborted acquire connects after all.
unfoldable pub abandoned_connected : PoolOptions → ℕ → Pool → Pool
abandoned_connected options conn p =
    if p.closed
    then schedule_pending_create_drain options (close_connection conn p)
    else let (after, handed) = handoff_pending_acquire conn p in
      schedule_pending_create_drain options (if handed then after else close_connection conn after)

-- `#warmUp`, when one of its attempts connects.
unfoldable pub warmup_connected : ℕ → ℕ → Pool → Pool
warmup_connected conn now p = if p.closed then close_connection conn p else hand_or_park conn now p
