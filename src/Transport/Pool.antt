-- ===== src/Transport/Pool.antt =====
-- rpc/transports/resilience/connection_pool.ts, `RpcConnectionPool`. An async method is cut where it
-- waits: for a health check, for a connection attempt, or for a release. Connections and waiters are
-- numbers. A timer or an abort is an event, which calls what the code's callback calls.
pub mod Drain
pub mod Places
pub mod Moves
pub mod Accounts
pub mod Order
pub mod Waiters
pub mod Steps
pub mod Exact
pub mod Handouts
pub mod Held
pub mod Told
mod Tests
use capnp_deno.Base.{
  ℕ, ◌+◌, ◌-◌, Bool, true, false, not, ◌&&◌, ◌||◌, Option, none, some, List, [], ◌∷◌, ◌++◌, map,
  length, ltb, leb, ◌==◌, if◌then◌else◌,
}
use capnp_deno.Base.Int.{ℤ, pos, ◌+ℤ◌, ◌-ℤ◌, ltb_ℤ}

-- `RpcConnectionPoolOptions`, as the constructor keeps them; without a health check none is due.
pub record PoolOptions : Type 0 where
  pub min_connections : ℕ
  pub max_connections : ℕ
  pub has_health_check : Bool
  pub health_check_idle_ms : ℕ

-- `IdleEntry`, without its timer.
pub record IdleEntry : Type 0 where
  pub conn : ℕ
  pub last_used_at : ℕ

-- `PendingAcquire`: the number of the acquire, and whether it is settled.
pub record PendingAcquire : Type 0 where
  pub id : ℕ
  pub settled : Bool

-- The private fields, in the order of insertion where the field is a map or a set; and what the pool has
-- done to the outside: the connections it closed, and how it settled acquires that waited.
pub record Pool : Type 0 where
  pub idle : List IdleEntry
  pub active : List ℕ
  pub pending : List PendingAcquire
  pub pending_settled : ℤ
  pub closed : Bool
  pub connecting : ℕ
  pub drain_running : Bool
  pub discarded : List ℕ
  pub resolved : List (ℕ × ℕ)
  pub rejected : List ℕ

abbrev pub new_pool : Pool
new_pool = record {
  idle = [];
  active = [];
  pending = [];
  pending_settled = pos 0;
  closed = false;
  connecting = 0;
  drain_running = false;
  discarded = [];
  resolved = [];
  rejected = [];
}

-- `Set.has`, `Set.add` and `Set.delete`
unfoldable pub has : ℕ → List ℕ → Bool
has c [] = false
has c (x ∷ xs) = c == x || has c xs

unfoldable pub add : ℕ → List ℕ → List ℕ
add c xs = if has c xs then xs else xs ++ c ∷ []

unfoldable pub delete : ℕ → List ℕ → List ℕ
delete c [] = []
delete c (x ∷ xs) = let rest = delete c xs in if c == x then rest else x ∷ rest

-- `Map.set` and `Map.delete` on the idle connections, and the keys.
unfoldable pub set_entry : IdleEntry → List IdleEntry → List IdleEntry
set_entry e [] = e ∷ []
set_entry e (x ∷ xs) = let rest = set_entry e xs in if e.conn == x.conn then e ∷ xs else x ∷ rest

unfoldable pub delete_entry : ℕ → List IdleEntry → List IdleEntry
delete_entry c [] = []
delete_entry c (x ∷ xs) = let rest = delete_entry c xs in if c == x.conn then rest else x ∷ rest

unfoldable pub get_entry : ℕ → List IdleEntry → Option IdleEntry
get_entry c [] = none
get_entry c (x ∷ xs) = let rest = get_entry c xs in if c == x.conn then some x else rest

abbrev pub conns : List IdleEntry → List ℕ
conns [] = []
conns (e ∷ es) = e.conn ∷ conns es

-- `#closeConnection`, whose errors are swallowed.
abbrev pub close_connection : ℕ → Pool → Pool
close_connection conn p = record p { discarded = p.discarded ++ conn ∷ [] }

-- `this.#active.add(conn)`
abbrev pub activate : ℕ → Pool → Pool
activate conn p = record p { active = add conn p.active }

-- `#parkIdleConnection`
unfoldable pub park_idle_connection : ℕ → ℕ → Pool → Pool
park_idle_connection conn last_used_at p = record p {
  idle = set_entry (record { conn = conn; last_used_at = last_used_at }) p.idle;
}

-- `this.#pending.filter((e) => !e.settled)`
unfoldable pub unsettled : List PendingAcquire → List PendingAcquire
unsettled [] = []
unsettled (w ∷ ws) = let rest = unsettled ws in if w.settled then rest else w ∷ rest

-- `#compactPending`
unfoldable pub compact_pending : Pool → Pool
compact_pending p =
    if ltb_ℤ p.pending_settled (pos 16)
    then p
    else record p { pending = unsettled p.pending; pending_settled = pos 0 }

-- The loop of `#takeNextPendingAcquire`: what is left, the count of settled entries, and the acquire taken.
unfoldable pub take_loop : List PendingAcquire → ℤ → List PendingAcquire × ℤ × Option ℕ
take_loop [] settled = ([], settled, none)
take_loop (w ∷ ws) settled =
    let rest = take_loop ws (settled -ℤ pos 1) in
    if w.settled then rest else (ws, settled, some w.id)

-- The lines of `#takeNextPendingAcquire` behind the loop's search.
unfoldable pub finish_take : Pool → Option ℕ → Pool × Option ℕ
finish_take p none = (p, none)
finish_take p (some id) = (compact_pending p, some id)

-- `#takeNextPendingAcquire`
unfoldable pub take_next_pending_acquire : Pool → Pool × Option ℕ
take_next_pending_acquire p =
    let (rest, settled, taken) = take_loop p.pending p.pending_settled in
    finish_take (record p { pending = rest; pending_settled = settled }) taken

-- A connection for the acquire that was taken.
unfoldable pub hand_to : ℕ → Pool × Option ℕ → Pool × Bool
hand_to conn (p, none) = (p, false)
hand_to conn (p, some id) =
    (record (activate conn p) { resolved = p.resolved ++ (id, conn) ∷ [] }, true)

-- `#handoffPendingAcquire`
unfoldable pub handoff_pending_acquire : ℕ → Pool → Pool × Bool
handoff_pending_acquire conn p = hand_to conn (take_next_pending_acquire p)

-- `waiter.settled`, for the acquire with a number. One that has left the list is settled: it was taken,
-- rejected, or compacted away.
unfoldable pub waits : ℕ → List PendingAcquire → Bool
waits id [] = false
waits id (w ∷ ws) = id == w.id && not w.settled || waits id ws

unfoldable pub mark_settled : ℕ → List PendingAcquire → List PendingAcquire
mark_settled id [] = []
mark_settled id (w ∷ ws) =
    let rest = mark_settled id ws in
    if id == w.id && not w.settled then record w { settled = true } ∷ ws else w ∷ rest

-- `#rejectPendingAcquire` with its default, as a timeout or an abort calls it.
unfoldable pub reject_pending_acquire : ℕ → Pool → Pool
reject_pending_acquire id p =
    if waits id p.pending
    then record (compact_pending (record p {
      pending = mark_settled id p.pending;
      pending_settled = p.pending_settled +ℤ pos 1;
    })) { rejected = p.rejected ++ id ∷ [] }
    else p

-- What a connection that nobody uses goes to: an acquire that waits, or the idle ones.
unfoldable pub hand_or_park : ℕ → ℕ → Pool → Pool
hand_or_park conn now p =
    let (after, handed) = handoff_pending_acquire conn p in
    if handed then after else park_idle_connection conn now after

-- `release`
unfoldable pub release : ℕ → ℕ → Pool → Pool
release conn now p =
    if not (has conn p.active)
    then p
    else if p.closed
    then close_connection conn (record p { active = delete conn p.active })
    else hand_or_park conn now (record p { active = delete conn p.active })

-- `#evictIdle` on the entry of a connection; nothing is done without one.
unfoldable pub evict_entry : PoolOptions → ℕ → Option IdleEntry → Pool → Pool
evict_entry options conn none p = p
evict_entry options conn (some entry) p =
    let after = record p { idle = delete_entry conn p.idle } in
    if leb options.min_connections (length after.idle + length after.active)
    then close_connection conn after
    else park_idle_connection conn entry.last_used_at after

-- `#evictIdle`, which the timer of an idle connection calls.
unfoldable pub evict_idle : PoolOptions → ℕ → Pool → Pool
evict_idle options conn p = evict_entry options conn (get_entry conn p.idle) p

-- `#canCreateConnection`
unfoldable pub can_create_connection : PoolOptions → Pool → Bool
can_create_connection options p =
    ltb (length p.idle + length p.active + p.connecting) options.max_connections

-- What an acquire does before it first waits: it returns a connection, waits for the health check of one,
-- waits for an attempt to connect, waits for a release, or throws.
pub data Acquire : Type 0 where
  returned : ℕ → Acquire
  checking : ℕ → Acquire
  creating : Acquire
  waiting : Acquire
  thrown : Acquire

-- `acquire` behind its loop: an attempt to connect, or a place in the queue. An aborted signal makes either
-- throw at once.
unfoldable pub acquire_new : PoolOptions → ℕ → Bool → Pool → Pool × Acquire
acquire_new options id aborted p =
    if aborted
    then (p, thrown)
    else if can_create_connection options p
    then (record p { connecting = p.connecting + 1 }, creating)
    else (record p { pending = p.pending ++ record { id = id; settled = false } ∷ [] }, waiting)

-- The lines of `acquire` on an idle connection that needs no check, or has passed it.
unfoldable pub acquire_idle : ℕ → ℕ → Bool → Pool → Pool × Acquire
acquire_idle now conn aborted p =
    if aborted
    then ((if p.closed then close_connection conn p else hand_or_park conn now p), thrown)
    else (activate conn p, returned conn)

-- A turn of the loop of `acquire` on the idle connections, which waits or ends it. `Date.now() - lastUsedAt`
-- may be negative.
unfoldable pub acquire_first : PoolOptions → ℕ → ℕ → Bool → List IdleEntry → Pool → Pool × Acquire
acquire_first options now id aborted [] p = acquire_new options id aborted p
acquire_first options now id aborted (entry ∷ rest) p =
    let after = record p { idle = rest } in
    if options.has_health_check && leb (entry.last_used_at + options.health_check_idle_ms) now
    then (after, checking entry.conn)
    else acquire_idle now entry.conn aborted after

unfoldable pub acquire_loop : PoolOptions → ℕ → ℕ → Bool → Pool → Pool × Acquire
acquire_loop options now id aborted p = acquire_first options now id aborted p.idle p

-- `acquire`
unfoldable pub acquire : PoolOptions → ℕ → ℕ → Bool → Pool → Pool × Acquire
acquire options now id aborted p =
    if aborted || p.closed then (p, thrown) else acquire_loop options now id false p

-- `acquire` after a health check.
unfoldable pub health_checked : PoolOptions → ℕ → ℕ → ℕ → Bool → Bool → Pool → Pool × Acquire
health_checked options now id conn healthy aborted p =
    if healthy
    then acquire_idle now conn aborted p
    else acquire_loop options now id aborted (close_connection conn p)

-- The `finally` of `#beginConnectAttempt`: the count never falls below 0.
abbrev pub attempt_settled : Pool → Pool
attempt_settled p = record p { connecting = p.connecting - 1 }

-- `#createConnection` when its attempt has connected, and the acquire was not aborted.
unfoldable pub connection_created : ℕ → Pool → Pool × Acquire
connection_created conn p =
    if p.closed then (close_connection conn p, thrown) else (activate conn p, returned conn)

-- The acquires that `#doClose` rejects.
unfoldable pub waiting_ids : List PendingAcquire → List ℕ
waiting_ids [] = []
waiting_ids (w ∷ ws) = let rest = waiting_ids ws in if w.settled then rest else w.id ∷ rest

-- `close`, up to its first wait.
abbrev pub begin_close : Pool → Pool
begin_close p = record p { closed = true }

-- `#doClose`, after it has waited for the warm-up.
unfoldable pub do_close : Pool → Pool
do_close p = record p {
  idle = [];
  active = [];
  pending = [];
  pending_settled = pos 0;
  rejected = p.rejected ++ waiting_ids p.pending;
  discarded = p.discarded ++ (conns p.idle ++ p.active);
}
