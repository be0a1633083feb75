-- ===== src/Transport/Pool/Accounts.antt =====
-- Every call of the pool keeps account of the acquires that wait.
use capnp_deno.Base.{
  ℕ, ◌+◌, ◌≡◌, refl, sym, ap, ◌∙◌, Bool, true, false, not, ◌&&◌, ◌||◌, Option, none, some, List, [],
  ◌∷◌, ◌++◌, length, arith, leb, either_holds, count,
}
use capnp_deno.Base.Int.{pos}
use capnp_deno.Transport.Pool.{
  PoolOptions, IdleEntry, PendingAcquire, Pool, Acquire, returned, checking, creating, waiting,
  thrown, has, delete, delete_entry, get_entry, close_connection, park_idle_connection,
  handoff_pending_acquire, hand_or_park, release, evict_entry, evict_idle, can_create_connection,
  acquire_new, acquire_idle, acquire_first, acquire_loop, acquire, health_checked,
  connection_created, take_next_pending_acquire, waiting_ids,
}
use capnp_deno.Transport.Pool.Drain.{
  has_pending_acquires, drain_turn, schedule_pending_create_drain, drain_connected, reject_taken,
  drain_failed, abandoned_connected, warmup_connected,
}
use capnp_deno.Transport.Pool.Waiters.{
  settled_in, IsCounted, told, Remembers, Remembers-trans, handoff_pending_acquire-Remembers,
  reject_taken-Remembers,
}

-- A change of the other fields.
quiet : (p : Pool) → Remembers p p
quiet p = (λ h. h, λ id. refl)

park_idle_connection-Remembers :
    (conn now : ℕ) (p : Pool) → Remembers (park_idle_connection conn now p) p
unfolding park_idle_connection
park_idle_connection-Remembers conn now p = (λ h. h, λ id. refl)

hand_or_park-Remembers : (conn now : ℕ) (p : Pool) → Remembers (hand_or_park conn now p) p
unfolding hand_or_park
hand_or_park-Remembers conn now p =
    let after = (handoff_pending_acquire conn p).0 in
    let handed = handoff_pending_acquire-Remembers conn p in
    either_holds (λ q. Remembers q p) (handoff_pending_acquire conn p).1 _ _ (λ _. handed)
      (λ _.
        Remembers-trans (park_idle_connection conn now after) after p
          (park_idle_connection-Remembers conn now after) handed)

pub release-Remembers : (conn now : ℕ) (p : Pool) → Remembers (release conn now p) p
unfolding release
release-Remembers conn now p =
    either_holds (λ q. Remembers q p) (not (has conn p.active)) _ _ (λ _. quiet p)
      (λ _.
        either_holds (λ q. Remembers q p) p.closed _ _ (λ _. (λ h. h, λ id. refl))
          (λ _. hand_or_park-Remembers conn now (record p { active = delete conn p.active })))

evict_entry-Remembers :
    (options : PoolOptions) (conn : ℕ) (entry : Option IdleEntry) (p : Pool)
    → Remembers (evict_entry options conn entry p) p
unfolding evict_entry
evict_entry-Remembers options conn none p = quiet p
evict_entry-Remembers options conn (some entry) p =
    let after = record p { idle = delete_entry conn p.idle } in
    either_holds (λ q. Remembers q p)
      (leb options.min_connections (length after.idle + length after.active)) _ _
      (λ _. (λ h. h, λ id. refl))
      (λ _. park_idle_connection-Remembers conn entry.last_used_at after)

pub evict_idle-Remembers :
    (options : PoolOptions) (conn : ℕ) (p : Pool) → Remembers (evict_idle options conn p) p
unfolding evict_idle
evict_idle-Remembers options conn p = evict_entry-Remembers options conn (get_entry conn p.idle) p

drain_turn-Remembers : (options : PoolOptions) (p : Pool) → Remembers (drain_turn options p) p
unfolding drain_turn
drain_turn-Remembers options p =
    either_holds (λ q. Remembers q p)
      (not p.closed && (has_pending_acquires p && can_create_connection options p)) _ _
      (λ _. (λ h. h, λ id. refl)) (λ _. quiet p)

pub schedule_pending_create_drain-Remembers :
    (options : PoolOptions) (p : Pool) → Remembers (schedule_pending_create_drain options p) p
unfolding schedule_pending_create_drain
schedule_pending_create_drain-Remembers options p =
    either_holds (λ q. Remembers q p)
      (p.drain_running
        || (p.closed || (not (has_pending_acquires p) || not (can_create_connection options p))))
      _ _ (λ _. quiet p) (λ _. drain_turn-Remembers options (record p { drain_running = true }))

pub drain_connected-Remembers :
    (options : PoolOptions) (conn now : ℕ) (p : Pool)
    → Remembers (drain_connected options conn now p) p
unfolding drain_connected
drain_connected-Remembers options conn now p =
    let after = (handoff_pending_acquire conn p).0 in
    let handed = handoff_pending_acquire-Remembers conn p in
    either_holds (λ q. Remembers q p) p.closed _ _ (λ _. (λ h. h, λ id. refl))
      (λ _.
        either_holds (λ q. Remembers q p) (handoff_pending_acquire conn p).1 _ _
          (λ _.
            Remembers-trans (drain_turn options after) after p (drain_turn-Remembers options after)
              handed)
          (λ _.
            Remembers-trans (park_idle_connection conn now after) after p
              (park_idle_connection-Remembers conn now after) handed))

pub drain_failed-Remembers :
    (options : PoolOptions) (p : Pool) → Remembers (drain_failed options p) p
unfolding drain_failed
drain_failed-Remembers options p =
    let after = reject_taken (take_next_pending_acquire p) in
    Remembers-trans (drain_turn options after) after p (drain_turn-Remembers options after)
      (reject_taken-Remembers p)

scheduled :
    (options : PoolOptions) (after p : Pool)
    → Remembers after p
    → Remembers (schedule_pending_create_drain options after) p
scheduled options after p =
    Remembers-trans (schedule_pending_create_drain options after) after p
      (schedule_pending_create_drain-Remembers options after)

pub abandoned_connected-Remembers :
    (options : PoolOptions) (conn : ℕ) (p : Pool) → Remembers (abandoned_connected options conn p) p
unfolding abandoned_connected
abandoned_connected-Remembers options conn p =
    let handed = handoff_pending_acquire-Remembers conn p in
    either_holds (λ q. Remembers q p) p.closed _ _
      (λ _. scheduled options (close_connection conn p) p (λ h. h, λ id. refl))
      (λ _. scheduled options _ p (
        either_holds (λ q. Remembers q p) (handoff_pending_acquire conn p).1 _ _ (λ _. handed)
          (λ _. handed)))

pub warmup_connected-Remembers :
    (conn now : ℕ) (p : Pool) → Remembers (warmup_connected conn now p) p
unfolding warmup_connected
warmup_connected-Remembers conn now p =
    either_holds (λ q. Remembers q p) p.closed _ _ (λ _. (λ h. h, λ id. refl))
      (λ _. hand_or_park-Remembers conn now p)

pub connection_created-Remembers : (conn : ℕ) (p : Pool) → Remembers (connection_created conn p).0 p
unfolding connection_created
connection_created-Remembers conn p =
    either_holds (λ (r : Pool × Acquire). Remembers r.0 p) p.closed _ _ (λ _. (λ h. h, λ id. refl))
      (λ _. (λ h. h, λ id. refl))

-- The acquire that a call has put into the queue.
abbrev pub queues : Acquire → ℕ → List ℕ
queues waiting id = id ∷ []
queues (checking conn) id = []
queues (returned conn) id = []
queues creating id = []
queues thrown id = []

abbrev pub RemembersQueued : ℕ → Pool → Pool × Acquire → Type 0
RemembersQueued id before result =
    (IsCounted before → IsCounted result.0)
    × ((c : ℕ) → told c result.0 ≡ told c before + count c (queues result.1 id))

none_queued : (m n : ℕ) → m ≡ n → m ≡ n + 0
none_queued m n h = omega arith

settled_in-append :
    (ws : List PendingAcquire) (id : ℕ)
    → settled_in (ws ++ record { id = id; settled = false } ∷ []) ≡ settled_in ws
unfolding settled_in
settled_in-append [] id = refl
settled_in-append (w ∷ ws) id = ground (arith, settled_in-append ws id)

waiting_ids-append :
    (c id : ℕ) (ws : List PendingAcquire)
    → count c (waiting_ids (ws ++ record { id = id; settled = false } ∷ []))
      ≡ count c (waiting_ids ws) + count c (id ∷ [])
unfolding waiting_ids count
waiting_ids-append c id [] = ground arith
waiting_ids-append c id (w ∷ ws) = ground (arith, waiting_ids-append c id ws)

acquire_new-Remembers :
    (options : PoolOptions) (id : ℕ) (aborted : Bool) (p : Pool)
    → RemembersQueued id p (acquire_new options id aborted p)
unfolding acquire_new count
acquire_new-Remembers options id aborted p =
    either_holds (RemembersQueued id p) aborted _ _ (λ _. (λ h. h, λ c. none_queued _ _ refl))
      (λ _.
        either_holds (RemembersQueued id p) (can_create_connection options p) _ _
          (λ _. (λ h. h, λ c. none_queued _ _ refl))
          (λ _. (
            λ h. h ∙ ap pos (sym (settled_in-append p.pending id)),
            λ c. omega (arith, waiting_ids-append c id p.pending),
          )))

acquire_idle-Remembers :
    (now id conn : ℕ) (aborted : Bool) (p : Pool)
    → RemembersQueued id p (acquire_idle now conn aborted p)
unfolding acquire_idle count
acquire_idle-Remembers now id conn aborted p =
    either_holds (RemembersQueued id p) aborted _ _
      (λ _.
        let (keeps, same) =
          either_holds (λ q. Remembers q p) p.closed (close_connection conn p)
            (hand_or_park conn now p) (λ _. (λ h. h, λ c. refl))
            (λ _. hand_or_park-Remembers conn now p) in
        (keeps, λ c. none_queued _ _ (same c)))
      (λ _. (λ h. h, λ c. none_queued _ _ refl))

acquire_first-Remembers :
    (options : PoolOptions) (now id : ℕ) (aborted : Bool) (es : List IdleEntry) (p : Pool)
    → RemembersQueued id p (acquire_first options now id aborted es p)
unfolding acquire_first count
acquire_first-Remembers options now id aborted [] p = acquire_new-Remembers options id aborted p
acquire_first-Remembers options now id aborted (entry ∷ rest) p =
    either_holds (RemembersQueued id p)
      (options.has_health_check && leb (entry.last_used_at + options.health_check_idle_ms) now) _ _
      (λ _. (λ h. h, λ c. none_queued _ _ refl))
      (λ _. acquire_idle-Remembers now id entry.conn aborted (record p { idle = rest }))

pub acquire-Remembers :
    (options : PoolOptions) (now id : ℕ) (aborted : Bool) (p : Pool)
    → RemembersQueued id p (acquire options now id aborted p)
unfolding acquire acquire_loop count
acquire-Remembers options now id aborted p =
    either_holds (RemembersQueued id p) (aborted || p.closed) _ _
      (λ _. (λ h. h, λ c. none_queued _ _ refl))
      (λ _. acquire_first-Remembers options now id false p.idle p)

pub health_checked-Remembers :
    (options : PoolOptions) (now id conn : ℕ) (healthy aborted : Bool) (p : Pool)
    → RemembersQueued id p (health_checked options now id conn healthy aborted p)
unfolding health_checked acquire_loop
health_checked-Remembers options now id conn healthy aborted p =
    either_holds (RemembersQueued id p) healthy _ _
      (λ _. acquire_idle-Remembers now id conn aborted p)
      (λ _. acquire_first-Remembers options now id aborted p.idle (close_connection conn p))
