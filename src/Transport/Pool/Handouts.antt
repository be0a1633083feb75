-- ===== src/Transport/Pool/Handouts.antt =====
-- How the calls of the pool hand connections to acquires, and take them back.
use capnp_deno.Base.{
  ℕ, ◌+◌, ◌≤◌, ◌≡◌, refl, ap, ◌∙◌, Bool, true, false, ◌&&◌, ◌||◌, Option, none, some, List, [], ◌∷◌,
  ◌++◌, length, arith, leb, Bool-cases, inl, inr, either_holds, count,
}
use capnp_deno.Transport.Pool.{
  PoolOptions, IdleEntry, Pool, Acquire, returned, has, delete, delete_entry, get_entry, conns,
  activate, close_connection, park_idle_connection, take_next_pending_acquire, hand_to,
  handoff_pending_acquire, hand_or_park, release, evict_entry, evict_idle, can_create_connection,
  acquire_new, acquire_idle, acquire_first, acquire_loop, acquire, health_checked,
  connection_created, do_close,
}
use capnp_deno.Transport.Pool.Drain.{
  drain_turn, schedule_pending_create_drain, drain_connected, abandoned_connected, warmup_connected,
}
use capnp_deno.Transport.Pool.Places.{
  one, SamePlaces, count-add, count-delete, take_next_pending_acquire-SamePlaces,
  drain_turn-SamePlaces, schedule_pending_create_drain-SamePlaces,
}
use capnp_deno.Transport.Pool.Moves.{has-count, taken_first}
use capnp_deno.Transport.Pool.Steps.{gives, takes_back}

-- The connections that acquires from the queue were given.
abbrev pub targets : List (ℕ × ℕ) → List ℕ
targets [] = []
targets ((id, conn) ∷ rest) = conn ∷ targets rest

abbrev pub handed : ℕ → Pool → ℕ
handed c p = count c (targets p.resolved)

-- A connection that becomes active is handed to an acquire of the queue, and no other is.
abbrev pub Hands : Pool → Pool → Type 0
Hands after before =
    (c : ℕ) → handed c after + count c before.active ≡ handed c before + count c after.active

count-targets :
    (c id conn : ℕ) (rs : List (ℕ × ℕ))
    → count c (targets (rs ++ (id, conn) ∷ [])) ≡ count c (targets rs) + one c conn
unfolding count
count-targets c id conn [] = ground arith
count-targets c id conn ((i, d) ∷ rs) = ground (arith, count-targets c id conn rs)

pub SamePlaces-Hands : (after before : Pool) → SamePlaces after before → Hands after before
SamePlaces-Hands after before (i, a, d, r) c = rw (a, r) refl

Hands-trans : (a b c : Pool) → Hands a b → Hands b c → Hands a c
Hands-trans a b c h k d = omega (arith, h d, k d)

hand_to-Hands :
    (conn : ℕ) (taken : Pool × Option ℕ)
    → count conn taken.0.active ≡ 0
    → Hands (hand_to conn taken).0 taken.0
unfolding hand_to
hand_to-Hands conn (p, none) out c = refl
hand_to-Hands conn (p, some id) out c =
    omega (arith, count-add c conn p.active out, count-targets c id conn p.resolved)

handoff_pending_acquire-Hands :
    (conn : ℕ) (p : Pool) → count conn p.active ≡ 0 → Hands (handoff_pending_acquire conn p).0 p
unfolding handoff_pending_acquire
handoff_pending_acquire-Hands conn p out =
    let taken = take_next_pending_acquire p in
    let (i, a, d, r) = take_next_pending_acquire-SamePlaces p in
    Hands-trans (hand_to conn taken).0 taken.0 p
      (hand_to-Hands conn taken (ap (count conn) a ∙ out)) (SamePlaces-Hands taken.0 p (i, a, d, r))

pub hand_or_park-Hands :
    (conn now : ℕ) (p : Pool) → count conn p.active ≡ 0 → Hands (hand_or_park conn now p) p
unfolding hand_or_park park_idle_connection
hand_or_park-Hands conn now p out =
    let hands = handoff_pending_acquire-Hands conn p out in
    either_holds (λ q. Hands q p) (handoff_pending_acquire conn p).1 _ _ (λ _. hands) (λ _. hands)

-- A connection is not idle and active at once.
abbrev pub Apart : Pool → Type 0
Apart p = (c : ℕ) → count c (conns p.idle) + count c p.active ≤ 1

-- What is handed out or active no longer, `release` has taken back.
abbrev pub HandsBack : List ℕ → Pool → Pool → Type 0
HandsBack back after before =
    (c : ℕ)
    → handed c after + count c before.active ≡ handed c before + count c after.active + count c back

nothing_back : (p : Pool) → HandsBack [] p p
unfolding count
nothing_back p c = omega arith

deleted :
    (conn : ℕ) (p : Pool)
    → Apart p
    → has conn p.active ≡ true
    → HandsBack (conn ∷ []) (record p { active = delete conn p.active }) p
unfolding count
deleted conn p apart held c =
    ground (arith, count-delete c conn p.active, has-count conn p.active held, apart c)

pub release-HandsBack :
    (conn now : ℕ) (p : Pool) → Apart p → HandsBack (takes_back conn p) (release conn now p) p
unfolding release
release-HandsBack conn now p apart = elim (Bool-cases (has conn p.active)) [
  | inr loose ↦ rw loose (nothing_back p)
  | inl held ↦ rw held (
      either_holds (λ q. HandsBack (conn ∷ []) q p) p.closed _ _ (λ _. deleted conn p apart held)
        (λ _ c.
          let without = record p { active = delete conn p.active } in
          let out : count conn without.active ≡ 0 =
            ground (arith, count-delete conn conn p.active) in
          omega (arith, hand_or_park-Hands conn now without out c, deleted conn p apart held c)))
]

-- The calls that take an acquire.
abbrev pub HandsOut : Pool → Pool × Acquire → Type 0
HandsOut before result =
    (c : ℕ)
    → handed c result.0 + count c (gives result.1) + count c before.active
      ≡ handed c before + count c result.0.active

plus_none : (a b c : ℕ) → a + b ≡ c → a + 0 + b ≡ c
plus_none a b c h = omega arith

evict_entry-Hands :
    (options : PoolOptions) (conn : ℕ) (entry : Option IdleEntry) (p : Pool)
    → Hands (evict_entry options conn entry p) p
unfolding evict_entry park_idle_connection
evict_entry-Hands options conn none p = λ c. refl
evict_entry-Hands options conn (some entry) p =
    let after = record p { idle = delete_entry conn p.idle } in
    either_holds (λ q. Hands q p)
      (leb options.min_connections (length after.idle + length after.active)) _ _ (λ _ c. refl)
      (λ _ c. refl)

pub evict_idle-Hands :
    (options : PoolOptions) (conn : ℕ) (p : Pool) → Hands (evict_idle options conn p) p
unfolding evict_idle
evict_idle-Hands options conn p = evict_entry-Hands options conn (get_entry conn p.idle) p

activated-HandsOut :
    (conn : ℕ) (p : Pool) → count conn p.active ≡ 0 → HandsOut p (activate conn p, returned conn)
unfolding count
activated-HandsOut conn p out c = ground (arith, count-add c conn p.active out)

acquire_new-HandsOut :
    (options : PoolOptions) (id : ℕ) (aborted : Bool) (p : Pool)
    → HandsOut p (acquire_new options id aborted p)
unfolding acquire_new count
acquire_new-HandsOut options id aborted p =
    either_holds (HandsOut p) aborted _ _ (λ _ c. plus_none _ _ _ refl)
      (λ _.
        either_holds (HandsOut p) (can_create_connection options p) _ _
          (λ _ c. plus_none _ _ _ refl) (λ _ c. plus_none _ _ _ refl))

acquire_idle-HandsOut :
    (now conn : ℕ) (aborted : Bool) (p : Pool)
    → count conn p.active ≡ 0
    → HandsOut p (acquire_idle now conn aborted p)
unfolding acquire_idle count
acquire_idle-HandsOut now conn aborted p out =
    either_holds (HandsOut p) aborted _ _
      (λ _ c. plus_none _ _ _ (
        either_holds (λ q. Hands q p) p.closed (close_connection conn p) (hand_or_park conn now p)
          (λ _ c. refl) (λ _. hand_or_park-Hands conn now p out) c))
      (λ _. activated-HandsOut conn p out)

acquire_first-HandsOut :
    (options : PoolOptions) (now id : ℕ) (aborted : Bool) (es : List IdleEntry) (p : Pool)
    → Apart p
    → p.idle ≡ es
    → HandsOut p (acquire_first options now id aborted es p)
unfolding acquire_first count
acquire_first-HandsOut options now id aborted [] p apart there =
    acquire_new-HandsOut options id aborted p
acquire_first-HandsOut options now id aborted (entry ∷ rest) p apart there =
    let after = record p { idle = rest } in
    let out : count entry.conn p.active ≡ 0 =
      ground (arith, taken_first entry rest p there entry.conn, apart entry.conn) in
    either_holds (HandsOut p)
      (options.has_health_check && leb (entry.last_used_at + options.health_check_idle_ms) now) _ _
      (λ _ c. plus_none _ _ _ refl) (λ _. acquire_idle-HandsOut now entry.conn aborted after out)

pub acquire-HandsOut :
    (options : PoolOptions) (now id : ℕ) (aborted : Bool) (p : Pool)
    → Apart p
    → HandsOut p (acquire options now id aborted p)
unfolding acquire acquire_loop count
acquire-HandsOut options now id aborted p apart =
    either_holds (HandsOut p) (aborted || p.closed) _ _ (λ _ c. plus_none _ _ _ refl)
      (λ _. acquire_first-HandsOut options now id false p.idle p apart refl)

pub health_checked-HandsOut :
    (options : PoolOptions) (now id conn : ℕ) (healthy aborted : Bool) (p : Pool)
    → Apart p
    → count conn p.active ≡ 0
    → HandsOut p (health_checked options now id conn healthy aborted p)
unfolding health_checked acquire_loop
health_checked-HandsOut options now id conn healthy aborted p apart out =
    either_holds (HandsOut p) healthy _ _ (λ _. acquire_idle-HandsOut now conn aborted p out)
      (λ _.
        acquire_first-HandsOut options now id aborted p.idle (close_connection conn p) apart refl)

pub connection_created-HandsOut :
    (conn : ℕ) (p : Pool) → count conn p.active ≡ 0 → HandsOut p (connection_created conn p)
unfolding connection_created count
connection_created-HandsOut conn p out =
    either_holds (HandsOut p) p.closed _ _ (λ _ c. plus_none _ _ _ refl)
      (λ _. activated-HandsOut conn p out)

pub drain_connected-Hands :
    (options : PoolOptions) (conn now : ℕ) (p : Pool)
    → count conn p.active ≡ 0
    → Hands (drain_connected options conn now p) p
unfolding drain_connected park_idle_connection
drain_connected-Hands options conn now p out =
    let after = (handoff_pending_acquire conn p).0 in
    let hands = handoff_pending_acquire-Hands conn p out in
    either_holds (λ q. Hands q p) p.closed _ _ (λ _ c. refl)
      (λ _.
        either_holds (λ q. Hands q p) (handoff_pending_acquire conn p).1 _ _
          (λ _.
            Hands-trans (drain_turn options after) after p
              (SamePlaces-Hands (drain_turn options after) after
                (drain_turn-SamePlaces options after))
              hands)
          (λ _. hands))

scheduled-Hands :
    (options : PoolOptions) (after p : Pool)
    → Hands after p
    → Hands (schedule_pending_create_drain options after) p
scheduled-Hands options after p =
    Hands-trans (schedule_pending_create_drain options after) after p (
      SamePlaces-Hands (schedule_pending_create_drain options after) after
        (schedule_pending_create_drain-SamePlaces options after))

pub abandoned_connected-Hands :
    (options : PoolOptions) (conn : ℕ) (p : Pool)
    → count conn p.active ≡ 0
    → Hands (abandoned_connected options conn p) p
unfolding abandoned_connected
abandoned_connected-Hands options conn p out =
    let hands = handoff_pending_acquire-Hands conn p out in
    either_holds (λ q. Hands q p) p.closed _ _
      (λ _. scheduled-Hands options (close_connection conn p) p (λ c. refl))
      (λ _. scheduled-Hands options _ p (
        either_holds (λ q. Hands q p) (handoff_pending_acquire conn p).1 _ _ (λ _. hands)
          (λ _. hands)))

pub warmup_connected-Hands :
    (conn now : ℕ) (p : Pool) → count conn p.active ≡ 0 → Hands (warmup_connected conn now p) p
unfolding warmup_connected
warmup_connected-Hands conn now p out =
    either_holds (λ q. Hands q p) p.closed _ _ (λ _ c. refl)
      (λ _. hand_or_park-Hands conn now p out)

pub do_close-HandsBack : (p : Pool) → HandsBack p.active (do_close p) p
unfolding do_close count
do_close-HandsBack p c = omega arith
