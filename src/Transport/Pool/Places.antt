-- ===== src/Transport/Pool/Places.antt =====
-- Where the connections of a pool are: idle, active or closed.
use capnp_deno.Base.{
  ℕ, ◌+◌, ◌≡◌, refl, ap, ◌∙◌, ◌⊎◌, inl, inr, Bool, true, false, Option, none, some, List, [], ◌∷◌,
  arith, ◌==◌, if◌then◌else◌, Bool-cases, either_holds, count, count-append,
}
use capnp_deno.Base.Int.{pos, ltb_ℤ, ◌+ℤ◌}
use capnp_deno.Transport.Pool.{
  PoolOptions, Acquire, IdleEntry, Pool, has, add, delete, set_entry, delete_entry, conns,
  close_connection, activate, park_idle_connection, compact_pending, take_loop,
  take_next_pending_acquire, finish_take, hand_to, handoff_pending_acquire, hand_or_park,
  reject_pending_acquire, waits, mark_settled, connection_created,
}
use capnp_deno.Transport.Pool.Drain.{
  drain_turn, schedule_pending_create_drain, drain_connected, reject_taken, drain_failed,
  abandoned_connected, warmup_connected,
}

-- One, for the connection itself.
abbrev pub one : ℕ → ℕ → ℕ
one c d = if c == d then 1 else 0

has-count : (d : ℕ) (xs : List ℕ) → count d xs ≡ 0 → has d xs ≡ false
unfolding count has
has-count d [] h = refl
has-count d (x ∷ xs) h = ground (arith, has-count d xs)

pub count-add : (c d : ℕ) (xs : List ℕ) → count d xs ≡ 0 → count c (add d xs) ≡ count c xs + one c d
unfolding count add
count-add c d xs h = rw (has-count d xs h) (omega (arith, count-append c xs (d ∷ [])))

pub count-delete :
    (c d : ℕ) (xs : List ℕ) → count c (delete d xs) ≡ (if c == d then 0 else count c xs)
unfolding count delete
count-delete c d [] = ground arith
count-delete c d (x ∷ xs) = ground (arith, count-delete c d xs)

pub count-set_entry :
    (c : ℕ) (e : IdleEntry) (xs : List IdleEntry)
    → count e.conn (conns xs) ≡ 0
    → count c (conns (set_entry e xs)) ≡ count c (conns xs) + one c e.conn
unfolding count set_entry
count-set_entry c e [] h = ground arith
count-set_entry c e (x ∷ xs) h = ground (arith, count-set_entry c e xs)

pub count-delete_entry :
    (c d : ℕ) (xs : List IdleEntry)
    → count c (conns (delete_entry d xs)) ≡ (if c == d then 0 else count c (conns xs))
unfolding count delete_entry
count-delete_entry c d [] = ground arith
count-delete_entry c d (x ∷ xs) = ground (arith, count-delete_entry c d xs)

-- How often a connection stands in the pool.
abbrev pub placed : ℕ → Pool → ℕ
placed c p = count c (conns p.idle) + count c p.active + count c p.discarded

-- One state has the connections of another, and one more.
abbrev pub Gains : ℕ → Pool → Pool → Type 0
Gains conn after before = (c : ℕ) → placed c after ≡ placed c before + one c conn

abbrev pub SamePlaces : Pool → Pool → Type 0
SamePlaces after before =
    (after.idle ≡ before.idle)
    × (after.active ≡ before.active)
    × (after.discarded ≡ before.discarded)
    × (after.resolved ≡ before.resolved)

pub SamePlaces-placed :
    (after before : Pool) → SamePlaces after before → (c : ℕ) → placed c after ≡ placed c before
SamePlaces-placed after before (i, a, d, _) c = rw (i, a, d)

pub close_connection-Gains : (conn : ℕ) (p : Pool) → Gains conn (close_connection conn p) p
unfolding count
close_connection-Gains conn p c = omega (arith, count-append c p.discarded (conn ∷ []))

pub activate-Gains : (conn : ℕ) (p : Pool) → placed conn p ≡ 0 → Gains conn (activate conn p) p
activate-Gains conn p h c = omega (arith, count-add c conn p.active (omega arith))

pub park_idle_connection-Gains :
    (conn now : ℕ) (p : Pool) → placed conn p ≡ 0 → Gains conn (park_idle_connection conn now p) p
unfolding park_idle_connection
park_idle_connection-Gains conn now p h c =
    omega
      (arith, count-set_entry c (record { conn = conn; last_used_at = now }) p.idle (omega arith))

compact_pending-SamePlaces : (p : Pool) → SamePlaces (compact_pending p) p
unfolding compact_pending
compact_pending-SamePlaces p = elim (Bool-cases (ltb_ℤ p.pending_settled (pos 16))) [
  | inl few ↦ rw few (refl, refl, refl, refl)
  | inr many ↦ rw many (refl, refl, refl, refl)
]

finish_take-SamePlaces : (p : Pool) (taken : Option ℕ) → SamePlaces (finish_take p taken).0 p
unfolding finish_take
finish_take-SamePlaces p none = (refl, refl, refl, refl)
finish_take-SamePlaces p (some id) = compact_pending-SamePlaces p

pub take_next_pending_acquire-SamePlaces : (p : Pool) → SamePlaces (take_next_pending_acquire p).0 p
unfolding take_next_pending_acquire
take_next_pending_acquire-SamePlaces p =
    let (rest, settled, taken) = take_loop p.pending p.pending_settled in
    finish_take-SamePlaces (record p { pending = rest; pending_settled = settled }) taken

-- A connection is handed to an acquire, or stays outside the pool.
abbrev pub Handed : ℕ → Pool × Bool → Pool → Type 0
Handed conn result before =
    ((result.1 ≡ true) × Gains conn result.0 before)
    ⊎ ((result.1 ≡ false) × ((c : ℕ) → placed c result.0 ≡ placed c before))

hand_to-Handed :
    (conn : ℕ) (taken : Pool × Option ℕ)
    → placed conn taken.0 ≡ 0
    → Handed conn (hand_to conn taken) taken.0
unfolding hand_to
hand_to-Handed conn (p, none) h = inr (refl, λ c. refl)
hand_to-Handed conn (p, some id) h = inl (refl, activate-Gains conn p h)

pub handoff_pending_acquire-Handed :
    (conn : ℕ) (p : Pool) → placed conn p ≡ 0 → Handed conn (handoff_pending_acquire conn p) p
unfolding handoff_pending_acquire
handoff_pending_acquire-Handed conn p h =
    let same =
      SamePlaces-placed (take_next_pending_acquire p).0 p
        (take_next_pending_acquire-SamePlaces p) in
    elim (hand_to-Handed conn (take_next_pending_acquire p) (same conn ∙ h)) [
      | inl (handed, gains) ↦ inl (handed, λ c. gains c ∙ ap (λ n. n + one c conn) (same c))
      | inr (kept, placed_same) ↦ inr (kept, λ c. placed_same c ∙ same c)
    ]

-- Both outcomes of an attempt to hand a connection on.
handed_or_kept :
    (P : Pool → Type 0) (conn : ℕ) (result : Pool × Bool) (before x y : Pool)
    → Handed conn result before
    → (Gains conn result.0 before → P x)
    → (((c : ℕ) → placed c result.0 ≡ placed c before) → P y)
    → P (if result.1 then x else y)
handed_or_kept P conn (q, true) before x y (inl (_, gains)) here there = here gains
handed_or_kept P conn (q, true) before x y (inr (wrong, _)) here there = cc
handed_or_kept P conn (q, false) before x y (inl (wrong, _)) here there = cc
handed_or_kept P conn (q, false) before x y (inr (_, same)) here there = there same

-- The same connections, and then one more.
parked-Gains :
    (conn now : ℕ) (kept p : Pool)
    → placed conn p ≡ 0
    → ((c : ℕ) → placed c kept ≡ placed c p)
    → Gains conn (park_idle_connection conn now kept) p
parked-Gains conn now kept p h same c =
    park_idle_connection-Gains conn now kept (same conn ∙ h) c ∙ ap (λ n. n + one c conn) (same c)

pub hand_or_park-Gains :
    (conn now : ℕ) (p : Pool) → placed conn p ≡ 0 → Gains conn (hand_or_park conn now p) p
unfolding hand_or_park
hand_or_park-Gains conn now p h =
    handed_or_kept (λ q. Gains conn q p) conn (handoff_pending_acquire conn p) p _ _
      (handoff_pending_acquire-Handed conn p h) (λ gains. gains)
      (parked-Gains conn now (handoff_pending_acquire conn p).0 p h)

-- Changes that leave every connection where it is.
pub reject_pending_acquire-SamePlaces :
    (id : ℕ) (p : Pool) → SamePlaces (reject_pending_acquire id p) p
unfolding reject_pending_acquire
reject_pending_acquire-SamePlaces id p = elim (Bool-cases (waits id p.pending)) [
  | inr settled ↦ rw settled (refl, refl, refl, refl)
  | inl waiting ↦ rw waiting (
      compact_pending-SamePlaces (record p {
        pending = mark_settled id p.pending;
        pending_settled = p.pending_settled +ℤ pos 1;
      }))
]

pub drain_turn-SamePlaces : (options : PoolOptions) (p : Pool) → SamePlaces (drain_turn options p) p
unfolding drain_turn
drain_turn-SamePlaces options p =
    either_holds (λ q. SamePlaces q p) _ _ _ (λ _. (refl, refl, refl, refl))
      (λ _. (refl, refl, refl, refl))

pub schedule_pending_create_drain-SamePlaces :
    (options : PoolOptions) (p : Pool) → SamePlaces (schedule_pending_create_drain options p) p
unfolding schedule_pending_create_drain
schedule_pending_create_drain-SamePlaces options p =
    either_holds (λ q. SamePlaces q p) _ _ _ (λ _. (refl, refl, refl, refl))
      (λ _. drain_turn-SamePlaces options (record p { drain_running = true }))

reject_taken-SamePlaces : (taken : Pool × Option ℕ) → SamePlaces (reject_taken taken) taken.0
reject_taken-SamePlaces (p, none) = (refl, refl, refl, refl)
reject_taken-SamePlaces (p, some id) = (refl, refl, refl, refl)

SamePlaces-trans : (a b c : Pool) → SamePlaces a b → SamePlaces b c → SamePlaces a c
SamePlaces-trans a b c (i, m, d, r) (j, n, e, s) = (i ∙ j, m ∙ n, d ∙ e, r ∙ s)

pub drain_failed-SamePlaces :
    (options : PoolOptions) (p : Pool) → SamePlaces (drain_failed options p) p
unfolding drain_failed
drain_failed-SamePlaces options p =
    let taken = take_next_pending_acquire p in
    SamePlaces-trans (drain_turn options (reject_taken taken)) (reject_taken taken) p
      (drain_turn-SamePlaces options (reject_taken taken))
      (SamePlaces-trans (reject_taken taken) taken.0 p (reject_taken-SamePlaces taken)
        (take_next_pending_acquire-SamePlaces p))

-- The arrivals of new connections.
pub drain_connected-Gains :
    (options : PoolOptions) (conn now : ℕ) (p : Pool)
    → placed conn p ≡ 0
    → Gains conn (drain_connected options conn now p) p
unfolding drain_connected
drain_connected-Gains options conn now p h =
    let after = (handoff_pending_acquire conn p).0 in
    either_holds (λ q. Gains conn q p) p.closed _ _ (λ _. close_connection-Gains conn p)
      (λ _.
        handed_or_kept (λ q. Gains conn q p) conn (handoff_pending_acquire conn p) p _ _
          (handoff_pending_acquire-Handed conn p h)
          (λ gains c.
            SamePlaces-placed (drain_turn options after) after (drain_turn-SamePlaces options after)
              c
            ∙ gains c)
          (parked-Gains conn now after p h))

scheduled-Gains :
    (options : PoolOptions) (conn : ℕ) (after p : Pool)
    → Gains conn after p
    → Gains conn (schedule_pending_create_drain options after) p
scheduled-Gains options conn after p gains c =
    SamePlaces-placed (schedule_pending_create_drain options after) after
      (schedule_pending_create_drain-SamePlaces options after) c
    ∙ gains c

pub abandoned_connected-Gains :
    (options : PoolOptions) (conn : ℕ) (p : Pool)
    → placed conn p ≡ 0
    → Gains conn (abandoned_connected options conn p) p
unfolding abandoned_connected
abandoned_connected-Gains options conn p h =
    let after = (handoff_pending_acquire conn p).0 in
    either_holds (λ q. Gains conn q p) p.closed _ _
      (λ _.
        scheduled-Gains options conn (close_connection conn p) p (close_connection-Gains conn p))
      (λ _. scheduled-Gains options conn _ p (
        handed_or_kept (λ q. Gains conn q p) conn (handoff_pending_acquire conn p) p _ _
          (handoff_pending_acquire-Handed conn p h) (λ gains. gains)
          (λ same c. close_connection-Gains conn after c ∙ ap (λ n. n + one c conn) (same c))))

pub warmup_connected-Gains :
    (conn now : ℕ) (p : Pool) → placed conn p ≡ 0 → Gains conn (warmup_connected conn now p) p
unfolding warmup_connected
warmup_connected-Gains conn now p h =
    either_holds (λ q. Gains conn q p) p.closed _ _ (λ _. close_connection-Gains conn p)
      (λ _. hand_or_park-Gains conn now p h)

pub connection_created-Gains :
    (conn : ℕ) (p : Pool) → placed conn p ≡ 0 → Gains conn (connection_created conn p).0 p
unfolding connection_created
connection_created-Gains conn p h =
    either_holds (λ (r : Pool × Acquire). Gains conn r.0 p) p.closed _ _
      (λ _. close_connection-Gains conn p) (λ _. activate-Gains conn p h)
