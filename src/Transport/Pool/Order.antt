-- ===== src/Transport/Pool/Order.antt =====
-- Who gets a connection that is released.
use capnp_deno.Base.{
  ℕ, ◌≡◌, refl, ap, ◌∙◌, inl, inr, true, false, not, Option, none, some, List, [], ◌∷◌, ◌++◌, arith,
  ◌==◌, if◌then◌else◌, Bool-cases, either_holds, count,
}
use capnp_deno.Base.Int.{ℤ, pos, ltb_ℤ, ◌-ℤ◌}
use capnp_deno.Transport.Pool.{
  IdleEntry, PendingAcquire, Pool, has, add, delete, set_entry, conns, compact_pending, take_loop,
  finish_take, take_next_pending_acquire, hand_to, handoff_pending_acquire, park_idle_connection,
  hand_or_park, release, waiting_ids,
}
use capnp_deno.Transport.Pool.Waiters.{waiting_ids-unsettled, compact_pending-told}
use capnp_deno.Transport.Pool.Places.{take_next_pending_acquire-SamePlaces}

-- The first that waits is taken, and the others go on waiting.
abbrev TakesFirst : List ℕ → List PendingAcquire → Option ℕ → Type 0
TakesFirst [] after taken = (waiting_ids after ≡ []) × (taken ≡ none)
TakesFirst (id ∷ ids) after taken = (waiting_ids after ≡ ids) × (taken ≡ some id)

take_loop-first :
    (ws : List PendingAcquire) (settled : ℤ)
    → TakesFirst (waiting_ids ws) (take_loop ws settled).0 (take_loop ws settled).2
unfolding take_loop waiting_ids
take_loop-first [] settled = (refl, refl)
take_loop-first (w ∷ ws) settled = elim (Bool-cases w.settled) [
  | inl over ↦ rw over (take_loop-first ws (settled -ℤ pos 1))
  | inr going ↦ rw going (refl, refl)
]

compact_pending-waiting_ids :
    (p : Pool) → waiting_ids (compact_pending p).pending ≡ waiting_ids p.pending
unfolding compact_pending
compact_pending-waiting_ids p =
    either_holds (λ (q : Pool). waiting_ids q.pending ≡ waiting_ids p.pending)
      (ltb_ℤ p.pending_settled (pos 16)) _ _ (λ _. refl) (λ _. waiting_ids-unsettled p.pending)

finished :
    (ids : List ℕ) (p : Pool) (taken : Option ℕ)
    → TakesFirst ids p.pending taken
    → TakesFirst ids (finish_take p taken).0.pending (finish_take p taken).1
      × ((finish_take p taken).0.resolved ≡ p.resolved)
unfolding finish_take
finished ids p none first = (first, refl)
finished [] p (some id) (none_left, wrong) = cc
finished (i ∷ ids) p (some id) (rest, same) =
    ((compact_pending-waiting_ids p ∙ rest, same), (compact_pending-told p).0)

take_next_pending_acquire-first :
    (p : Pool)
    → TakesFirst
        (waiting_ids p.pending)
        (take_next_pending_acquire p).0.pending
        (take_next_pending_acquire p).1
      × ((take_next_pending_acquire p).0.resolved ≡ p.resolved)
unfolding take_next_pending_acquire
take_next_pending_acquire-first p =
    let (rest, settled, taken) = take_loop p.pending p.pending_settled in
    finished (waiting_ids p.pending) (record p { pending = rest; pending_settled = settled }) taken
      (take_loop-first p.pending p.pending_settled)

-- What a released connection does for the acquires that wait: the first of them gets it, and it is parked
-- behind the other idle connections when there is none.
abbrev pub Served : ℕ → List ℕ → Pool → Pool → Type 0
Served conn [] before after =
    (conns after.idle ≡ conns before.idle ++ conn ∷ []) × (after.resolved ≡ before.resolved)
Served conn (id ∷ ids) before after =
    (after.resolved ≡ before.resolved ++ (id, conn) ∷ [])
    × (waiting_ids after.pending ≡ ids)
    × (after.idle ≡ before.idle)
    × (has conn after.active ≡ true)

conns-set_entry :
    (e : IdleEntry) (xs : List IdleEntry)
    → count e.conn (conns xs) ≡ 0
    → conns (set_entry e xs) ≡ conns xs ++ e.conn ∷ []
unfolding set_entry count
conns-set_entry e [] h = refl
conns-set_entry e (x ∷ xs) h =
    either_holds (λ l. conns l ≡ conns (x ∷ xs) ++ e.conn ∷ []) (e.conn == x.conn) _ _
      (λ same. absurd (ground arith)) (λ _. ap (◌∷◌ x.conn) (conns-set_entry e xs (ground arith)))

has-append : (c : ℕ) (xs : List ℕ) → has c (xs ++ c ∷ []) ≡ true
unfolding has
has-append c [] = ground arith
has-append c (x ∷ xs) = ground (arith, has-append c xs)

has-add : (c : ℕ) (xs : List ℕ) → has c (add c xs) ≡ true
unfolding add
has-add c xs =
    either_holds (λ l. has c l ≡ true) (has c xs) _ _ (λ there. there) (λ _. has-append c xs)

served :
    (conn now : ℕ) (ids : List ℕ) (before : Pool) (result : Pool × Option ℕ)
    → TakesFirst ids result.0.pending result.1
    → result.0.resolved ≡ before.resolved
    → result.0.idle ≡ before.idle
    → count conn (conns before.idle) ≡ 0
    → Served conn ids before (
        if (hand_to conn result).1
        then (hand_to conn result).0
        else park_idle_connection conn now (hand_to conn result).0)
unfolding hand_to park_idle_connection
served conn now [] before (q, none) (left, _) given idle absent = (
  conns-set_entry (record { conn = conn; last_used_at = now }) q.idle
        (ap (λ es. count conn (conns es)) idle ∙ absent)
      ∙ ap (λ es. conns es ++ conn ∷ []) idle,
  given,
)
served conn now [] before (q, some id) (left, wrong) given idle absent = cc
served conn now (i ∷ ids) before (q, none) (left, wrong) given idle absent = cc
served conn now (i ∷ ids) before (q, some id) (left, taken) given idle absent =
    let this_one : id ≡ i = cc in
    (
      ap (λ r. r ++ (id, conn) ∷ []) given ∙ ap (λ k. before.resolved ++ (k, conn) ∷ []) this_one,
      left,
      idle,
      has-add conn q.active,
    )

-- A connection that is released to an open pool goes to the acquire that has waited longest, which is handed it
-- while the other acquires and the idle connections stay as they are; when nobody waits, it becomes the last
-- of the idle connections.
pub release_first :
    (conn now : ℕ) (p : Pool)
    → has conn p.active ≡ true
    → p.closed ≡ false
    → count conn (conns p.idle) ≡ 0
    → Served conn (waiting_ids p.pending) p (release conn now p)
unfolding release hand_or_park handoff_pending_acquire
release_first conn now p held going absent =
    let without = record p { active = delete conn p.active } in
    let (first, given) = take_next_pending_acquire-first without in
    either_holds (Served conn (waiting_ids p.pending) p) (not (has conn p.active)) _ _
      (λ wrong. absurd (ground arith))
      (λ _.
        either_holds (Served conn (waiting_ids p.pending) p) p.closed _ _
          (λ wrong. absurd (ground arith))
          (λ _.
            served conn now (waiting_ids p.pending) p (take_next_pending_acquire without) first
              given (take_next_pending_acquire-SamePlaces without).0 absent))
