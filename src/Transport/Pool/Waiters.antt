-- ===== src/Transport/Pool/Waiters.antt =====
-- The acquires that wait for a connection: how many entries of the queue are settled, and what became of
-- each.
use capnp_deno.Base.{
  ℕ, ◌+◌, ◌≡◌, refl, sym, ap, ◌∙◌, inl, inr, true, not, ◌&&◌, Option, none, some, List, [], ◌∷◌,
  ◌++◌, arith, ◌==◌, if◌then◌else◌, Bool-cases, either_holds, count, count-append,
}
use capnp_deno.Base.Int.{ℤ, pos, ltb_ℤ, ◌+ℤ◌, ◌-ℤ◌}
use capnp_deno.Transport.OutboundQueue.Trace.{pos_add, pos_sub}
use capnp_deno.Transport.Pool.{
  PendingAcquire, Pool, unsettled, compact_pending, take_loop, finish_take,
  take_next_pending_acquire, hand_to, handoff_pending_acquire, waits, mark_settled,
  reject_pending_acquire, waiting_ids, do_close,
}
use capnp_deno.Transport.Pool.Drain.{reject_taken}

unfoldable pub settled_in : List PendingAcquire → ℕ
settled_in [] = 0
settled_in (w ∷ ws) = let rest = settled_in ws in if w.settled then 1 + rest else rest

-- The acquires that were given a connection.
abbrev pub receivers : List (ℕ × ℕ) → List ℕ
receivers [] = []
receivers ((id, conn) ∷ rest) = id ∷ receivers rest

receivers-append :
    (xs : List (ℕ × ℕ)) (id conn : ℕ) → receivers (xs ++ (id, conn) ∷ []) ≡ receivers xs ++ id ∷ []
receivers-append [] id conn = refl
receivers-append ((i, c) ∷ xs) id conn = ap (◌∷◌ i) (receivers-append xs id conn)

-- The count of settled entries is right, so that the statistics report the acquires that still wait.
abbrev pub IsCounted : Pool → Type 0
IsCounted p = p.pending_settled ≡ pos (settled_in p.pending)

-- How often an acquire waits, was given a connection, or was rejected.
abbrev pub told : ℕ → Pool → ℕ
told id p =
    count id (waiting_ids p.pending) + (count id (receivers p.resolved) + count id p.rejected)

abbrev pub counted : ℕ → Option ℕ → ℕ
counted id none = 0
counted id (some taken) = if id == taken then 1 else 0

-- Nobody is forgotten between two states, and the count of settled entries stays right.
abbrev pub Remembers : Pool → Pool → Type 0
Remembers after before =
    (IsCounted before → IsCounted after) × ((id : ℕ) → told id after ≡ told id before)

pub Remembers-trans : (a b c : Pool) → Remembers a b → Remembers b c → Remembers a c
Remembers-trans a b c (f, s) (g, t) = (λ h. f (g h), λ id. s id ∙ t id)

settled_in-unsettled : (ws : List PendingAcquire) → settled_in (unsettled ws) ≡ 0
unfolding settled_in unsettled
settled_in-unsettled [] = refl
settled_in-unsettled (w ∷ ws) = ground (arith, settled_in-unsettled ws)

pub waiting_ids-unsettled : (ws : List PendingAcquire) → waiting_ids (unsettled ws) ≡ waiting_ids ws
unfolding waiting_ids unsettled
waiting_ids-unsettled [] = refl
waiting_ids-unsettled (w ∷ ws) = elim (Bool-cases w.settled) [
  | inl settled ↦ rw settled (waiting_ids-unsettled ws)
  | inr going ↦ rw going (ap (◌∷◌ w.id) (waiting_ids-unsettled ws))
]

pub compact_pending-Remembers : (p : Pool) → Remembers (compact_pending p) p
unfolding compact_pending
compact_pending-Remembers p =
    either_holds (λ q. Remembers q p) (ltb_ℤ p.pending_settled (pos 16)) _ _
      (λ _. (λ h. h, λ id. refl))
      (λ _. (
        λ _. ap pos (sym (settled_in-unsettled p.pending)),
        λ id.
            ap (λ ids. count id ids + (count id (receivers p.resolved) + count id p.rejected))
              (waiting_ids-unsettled p.pending),
      ))

pub compact_pending-told :
    (p : Pool)
    → ((compact_pending p).resolved ≡ p.resolved) × ((compact_pending p).rejected ≡ p.rejected)
unfolding compact_pending
compact_pending-told p =
    either_holds (λ (q : Pool). (q.resolved ≡ p.resolved) × (q.rejected ≡ p.rejected))
      (ltb_ℤ p.pending_settled (pos 16)) _ _ (λ _. (refl, refl)) (λ _. (refl, refl))

take_loop-counted :
    (ws : List PendingAcquire) (settled : ℤ)
    → settled ≡ pos (settled_in ws)
    → (take_loop ws settled).1 ≡ pos (settled_in (take_loop ws settled).0)
unfolding take_loop settled_in
take_loop-counted [] settled h = h
take_loop-counted (w ∷ ws) settled h = elim (Bool-cases w.settled) [
  | inl over ↦
      let one_less : settled -ℤ pos 1 ≡ pos (settled_in ws) =
        rw h (rw over (pos_sub 1 (settled_in ws))) in
      rw over (take_loop-counted ws (settled -ℤ pos 1) one_less)
  | inr going ↦ rw going (h ∙ rw going refl)
]

take_loop-told :
    (id : ℕ) (ws : List PendingAcquire) (settled : ℤ)
    → count id (waiting_ids (take_loop ws settled).0) + counted id (take_loop ws settled).2
      ≡ count id (waiting_ids ws)
unfolding take_loop waiting_ids count
take_loop-told id [] settled = refl
take_loop-told id (w ∷ ws) settled = elim (Bool-cases w.settled) [
  | inl over ↦ rw over (take_loop-told id ws (settled -ℤ pos 1))
  | inr going ↦ rw going (omega arith)
]

-- An acquire was taken from the queue, and is not told yet.
abbrev pub Takes : Pool × Option ℕ → Pool → Type 0
Takes (after, taken) before =
    (IsCounted before → IsCounted after)
    × ((id : ℕ) → told id after + counted id taken ≡ told id before)

finish_take-Takes :
    (p : Pool) (taken : Option ℕ)
    → (IsCounted p → IsCounted (finish_take p taken).0)
      × ((id : ℕ) → told id (finish_take p taken).0 ≡ told id p)
      × ((finish_take p taken).1 ≡ taken)
unfolding finish_take
finish_take-Takes p none = (λ h. h, λ id. refl, refl)
finish_take-Takes p (some taken) =
    ((compact_pending-Remembers p).0, (compact_pending-Remembers p).1, refl)

pub take_next_pending_acquire-Takes : (p : Pool) → Takes (take_next_pending_acquire p) p
unfolding take_next_pending_acquire
take_next_pending_acquire-Takes p =
    let (rest, settled, taken) = take_loop p.pending p.pending_settled in
    let after = record p { pending = rest; pending_settled = settled } in
    let (keeps, same, chosen) = finish_take-Takes after taken in
    (
      λ h. keeps (take_loop-counted p.pending p.pending_settled h),
      λ id.
          omega
            (arith, same id, ap (counted id) chosen, take_loop-told id p.pending p.pending_settled),
    )

hand_to-Remembers :
    (conn : ℕ) (result : Pool × Option ℕ) (before : Pool)
    → Takes result before
    → Remembers (hand_to conn result).0 before
unfolding hand_to count
hand_to-Remembers conn (p, none) before (keeps, same) = (keeps, λ id. omega (arith, same id))
hand_to-Remembers conn (p, some taken) before (keeps, same) = (
  keeps,
  λ id. omega (
    arith,
    same id,
    ap (count id) (receivers-append p.resolved taken conn),
    count-append id (receivers p.resolved) (taken ∷ []),
  ),
)

pub handoff_pending_acquire-Remembers :
    (conn : ℕ) (p : Pool) → Remembers (handoff_pending_acquire conn p).0 p
unfolding handoff_pending_acquire
handoff_pending_acquire-Remembers conn p =
    hand_to-Remembers conn (take_next_pending_acquire p) p (take_next_pending_acquire-Takes p)

rejected_taken :
    (result : Pool × Option ℕ) (before : Pool)
    → Takes result before
    → Remembers (reject_taken result) before
unfolding count
rejected_taken (p, none) before (keeps, same) = (keeps, λ id. omega (arith, same id))
rejected_taken (p, some taken) before (keeps, same) =
    (keeps, λ id. omega (arith, same id, count-append id p.rejected (taken ∷ [])))

pub reject_taken-Remembers : (p : Pool) → Remembers (reject_taken (take_next_pending_acquire p)) p
reject_taken-Remembers p =
    rejected_taken (take_next_pending_acquire p) p (take_next_pending_acquire-Takes p)

settled_in-mark_settled :
    (id : ℕ) (ws : List PendingAcquire)
    → waits id ws ≡ true
    → settled_in (mark_settled id ws) ≡ settled_in ws + 1
unfolding settled_in mark_settled waits
settled_in-mark_settled id [] h = cc
settled_in-mark_settled id (w ∷ ws) h =
    either_holds (λ l. settled_in l ≡ settled_in (w ∷ ws) + 1) (id == w.id && not w.settled) _ _
      (λ here. ground arith) (λ there. ground (arith, settled_in-mark_settled id ws))

waiting_ids-mark_settled :
    (c id : ℕ) (ws : List PendingAcquire)
    → waits id ws ≡ true
    → count c (waiting_ids (mark_settled id ws)) + (if c == id then 1 else 0)
      ≡ count c (waiting_ids ws)
unfolding waiting_ids mark_settled waits count
waiting_ids-mark_settled c id [] h = cc
waiting_ids-mark_settled c id (w ∷ ws) h =
    either_holds
      (λ l. count c (waiting_ids l) + (if c == id then 1 else 0) ≡ count c (waiting_ids (w ∷ ws)))
      (id == w.id && not w.settled) _ _ (λ here. ground arith)
      (λ there. ground (arith, waiting_ids-mark_settled c id ws))

pub reject_pending_acquire-Remembers :
    (id : ℕ) (p : Pool) → Remembers (reject_pending_acquire id p) p
unfolding reject_pending_acquire count
reject_pending_acquire-Remembers id p =
    either_holds (λ q. Remembers q p) (waits id p.pending) _ _
      (λ there.
        let marked = record p {
          pending = mark_settled id p.pending;
          pending_settled = p.pending_settled +ℤ pos 1;
        } in
        let (keeps, same) = compact_pending-Remembers marked in
        let (given, refused) = compact_pending-told marked in
        (
          λ h. keeps (
              ap (λ n. n +ℤ pos 1) h
              ∙ pos_add (settled_in p.pending) 1
              ∙ ap pos (sym (settled_in-mark_settled id p.pending there))),
          λ c. omega (
            arith,
            same c,
            waiting_ids-mark_settled c id p.pending there,
            count-append c p.rejected (id ∷ []),
            ap (count c) refused,
            ap (λ r. count c (receivers r)) given,
          ),
        ))
      (λ _. (λ h. h, λ c. refl))

pub do_close-Remembers : (p : Pool) → Remembers (do_close p) p
unfolding do_close count settled_in waiting_ids
do_close-Remembers p =
    (λ _. refl, λ c. omega (arith, count-append c p.rejected (waiting_ids p.pending)))
