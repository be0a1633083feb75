-- ===== src/Transport/Pool/Moves.antt =====
-- The calls of the pool that move connections from place to place.
use capnp_deno.Base.{
  ℕ, ◌+◌, ◌≤◌, ◌<◌, ◌≡◌, refl, sym, ap, ◌∙◌, Bool, true, false, not, ◌&&◌, ◌||◌, Option, none, some,
  List, [], ◌∷◌, ◌++◌, length, arith, leb, either_holds, count, count-append,
}
use capnp_deno.Transport.Pool.{
  PoolOptions, IdleEntry, Pool, Acquire, returned, checking, creating, waiting, thrown, has, delete,
  delete_entry, get_entry, conns, close_connection, park_idle_connection, hand_or_park, release,
  evict_entry, evict_idle, can_create_connection, acquire_new, acquire_idle, acquire_first,
  acquire_loop, acquire, health_checked, do_close,
}
use capnp_deno.Transport.Pool.Places.{
  one, placed, Gains, count-delete, count-delete_entry, close_connection-Gains, activate-Gains,
  park_idle_connection-Gains, hand_or_park-Gains,
}

-- No connection stands in two places.
abbrev pub Single : Pool → Type 0
Single p = (c : ℕ) → placed c p ≤ 1

abbrev pub Keeps : Pool → Pool → Type 0
Keeps after before = (c : ℕ) → placed c after ≡ placed c before

-- The connections whose health is checked, once an acquire has ended or waits.
abbrev pub in_check : Acquire → List ℕ
in_check (checking conn) = conn ∷ []
in_check (returned conn) = []
in_check creating = []
in_check waiting = []
in_check thrown = []

pub has-count : (d : ℕ) (xs : List ℕ) → has d xs ≡ true → 0 < count d xs
unfolding count has
has-count d [] h = cc
has-count d (x ∷ xs) h = ground (arith, has-count d xs)

found :
    (d : ℕ) (xs : List IdleEntry) (e : IdleEntry) → get_entry d xs ≡ some e → 0 < count d (conns xs)
unfolding count get_entry
found d [] e h = cc
found d (x ∷ xs) e h = ground (arith, found d xs e)

-- A connection that is taken out, and put back somewhere.
put_back :
    (conn : ℕ) (after without before : Pool)
    → Gains conn after without
    → ((c : ℕ) → placed c before ≡ placed c without + one c conn)
    → Keeps after before
put_back conn after without before gains taken c = gains c ∙ sym (taken c)

taken_active :
    (conn : ℕ) (p : Pool)
    → Single p
    → has conn p.active ≡ true
    → (c : ℕ) → placed c p ≡ placed c (record p { active = delete conn p.active }) + one c conn
taken_active conn p single h c =
    ground (arith, count-delete c conn p.active, has-count conn p.active h, single c)

loose_active :
    (conn : ℕ) (p : Pool)
    → Single p
    → has conn p.active ≡ true
    → placed conn (record p { active = delete conn p.active }) ≡ 0
loose_active conn p single h =
    ground (arith, count-delete conn conn p.active, has-count conn p.active h, single conn)

pub release-Keeps : (conn now : ℕ) (p : Pool) → Single p → Keeps (release conn now p) p
unfolding release
release-Keeps conn now p single =
    either_holds (λ q. Keeps q p) (not (has conn p.active)) _ _ (λ _ c. refl)
      (λ held.
        let without = record p { active = delete conn p.active } in
        let there : has conn p.active ≡ true = ground arith in
        let loose = loose_active conn p single there in
        either_holds (λ q. Keeps q p) p.closed _ _
          (λ _.
            put_back conn (close_connection conn without) without p
              (close_connection-Gains conn without) (taken_active conn p single there))
          (λ _.
            put_back conn (hand_or_park conn now without) without p
              (hand_or_park-Gains conn now without loose) (taken_active conn p single there)))

taken_idle :
    (conn : ℕ) (e : IdleEntry) (p : Pool)
    → Single p
    → get_entry conn p.idle ≡ some e
    → (c : ℕ) → placed c p ≡ placed c (record p { idle = delete_entry conn p.idle }) + one c conn
taken_idle conn e p single h c =
    ground (arith, count-delete_entry c conn p.idle, found conn p.idle e h, single c)

loose_idle :
    (conn : ℕ) (e : IdleEntry) (p : Pool)
    → Single p
    → get_entry conn p.idle ≡ some e
    → placed conn (record p { idle = delete_entry conn p.idle }) ≡ 0
loose_idle conn e p single h =
    ground (arith, count-delete_entry conn conn p.idle, found conn p.idle e h, single conn)

evict_entry-Keeps :
    (options : PoolOptions) (conn : ℕ) (entry : Option IdleEntry) (p : Pool)
    → Single p
    → get_entry conn p.idle ≡ entry
    → Keeps (evict_entry options conn entry p) p
unfolding evict_entry
evict_entry-Keeps options conn none p single there = λ c. refl
evict_entry-Keeps options conn (some entry) p single there =
    let without = record p { idle = delete_entry conn p.idle } in
    either_holds (λ q. Keeps q p)
      (leb options.min_connections (length without.idle + length without.active)) _ _
      (λ _.
        put_back conn (close_connection conn without) without p
          (close_connection-Gains conn without) (taken_idle conn entry p single there))
      (λ _.
        put_back conn (park_idle_connection conn entry.last_used_at without) without p
          (park_idle_connection-Gains conn entry.last_used_at without
            (loose_idle conn entry p single there))
          (taken_idle conn entry p single there))

pub evict_idle-Keeps :
    (options : PoolOptions) (conn : ℕ) (p : Pool) → Single p → Keeps (evict_idle options conn p) p
unfolding evict_idle
evict_idle-Keeps options conn p single =
    evict_entry-Keeps options conn (get_entry conn p.idle) p single refl

-- An acquire moves connections, and may take one out for a health check.
abbrev pub KeepsChecked : Pool × Acquire → (ℕ → ℕ) → Type 0
KeepsChecked result amount = (c : ℕ) → placed c result.0 + count c (in_check result.1) ≡ amount c

acquire_new-Keeps :
    (options : PoolOptions) (id : ℕ) (aborted : Bool) (p : Pool)
    → KeepsChecked (acquire_new options id aborted p) (λ c. placed c p)
unfolding acquire_new count
acquire_new-Keeps options id aborted p =
    either_holds (λ r. KeepsChecked r (λ c. placed c p)) aborted _ _ (λ _ c. omega arith)
      (λ _.
        either_holds (λ r. KeepsChecked r (λ c. placed c p)) (can_create_connection options p) _ _
          (λ _ c. omega arith) (λ _ c. omega arith))

plus_none : (m n : ℕ) → m ≡ n → m + 0 ≡ n
plus_none m n h = omega arith

acquire_idle-Keeps :
    (now conn : ℕ) (aborted : Bool) (p : Pool)
    → placed conn p ≡ 0
    → KeepsChecked (acquire_idle now conn aborted p) (λ c. placed c p + one c conn)
unfolding acquire_idle count
acquire_idle-Keeps now conn aborted p loose =
    either_holds (λ r. KeepsChecked r (λ c. placed c p + one c conn)) aborted _ _
      (λ _ c. plus_none _ _ (
        either_holds (λ q. placed c q ≡ placed c p + one c conn) p.closed _ _
          (λ _. close_connection-Gains conn p c) (λ _. hand_or_park-Gains conn now p loose c)))
      (λ _ c. plus_none _ _ (activate-Gains conn p loose c))

pub taken_first :
    (entry : IdleEntry) (rest : List IdleEntry) (p : Pool)
    → p.idle ≡ entry ∷ rest
    → (c : ℕ) → placed c p ≡ placed c (record p { idle = rest }) + one c entry.conn
unfolding count
taken_first entry rest p there c =
    let first : count c (conns p.idle) ≡ one c entry.conn + count c (conns rest) =
      ap (λ es. count c (conns es)) there in
    omega (arith, first)

acquire_first-Keeps :
    (options : PoolOptions) (now id : ℕ) (aborted : Bool) (es : List IdleEntry) (p : Pool)
    → Single p
    → p.idle ≡ es
    → KeepsChecked (acquire_first options now id aborted es p) (λ c. placed c p)
unfolding acquire_first count
acquire_first-Keeps options now id aborted [] p single there =
    acquire_new-Keeps options id aborted p
acquire_first-Keeps options now id aborted (entry ∷ rest) p single there =
    let after = record p { idle = rest } in
    let taken = taken_first entry rest p there in
    let loose : placed entry.conn after ≡ 0 = ground (arith, taken entry.conn, single entry.conn) in
    either_holds (λ r. KeepsChecked r (λ c. placed c p))
      (options.has_health_check && leb (entry.last_used_at + options.health_check_idle_ms) now) _ _
      (λ _ c. omega (arith, taken c))
      (λ _ c. acquire_idle-Keeps now entry.conn aborted after loose c ∙ sym (taken c))

acquire_loop-Keeps :
    (options : PoolOptions) (now id : ℕ) (aborted : Bool) (p : Pool)
    → Single p
    → KeepsChecked (acquire_loop options now id aborted p) (λ c. placed c p)
unfolding acquire_loop
acquire_loop-Keeps options now id aborted p single =
    acquire_first-Keeps options now id aborted p.idle p single refl

pub acquire-Keeps :
    (options : PoolOptions) (now id : ℕ) (aborted : Bool) (p : Pool)
    → Single p
    → KeepsChecked (acquire options now id aborted p) (λ c. placed c p)
unfolding acquire count
acquire-Keeps options now id aborted p single =
    either_holds (λ r. KeepsChecked r (λ c. placed c p)) (aborted || p.closed) (p, thrown) _
      (λ _ c. omega arith) (λ _. acquire_loop-Keeps options now id false p single)

pub health_checked-Keeps :
    (options : PoolOptions) (now id conn : ℕ) (healthy aborted : Bool) (p : Pool)
    → Single p
    → placed conn p ≡ 0
    → KeepsChecked
        (health_checked options now id conn healthy aborted p)
        (λ c. placed c p + one c conn)
unfolding health_checked
health_checked-Keeps options now id conn healthy aborted p single loose =
    let gains = close_connection-Gains conn p in
    either_holds (λ r. KeepsChecked r (λ c. placed c p + one c conn)) healthy _ _
      (λ _. acquire_idle-Keeps now conn aborted p loose)
      (λ _ c.
        acquire_loop-Keeps options now id aborted (close_connection conn p)
          (λ d. ground (arith, gains d, single d, loose)) c
        ∙ gains c)

pub do_close-Keeps : (p : Pool) → Keeps (do_close p) p
unfolding do_close count
do_close-Keeps p c = omega (
  arith,
  count-append c p.discarded (conns p.idle ++ p.active),
  count-append c (conns p.idle) p.active,
)
