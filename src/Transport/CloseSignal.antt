-- ===== src/Transport/CloseSignal.antt =====
-- `TransportCloseSignal` of rpc/transports/internal/transport_internal.ts. A registration is a number,
-- given out in order; the log holds the registrations whose observer was called, the latest last.
pub mod Once
mod Tests
use capnp_deno.Base.{ℕ, ◌+◌, Bool, true, false, List, [], ◌∷◌, ◌++◌, ◌==◌, if◌then◌else◌}

-- The private fields; the set of observers keeps the order of insertion.
pub record CloseSignal : Type 0 where
  pub closed : Bool
  pub observers : List ℕ
  pub registrations : ℕ
  pub notified : List ℕ

abbrev pub new_signal : CloseSignal
new_signal = record { closed = false; observers = []; registrations = 0; notified = [] }

-- `subscribe`: a closed signal calls the observer at once.
unfoldable pub subscribe : CloseSignal → CloseSignal
subscribe s =
    if s.closed
    then record s {
      registrations = s.registrations + 1;
      notified = s.notified ++ s.registrations ∷ [];
    }
    else record s {
      registrations = s.registrations + 1;
      observers = s.observers ++ s.registrations ∷ [];
    }

-- `Set.delete`
unfoldable pub delete : ℕ → List ℕ → List ℕ
delete p [] = []
delete p (x ∷ xs) = let rest = delete p xs in if p == x then rest else x ∷ rest

-- The function that `subscribe` returns.
unfoldable pub unsubscribe : ℕ → CloseSignal → CloseSignal
unsubscribe p s = record s { observers = delete p s.observers }

-- `close`
unfoldable pub close : CloseSignal → CloseSignal
close s =
    if s.closed
    then s
    else record s { closed = true; observers = []; notified = s.notified ++ s.observers }
