-- ===== src/Transport/CloseSignal/Tests.antt =====
-- A close signal with two registrations, of which one has ended.
use capnp_deno.Base.{◌≡◌, refl, false}
use capnp_deno.Transport.CloseSignal.{CloseSignal, new_signal, subscribe, unsubscribe}
use capnp_deno.Transport.CloseSignal.Once.{
  IsSound, Reachable, starts, subscribes, unsubscribes, Reachable-IsSound,
}

abbrev one_left : CloseSignal
one_left = unsubscribe 0 (subscribe (subscribe new_signal))

history : Reachable one_left
history =
    unsubscribes (subscribe (subscribe new_signal)) 0
      (subscribes (subscribe new_signal) (subscribes new_signal starts))

Reachable-IsSound_example : IsSound one_left
Reachable-IsSound_example = Reachable-IsSound one_left history

waits : one_left.closed ≡ false
unfolding unsubscribe subscribe
waits = refl
