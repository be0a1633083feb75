-- ===== src/Transport/CloseSignal/Once.antt =====
-- No observer of a transport's end is called twice, or before the end.
use capnp_deno.Base.{
  ℕ, ◌+◌, ◌≤◌, ◌≡◌, refl, sym, ap, subst, ◌∙◌, ◌⊎◌, inl, inr, true, false, List, [], ◌∷◌, ◌++◌,
  arith, ltb, if◌then◌else◌, count, count-append,
}
use capnp_deno.Transport.CloseSignal.{
  CloseSignal, new_signal, subscribe, delete, unsubscribe, close,
}

count-delete-le : (p q : ℕ) (xs : List ℕ) → count p (delete q xs) ≤ count p xs
unfolding count delete
count-delete-le p q [] = omega arith
count-delete-le p q (x ∷ xs) = ground (arith, count-delete-le p q xs)

-- An open signal has called nobody, a closed one has no observer left, and no registration stands
-- twice, as called or as an observer.
pub record IsSound (s : CloseSignal) : Type 0 where
  pub phase : ((s.closed ≡ false) × (s.notified ≡ [])) ⊎ ((s.closed ≡ true) × (s.observers ≡ []))
  pub once :
      (p : ℕ) → count p s.notified + count p s.observers ≤ (if ltb p s.registrations then 1 else 0)

pub data Reachable : CloseSignal → Type 0 where
  starts : Reachable new_signal
  subscribes : (s : CloseSignal) → Reachable s → Reachable (subscribe s)
  unsubscribes : (s : CloseSignal) (p : ℕ) → Reachable s → Reachable (unsubscribe p s)
  closes : (s : CloseSignal) → Reachable s → Reachable (close s)

subscribe-IsSound : (s : CloseSignal) → IsSound s → IsSound (subscribe s)
unfolding count subscribe
subscribe-IsSound s v = elim v.phase [
  | inl (going, none) ↦
      let same : subscribe s ≡ record s {
        registrations = s.registrations + 1;
        observers = s.observers ++ s.registrations ∷ [];
      } =
        cc in
      subst IsSound (sym same) (record {
        phase = inl (going, none);
        once = λ p. ground (arith, v.once p, count-append p s.observers (s.registrations ∷ []));
      })
  | inr (over, none) ↦
      let same : subscribe s ≡ record s {
        registrations = s.registrations + 1;
        notified = s.notified ++ s.registrations ∷ [];
      } =
        cc in
      subst IsSound (sym same) (record {
        phase = inr (over, none);
        once = λ p. ground (arith, v.once p, count-append p s.notified (s.registrations ∷ []));
      })
]

close-IsSound : (s : CloseSignal) → IsSound s → IsSound (close s)
unfolding count close
close-IsSound s v = elim v.phase [
  | inl (going, none) ↦
      let same : close s
          ≡ record s { closed = true; observers = []; notified = s.notified ++ s.observers } =
        cc in
      subst IsSound (sym same) (record {
        phase = inr (refl, refl);
        once = λ p. omega (arith, v.once p, count-append p s.notified s.observers);
      })
  | inr (over, none) ↦ let same : close s ≡ s = cc in subst IsSound (sym same) v
]

unsubscribe-IsSound : (p : ℕ) (s : CloseSignal) → IsSound s → IsSound (unsubscribe p s)
unfolding unsubscribe delete
unsubscribe-IsSound p s v = record {
  phase = elim v.phase [
    | inl before ↦ inl before
    | inr (over, none) ↦ inr (over, ap (delete p) none)
  ];
  once = λ x. omega (arith, v.once x, count-delete-le x p s.observers);
}

-- Through every sequence of subscriptions, their ends and closes: nobody is called before the
-- close, no observer is left after it, and each registration is called at most once and is never an
-- observer once it was called.
pub Reachable-IsSound : (s : CloseSignal) → Reachable s → IsSound s
unfolding count
Reachable-IsSound _ starts = record { phase = inl (refl, refl); once = λ p. ground arith }
Reachable-IsSound _ (subscribes s before) = subscribe-IsSound s (Reachable-IsSound s before)
Reachable-IsSound _ (unsubscribes s p before) = unsubscribe-IsSound p s (Reachable-IsSound s before)
Reachable-IsSound _ (closes s before) = close-IsSound s (Reachable-IsSound s before)

-- The close of an open signal calls exactly its observers, in the order of their subscription; a
-- second close calls nobody, and a later subscriber is called at once.
pub close-notifies :
    (s : CloseSignal)
    → Reachable s
    → s.closed ≡ false
    → ((close s).notified ≡ s.observers)
      × (close (close s) ≡ close s)
      × ((subscribe (close s)).notified ≡ s.observers ++ s.registrations ∷ [])
unfolding close subscribe
close-notifies s history going =
    let v = Reachable-IsSound s history in
    let quiet : s.notified ≡ [] = elim v.phase [ inl (_, none) ↦ none | inr (over, _) ↦ cc ] in
    let same : close s
        ≡ record s { closed = true; observers = []; notified = s.notified ++ s.observers } =
      cc in
    let all : s.notified ++ s.observers ≡ s.observers = ap (λ l. l ++ s.observers) quiet in
    (
      ap (λ t. t.notified) same ∙ all,
      ap close same ∙ sym same,
      ap (λ t. (subscribe t).notified) same ∙ ap (λ l. l ++ s.registrations ∷ []) all,
    )
