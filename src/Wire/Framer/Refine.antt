-- ===== src/Wire/Framer/Refine.antt =====
-- The framer's buffer stands for the bytes that were pushed and not taken.
use capnp_deno.Base.{
  take-set_bytes, length-set_bytes, ℕ, ◌+◌, ◌*◌, ◌≤◌, ◌≡◌, refl, sym, ap, ◌∙◌, inl, inr, true,
  false, Option, none, some, [], ◌∷◌, ◌++◌, Bytes, ok, arith, length, take, replicate, max,
  set_bytes, length-take, length-replicate, ltb, Bool-cases, ok-injective, subst, append-nil, ◌==◌,
}
use capnp_deno.Wire.FrameLimits.{LimitsOptions}
use capnp_deno.Wire.Framer.{Bound, finite, infinity, exceeds, at_most, Framer, grow, push}
use capnp_deno.Wire.Framer.Header.{Header, Header-append}

-- The bytes that were pushed and not taken yet.
abbrev pub contents : Framer → Bytes
contents f = take f.used f.buffer

-- A known total is the one that the segment table declares.
abbrev pub KnownTotal : LimitsOptions → Bound → Bytes → Option ℕ → Type 0
KnownTotal limits bound bs none = Unit {0}
KnownTotal limits bound bs (some total) = Header limits bound bs total

pub record IsValid (f : Framer) : Type 0 where
  pub in_buffer : f.used ≤ length f.buffer
  pub within : exceeds f.used f.max_buffered ≡ false
  pub known : KnownTotal f.limits f.max_buffered (contents f) f.expected_total

pub length-contents : (f : Framer) → IsValid f → length (contents f) ≡ f.used
length-contents f v = omega (arith, length-take f.used f.buffer, v.in_buffer)

at_most-le : (b : Bound) (n m : ℕ) → exceeds n b ≡ false → n ≤ at_most b (max n m)
unfolding exceeds at_most
at_most-le (finite k) n m e = ground arith
at_most-le infinity n m e = omega arith

-- The new allocation holds the bytes in use at its front, and has room for the chunk.
grow_lem :
    (f : Framer) (needed : ℕ)
    → f.used ≤ length f.buffer
    → f.used ≤ needed
    → exceeds needed f.max_buffered ≡ false
    → (take f.used (grow f needed) ≡ take f.used f.buffer) × (needed ≤ length (grow f needed))
unfolding grow
grow_lem f needed h k e =
    let size = at_most f.max_buffered (max needed (length f.buffer * 2)) in
    let zeros : Bytes = replicate size 0 in
    let live = take f.used f.buffer in
    let live_length : length live ≡ f.used = omega (arith, length-take f.used f.buffer) in
    let zeros_length : length zeros ≡ size = length-replicate size 0 in
    let enough : needed ≤ size = at_most-le f.max_buffered needed (length f.buffer * 2) e in
    let front : f.used ≡ 0 + length live = omega arith in
    (
      ap (λ n. take n (set_bytes zeros 0 live)) front ∙ take-set_bytes zeros live 0 (omega arith),
      rw (length-set_bytes zeros live 0 (omega arith)) (omega arith),
    )

-- The framer once the chunk is copied into `room`, behind the bytes in use.
abbrev filled : Framer → Bytes → Bytes → Framer
filled f room chunk = record f {
  buffer = set_bytes room f.used chunk;
  used = f.used + length chunk;
}

abbrev Appended : Framer → Bytes → Framer → Type 0
Appended f chunk g =
    (contents g ≡ contents f ++ chunk)
    × IsValid g
    × (g.limits ≡ f.limits)
    × (g.max_buffered ≡ f.max_buffered)

KnownTotal-append :
    (limits : LimitsOptions) (bound : Bound) (bs more : Bytes) (total : Option ℕ)
    → KnownTotal limits bound bs total
    → KnownTotal limits bound (bs ++ more) total
KnownTotal-append limits bound bs more none k = tt
KnownTotal-append limits bound bs more (some total) k = Header-append limits bound bs more total k

filled-Appended :
    (f : Framer) (room chunk : Bytes)
    → IsValid f
    → take f.used room ≡ contents f
    → f.used + length chunk ≤ length room
    → exceeds (f.used + length chunk) f.max_buffered ≡ false
    → Appended f chunk (filled f room chunk)
filled-Appended f room chunk v same fits within =
    let appended : contents (filled f room chunk) ≡ contents f ++ chunk =
      take-set_bytes room chunk f.used (omega arith) ∙ ap (λ bs. bs ++ chunk) same in
    (
      appended,
      record {
        in_buffer = rw (length-set_bytes room chunk f.used fits) fits;
        within = within;
        known =
            rw appended (
              KnownTotal-append f.limits f.max_buffered (contents f) chunk f.expected_total
                v.known);
      },
      refl,
      refl,
    )

append-empty : (bs chunk : Bytes) → (length chunk == 0) ≡ true → bs ≡ bs ++ chunk
append-empty bs [] h = sym (append-nil bs)
append-empty bs (b ∷ rest) h = absurd (ground arith)

-- A push that succeeds appends the chunk to the contents, keeps the framer valid and leaves its
-- limits as they are.
pub push_refines :
    (f g : Framer) (chunk : Bytes)
    → IsValid f
    → push f chunk ≡ ok g
    → (contents g ≡ contents f ++ chunk)
      × IsValid g
      × (g.limits ≡ f.limits)
      × (g.max_buffered ≡ f.max_buffered)
unfolding push
push_refines f g chunk v e = elim (Bool-cases (length chunk == 0)) [
  | inl empty ↦
      let same : f ≡ g = ok-injective (rw empty at e) in
      subst (Appended f chunk) same (append-empty (contents f) chunk empty, v, refl, refl)
  | inr more ↦ elim (Bool-cases (exceeds (f.used + length chunk) f.max_buffered)) [
    | inl over ↦ cc (rw (more, over) at e)
    | inr within ↦ elim (Bool-cases (ltb (length f.buffer) (f.used + length chunk))) [
      | inl small ↦
          let (front, room) = grow_lem f (f.used + length chunk) v.in_buffer (omega arith) within in
          subst (Appended f chunk) (ok-injective (rw (more, within, small) at e))
            (filled-Appended f (grow f (f.used + length chunk)) chunk v front room within)
      | inr large ↦
          subst (Appended f chunk) (ok-injective (rw (more, within, large) at e))
            (filled-Appended f f.buffer chunk v refl (ground arith) within)
    ]
  ]
]
