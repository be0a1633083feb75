-- ===== src/Wire/Pointers/Rebase.antt =====
-- Rebasing a pointer word keeps its target and its other fields.
use capnp_deno.Base.{
  ℕ, ◌/◌, ◌^◌, ◌<◌, ◌≡◌, sym, ap, subst, ◌∙◌, ◌⊎◌, inl, inr, ok, ◌>>=◌, arith, ◌==◌, ◌||◌,
  Bool-cases, ok-injective, >>=-eq-ok,
}
use capnp_deno.Base.Int.{ℤ, pos, ◌+ℤ◌, ◌-ℤ◌, +ℤ_assoc, int_laws}
use capnp_deno.Wire.PointerWord.{kind, raw_offset}
use capnp_deno.Wire.Segments.{signed30, encode_signed30}
use capnp_deno.Wire.Pointers.{rebase_pointer_word, rebase_copied_root_pointer, with_offset}
use capnp_deno.Wire.Segments.Signed.{signed30-encode_signed30}

raw_offset-with_offset :
    (word field : ℕ) → field < 2 ^ 30 → raw_offset (with_offset word field) ≡ field
raw_offset-with_offset word field h = omega arith

signed30-below :
    (value : ℤ) (w : ℕ) → encode_signed30 value ≡ ok w → (signed30 w ≡ value) × (w < 2 ^ 30)
signed30-below value w e = elim (signed30-encode_signed30 value) [
  | inl (refused, _) ↦ cc
  | inr (v, is_v, _, small, back) ↦
      let same : v ≡ w = ok-injective (sym is_v ∙ e) in
      (
        subst (λ x. signed30 x ≡ value) same (ap signed30 (omega arith) ∙ back 0),
        subst (λ x. x < 2 ^ 30) same small,
      )
]

-- Two places count as one target when the sums agree.
moved_target :
    (from to offset value : ℤ)
    → value ≡ from +ℤ pos 1 +ℤ offset -ℤ (to +ℤ pos 1)
    → to +ℤ pos 1 +ℤ value ≡ from +ℤ pos 1 +ℤ offset
moved_target from to offset value h =
    subst (λ v. to +ℤ pos 1 +ℤ v ≡ from +ℤ pos 1 +ℤ offset) (sym h) (grind int_laws)

-- The word with a new offset field.
rebased :
    (word : ℕ) (from to : ℤ) (moved : ℕ)
    → (encode_signed30 (from +ℤ pos 1 +ℤ signed30 (raw_offset word) -ℤ (to +ℤ pos 1)) >>= λ field.
        ok (with_offset word field))
      ≡ ok moved
    → (to +ℤ pos 1 +ℤ signed30 (raw_offset moved) ≡ from +ℤ pos 1 +ℤ signed30 (raw_offset word))
      × (kind moved ≡ kind word)
      × (moved / 2 ^ 32 ≡ word / 2 ^ 32)
rebased word from to moved e =
    let (field, encoded, is_moved) = >>=-eq-ok (encode_signed30 _) _ e in
    let (back, small) = signed30-below _ field encoded in
    subst
      (λ m.
        (to +ℤ pos 1 +ℤ signed30 (raw_offset m) ≡ from +ℤ pos 1 +ℤ signed30 (raw_offset word))
        × (kind m ≡ kind word)
        × (m / 2 ^ 32 ≡ word / 2 ^ 32))
      (ok-injective is_moved)
      (
        moved_target from to (signed30 (raw_offset word)) _
            (ap signed30 (raw_offset-with_offset word field small) ∙ back),
        omega arith,
        omega arith,
      )

-- Rebasing succeeds only with a word that points from its new place to the old target and has the
-- old pointer's other fields, unless the word is zero or a capability, which stays as it is.
pub rebase_pointer_word-target :
    (word : ℕ) (from to : ℤ) (moved : ℕ)
    → rebase_pointer_word word from to ≡ ok moved
    → (((word ≡ 0) ⊎ (kind word ≡ 3)) × (moved ≡ word))
      ⊎ (((kind word ≡ 0) ⊎ (kind word ≡ 1))
          × (to +ℤ pos 1 +ℤ signed30 (raw_offset moved)
              ≡ from +ℤ pos 1 +ℤ signed30 (raw_offset word))
          × (kind moved ≡ kind word)
          × (moved / 2 ^ 32 ≡ word / 2 ^ 32))
unfolding rebase_pointer_word
rebase_pointer_word-target word from to moved e = elim (Bool-cases (word == 0)) [
  | inl null ↦ inl (inl (ground arith), ground arith)
  | inr not_null ↦ elim (Bool-cases (kind word == 0 || kind word == 1)) [
    | inl near ↦
        let (target, same_kind, same_high) =
          rebased word from to moved (rw (not_null, near) at e) in
        inr (ground arith, target, same_kind, same_high)
    | inr other ↦ elim (Bool-cases (kind word == 2)) [
      | inl far ↦ cc (rw (not_null, other, far) at e)
      | inr capability ↦
          inl (inr (ground arith), sym (ok-injective (rw (not_null, other, capability) at e)))
    ]
  ]
]

-- The copy of a root pointer is rebased as any other pointer is.
pub rebase_copied_root_pointer-rebase_pointer_word :
    (root : ℕ) (copied_start destination : ℤ)
    → rebase_copied_root_pointer root copied_start destination
      ≡ rebase_pointer_word root copied_start destination
unfolding rebase_copied_root_pointer rebase_pointer_word
rebase_copied_root_pointer-rebase_pointer_word root start destination =
    rw (+ℤ_assoc start (pos 1) (signed30 (raw_offset root)))
