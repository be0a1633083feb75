-- ===== src/Wire/FrameLimits/Walk/Termination.antt =====
-- Why the worklist of rpc/wire/frame_limits.ts ends: a measure of the pending pointers falls.
use native.Mathlib.Nat.{pow-suc, one-le-pow, mul-le-mul_left}
use capnp_deno.Base.{
  ℕ, zero, suc, ◌+◌, ◌-◌, ◌*◌, ◌^◌, ◌≤◌, ◌<◌, ◌≡◌, ap, ◌∙◌, ◌⊎◌, inl, inr, none, some, List, [],
  ◌∷◌, Bytes, ok, arith, length, get_elem?, Option-cases, Bool-cases, Result-cases, ◌>>=◌, ◌≢◌,
  >>=-eq-ok, ltb,
}
use capnp_deno.Base.Int.{ℤ, pos, negsuc, pos_part}
use capnp_deno.Wire.PointerWord.{data_words, pointer_count, element_count, raw_offset}
use capnp_deno.Wire.FrameLimits.Walk.{
  Resolved, PointerState, require_word_range, range_in_segment, push_pointers, push_elements,
  target_word, visit_struct, visit_composite, visit_flat, visit, walk_step, walk, resolve_pointer,
  enforce_nesting_depth, root_state, has, state_key, read_word_at, word_of, words_for_flat_list,
}

-- Every segment has at most `words` words.
abbrev pub AllWithin : ℕ → List Bytes → Type 0
AllWithin words [] = Unit {0}
AllWithin words (s ∷ segments) = (length s ≤ words * 8) × AllWithin words segments

AllWithin-get_elem? :
    (words : ℕ) (segments : List Bytes) (i : ℕ) (s : Bytes)
    → AllWithin words segments
    → get_elem? segments i ≡ some s
    → length s ≤ words * 8
AllWithin-get_elem? words [] i s a e = cc
AllWithin-get_elem? words (x ∷ xs) zero s a e = ground arith
AllWithin-get_elem? words (x ∷ xs) (suc i) s a e = AllWithin-get_elem? words xs i s a.1 e

range_in_segment-le :
    (words : ℕ) (s : Bytes) (start : ℤ) (count : ℕ)
    → length s ≤ words * 8
    → range_in_segment s start count ≡ ok tt
    → pos_part start + count ≤ words
range_in_segment-le words s (pos n) count h e = ground arith
range_in_segment-le words s (negsuc n) count h e = cc

-- A range that is in bounds has no more words than a segment can have.
pub require_word_range-le :
    (words : ℕ) (segments : List Bytes) (id : ℕ) (start : ℤ) (count : ℕ)
    → AllWithin words segments
    → require_word_range segments id start count ≡ ok tt
    → pos_part start + count ≤ words
unfolding require_word_range
require_word_range-le words segments id start count a e =
    elim (Option-cases (get_elem? segments id)) [
      | inl missing ↦ cc (rw (missing, require_word_range) at e)
      | inr (s, found) ↦
          range_in_segment-le words s start count (AllWithin-get_elem? words segments id s a found)
            (rw (found, require_word_range) at e)
    ]

module _ (words max_depth : ℕ) where
  -- What a pending pointer may still cost: one factor for each level below it.
  abbrev pub weight : ℕ → ℕ
  weight depth = suc words ^ (max_depth + 2 - depth)

  abbrev pub total_weight : List PointerState → ℕ
  total_weight [] = 0
  total_weight (s ∷ pending) = weight s.depth + total_weight pending

  total_weight-push_pointers :
      (id depth first count : ℕ) (pending : List PointerState)
      → total_weight (push_pointers id depth first count pending)
        ≡ total_weight pending + count * weight depth
  unfolding push_pointers
  total_weight-push_pointers id depth first zero pending = omega arith
  total_weight-push_pointers id depth first (suc count) pending = omega (
    arith,
    total_weight-push_pointers id depth (first + 1) count
        (record { segment_id = id; pointer_word = first; depth = depth } ∷ pending),
  )

  total_weight-push_elements :
      (id depth start stride pointers count : ℕ) (pending : List PointerState)
      → total_weight (push_elements id depth start stride pointers count pending)
        ≡ total_weight pending + count * pointers * weight depth
  unfolding push_elements
  total_weight-push_elements id depth start stride pointers zero pending = omega arith
  total_weight-push_elements id depth start stride pointers (suc count) pending = omega (
    arith,
    total_weight-push_elements id depth (start + stride) stride pointers count
        (push_pointers id depth start pointers pending),
    total_weight-push_pointers id depth start pointers pending,
  )

  -- A level's weight is the weight of `words + 1` pointers below it.
  weight-suc : (depth : ℕ) → depth ≤ max_depth → weight depth ≡ weight (depth + 1) * suc words
  weight-suc depth h = ap (λ k. suc words ^ k) e ∙ pow-suc (suc words) (max_depth + 2 - (depth + 1))
    where
      e : max_depth + 2 - depth ≡ suc (max_depth + 2 - (depth + 1))
      e = omega arith

  weight-pos : (depth : ℕ) → 0 < weight depth
  weight-pos depth = one-le-pow (max_depth + 2 - depth) (suc words) (omega arith)

  -- What a visit adds is at most `words` pointers one level down.
  abbrev Adds : ℕ → List PointerState → List PointerState → Type 0
  Adds depth pending next = total_weight next ≤ total_weight pending + words * weight (depth + 1)

  Adds-push :
      (id depth first count : ℕ) (pending : List PointerState)
      → count ≤ words
      → Adds depth pending (push_pointers id (depth + 1) first count pending)
  Adds-push id depth first count pending h =
      grind (arith, total_weight-push_pointers id (depth + 1) first count pending)

  visit_struct-Adds :
      (segments : List Bytes) (r : Resolved) (depth : ℕ) (pending next : List PointerState)
      → AllWithin words segments
      → visit_struct segments r depth pending ≡ ok next
      → Adds depth pending next
  unfolding visit_struct
  visit_struct-Adds segments r depth pending next a e = ground (
    arith,
    require_word_range-le words segments r.segment_id (target_word r)
        (data_words r.word + pointer_count r.word) a,
    Adds-push r.segment_id depth (pos_part (target_word r) + data_words r.word)
        (pointer_count r.word) pending,
  )

  visit_flat-Adds :
      (segments : List Bytes) (r : Resolved) (depth : ℕ) (pending next : List PointerState)
      → AllWithin words segments
      → visit_flat segments r depth pending ≡ ok next
      → Adds depth pending next
  unfolding visit_flat words_for_flat_list
  visit_flat-Adds segments r depth pending next a e = ground (
    arith,
    require_word_range-le words segments r.segment_id (target_word r) (element_count r.word) a,
    Adds-push r.segment_id depth (pos_part (target_word r)) (element_count r.word) pending,
  )

  -- The pointers of an inline composite list are among its words.
  Adds-push_elements :
      (id depth start own pointers count size : ℕ) (pending : List PointerState)
      → (own + pointers) * count ≤ size
      → size ≤ words
      → Adds depth pending
          (push_elements id (depth + 1) start (own + pointers) pointers count pending)
  Adds-push_elements id depth start own pointers count size pending h k =
      let few : count * pointers ≤ words = omega arith in
      let scaled = mul-le-mul_left {m = count * pointers} {n = words} (weight (depth + 1)) few in
      omega (
        arith,
        scaled,
        total_weight-push_elements id (depth + 1) start (own + pointers) pointers count pending,
      )

  visit_composite-Adds :
      (segments : List Bytes) (r : Resolved) (depth : ℕ) (pending next : List PointerState)
      → AllWithin words segments
      → visit_composite segments r depth pending ≡ ok next
      → Adds depth pending next
  unfolding visit_composite read_word_at
  visit_composite-Adds segments r depth pending next a e =
      let first = pos_part (target_word r) + 1 in
      let tag = word_of segments r.segment_id (pos_part (target_word r)) in
      ground (
        arith,
        require_word_range-le words segments r.segment_id (pos first) (element_count r.word) a,
        Adds-push_elements r.segment_id depth (first + data_words tag) (data_words tag)
            (pointer_count tag) (raw_offset tag) (element_count r.word) pending,
      )

  -- A visit adds nothing, or it is at a depth that the limit allows.
  visit-Adds :
      (segments : List Bytes) (r : Resolved) (depth : ℕ) (pending next : List PointerState)
      → AllWithin words segments
      → visit segments max_depth r depth pending ≡ ok next
      → (next ≡ pending) ⊎ ((depth ≤ max_depth) × Adds depth pending next)
  unfolding visit
  visit-Adds segments r depth pending next a e = ground (
    arith,
    visit_struct-Adds segments r depth pending next a,
    visit_composite-Adds segments r depth pending next a,
    visit_flat-Adds segments r depth pending next a,
  )

  -- A turn of the worklist lowers the weight.
  walk_step-lt :
      (segments : List Bytes) (s : PointerState) (pending next : List PointerState)
      (seen keys : List ℕ)
      → AllWithin words segments
      → walk_step segments max_depth s pending seen ≡ ok (next, keys)
      → total_weight next < total_weight (s ∷ pending)
  unfolding walk_step
  walk_step-lt segments s pending next seen keys a e = elim (Bool-cases (has (state_key s) seen)) [
    | inl old ↦ ground (arith, weight-pos s.depth)
    | inr new ↦
        let found : (resolve_pointer segments s.segment_id s.pointer_word >>= λ r.
        visit segments max_depth r s.depth pending >>= λ n. ok (n, state_key s ∷ seen))
            ≡ ok (next, keys) =
          rw new at e in
        let (r, _, visited) =
          >>=-eq-ok (resolve_pointer segments s.segment_id s.pointer_word) _ found in
        let (n, added, same) = >>=-eq-ok (visit segments max_depth r s.depth pending) _ visited in
        ground (
          arith,
          weight-pos s.depth,
          weight-pos (s.depth + 1),
          weight-suc s.depth,
          visit-Adds segments r s.depth pending n a added,
        )
  ]

  -- With more fuel than weight the walk ends.
  pub walk-ne-none :
      (segments : List Bytes) (fuel : ℕ) (pending : List PointerState) (seen : List ℕ)
      → AllWithin words segments
      → total_weight pending < fuel
      → walk segments max_depth fuel pending seen ≢ none
  unfolding walk
  walk-ne-none segments zero pending seen a h = absurd (omega arith)
  walk-ne-none segments (suc fuel) [] seen a h = λ e. cc
  walk-ne-none segments (suc fuel) (s ∷ pending) seen a h =
      elim (Result-cases (walk_step segments max_depth s pending seen)) [
        | inl ((next, keys), e) ↦
            rw (e, walk)
              (walk-ne-none segments fuel next keys a
                (omega (arith, walk_step-lt segments s pending next seen keys a e)))
        | inr (error, e) ↦ rw (e, walk) (λ n. cc)
      ]

  pub enforce-ne-none :
      (segments : List Bytes) (fuel : ℕ)
      → AllWithin words segments
      → suc words ^ (max_depth + 1) < fuel
      → enforce_nesting_depth fuel segments max_depth ≢ none
  unfolding enforce_nesting_depth
  enforce-ne-none [] fuel a h = λ e. cc
  enforce-ne-none (first ∷ rest) fuel a h = elim (Bool-cases (ltb (length first) 8)) [
    | inl short ↦ rw short (λ e. cc)
    | inr long ↦ rw long (walk-ne-none (first ∷ rest) fuel (root_state ∷ []) [] a start)
  ]
    where
      start : total_weight (root_state ∷ []) < fuel
      start = rw (ap (λ k. suc words ^ k) one_level) (omega arith)
        where
          one_level : max_depth + 2 - 1 ≡ max_depth + 1
          one_level = omega arith
