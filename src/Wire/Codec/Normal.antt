-- ===== src/Wire/Codec/Normal.antt =====
-- The targets that `normalizeCallTarget` of rpc/wire/encode.ts leaves as they are.
use capnp_deno.Base.{
  ℕ, ◌^◌, ◌<◌, ◌≡◌, refl, ap, subst, ◌∙◌, Option, none, some, List, [], ◌∷◌, ok, err, ◌>>=◌,
  >>=-eq-ok, either_branch, ok-injective, arith,
}
use capnp_deno.Base.Int.{ℤ, pos, negsuc}
use capnp_deno.Wire.Errors.{pointer_index_required}
use capnp_deno.Wire.Segments.{ensure_u16, ensure_u32}
use capnp_deno.Wire.Codec.Targets.{
  PromisedAnswerOp, CallTarget, imported_cap, promised_answer, is_tag, noop, get_pointer_field,
  normalize_promised_answer_op, normalize_ops, normalize_transform, normalize_call_target,
}

-- The two operations of a promised answer, with an index that fits in 16 bits.
pub data IsNormalOp : PromisedAnswerOp → Type 0 where
  stays : IsNormalOp noop
  follows : (index : ℕ) → index < 2 ^ 16 → IsNormalOp (get_pointer_field index)

abbrev pub AreNormalOps : List PromisedAnswerOp → Type 0
AreNormalOps [] = Unit {0}
AreNormalOps (op ∷ ops) = IsNormalOp op × AreNormalOps ops

pub data IsNormal : CallTarget → Type 0 where
  imported : (id : ℕ) → id < 2 ^ 32 → IsNormal (imported_cap (pos id))
  direct : (id : ℕ) → id < 2 ^ 32 → IsNormal (promised_answer (pos id) none)
  promised :
      (id : ℕ) (ops : List PromisedAnswerOp)
      → id < 2 ^ 32
      → AreNormalOps ops
      → IsNormal (promised_answer (pos id) (some ops))

fits_u16 : (n : ℕ) → n < 2 ^ 16 → ensure_u16 (pos n) ≡ ok n
unfolding ensure_u16
fits_u16 n h = ground arith

fits_u32 : (n : ℕ) → n < 2 ^ 32 → ensure_u32 (pos n) ≡ ok n
unfolding ensure_u32
fits_u32 n h = ground arith

normal_op : (op : PromisedAnswerOp) → IsNormalOp op → normalize_promised_answer_op op ≡ ok op
unfolding normalize_promised_answer_op
normal_op _ stays = refl
normal_op _ (follows index h) = rw (fits_u16 index h)

normal_ops : (ops : List PromisedAnswerOp) → AreNormalOps ops → normalize_ops ops ≡ ok ops
unfolding normalize_ops
normal_ops [] _ = refl
normal_ops (op ∷ ops) (first, rest) = rw (normal_op op first, normal_ops ops rest)

pub normal_target :
    (target : CallTarget) → IsNormal target → normalize_call_target (some target) none ≡ ok target
unfolding normalize_call_target
normal_target _ (imported id h) = rw (fits_u32 id h)
normal_target _ (direct id h) = rw (fits_u32 id h)
normal_target _ (promised id ops h normal) = rw (fits_u32 id h, normal_ops ops normal)

u16_fits : (n : ℤ) (k : ℕ) → ensure_u16 n ≡ ok k → k < 2 ^ 16
unfolding ensure_u16
u16_fits (pos n) k e = ground arith
u16_fits (negsuc n) k e = cc

u32_fits : (n : ℤ) (k : ℕ) → ensure_u32 n ≡ ok k → k < 2 ^ 32
unfolding ensure_u32
u32_fits (pos n) k e = ground arith
u32_fits (negsuc n) k e = cc

normalized_op :
    (op result : PromisedAnswerOp) → normalize_promised_answer_op op ≡ ok result → IsNormalOp result
unfolding normalize_promised_answer_op
normalized_op op result =
    either_branch (is_tag op.tag 0) (λ e. subst IsNormalOp (ok-injective e) stays)
      (either_branch (is_tag op.tag 1) (indexed op.pointer_index) (λ e. cc))
  where
    indexed :
        (index : Option ℤ)
        → (elim index [
          | none ↦ err pointer_index_required
          | some i ↦ ensure_u16 i >>= λ i. ok (get_pointer_field i)
        ])
          ≡ ok result
        → IsNormalOp result
    indexed none e = cc
    indexed (some i) e =
        let (k, fits, last) = >>=-eq-ok (ensure_u16 i) _ e in
        subst IsNormalOp (ok-injective last) (follows k (u16_fits i k fits))

normalized_ops :
    (ops results : List PromisedAnswerOp) → normalize_ops ops ≡ ok results → AreNormalOps results
unfolding normalize_ops
normalized_ops [] results e = subst AreNormalOps (ok-injective e) tt
normalized_ops (op ∷ ops) results e =
    let (first, made, e1) = >>=-eq-ok (normalize_promised_answer_op op) _ e in
    let (rest, made_rest, last) = >>=-eq-ok (normalize_ops ops) _ e1 in
    subst AreNormalOps (ok-injective last)
      (normalized_op op first made, normalized_ops ops rest made_rest)

normalized_imported :
    (id : ℤ) (result : CallTarget)
    → (ensure_u32 id >>= λ k. ok (imported_cap (pos k))) ≡ ok result
    → IsNormal result
normalized_imported id result e =
    let (k, fits, last) = >>=-eq-ok (ensure_u32 id) _ e in
    subst IsNormal (ok-injective last) (imported k (u32_fits id k fits))

normalized_target :
    (target : Option CallTarget) (imported_id : Option ℤ) (result : CallTarget)
    → normalize_call_target target imported_id ≡ ok result
    → IsNormal result
unfolding normalize_call_target
normalized_target (some (imported_cap id)) _ result e = normalized_imported id result e
normalized_target (some (promised_answer id none)) _ result e =
    let (k, fits, last) = >>=-eq-ok (ensure_u32 id) _ e in
    subst IsNormal (ok-injective last) (direct k (u32_fits id k fits))
normalized_target (some (promised_answer id (some ops))) _ result e =
    let (k, fits, e1) = >>=-eq-ok (ensure_u32 id) _ e in
    let (transform, e2, last) = >>=-eq-ok (normalize_transform (some ops)) _ e1 in
    let (results, made, same) = >>=-eq-ok (normalize_ops ops) _ e2 in
    let whole : promised_answer (pos k) (some results) ≡ result =
      ap (promised_answer (pos k)) (ok-injective same) ∙ ok-injective last in
    subst IsNormal whole (promised k results (u32_fits id k fits) (normalized_ops ops results made))
normalized_target none none result e = cc
normalized_target none (some id) result e = normalized_imported id result e

-- A target that `normalizeCallTarget` returns is one that it leaves as it is.
pub normalize_call_target_idem :
    (target : Option CallTarget) (imported_id : Option ℤ) (result : CallTarget)
    → normalize_call_target target imported_id ≡ ok result
    → normalize_call_target (some result) none ≡ ok result
normalize_call_target_idem target imported_id result e =
    normal_target result (normalized_target target imported_id result e)
