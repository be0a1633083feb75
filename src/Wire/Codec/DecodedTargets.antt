-- ===== src/Wire/Codec/DecodedTargets.antt =====
-- The targets that `decodeCallTarget` of rpc/wire/decode.ts returns.
use capnp_deno.Base.{
  ℕ, zero, suc, ◌+◌, ◌*◌, ◌^◌, ◌<◌, ◌≡◌, subst, Option, none, some, List, [], ◌∷◌, Bytes, AreBytes,
  ok, ◌>>=◌, >>=-eq-ok, >>-eq-ok, either_branch, ok-injective, arith, ◌==◌, get_elem?, take, drop,
  of_le,
}
use capnp_deno.Base.Int.{pos}
use capnp_deno.Wire.Errors.{out_of_range, promised_answer_is_null}
use capnp_deno.Wire.Segments.{
  SegmentTable, StructRef, ensure_segment_range, read_in_struct, read_u16_in_struct,
  read_u32_in_struct,
}
use capnp_deno.Wire.Pointers.{
  StructListRef, PointerLocation, decode_struct_list_pointer, pointer_word_index,
}
use capnp_deno.Wire.Codec.Decode.{require_pointer}
use capnp_deno.Wire.Codec.Targets.{
  PromisedAnswerOp, CallTarget, imported_cap, get_pointer_field, element, normalize_call_target,
  decode_op, decode_ops, decode_promised_answer_transform, decode_promised_answer,
  decode_call_target,
}
use capnp_deno.Wire.Codec.Normal.{
  IsNormalOp, stays, follows, AreNormalOps, IsNormal, imported, promised, normal_target,
}

-- Every segment of a table is a sequence of bytes.
abbrev pub IsByteTable : SegmentTable → Type 0
IsByteTable [] = Unit {0}
IsByteTable (segment ∷ rest) = AreBytes segment × IsByteTable rest

AreBytes-drop : (n : ℕ) (bs : Bytes) → AreBytes bs → AreBytes (drop n bs)
AreBytes-drop zero bs h = h
AreBytes-drop (suc n) [] h = tt
AreBytes-drop (suc n) (b ∷ bs) (_, h) = AreBytes-drop n bs h

two_bytes_lt : (bs : Bytes) → AreBytes bs → of_le (take 2 bs) < 2 ^ 16
two_bytes_lt [] h = omega arith
two_bytes_lt (a ∷ []) (h, _) = omega arith
two_bytes_lt (a ∷ b ∷ bs) (h, (k, _)) = omega arith

four_bytes_lt : (bs : Bytes) → AreBytes bs → of_le (take 4 bs) < 2 ^ 32
four_bytes_lt [] h = omega arith
four_bytes_lt (a ∷ []) (h, _) = omega arith
four_bytes_lt (a ∷ b ∷ []) (h, (k, _)) = omega arith
four_bytes_lt (a ∷ b ∷ c ∷ []) (h, (k, (l, _))) = omega arith
four_bytes_lt (a ∷ b ∷ c ∷ d ∷ bs) (h, (k, (l, (m, _)))) = omega arith

-- What a field read returns, in terms of a bound on the fields of every segment.
read_lt :
    (width bound : ℕ) (table : SegmentTable) (s : StructRef) (offset value : ℕ)
    → ((bs : Bytes) → AreBytes bs → of_le (take width bs) < bound)
    → 0 < bound
    → IsByteTable table
    → read_in_struct width table s offset ≡ ok value
    → value < bound
unfolding read_in_struct
read_lt width bound table s offset value below positive h e =
    let start = s.start_word * 8 + offset in
    let (_, e1) = >>-eq-ok _ out_of_range _ e in
    let (_, _, last) = >>=-eq-ok (ensure_segment_range table s.segment_id (pos start) width) _ e1 in
    subst (λ n. n < bound) (ok-injective last) (field table s.segment_id start h)
  where
    field :
        (table : SegmentTable) (id start : ℕ)
        → IsByteTable table
        → (elim (get_elem? table id) [
          | none ↦ 0
          | some segment ↦ of_le (take width (drop start segment))
        ])
          < bound
    field [] id start h = positive
    field (segment ∷ rest) zero start (h, _) =
        below (drop start segment) (AreBytes-drop start segment h)
    field (segment ∷ rest) (suc id) start (_, h) = field rest id start h

module _ (table : SegmentTable) (bytes : IsByteTable table) where
  u16_lt :
      (s : StructRef) (offset value : ℕ)
      → read_u16_in_struct table s offset ≡ ok value
      → value < 2 ^ 16
  u16_lt s offset value = read_lt 2 (2 ^ 16) table s offset value two_bytes_lt (omega arith) bytes

  u32_lt :
      (s : StructRef) (offset value : ℕ)
      → read_u32_in_struct table s offset ≡ ok value
      → value < 2 ^ 32
  u32_lt s offset value = read_lt 4 (2 ^ 32) table s offset value four_bytes_lt (omega arith) bytes

  decoded_op : (s : StructRef) (op : PromisedAnswerOp) → decode_op table s ≡ ok op → IsNormalOp op
  unfolding decode_op
  decoded_op s op e =
      let (tag, _, e1) = >>=-eq-ok (read_u16_in_struct table s 0) _ e in
      either_branch (tag == 0) (λ e2. subst IsNormalOp (ok-injective e2) stays)
        (either_branch (tag == 1) field (λ e2. cc)) e1
    where
      field :
          (read_u16_in_struct table s 2 >>= λ index. ok (get_pointer_field index)) ≡ ok op
          → IsNormalOp op
      field e2 =
          let (index, read, last) = >>=-eq-ok (read_u16_in_struct table s 2) _ e2 in
          subst IsNormalOp (ok-injective last) (follows index (u16_lt s 2 index read))

  decoded_ops :
      (list : StructListRef) (i count : ℕ) (ops : List PromisedAnswerOp)
      → decode_ops table list i count ≡ ok ops
      → AreNormalOps ops
  unfolding decode_ops
  decoded_ops list i zero ops e = subst AreNormalOps (ok-injective e) tt
  decoded_ops list i (suc count) ops e =
      let (op, first, e1) = >>=-eq-ok (decode_op table (element list i)) _ e in
      let (rest, others, last) = >>=-eq-ok (decode_ops table list (i + 1) count) _ e1 in
      subst AreNormalOps (ok-injective last)
        (decoded_op (element list i) op first, decoded_ops list (i + 1) count rest others)

  decoded_transform :
      (loc : PointerLocation) (ops : List PromisedAnswerOp)
      → decode_promised_answer_transform table loc ≡ ok ops
      → AreNormalOps ops
  unfolding decode_promised_answer_transform
  decoded_transform loc ops e =
      let (found, _, e1) = >>=-eq-ok (decode_struct_list_pointer table loc) _ e in listed found e1
    where
      listed :
          (found : Option StructListRef)
          → (elim found [ none ↦ ok [] | some list ↦ decode_ops table list 0 list.element_count ])
            ≡ ok ops
          → AreNormalOps ops
      listed none e1 = subst AreNormalOps (ok-injective e1) tt
      listed (some list) e1 = decoded_ops list 0 list.element_count ops e1

  decoded_promised :
      (s : StructRef) (target : CallTarget)
      → decode_promised_answer table s ≡ ok target
      → IsNormal target
  unfolding decode_promised_answer
  decoded_promised s target e =
      let (answer, _, e1) = >>=-eq-ok (require_pointer table promised_answer_is_null s 0) _ e in
      let (id, read, e2) = >>=-eq-ok (read_u32_in_struct table answer 0) _ e1 in
      let (loc, _, e3) = >>=-eq-ok (pointer_word_index answer (pos 0)) _ e2 in
      let (ops, transform, last) = >>=-eq-ok (decode_promised_answer_transform table loc) _ e3 in
      subst IsNormal (ok-injective last)
        (promised id ops (u32_lt answer 0 id read) (decoded_transform loc ops transform))

  decoded_target :
      (s : StructRef) (target : CallTarget)
      → decode_call_target table s ≡ ok target
      → IsNormal target
  unfolding decode_call_target
  decoded_target s target e =
      let (tag, _, e1) = >>=-eq-ok (read_u16_in_struct table s 4) _ e in
      either_branch (tag == 0) imported_target
        (either_branch (tag == 1) (decoded_promised s target) (λ e2. cc)) e1
    where
      imported_target :
          (read_u32_in_struct table s 0 >>= λ id. ok (imported_cap (pos id))) ≡ ok target
          → IsNormal target
      imported_target e2 =
          let (id, read, last) = >>=-eq-ok (read_u32_in_struct table s 0) _ e2 in
          subst IsNormal (ok-injective last) (imported id (u32_lt s 0 id read))

-- Whatever target `decodeCallTarget` reads from a table of bytes, the encoder accepts: `normalizeCallTarget`
-- returns it unchanged.
pub normalize_call_target-decode_call_target :
    (table : SegmentTable) (s : StructRef) (target : CallTarget)
    → IsByteTable table
    → decode_call_target table s ≡ ok target
    → normalize_call_target (some target) none ≡ ok target
normalize_call_target-decode_call_target table s target bytes e =
    normal_target target (decoded_target table bytes s target e)
