-- ===== src/Wire/Codec/Refusal.antt =====
-- What the decoders of rpc/wire/decode.ts refuse.
use capnp_deno.Base.{
  ℕ, ◌≡◌, ◌≢◌, refl, sym, subst, inl, inr, true, false, Bytes, Result, ok, err, ◌>>=◌, Result-cases,
  arith, ◌==◌, ==_iff, Bool-cases,
}
use capnp_deno.Wire.Errors.{ProtocolError, unexpected_message_tag, root_pointer_is_null}
use capnp_deno.Wire.Segments.{SegmentTable, segments_from_frame, read_u16_in_struct}
use capnp_deno.Wire.Codec.Layout
use capnp_deno.Wire.Codec.Decode.{
  require_struct, root_location, message_variant, open_message, decode_rpc_message_tag,
  decode_bootstrap_request_frame, decode_finish_frame, decode_release_frame,
}

-- What a decoder does with a frame whose tag is known, or cannot be read.
pub data Refuses {ℓ} {A : Type ℓ} (expected : ℕ) (decoded : Result ProtocolError A)
    : Result ProtocolError ℕ → Type ℓ where
  same_error : (e : ProtocolError) → decoded ≡ err e → Refuses expected decoded (err e)
  expected_tag : Refuses expected decoded (ok expected)
  other_tag :
      (tag : ℕ)
      → tag ≢ expected
      → decoded ≡ err unexpected_message_tag
      → Refuses expected decoded (ok tag)

distinct : (tag expected : ℕ) → (tag == expected) ≡ false → tag ≢ expected
distinct tag expected other e = ground arith

as_expected {ℓ} :
    {A : Type ℓ} (expected tag : ℕ) (decoded : Result ProtocolError A)
    → (tag == expected) ≡ true
    → Refuses expected decoded (ok tag)
as_expected expected tag decoded same =
    subst (λ t. Refuses expected decoded (ok t)) (sym ((==_iff _ _).0 same)) expected_tag

variant-Refuses :
    (expected : ℕ) (table : SegmentTable)
    → Refuses expected (message_variant expected table) (
        require_struct table root_pointer_is_null root_location >>= λ root.
        read_u16_in_struct table root Layout.message_union_tag_byte_offset)
unfolding message_variant
variant-Refuses expected table =
    elim (Result-cases (require_struct table root_pointer_is_null root_location)) [
      | inr (e, missing) ↦ rw missing (same_error e refl)
      | inl (root, there) ↦
          elim (Result-cases (read_u16_in_struct table root Layout.message_union_tag_byte_offset)) [
            | inr (e, unread) ↦ rw (there, unread) (same_error e refl)
            | inl (tag, read) ↦ elim (Bool-cases (tag == expected)) [
              | inl same ↦ rw (there, read) (as_expected expected tag _ same)
              | inr other ↦
                  rw (there, read, other) (other_tag tag (λ e. distinct tag expected other e) refl)
            ]
          ]
    ]

lift {ℓ κ} :
    {A : Type ℓ} {B : Type κ} {expected : ℕ} {tag : Result ProtocolError ℕ}
    (decoded : Result ProtocolError A) (next : A → Result ProtocolError B)
    → Refuses expected decoded tag
    → Refuses expected (decoded >>= next) tag
lift decoded next (same_error e failed) = same_error e (rw failed)
lift decoded next expected_tag = expected_tag
lift decoded next (other_tag tag differs failed) = other_tag tag differs (rw failed)

open_message-Refuses :
    (expected : ℕ) (frame : Bytes)
    → Refuses expected (open_message expected frame) (decode_rpc_message_tag frame)
unfolding open_message decode_rpc_message_tag
open_message-Refuses expected frame = elim (Result-cases (segments_from_frame frame)) [
  | inr (e, failed) ↦ rw failed (same_error e refl)
  | inl (table, opened) ↦
      rw opened (lift (message_variant expected table) _ (variant-Refuses expected table))
]

-- On any frame, `decodeBootstrapRequestFrame`, `decodeFinishFrame` and `decodeReleaseFrame` throw the error
-- that `decodeRpcMessageTag` throws, if it does; and when the tag that it gives is not that of their own
-- message, they throw that the message is another one.
pub decoders-Refuses :
    (frame : Bytes)
    → Refuses Layout.rpc_message_tag_bootstrap
        (decode_bootstrap_request_frame frame)
        (decode_rpc_message_tag frame)
      × Refuses Layout.rpc_message_tag_finish
          (decode_finish_frame frame)
          (decode_rpc_message_tag frame)
      × Refuses Layout.rpc_message_tag_release
          (decode_release_frame frame)
          (decode_rpc_message_tag frame)
unfolding decode_bootstrap_request_frame decode_finish_frame decode_release_frame
decoders-Refuses frame = (
  lift (open_message 8 frame) _ (open_message-Refuses 8 frame),
  lift (open_message 4 frame) _ (open_message-Refuses 4 frame),
  lift (open_message 6 frame) _ (open_message-Refuses 6 frame),
)
