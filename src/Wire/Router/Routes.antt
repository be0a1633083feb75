-- ===== src/Wire/Router/Routes.antt =====
-- The router and the decoders of single messages agree.
use capnp_deno.Base.{
  ℕ, ◌≡◌, refl, ap, ◌∙◌, ◌↔◌, Bytes, Result, ok, err, ◌>>=◌, >>=-eq-ok, >>-eq-ok, arith, not,
  ok-injective, Bool, true, false, subst, if◌then◌else◌, ◌==◌, ==_iff,
}
use capnp_deno.Wire.Errors.{
  ProtocolError, unexpected_message_tag, root_pointer_is_null, variant_pointer_is_null,
}
use capnp_deno.Wire.Segments.{SegmentTable, StructRef, segments_from_frame, read_u16_in_struct}
use capnp_deno.Wire.Codec.Layout
use capnp_deno.Wire.Codec.Decode.{
  FinishRequest, ReleaseRequest, require_struct, require_pointer, root_location, message_variant,
  open_message, decode_rpc_message_tag, decode_bootstrap_request_frame, decode_finish_frame,
  decode_release_frame,
}
use capnp_deno.Wire.Codec.Messages.{
  message_reader, ContentCodec, CallRequest, ReturnMessage, decode_call_request_frame,
  decode_return_frame,
}
use capnp_deno.Wire.Router.{
  RpcMessage, bootstrap, call, return, finish, release, resolve, disembargo, decode_tagged,
  decode_rpc_message,
}

-- A message whose variant is reached has the expected tag.
variant_tag :
    (expected : ℕ) (frame : Bytes) (table : SegmentTable) (variant : StructRef)
    → segments_from_frame frame ≡ ok table
    → message_variant expected table ≡ ok variant
    → decode_rpc_message_tag frame ≡ ok expected
unfolding message_variant decode_rpc_message_tag
variant_tag expected frame table variant opened reached =
    let (root, at_root, e1) =
      >>=-eq-ok (require_struct table root_pointer_is_null root_location) _ reached in
    let (tag, read, e2) =
      >>=-eq-ok (read_u16_in_struct table root Layout.message_union_tag_byte_offset) _ e1 in
    let (passed, _) =
      >>-eq-ok (not (tag == expected)) unexpected_message_tag
        (require_pointer table variant_pointer_is_null root Layout.message_variant_pointer_index)
        e2 in
    let same : tag ≡ expected = ground arith in rw (opened, at_root, read) (ap ok same)

opened_tag :
    (expected : ℕ) (frame : Bytes) (opened : SegmentTable × StructRef)
    → open_message expected frame ≡ ok opened
    → decode_rpc_message_tag frame ≡ ok expected
unfolding open_message
opened_tag expected frame opened e =
    let (table, cut_up, e1) = >>=-eq-ok (segments_from_frame frame) _ e in
    let (variant, reached, _) = >>=-eq-ok (message_variant expected table) _ e1 in
    variant_tag expected frame table variant cut_up reached

bootstrap_tag :
    (frame : Bytes) (id : ℕ)
    → decode_bootstrap_request_frame frame ≡ ok id
    → decode_rpc_message_tag frame ≡ ok 8
unfolding decode_bootstrap_request_frame
bootstrap_tag frame id e =
    let (opened, first, _) = >>=-eq-ok (open_message 8 frame) _ e in opened_tag 8 frame opened first

finish_tag :
    (frame : Bytes) (r : FinishRequest)
    → decode_finish_frame frame ≡ ok r
    → decode_rpc_message_tag frame ≡ ok 4
unfolding decode_finish_frame
finish_tag frame r e =
    let (opened, first, _) = >>=-eq-ok (open_message 4 frame) _ e in opened_tag 4 frame opened first

release_tag :
    (frame : Bytes) (r : ReleaseRequest)
    → decode_release_frame frame ≡ ok r
    → decode_rpc_message_tag frame ≡ ok 6
unfolding decode_release_frame
release_tag frame r e =
    let (opened, first, _) = >>=-eq-ok (open_message 6 frame) _ e in opened_tag 6 frame opened first

module _ (codec : ContentCodec) where
  -- The first lines of the two decoders with a payload.
  checked_tag :
      {A : Type 0} (expected : ℕ) (frame : Bytes)
      (next : SegmentTable → SegmentTable → StructRef → Result ProtocolError A) {a : A}
      → (segments_from_frame frame >>= λ table. message_reader frame >>= λ reader.
          message_variant expected table >>= λ variant. next reader table variant)
        ≡ ok a
      → decode_rpc_message_tag frame ≡ ok expected
  checked_tag expected frame next e =
      let (table, cut_up, e1) = >>=-eq-ok (segments_from_frame frame) _ e in
      let (reader, _, e2) = >>=-eq-ok (message_reader frame) _ e1 in
      let (variant, reached, _) = >>=-eq-ok (message_variant expected table) _ e2 in
      variant_tag expected frame table variant cut_up reached

  call_tag :
      (frame : Bytes) (r : CallRequest)
      → decode_call_request_frame codec frame ≡ ok r
      → decode_rpc_message_tag frame ≡ ok 2
  unfolding decode_call_request_frame
  call_tag frame r e = checked_tag 2 frame _ e

  return_tag :
      (frame : Bytes) (m : ReturnMessage)
      → decode_return_frame codec frame ≡ ok m
      → decode_rpc_message_tag frame ≡ ok 3
  unfolding decode_return_frame
  return_tag frame m e = checked_tag 3 frame _ e

  -- What a message says of the frame that it was decoded from.
  abbrev pub Decodes : Bytes → RpcMessage → Type 0
  Decodes frame (bootstrap id) = decode_bootstrap_request_frame frame ≡ ok id
  Decodes frame (call request) = decode_call_request_frame codec frame ≡ ok request
  Decodes frame (return message) = decode_return_frame codec frame ≡ ok message
  Decodes frame (finish request) = decode_finish_frame frame ≡ ok request
  Decodes frame (release request) = decode_release_frame frame ≡ ok request
  Decodes frame (resolve kept) =
      (decode_rpc_message_tag frame ≡ ok Layout.rpc_message_tag_resolve) × (kept ≡ frame)
  Decodes frame (disembargo kept) =
      (decode_rpc_message_tag frame ≡ ok Layout.rpc_message_tag_disembargo) × (kept ≡ frame)

  branch :
      (P : RpcMessage → Type 0) (test : Bool) (x rest : Result ProtocolError RpcMessage)
      {m : RpcMessage}
      → (test ≡ true → x ≡ ok m → P m)
      → (rest ≡ ok m → P m)
      → (if test then x else rest) ≡ ok m
      → P m
  branch P true x rest here later e = here refl e
  branch P false x rest here later e = later e

  wrapped :
      {A : Type 0} (P : RpcMessage → Type 0) (r : Result ProtocolError A) (wrap : A → RpcMessage)
      {m : RpcMessage}
      → ((a : A) → r ≡ ok a → P (wrap a))
      → (r >>= λ a. ok (wrap a)) ≡ ok m
      → P m
  wrapped P (ok a) wrap holds e = subst P (ok-injective e) (holds a refl)
  wrapped P (err _) wrap holds e = cc

  tagged-Decodes :
      (frame : Bytes) (tag : ℕ) (m : RpcMessage)
      → decode_rpc_message_tag frame ≡ ok tag
      → decode_tagged codec frame tag ≡ ok m
      → Decodes frame m
  unfolding decode_tagged
  tagged-Decodes frame tag m read =
      branch P (tag == 8) _ _
        (λ _. wrapped P (decode_bootstrap_request_frame frame) bootstrap (λ a h. h))
        (branch P (tag == 2) _ _
          (λ _. wrapped P (decode_call_request_frame codec frame) call (λ a h. h))
          (branch P (tag == 3) _ _
            (λ _. wrapped P (decode_return_frame codec frame) return (λ a h. h))
            (branch P (tag == 4) _ _ (λ _. wrapped P (decode_finish_frame frame) finish (λ a h. h))
              (branch P (tag == 6) _ _
                (λ _. wrapped P (decode_release_frame frame) release (λ a h. h))
                (branch P (tag == 5) _ _
                  (λ t e. subst P (ok-injective e) (read ∙ ap ok ((==_iff _ _).0 t), refl))
                  (branch P (tag == 13) _ _
                    (λ t e. subst P (ok-injective e) (read ∙ ap ok ((==_iff _ _).0 t), refl))
                    (λ e. cc)))))))
    where
      P : RpcMessage → Type 0
      P = Decodes frame

  Decodes-decoded :
      (frame : Bytes) (m : RpcMessage) → Decodes frame m → decode_rpc_message codec frame ≡ ok m
  unfolding decode_rpc_message decode_tagged
  Decodes-decoded frame (bootstrap id) h = rw (bootstrap_tag frame id h, h)
  Decodes-decoded frame (call request) h = rw (call_tag frame request h, h)
  Decodes-decoded frame (return message) h = rw (return_tag frame message h, h)
  Decodes-decoded frame (finish request) h = rw (finish_tag frame request h, h)
  Decodes-decoded frame (release request) h = rw (release_tag frame request h, h)
  Decodes-decoded frame (resolve kept) (tag, same) = rw (tag, same)
  Decodes-decoded frame (disembargo kept) (tag, same) = rw (tag, same)

  -- `decodeRpcMessage` gives a message exactly when the decoder for messages of its kind gives the message's
  -- data for the frame (or, for a resolve or a disembargo, when the frame has its tag and is the data).
  pub decode_rpc_message-Decodes :
      (frame : Bytes) (m : RpcMessage) → (decode_rpc_message codec frame ≡ ok m) ↔ Decodes frame m
  unfolding decode_rpc_message
  decode_rpc_message-Decodes frame m = (
    λ e.
        let (tag, read, e1) = >>=-eq-ok (decode_rpc_message_tag frame) _ e in
        tagged-Decodes frame tag m read e1,
    Decodes-decoded frame m,
  )
