-- ===== src/Wire/Codec/ExceptionTrip.antt =====
-- What `decodeReturnFrame` reads from the frame of an exception.
use capnp_deno.Base.{
  ℕ, ◌+◌, ◌-◌, ◌*◌, ◌/◌, ◌^◌, ◌≤◌, ◌<◌, ◌≡◌, refl, ap, ap₂, ◌∙◌, Bool, true, false, some, [], ◌∷◌,
  ◌++◌, Bytes, ok, arith, length, take, ltb, ◌==◌, to_le, of_le, get_uint64, get_uint32-to_le,
  length-append, zero, suc, not, take-add, take-append_length, drop-append_length,
}
use capnp_deno.Base.Int.{pos, ◌+ℤ◌}
use capnp_deno.Wire.Errors.{exception_is_null}
use capnp_deno.Wire.Segments.{
  StructRef, ensure_segment_range, ensure_range, read_word_from_table, read_in_struct, signed30,
}
use capnp_deno.Wire.Pointers.{
  resolve_hops, resolve_pointer, pointer_word_index, out_of_segment, decode_struct_pointer,
  decode_byte_list_pointer, drop_terminator, read_text_bytes,
}
use capnp_deno.Wire.PointerWord.{kind, raw_offset, element_size, element_count}
use capnp_deno.Wire.Builder.{list_pointer_word}
use capnp_deno.Wire.Codec.Layout
use capnp_deno.Wire.Codec.Decode.{
  require_struct, require_pointer, message_variant, bit0_clear, bit1_clear,
}
use capnp_deno.Wire.Codec.Exceptions.{exception_words, text_bytes, return_flags}
use capnp_deno.Wire.Builder.Refine.{zeros, length-zeros}

-- The return struct of the message.
abbrev pub the_return : StructRef
the_return = record { segment_id = 0; start_word = 3; data_word_count = 2; pointer_count = 1 }

abbrev pub the_exception : StructRef
the_exception = record { segment_id = 0; start_word = 6; data_word_count = 1; pointer_count = 3 }

module _ (answer flags word : ℕ) (text : Bytes) where
  enough : (n : ℕ) → n ≤ 80 → ltb (length (exception_words answer flags word ++ text)) n ≡ false
  enough n h = ground (arith, length-append (exception_words answer flags word) text)

  pub return_reached :
      message_variant Layout.rpc_message_tag_return
        ((exception_words answer flags word ++ text) ∷ [])
      ≡ ok the_return
  unfolding message_variant require_struct require_pointer get_uint64 ensure_segment_range
      ensure_range read_word_from_table read_in_struct signed30 resolve_hops resolve_pointer
      pointer_word_index out_of_segment decode_struct_pointer ◌+ℤ◌
  return_reached = rw (
    enough 8 (omega arith),
    enough 24 (omega arith),
    enough 10 (omega arith),
    enough 24 (omega arith),
    enough 48 (omega arith),
  )

  pub answer_read :
      answer < 2 ^ 32
      → read_in_struct 4 ((exception_words answer flags word ++ text) ∷ []) the_return 0 ≡ ok answer
  unfolding read_in_struct ensure_segment_range ensure_range
  answer_read h = rw (enough 28 (omega arith)) (ap ok (get_uint32-to_le answer h))

  pub tag_read :
      read_in_struct 2 ((exception_words answer flags word ++ text) ∷ []) the_return 6 ≡ ok 1
  unfolding read_in_struct ensure_segment_range ensure_range
  tag_read = rw (enough 32 (omega arith))

  pub flags_read :
      flags < 4
      → read_in_struct 4 ((exception_words answer flags word ++ text) ∷ []) the_return 4
        ≡ ok (flags + 2 ^ 16)
  unfolding read_in_struct ensure_segment_range ensure_range
  flags_read h = rw (enough 32 (omega arith)) (ap ok (omega arith))

  pub exception_reached :
      require_pointer
        ((exception_words answer flags word ++ text) ∷ [])
        exception_is_null
        the_return
        0
      ≡ ok the_exception
  unfolding require_struct require_pointer get_uint64 ensure_segment_range ensure_range
      read_word_from_table signed30 resolve_hops resolve_pointer pointer_word_index out_of_segment
      decode_struct_pointer ◌+ℤ◌
  exception_reached = rw (enough 48 (omega arith), enough 80 (omega arith))

-- The pointer to a text of `n` bytes.
module _ (n : ℕ) (small : n < 2 ^ 29) where
  word_kind : kind (list_pointer_word 2 2 n) ≡ 1
  word_kind = omega arith

  word_size : element_size (list_pointer_word 2 2 n) ≡ 2
  word_size = omega arith

  word_count : element_count (list_pointer_word 2 2 n) ≡ n
  word_count = omega arith

  word_offset : raw_offset (list_pointer_word 2 2 n) ≡ 2
  word_offset = omega arith

  word_back : of_le (to_le 8 (list_pointer_word 2 2 n)) ≡ list_pointer_word 2 2 n
  word_back = omega arith

drop_terminator-append : (bs : Bytes) → drop_terminator (bs ++ 0 ∷ []) ≡ bs
unfolding drop_terminator
drop_terminator-append [] = refl
drop_terminator-append (b ∷ []) = refl
drop_terminator-append (b ∷ c ∷ bs) = ap (◌∷◌ b) (drop_terminator-append (c ∷ bs))

take_one : (m : ℕ) → 0 < m → take 1 (zeros m) ≡ 0 ∷ []
take_one zero h = absurd (omega arith)
take_one (suc m) h = refl

-- The reason, read back from behind its pointer.
module _ (answer flags : ℕ) (reason : Bytes) (small : length reason + 1 < 2 ^ 29) where
  abbrev pub reason_word : ℕ
  reason_word = list_pointer_word 2 2 (length reason + 1)

  abbrev pub the_segment : Bytes
  the_segment = exception_words answer flags reason_word ++ text_bytes reason

  reason_resolved :
      resolve_pointer (the_segment ∷ []) 0 (pos 7)
      ≡ ok (record { segment_id = 0; pointer_word = pos 7; word = reason_word })
  unfolding resolve_pointer resolve_hops read_word_from_table ensure_segment_range ensure_range
      get_uint64
  reason_resolved =
      let a_list : (kind reason_word == 2) ≡ false =
        ground (arith, word_kind (length reason + 1) small) in
      rw (
        enough answer flags reason_word (text_bytes reason) 64 (omega arith),
        word_back (length reason + 1) small,
        a_list,
      )

  pub size : length the_segment ≡ 80 + (length reason + 8) / 8 * 8
  size = omega (
    arith,
    length-append (exception_words answer flags reason_word) (text_bytes reason),
    length-append reason (zeros ((length reason + 1 + 7) / 8 * 8 - length reason)),
    length-zeros ((length reason + 1 + 7) / 8 * 8 - length reason),
  )

  reason_reached :
      decode_byte_list_pointer (the_segment ∷ []) (record { segment_id = 0; word_index = 7 })
      ≡ ok (some (record { segment_id = 0; start_word = 10; element_count = length reason + 1 }))
  unfolding decode_byte_list_pointer out_of_segment signed30 ◌+ℤ◌
  reason_reached =
      let n = length reason + 1 in
      let not_null : (reason_word == 0) ≡ false = ground (arith, word_kind n small) in
      let a_list : (kind reason_word == 1) ≡ true = ground (arith, word_kind n small) in
      let of_bytes : (element_size reason_word == 2) ≡ true = ground (arith, word_size n small) in
      let inside : ltb (length the_segment) ((10 + (n + 7) / 8) * 8) ≡ false =
        ground (arith, size) in
      rw (
        reason_resolved,
        not_null,
        a_list,
        of_bytes,
        word_offset n small,
        word_count n small,
        inside,
      )

  terminated : take (length reason + 1) (text_bytes reason) ≡ reason ++ 0 ∷ []
  terminated =
      let padding = (length reason + 1 + 7) / 8 * 8 - length reason in
      take-add (length reason) 1 (text_bytes reason)
      ∙ ap₂ (λ a b. a ++ take 1 b) (take-append_length reason (zeros padding))
          (drop-append_length reason (zeros padding))
      ∙ ap (◌++◌ reason) (take_one padding (omega arith))

  pub reason_read :
      read_text_bytes (the_segment ∷ []) (record { segment_id = 0; word_index = 7 })
      ≡ ok (some reason)
  unfolding read_text_bytes ensure_segment_range ensure_range
  reason_read =
      let n = length reason + 1 in
      let inside : ltb (length the_segment) (80 + n) ≡ false = ground (arith, size) in
      let exact : 80 + n - 80 ≡ n = omega arith in
      rw (reason_reached, inside, exact, terminated, drop_terminator-append reason)

-- The flags of a return, read back.
pub flags_back :
    (release no_finish : Bool)
    → (bit0_clear (return_flags release no_finish + 2 ^ 16) ≡ release)
      × (not (bit1_clear (return_flags release no_finish + 2 ^ 16)) ≡ no_finish)
      × (return_flags release no_finish < 4)
flags_back true true = (refl, refl, omega arith)
flags_back true false = (refl, refl, omega arith)
flags_back false true = (refl, refl, omega arith)
flags_back false false = (refl, refl, omega arith)
