-- ===== src/Wire/Codec/Exceptions.antt =====
-- The exceptions of a return, from `encodeReturnExceptionFrame` to `decodeReturnFrame`.
use capnp_deno.Base.{
  ℕ, ◌+◌, ◌-◌, ◌*◌, ◌/◌, ◌^◌, ◌≡◌, refl, sym, ap, ap₂, subst, ◌∙◌, Bool, true, false, Option, List,
  [], ◌∷◌, ◌++◌, Bytes, Result, ok, err, ◌>>=◌, arith, length, take, drop, ltb, leb, if◌then◌else◌,
  or_else, set_bytes, to_le, length-append, take-append_length, drop-append_length, drop-drop,
}
use capnp_deno.Base.Int.{pos}
use capnp_deno.Wire.Errors.{ProtocolError}
use capnp_deno.Wire.Segments.{ensure_u32, encode_signed30, frame_from_segment}
use capnp_deno.Wire.Builder.{
  Builder, double_until, ensure_capacity, alloc_words, write_word, write_uint, set_struct_pointer,
  set_list_pointer, write_bytes, list_pointer_word, to_message_bytes,
}
use capnp_deno.Wire.Builder.Refine.{Holds, zeros, length-zeros, drop-zeros}
use capnp_deno.Wire.Builder.Script.{
  Call, alloc, raw, list_pointer, perform_all, plain_all, plain_write, Agree, both_go_on, all-Agree,
  message_lem,
}
use capnp_deno.Wire.Codec.Encode.{
  add_struct, start_message, flag_unless, encode_return_exception_frame,
}

-- The words up to the exception's struct, with the word of the pointer to the reason.
abbrev pub exception_words : ℕ → ℕ → ℕ → Bytes
exception_words answer flags reason_word =
    to_le 8 (2 ^ 32 + 2 ^ 48)
    ++ (to_le 8 3
        ++ (to_le 8 (2 ^ 33 + 2 ^ 48)
            ++ (to_le 4 answer
                ++ (to_le 2 flags
                    ++ (to_le 2 1
                        ++ (to_le 8 0
                            ++ (to_le 8 (2 ^ 32 + 3 * 2 ^ 48)
                                ++ (to_le 8 0 ++ (to_le 8 reason_word ++ to_le 16 0)))))))))

abbrev pub return_flags : Bool → Bool → ℕ
return_flags release no_finish = flag_unless release 1 + (if no_finish then 2 else 0)

abbrev exception_builder : ℕ → ℕ → Builder
exception_builder answer flags = record {
  bytes = exception_words answer flags 0 ++ zeros 48;
  words = 10;
}

-- What the encoder does to the text.
abbrev text_calls : Bytes → List Call
text_calls reason =
    alloc ((length reason + 1 + 7) / 8)
    ∷ list_pointer 7 10 2 (length reason + 1)
    ∷ raw 10 0 reason
    ∷ []

bind_assoc :
    {A B C : Type 0} (r : Result ProtocolError A) (f : A → Result ProtocolError B)
    (g : B → Result ProtocolError C)
    → ((r >>= f) >>= g) ≡ (r >>= λ a. f a >>= g)
bind_assoc (ok a) f g = refl
bind_assoc (err e) f g = refl

bind_congr :
    {A B : Type 0} (r : Result ProtocolError A) (f g : A → Result ProtocolError B)
    → ((a : A) → f a ≡ g a)
    → (r >>= f) ≡ (r >>= g)
bind_congr (ok a) f g same = same a
bind_congr (err e) f g same = refl

finish_text :
    (reason : Bytes) (b : Builder)
    → (set_list_pointer 7 10 2 (length reason + 1) b >>= λ b.
        write_bytes 10 0 reason b >>= λ b. ok (to_message_bytes b))
      ≡ (perform_all (list_pointer 7 10 2 (length reason + 1) ∷ raw 10 0 reason ∷ []) b >>= λ b.
          ok (to_message_bytes b))
finish_text reason b = sym (
    bind_assoc (set_list_pointer 7 10 2 (length reason + 1) b) (perform_all (raw 10 0 reason ∷ []))
      (λ b. ok (to_message_bytes b))
    ∙ bind_congr (set_list_pointer 7 10 2 (length reason + 1) b) _ _ (λ b2.
      bind_assoc (write_bytes 10 0 reason b2) (perform_all []) (λ b. ok (to_message_bytes b))))

encode_calls :
    (answer : ℕ) (reason : Bytes) (release no_finish : Option Bool)
    → ltb answer (2 ^ 32) ≡ true
    → encode_return_exception_frame (pos answer) reason release no_finish ≡ (
        perform_all
          (text_calls reason)
          (exception_builder answer (return_flags (or_else release true) (or_else no_finish false)))
        >>= λ b. ok (to_message_bytes b))
unfolding encode_return_exception_frame ensure_u32 start_message add_struct alloc_words
    ensure_capacity double_until write_uint write_word set_struct_pointer encode_signed30 set_bytes
encode_calls answer reason release no_finish h = rw h (finish_text reason _)

-- The reason with its terminator and the padding.
abbrev pub text_bytes : Bytes → Bytes
text_bytes reason = reason ++ zeros ((length reason + 1 + 7) / 8 * 8 - length reason)

abbrev pub exception_segment : ℕ → ℕ → Bytes → Bytes
exception_segment answer flags reason =
    exception_words answer flags (list_pointer_word 2 2 (length reason + 1)) ++ text_bytes reason

write_text :
    (front rest reason : Bytes)
    → length front ≡ 80
    → set_bytes (front ++ rest) 80 reason ≡ front ++ (reason ++ drop (length reason) rest)
unfolding set_bytes
write_text front rest reason size =
    ap₂ (λ a b. a ++ (reason ++ b))
      (ap (λ n. take n (front ++ rest)) (sym size) ∙ take-append_length front rest)
      (ap (λ n. drop (n + length reason) (front ++ rest)) (sym size)
        ∙ sym (drop-drop (length front) (length reason) (front ++ rest))
        ∙ ap (drop (length reason)) (drop-append_length front rest))

plain_write-fits :
    (offset : ℕ) (source c : Bytes)
    → leb (offset + length source) (length c) ≡ true
    → plain_write offset source c ≡ ok (set_bytes c offset source)
plain_write-fits offset source c fits = rw fits

pointed_at :
    (answer flags word : ℕ) (rest : Bytes)
    → set_bytes (exception_words answer flags 0 ++ rest) 56 (to_le 8 word)
      ≡ exception_words answer flags word ++ rest
unfolding set_bytes
pointed_at answer flags word rest = refl

text_described :
    (answer flags : ℕ) (reason : Bytes)
    → plain_all (text_calls reason) (exception_words answer flags 0)
      ≡ ok (exception_segment answer flags reason)
unfolding encode_signed30
text_described answer flags reason =
    let n = length reason in
    let k = (n + 1 + 7) / 8 in
    let before = exception_words answer flags 0 ++ zeros (k * 8) in
    let word = list_pointer_word 2 2 (n + 1) in
    let pointed = exception_words answer flags word in
    let pointer_fits : leb (56 + length (to_le 8 word)) (length before) ≡ true =
      ground (arith, length-append (exception_words answer flags 0) (zeros (k * 8))) in
    let text_fits : leb (80 + n) (length (pointed ++ zeros (k * 8))) ≡ true =
      ground (arith, length-append pointed (zeros (k * 8)), length-zeros (k * 8)) in
    let step1 : plain_write 56 (to_le 8 word) before ≡ ok (pointed ++ zeros (k * 8)) =
      plain_write-fits 56 (to_le 8 word) before pointer_fits
      ∙ ap ok (pointed_at answer flags word (zeros (k * 8))) in
    let step2 : plain_write 80 reason (pointed ++ zeros (k * 8))
        ≡ ok (exception_segment answer flags reason) =
      plain_write-fits 80 reason (pointed ++ zeros (k * 8)) text_fits
      ∙ ap ok (
          write_text pointed (zeros (k * 8)) reason refl
          ∙ ap (λ t. pointed ++ (reason ++ t)) (drop-zeros n (k * 8))) in
    ap (λ r. r >>= λ c. plain_write 80 reason c >>= λ d. ok d) step1
    ∙ ap (λ r. r >>= λ d. ok d) step2

agreed :
    (outcome : Result ProtocolError Builder) (c : Bytes)
    → Agree outcome (ok c)
    → (b : Builder) × (outcome ≡ ok b) × Holds b c
agreed (ok b) c (both_go_on h) = (b, refl, h)
agreed (err e) c agree = elim agree [ ]

exception_builder-Holds :
    (answer flags : ℕ) → Holds (exception_builder answer flags) (exception_words answer flags 0)
exception_builder-Holds answer flags = record {
  spare = 48;
  buffer = refl;
  whole = refl;
  rooted = omega arith;
}

-- The frame of an exception is the frame of its segment.
pub exception_encoded :
    (answer : ℕ) (reason : Bytes) (release no_finish : Option Bool)
    → ltb answer (2 ^ 32) ≡ true
    → encode_return_exception_frame (pos answer) reason release no_finish
      ≡ frame_from_segment (
          exception_segment answer
            (return_flags (or_else release true) (or_else no_finish false))
            reason)
exception_encoded answer reason release no_finish h =
    let flags = return_flags (or_else release true) (or_else no_finish false) in
    let start = exception_builder answer flags in
    let outcome = perform_all (text_calls reason) start in
    let segment = exception_segment answer flags reason in
    let agree : Agree outcome (ok segment) =
      subst (Agree outcome) (text_described answer flags reason) (
        all-Agree (text_calls reason) start (exception_words answer flags 0)
          (exception_builder-Holds answer flags)) in
    let (b, done, holds) = agreed outcome segment agree in
    encode_calls answer reason release no_finish h
    ∙ ap (λ r. r >>= λ b. ok (to_message_bytes b)) done
    ∙ sym (message_lem b segment holds)
