-- ===== src/Wire/Builder/Script.antt =====
-- Whole uses of `RpcWireMessageBuilder`: any sequence of calls of its methods, on the builder and on the
-- plain bytes that it stands for.
use capnp_deno.Base.{
  ℕ, ◌+◌, ◌*◌, ◌/◌, ◌%◌, ◌≡◌, refl, sym, ap₂, ◌∙◌, ◌⊎◌, inl, inr, Bool, true, false, List, [], ◌∷◌,
  ◌++◌, Bytes, Result, ok, err, ◌>>=◌, ◌>>◌, throw_if, arith, length, take, ltb, leb, not, ◌==◌,
  ==_iff, if◌then◌else◌, Bool-cases, Result-cases, set_bytes, subarray, to_le, length-to_le,
  take-append_length,
}
use capnp_deno.Base.Int.{sub_ℕ}
use capnp_deno.Wire.Errors.{
  ProtocolError, builder_out_of_range, builder_byte_offset_out_of_range, not_word_aligned,
}
use capnp_deno.Wire.Segments.{encode_signed30, frame_from_segment}
use capnp_deno.Wire.Builder.{
  Builder, new_builder, alloc_words, write_word, write_uint, write_bytes, copy_words,
  set_struct_pointer, set_list_pointer, struct_pointer_word, list_pointer_word, to_message_bytes,
  store,
}
use capnp_deno.Wire.Builder.Refine.{Holds, zeros, new_builder-Holds, alloc_words-Holds, store-Holds}

-- A call of one of the methods that change the builder.
pub data Call : Type 0 where
  alloc : ℕ → Call
  word : ℕ → ℕ → Call
  uint : ℕ → ℕ → ℕ → ℕ → Call
  raw : ℕ → ℕ → Bytes → Call
  copy : ℕ → Bytes → Call
  struct_pointer : ℕ → ℕ → ℕ → ℕ → Call
  list_pointer : ℕ → ℕ → ℕ → ℕ → Call

abbrev pub perform : Call → Builder → Result ProtocolError Builder
perform (alloc count) b = ok (alloc_words count b).1
perform (word i value) b = write_word i value b
perform (uint width i offset value) b = write_uint width i offset value b
perform (raw i offset value) b = write_bytes i offset value b
perform (copy i value) b = copy_words i value b
perform (struct_pointer at target data_words pointers) b =
    set_struct_pointer at target data_words pointers b
perform (list_pointer at target size count) b = set_list_pointer at target size count b

-- A write into plain bytes, at an offset where it must fit.
abbrev pub plain_write : ℕ → Bytes → Bytes → Result ProtocolError Bytes
plain_write offset source c =
    if leb (offset + length source) (length c)
    then ok (set_bytes c offset source)
    else err builder_out_of_range

-- The same call on plain bytes, which only ever grow by zero words.
abbrev pub plain : Call → Bytes → Result ProtocolError Bytes
plain (alloc count) c = ok (c ++ zeros (count * 8))
plain (word i value) c = plain_write (i * 8) (to_le 8 value) c
plain (uint width i offset value) c =
    if leb (i * 8 + 8) (length c)
    then (if leb (offset + width) 8
        then plain_write (i * 8 + offset) (to_le width value) c
        else err builder_byte_offset_out_of_range)
    else err builder_out_of_range
plain (raw i offset value) c = plain_write (i * 8 + offset) value c
plain (copy i value) c =
    if length value % 8 == 0 then plain_write (i * 8) value c else err not_word_aligned
plain (struct_pointer at target data_words pointers) c =
    encode_signed30 (sub_ℕ target (at + 1)) >>= λ offset.
    plain_write (at * 8) (to_le 8 (struct_pointer_word offset data_words pointers)) c
plain (list_pointer at target size count) c = encode_signed30 (sub_ℕ target (at + 1)) >>= λ offset.
    plain_write (at * 8) (to_le 8 (list_pointer_word offset size count)) c

-- The builder and the plain bytes end the same way: with one error, or with a builder that holds the
-- bytes.
pub data Agree : Result ProtocolError Builder → Result ProtocolError Bytes → Type 0 where
  both_fail : (e : ProtocolError) → Agree (err e) (err e)
  both_go_on : {b : Builder} {c : Bytes} → Holds b c → Agree (ok b) (ok c)

stored :
    (offset : ℕ) (source : Bytes) (b : Builder) (c : Bytes) (refused : Bool)
    → refused ≡ not (leb (offset + length source) (length c))
    → Holds b c
    → Agree
        (throw_if refused builder_out_of_range >> ok (store offset source b))
        (plain_write offset source c)
stored offset source b c refused same h =
    elim (Bool-cases (leb (offset + length source) (length c))) [
      | inl fits ↦ rw (same, fits) (both_go_on (store-Holds offset source b c (ground arith) h))
      | inr out ↦ rw (same, out) (both_fail builder_out_of_range)
    ]

word-Agree :
    (i value : ℕ) (b : Builder) (c : Bytes)
    → Holds b c
    → Agree (write_word i value b) (plain_write (i * 8) (to_le 8 value) c)
unfolding write_word
word-Agree i value b c h =
    stored (i * 8) (to_le 8 value) b c (ltb b.words (i + 1)) (ground (arith, h.whole)) h

pointer-Agree :
    (i target : ℕ) (value : ℕ → ℕ) (b : Builder) (c : Bytes)
    → Holds b c
    → Agree (encode_signed30 (sub_ℕ target (i + 1)) >>= λ offset. write_word i (value offset) b) (
        encode_signed30 (sub_ℕ target (i + 1)) >>= λ offset.
        plain_write (i * 8) (to_le 8 (value offset)) c)
pointer-Agree i target value b c h = elim (Result-cases (encode_signed30 (sub_ℕ target (i + 1)))) [
  | inl (offset, e) ↦ rw e (word-Agree i (value offset) b c h)
  | inr (error, e) ↦ rw e (both_fail error)
]

raw-Agree :
    (i offset : ℕ) (value : Bytes) (b : Builder) (c : Bytes)
    → Holds b c
    → Agree (write_bytes i offset value b) (plain_write (i * 8 + offset) value c)
unfolding write_bytes
raw-Agree i offset value b c h =
    stored (i * 8 + offset) value b c (ltb (b.words * 8) (i * 8 + offset + length value))
      (ground (arith, h.whole)) h

copy-Agree :
    (i : ℕ) (value : Bytes) (b : Builder) (c : Bytes)
    → Holds b c
    → Agree (copy_words i value b) (plain (copy i value) c)
unfolding copy_words
copy-Agree i value b c h = elim (Bool-cases (length value % 8 == 0)) [
  | inr ragged ↦ rw ragged (both_fail not_word_aligned)
  | inl aligned ↦
      let exact : length value % 8 ≡ 0 = (==_iff _ _).0 aligned in
      rw aligned
        (stored (i * 8) value b c (ltb b.words (i + length value / 8)) (ground (arith, h.whole)) h)
]

uint-Agree :
    (width i offset value : ℕ) (b : Builder) (c : Bytes)
    → Holds b c
    → Agree (write_uint width i offset value b) (plain (uint width i offset value) c)
unfolding write_uint
uint-Agree width i offset value b c h =
    let same : ltb b.words (i + 1) ≡ not (leb (i * 8 + 8) (length c)) = ground (arith, h.whole) in
    let within : ltb 8 (offset + width) ≡ not (leb (offset + width) 8) = ground arith in
    elim (Bool-cases (leb (i * 8 + 8) (length c))) [
      | inr out ↦ rw (same, out) (both_fail builder_out_of_range)
      | inl room ↦ elim (Bool-cases (leb (offset + width) 8)) [
        | inr out ↦ rw (same, room, within, out) (both_fail builder_byte_offset_out_of_range)
        | inl fits ↦
            rw (same, room, within, fits)
              (stored (i * 8 + offset) (to_le width value) b c false
                (ground (arith, length-to_le width value)) h)
      ]
    ]

-- Each method of the builder does to the bytes in use what the plain description of the call says, and
-- throws the same error where that one refuses.
pub perform-plain :
    (call : Call) (b : Builder) (c : Bytes) → Holds b c → Agree (perform call b) (plain call c)
unfolding set_struct_pointer set_list_pointer
perform-plain (alloc count) b c h = both_go_on (alloc_words-Holds count b c h)
perform-plain (word i value) b c h = word-Agree i value b c h
perform-plain (uint width i offset value) b c h = uint-Agree width i offset value b c h
perform-plain (raw i offset value) b c h = raw-Agree i offset value b c h
perform-plain (copy i value) b c h = copy-Agree i value b c h
perform-plain (struct_pointer at target data_words pointers) b c h =
    pointer-Agree at target (λ offset. struct_pointer_word offset data_words pointers) b c h
perform-plain (list_pointer at target size count) b c h =
    pointer-Agree at target (λ offset. list_pointer_word offset size count) b c h

-- A sequence of calls, up to the first that throws.
abbrev pub perform_all : List Call → Builder → Result ProtocolError Builder
perform_all [] b = ok b
perform_all (call ∷ calls) b = perform call b >>= perform_all calls

abbrev pub plain_all : List Call → Bytes → Result ProtocolError Bytes
plain_all [] c = ok c
plain_all (call ∷ calls) c = plain call c >>= plain_all calls

chained-Agree :
    (outcome : Result ProtocolError Builder) (described : Result ProtocolError Bytes)
    (calls : List Call)
    → Agree outcome described
    → ((b : Builder) (c : Bytes) → Holds b c → Agree (perform_all calls b) (plain_all calls c))
    → Agree (outcome >>= perform_all calls) (described >>= plain_all calls)
chained-Agree (err _) (err _) calls (both_fail e) next = both_fail e
chained-Agree (ok b) (ok c) calls (both_go_on h) next = next b c h
chained-Agree (err _) (ok c) calls agree next = elim agree [ ]
chained-Agree (ok b) (err _) calls agree next = elim agree [ ]

pub all-Agree :
    (calls : List Call) (b : Builder) (c : Bytes)
    → Holds b c
    → Agree (perform_all calls b) (plain_all calls c)
all-Agree [] b c h = both_go_on h
all-Agree (call ∷ calls) b c h =
    chained-Agree (perform call b) (plain call c) calls (perform-plain call b c h) (all-Agree calls)

pub message_lem :
    (b : Builder) (c : Bytes) → Holds b c → frame_from_segment c ≡ ok (to_message_bytes b)
unfolding frame_from_segment to_message_bytes
message_lem b c h =
    let aligned : (length c % 8 == 0) ≡ true = ground (arith, h.whole) in
    let words : length c / 8 ≡ b.words = omega (arith, h.whole) in
    let used : c ≡ subarray b.bytes 0 (b.words * 8) =
      sym (take-append_length c (zeros h.spare))
      ∙ ap₂ take {x = length c} (omega (arith, h.whole)) (sym h.buffer) in
    rw aligned (ap₂ (λ n bs. ok (to_le 4 0 ++ (to_le 4 n ++ bs))) words used)

-- Any sequence of calls on a new builder either throws the error that the plain description throws, or ends
-- with a builder whose message is the frame that `frameFromSegment` makes of the described bytes.
pub to_message_bytes-frame_from_segment :
    (calls : List Call)
    → ((e : ProtocolError) × (perform_all calls new_builder ≡ err e)
        × (plain_all calls (zeros 8) ≡ err e))
      ⊎ ((b : Builder) × (c : Bytes) × (perform_all calls new_builder ≡ ok b)
          × (plain_all calls (zeros 8) ≡ ok c)
          × (frame_from_segment c ≡ ok (to_message_bytes b)))
to_message_bytes-frame_from_segment calls =
    told (perform_all calls new_builder) (plain_all calls (zeros 8))
      (all-Agree calls new_builder (zeros 8) new_builder-Holds)
  where
    told :
        (outcome : Result ProtocolError Builder) (described : Result ProtocolError Bytes)
        → Agree outcome described
        → ((e : ProtocolError) × (outcome ≡ err e) × (described ≡ err e))
          ⊎ ((b : Builder) × (c : Bytes) × (outcome ≡ ok b)
              × (described ≡ ok c)
              × (frame_from_segment c ≡ ok (to_message_bytes b)))
    told (err _) (err _) (both_fail e) = inl (e, refl, refl)
    told (ok b) (ok c) (both_go_on h) = inr (b, c, refl, refl, message_lem b c h)
    told (err _) (ok c) agree = elim agree [ ]
    told (ok b) (err _) agree = elim agree [ ]
