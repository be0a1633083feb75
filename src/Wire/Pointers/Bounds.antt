-- ===== src/Wire/Pointers/Bounds.antt =====
-- What a decoded pointer refers to lies inside its segment.
use capnp_deno.Base.{
  ℕ, ◌+◌, ◌*◌, ◌/◌, ◌≤◌, ◌≡◌, refl, subst, inl, inr, Bool, true, false, Option, none, some, Bytes,
  Result, ok, err, arith, length, take, drop, subarray, ltb, ◌==◌, if◌then◌else◌, not, Option-cases,
  >>=-eq-ok,
}
use capnp_deno.Base.{get_elem?, of_le}
use capnp_deno.Base.Int.{ℤ, pos, negsuc, pos_part}
use capnp_deno.Wire.PointerWord.{kind, data_words, pointer_count, element_size, element_count}
use capnp_deno.Wire.Segments.{
  SegmentTable, StructRef, ensure_range, ensure_segment_range, read_in_struct,
}
use capnp_deno.Wire.Pointers.{
  PointerLocation, resolve_pointer, target_word, out_of_segment, decode_struct_pointer,
  read_text_bytes, drop_terminator, ByteListRef, decode_byte_list_pointer,
}

-- A range of words of a segment that the table has.
abbrev pub InTable : SegmentTable → ℕ → ℕ → ℕ → Type 0
InTable table segment_id start words =
    (segment : Bytes) × (get_elem? table segment_id ≡ some segment)
    × ((start + words) * 8 ≤ length segment)

out_of_segment-InTable :
    (table : SegmentTable) (segment_id : ℕ) (start : ℤ) (words : ℕ)
    → out_of_segment table segment_id start words ≡ false
    → InTable table segment_id (pos_part start) words
unfolding out_of_segment
out_of_segment-InTable table id (negsuc n) words e = cc
out_of_segment-InTable table id (pos n) words e = elim (Option-cases (get_elem? table id)) [
  | inl missing ↦ cc (rw (missing, out_of_segment) at e)
  | inr (segment, found) ↦
      let inside : ltb (length segment) ((n + words) * 8) ≡ false =
        rw (found, out_of_segment) at e in
      (segment, found, ground arith)
]

-- An answer with a value has passed each guard.
not_none {ℓ₁ ℓ₂} :
    {E : Type ℓ₁}
    → {A : Type ℓ₂} → (b : Bool) (x : Result E (Option A)) (a : A)
    → (if b then ok none else x) ≡ ok (some a)
    → x ≡ ok (some a)
not_none true x a e = cc
not_none false x a e = e

passed {ℓ₁ ℓ₂} :
    {E : Type ℓ₁}
    → {A : Type ℓ₂} → (b : Bool) (error : E) (x : Result E (Option A)) (a : A)
    → (if b then err error else x) ≡ ok (some a)
    → (b ≡ false) × (x ≡ ok (some a))
passed true error x a e = cc
passed false error x a e = (refl, e)

some_of_ok {ℓ₁ ℓ₂} :
    {E : Type ℓ₁}
    → {A : Type ℓ₂} → (a b : A) → Path (Result E (Option A)) (ok (some a)) (ok (some b))
    → a ≡ b
some_of_ok a b e = cc

-- A struct that `decodeStructPointer` returns lies, data section and pointer section, inside a
-- segment of the table.
pub decode_struct_pointer-InTable :
    (table : SegmentTable) (loc : PointerLocation) (s : StructRef)
    → decode_struct_pointer table loc ≡ ok (some s)
    → InTable table s.segment_id s.start_word (s.data_word_count + s.pointer_count)
unfolding decode_struct_pointer
decode_struct_pointer-InTable table loc s e =
    let (r, resolved, rest) =
      >>=-eq-ok (resolve_pointer table loc.segment_id (pos loc.word_index)) _ e in
    let rest₁ = not_none (r.word == 0) _ s rest in
    let (_, rest₂) = passed (not (kind r.word == 0)) _ _ s rest₁ in
    let (inside, rest₃) = passed _ _ _ s rest₂ in
    subst (λ t. InTable table t.segment_id t.start_word (t.data_word_count + t.pointer_count))
      (some_of_ok _ s rest₃)
      (out_of_segment-InTable table r.segment_id (target_word r)
        (data_words r.word + pointer_count r.word) inside)

-- The bytes of a list that `decodeByteListPointer` returns lie inside a segment of the table.
pub decode_byte_list_pointer-InTable :
    (table : SegmentTable) (loc : PointerLocation) (l : ByteListRef)
    → decode_byte_list_pointer table loc ≡ ok (some l)
    → InTable table l.segment_id l.start_word ((l.element_count + 7) / 8)
unfolding decode_byte_list_pointer
decode_byte_list_pointer-InTable table loc l e =
    let (r, resolved, rest) =
      >>=-eq-ok (resolve_pointer table loc.segment_id (pos loc.word_index)) _ e in
    let rest₁ = not_none (r.word == 0) _ l rest in
    let (_, rest₂) = passed (not (kind r.word == 1)) _ _ l rest₁ in
    let (_, rest₃) = passed (not (element_size r.word == 2)) _ _ l rest₂ in
    let (inside, rest₄) = passed _ _ _ l rest₃ in
    subst (λ t. InTable table t.segment_id t.start_word ((t.element_count + 7) / 8))
      (some_of_ok _ l rest₄)
      (out_of_segment-InTable table r.segment_id (target_word r) ((element_count r.word + 7) / 8)
        inside)

read_in_struct_inside :
    (width : ℕ) (table : SegmentTable) (s : StructRef) (offset : ℕ)
    → InTable table s.segment_id s.start_word (s.data_word_count + s.pointer_count)
    → offset + width ≤ s.data_word_count * 8
    → (segment : Bytes) × (get_elem? table s.segment_id ≡ some segment)
      × (read_in_struct width table s offset
          ≡ ok (of_le (take width (drop (s.start_word * 8 + offset) segment))))
unfolding read_in_struct ensure_segment_range ensure_range
read_in_struct_inside width table s offset (segment, found, fits) h =
    let bound : ltb (length segment) (s.start_word * 8 + offset + width) ≡ false = ground arith in
    let small : ltb (s.data_word_count * 8) (offset + width) ≡ false = ground arith in
    (segment, found, rw (small, ensure_segment_range, found, ensure_range, bound))

-- In a struct that `decodeStructPointer` returned, a field of `width` bytes that lies in the data
-- section is read without an error, and is the little-endian number of its bytes.
pub read_in_struct-decode_struct_pointer :
    (table : SegmentTable) (loc : PointerLocation) (s : StructRef) (width offset : ℕ)
    → decode_struct_pointer table loc ≡ ok (some s)
    → offset + width ≤ s.data_word_count * 8
    → (segment : Bytes) × (get_elem? table s.segment_id ≡ some segment)
      × (read_in_struct width table s offset
          ≡ ok (of_le (take width (drop (s.start_word * 8 + offset) segment))))
read_in_struct-decode_struct_pointer table loc s width offset e h =
    read_in_struct_inside width table s offset (decode_struct_pointer-InTable table loc s e) h

-- Text of a pointer that decodes is read without an error: the list's bytes, less one final zero.
pub read_text_bytes-decode_byte_list_pointer :
    (table : SegmentTable) (loc : PointerLocation) (l : ByteListRef)
    → decode_byte_list_pointer table loc ≡ ok (some l)
    → (segment : Bytes) × (get_elem? table l.segment_id ≡ some segment)
      × (read_text_bytes table loc
          ≡ ok (
              some (
                drop_terminator
                  (subarray segment (l.start_word * 8) (l.start_word * 8 + l.element_count)))))
unfolding read_text_bytes ensure_segment_range ensure_range
read_text_bytes-decode_byte_list_pointer table loc l e =
    let (segment, found, fits) = decode_byte_list_pointer-InTable table loc l e in
    let bound : ltb (length segment) (l.start_word * 8 + l.element_count) ≡ false = ground arith in
    (segment, found, rw (e, ensure_segment_range, found, ensure_range, bound))
