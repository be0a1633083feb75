-- ===== src/Wire/FrameLimits/Walk.antt =====
-- The second half of rpc/wire/frame_limits.ts: bounds checks, far pointers, and the worklist that
-- enforces the nesting depth. The context strings of the messages are left out.
pub mod Termination
pub mod Total
use Prim.Native.Nat.{bit_or}
use capnp_deno.Base.{
  ℕ, zero, suc, ◌+◌, ◌-◌, ◌*◌, ◌/◌, ◌%◌, ◌^◌, Bool, false, Option, none, some, List, [], ◌∷◌, Bytes,
  Result, ok, err, ◌>>=◌, ◌>>◌, throw_if, ltb, ◌==◌, not, ◌||◌, if◌then◌else◌, length, get_elem?,
  get_uint64, or_else,
}
use capnp_deno.Base.Int.{ℤ, pos, negsuc, pos_part, ◌+ℤ◌, sub_ℕ}
use capnp_deno.Wire.Errors.{
  ProtocolError, missing_segment, invalid_word_bounds, out_of_range, landing_pad_not_far,
  landing_pad_double_far, hop_limit_exceeded, nesting_depth_exceeded, invalid_pointer_kind,
  invalid_element_size, invalid_tag_kind, payload_exceeds_word_count, traversal_words_exceeded,
}
use capnp_deno.Wire.PointerWord.{
  kind, raw_offset, data_words, pointer_count, element_size, element_count, double_far_bit,
  landing_pad_word, landing_segment_id,
}
use capnp_deno.Wire.FrameLimits.{LimitsOptions, nesting_limit, traversal_limit, parse_frame}

-- `asSigned30` of a 30-bit field
abbrev pub as_signed30 : ℕ → ℤ
as_signed30 value = if value / 2 ^ 29 % 2 == 0 then pos value else sub_ℕ value (2 ^ 30)

-- `Math.ceil(a / b)`
abbrev pub ceil_div : ℕ → ℕ → ℕ
ceil_div a b = (a + b - 1) / b

-- `wordsForFlatList`
unfoldable pub words_for_flat_list : ℕ → ℕ → Result ProtocolError ℕ
words_for_flat_list element_size element_count =
    if element_size == 0
    then ok 0
    else if element_size == 1
    then ok (ceil_div element_count 64)
    else if element_size == 2
    then ok (ceil_div element_count 8)
    else if element_size == 3
    then ok (ceil_div element_count 4)
    else if element_size == 4
    then ok (ceil_div element_count 2)
    else if element_size == 5
    then ok element_count
    else if element_size == 6
    then ok element_count
    else err invalid_element_size

-- The bounds check inside a segment. The source divides the segment's byte length by 8 without
-- rounding; here the other side is multiplied.
abbrev pub range_in_segment : Bytes → ℤ → ℕ → Result ProtocolError (Unit {0})
range_in_segment segment (negsuc _) word_count = err invalid_word_bounds
range_in_segment segment (pos start_word) word_count =
    throw_if (ltb (length segment) ((start_word + word_count) * 8)) out_of_range

-- `requireWordRange`
unfoldable pub require_word_range : List Bytes → ℕ → ℤ → ℕ → Result ProtocolError (Unit {0})
require_word_range segments segment_id start_word word_count =
    elim (get_elem? segments segment_id) [
      | none ↦ err missing_segment
      | some segment ↦ range_in_segment segment start_word word_count
    ]

-- The word at an index that has been checked (`segments[segmentId]` and `getBigUint64`).
abbrev pub word_of : List Bytes → ℕ → ℕ → ℕ
word_of segments segment_id word_index = elim (get_elem? segments segment_id) [
  | none ↦ 0
  | some segment ↦ get_uint64 segment (word_index * 8)
]

-- `readWordAt`
unfoldable pub read_word_at : List Bytes → ℕ → ℕ → Result ProtocolError ℕ
read_word_at segments segment_id word_index = do
  require_word_range segments segment_id (pos word_index) 1
  ok (word_of segments segment_id word_index)

-- `ResolvedPointer`
pub record Resolved : Type 0 where
  pub segment_id : ℕ
  pub pointer_word : ℕ
  pub word : ℕ

-- One double-far landing pad: the pointer that its tag stands for.
unfoldable pub double_far : List Bytes → ℕ → ℕ → Result ProtocolError Resolved
double_far segments landing_segment landing_word = do
  require_word_range segments landing_segment (pos landing_word) 2
  pad0 ← read_word_at segments landing_segment landing_word
  throw_if (not (kind pad0 == 2)) landing_pad_not_far
  throw_if (double_far_bit pad0 == 1) landing_pad_double_far
  require_word_range segments (landing_segment_id pad0) (pos (landing_pad_word pad0)) 1
  tag ← read_word_at segments landing_segment (landing_word + 1)
  ok (record {
    segment_id = landing_segment_id pad0;
    pointer_word = landing_pad_word pad0;
    word = tag;
  })

-- What one turn of the loop makes of a far pointer.
unfoldable pub follow_far : List Bytes → ℕ → Result ProtocolError Resolved
follow_far segments word =
    if double_far_bit word == 1
    then double_far segments (landing_segment_id word) (landing_pad_word word)
    else (read_word_at segments (landing_segment_id word) (landing_pad_word word) >>= λ next.
        ok (record {
          segment_id = landing_segment_id word;
          pointer_word = landing_pad_word word;
          word = next;
        }))

-- The loop of `resolvePointer`, over the hops that are left.
unfoldable pub resolve_hops : List Bytes → ℕ → Resolved → Result ProtocolError Resolved
resolve_hops segments zero r = err hop_limit_exceeded
resolve_hops segments (suc hops) r =
    if kind r.word == 2 then follow_far segments r.word >>= resolve_hops segments hops else ok r

abbrev pub pointer_hop_limit : ℕ
pointer_hop_limit = 8

-- `resolvePointer`
unfoldable pub resolve_pointer : List Bytes → ℕ → ℕ → Result ProtocolError Resolved
resolve_pointer segments segment_id pointer_word = do
  word ← read_word_at segments segment_id pointer_word
  resolve_hops segments pointer_hop_limit
      (record { segment_id = segment_id; pointer_word = pointer_word; word = word })

-- `PointerState`
pub record PointerState : Type 0 where
  pub segment_id : ℕ
  pub pointer_word : ℕ
  pub depth : ℕ

-- `for (i = 0; i < count; i++) pending.push(...)`; the list's head is the top of the stack.
unfoldable pub push_pointers : ℕ → ℕ → ℕ → ℕ → List PointerState → List PointerState
push_pointers segment_id depth first zero pending = pending
push_pointers segment_id depth first (suc count) pending =
    push_pointers segment_id depth (first + 1) count
      (record { segment_id = segment_id; pointer_word = first; depth = depth } ∷ pending)

-- The two loops over an inline composite list's elements: `stride` words each, the pointers last.
unfoldable pub push_elements : ℕ → ℕ → ℕ → ℕ → ℕ → ℕ → List PointerState → List PointerState
push_elements segment_id depth pointer_start stride pointers zero pending = pending
push_elements segment_id depth pointer_start stride pointers (suc count) pending =
    push_elements segment_id depth (pointer_start + stride) stride pointers count
      (push_pointers segment_id depth pointer_start pointers pending)

-- The words that follow a pointer, plus its offset.
abbrev pub target_word : Resolved → ℤ
target_word r = pos (r.pointer_word + 1) +ℤ as_signed30 (raw_offset r.word)

-- The branch of a struct pointer.
unfoldable pub visit_struct :
    List Bytes → Resolved → ℕ → List PointerState → Result ProtocolError (List PointerState)
visit_struct segments r depth pending = do
  let start_word = target_word r
  require_word_range segments r.segment_id start_word (data_words r.word + pointer_count r.word)
  ok (
      push_pointers r.segment_id (depth + 1) (pos_part start_word + data_words r.word)
        (pointer_count r.word) pending)

-- The branch of an inline composite list.
unfoldable pub visit_composite :
    List Bytes → Resolved → ℕ → List PointerState → Result ProtocolError (List PointerState)
visit_composite segments r depth pending = do
  let start_word = target_word r
  require_word_range segments r.segment_id start_word 1
  tag ← read_word_at segments r.segment_id (pos_part start_word)
  throw_if (not (kind tag == 0)) invalid_tag_kind
  let stride = data_words tag + pointer_count tag
  throw_if (ltb (element_count r.word) (stride * raw_offset tag)) payload_exceeds_word_count
  let first = pos_part start_word + 1
  require_word_range segments r.segment_id (pos first) (element_count r.word)
  ok (
      if ltb 0 (pointer_count tag)
      then push_elements r.segment_id (depth + 1) (first + data_words tag) stride
          (pointer_count tag) (raw_offset tag) pending
      else pending)

-- The branch of every other list.
unfoldable pub visit_flat :
    List Bytes → Resolved → ℕ → List PointerState → Result ProtocolError (List PointerState)
visit_flat segments r depth pending = do
  let start_word = target_word r
  words ← words_for_flat_list (element_size r.word) (element_count r.word)
  require_word_range segments r.segment_id start_word words
  ok (
      if element_size r.word == 6
      then push_pointers r.segment_id (depth + 1) (pos_part start_word) (element_count r.word)
          pending
      else pending)

-- The body of the loop once a pointer is resolved.
unfoldable pub visit :
    List Bytes → ℕ → Resolved → ℕ → List PointerState → Result ProtocolError (List PointerState)
visit segments max_depth r depth pending =
    if r.word == 0
    then ok pending
    else if ltb max_depth depth
    then err nesting_depth_exceeded
    else if kind r.word == 3
    then ok pending
    else if kind r.word == 0
    then visit_struct segments r depth pending
    else if not (kind r.word == 1)
    then err invalid_pointer_kind
    else if element_size r.word == 7
    then visit_composite segments r depth pending
    else visit_flat segments r depth pending

-- The key under which a state is remembered: `(segmentId << 40) | (pointerWord << 8) | depth`.
unfoldable pub state_key : PointerState → ℕ
state_key s = bit_or (bit_or (s.segment_id * 2 ^ 40) (s.pointer_word * 2 ^ 8)) s.depth

-- `seen.has(key)`
unfoldable pub has : ℕ → List ℕ → Bool
has key [] = false
has key (k ∷ keys) = key == k || has key keys

-- One turn of the worklist: the new worklist and the new set of keys.
unfoldable pub walk_step :
    List Bytes
    → ℕ
    → PointerState
    → List PointerState
    → List ℕ
    → Result ProtocolError (List PointerState × List ℕ)
walk_step segments max_depth s pending seen =
    if has (state_key s) seen
    then ok (pending, seen)
    else (resolve_pointer segments s.segment_id s.pointer_word >>= λ r.
        visit segments max_depth r s.depth pending >>= λ next. ok (next, state_key s ∷ seen))

-- The worklist. `none` means that the fuel ran out.
unfoldable pub walk :
    List Bytes → ℕ → ℕ → List PointerState → List ℕ → Option (Result ProtocolError (Unit {0}))
walk segments max_depth zero pending seen = none
walk segments max_depth (suc fuel) [] seen = some (ok tt)
walk segments max_depth (suc fuel) (s ∷ pending) seen =
    elim (walk_step segments max_depth s pending seen) [
      | err e ↦ some (err e)
      | ok (next, keys) ↦ walk segments max_depth fuel next keys
    ]

abbrev pub root_state : PointerState
root_state = record { segment_id = 0; pointer_word = 0; depth = 1 }

-- `enforceNestingDepth`
unfoldable pub enforce_nesting_depth : ℕ → List Bytes → ℕ → Option (Result ProtocolError (Unit {0}))
enforce_nesting_depth fuel [] max_depth = some (ok tt)
enforce_nesting_depth fuel (first ∷ rest) max_depth =
    if ltb (length first) 8
    then some (ok tt)
    else walk (first ∷ rest) max_depth fuel (root_state ∷ []) []

-- `validateCapnpFrame`
unfoldable pub validate_capnp_frame :
    ℕ → Bytes → LimitsOptions → Option (Result ProtocolError (Unit {0}))
validate_capnp_frame fuel frame limits = elim (parse_frame frame limits) [
  | err e ↦ some (err e)
  | ok parsed ↦ elim (enforce_nesting_depth fuel parsed.segments (nesting_limit limits)) [
    | none ↦ none
    | some (err e) ↦ some (err e)
    | some (ok _) ↦
        some (throw_if (ltb (traversal_limit limits) parsed.total_words) traversal_words_exceeded)
  ]
]

-- A fuel that `Termination` proves to be enough under the given limits.
abbrev pub enough_fuel : LimitsOptions → ℕ
enough_fuel limits = suc (suc (traversal_limit limits) ^ (nesting_limit limits + 1))

-- `validateCapnpFrame` with that fuel.
unfoldable pub validate : Bytes → LimitsOptions → Result ProtocolError (Unit {0})
validate frame limits = or_else (validate_capnp_frame (enough_fuel limits) frame limits) (ok tt)
