-- ===== src/Wire/PointerWord.antt =====
-- The bit fields of a 64-bit pointer word, as rpc/wire/pointers.ts and rpc/wire/frame_limits.ts read
-- them inline. A word is a number; `(w >> k) & (2^n - 1)` is `w / 2 ^ k % 2 ^ n`.
use capnp_deno.Base.{ℕ, ◌/◌, ◌%◌, ◌^◌}

-- `word & 3`: 0 is a struct, 1 a list, 2 a far pointer, 3 a capability.
abbrev pub kind : ℕ → ℕ
kind w = w % 4

-- The offset field, before its sign is read.
abbrev pub raw_offset : ℕ → ℕ
raw_offset w = w / 4 % 2 ^ 30

-- The struct pointer's two sizes.
abbrev pub data_words : ℕ → ℕ
data_words w = w / 2 ^ 32 % 2 ^ 16

abbrev pub pointer_count : ℕ → ℕ
pointer_count w = w / 2 ^ 48 % 2 ^ 16

-- The list pointer's element size code and element count.
abbrev pub element_size : ℕ → ℕ
element_size w = w / 2 ^ 32 % 8

abbrev pub element_count : ℕ → ℕ
element_count w = w / 2 ^ 35 % 2 ^ 29

-- The far pointer's flag and landing pad.
abbrev pub double_far_bit : ℕ → ℕ
double_far_bit w = w / 4 % 2

abbrev pub landing_pad_word : ℕ → ℕ
landing_pad_word w = w / 8 % 2 ^ 29

abbrev pub landing_segment_id : ℕ → ℕ
landing_segment_id w = w / 2 ^ 32 % 2 ^ 32
