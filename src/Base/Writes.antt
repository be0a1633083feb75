-- ===== src/Base/Writes.antt =====
-- What a write into a byte array leaves to be read.
use Prim.Native.Nat.{ℕ, ◌+◌, ◌-◌, ◌≤◌}
use mathlib.Core.Path.{◌≡◌, refl, sym, ap, ap₂, ◌∙◌}
use mathlib.Core.List.{◌++◌, append_assoc}
use native.Mathlib.Omega.{arith}
use capnp_deno.Base.Lists.{length, take, drop, length-append, length-take, length-drop}
use capnp_deno.Base.Slices.{
  take-append-le, drop-append-le, take-append_length, drop-append_length, drop-drop, drop-take,
  take-take-le,
}
use capnp_deno.Base.ByteOps.{Bytes, set_bytes}

-- Copying `chunk` to the end of the bytes in use.
pub take-set_bytes :
    (bs chunk : Bytes) (used : ℕ)
    → used ≤ length bs
    → take (used + length chunk) (set_bytes bs used chunk) ≡ take used bs ++ chunk
unfolding set_bytes
take-set_bytes bs chunk used h =
    let front : length (take used bs ++ chunk) ≡ used + length chunk =
      omega (arith, length-append (take used bs) chunk, length-take used bs) in
    ap₂ take (sym front) (sym (append_assoc (take used bs) chunk (drop (used + length chunk) bs)))
    ∙ take-append_length (take used bs ++ chunk) (drop (used + length chunk) bs)

pub length-set_bytes :
    (bs chunk : Bytes) (used : ℕ)
    → used + length chunk ≤ length bs
    → length (set_bytes bs used chunk) ≡ length bs
unfolding set_bytes
length-set_bytes bs chunk used h = omega (
  arith,
  length-append (take used bs) (chunk ++ drop (used + length chunk) bs),
  length-append chunk (drop (used + length chunk) bs),
  length-take used bs,
  length-drop (used + length chunk) bs,
)

-- A slice of what `set` wrote, and of what it left alone.
pub take-set_bytes_self :
    (bs source : Bytes) (offset : ℕ)
    → offset ≤ length bs
    → take (length source) (drop offset (set_bytes bs offset source)) ≡ source
unfolding set_bytes
take-set_bytes_self bs source offset h =
    let front : length (take offset bs) ≡ offset = omega (arith, length-take offset bs) in
    let tail = drop (offset + length source) bs in
    ap (take (length source))
      (ap₂ drop (sym front) refl ∙ drop-append_length (take offset bs) (source ++ tail))
    ∙ take-append_length source tail

pub take-set_bytes_below :
    (bs source : Bytes) (offset i n : ℕ)
    → offset ≤ length bs
    → i + n ≤ offset
    → take n (drop i (set_bytes bs offset source)) ≡ take n (drop i bs)
unfolding set_bytes
take-set_bytes_below bs source offset i n h k =
    let front = take offset bs in
    let size : length front ≡ offset = omega (arith, length-take offset bs) in
    let rest = source ++ drop (offset + length source) bs in
    ap (take n) (drop-append-le i front rest (omega arith))
    ∙ take-append-le n (drop i front) rest (omega (arith, length-drop i front))
    ∙ ap (take n) (drop-take i offset bs)
    ∙ take-take-le n (offset - i) (drop i bs) (omega arith)

pub take-set_bytes_above :
    (bs source : Bytes) (offset i n : ℕ)
    → offset + length source ≤ length bs
    → offset + length source ≤ i
    → take n (drop i (set_bytes bs offset source)) ≡ take n (drop i bs)
unfolding set_bytes
take-set_bytes_above bs source offset i n h k =
    let front = take offset bs ++ source in
    let size : length front ≡ offset + length source =
      omega (arith, length-take offset bs, length-append (take offset bs) source) in
    let tail = drop (offset + length source) bs in
    let gap : offset + length source + (i - (offset + length source)) ≡ i = omega arith in
    let whole : take offset bs ++ (source ++ tail) ≡ front ++ tail =
      sym (append_assoc (take offset bs) source tail) in
    ap (take n) (
      ap₂ drop (sym gap) whole
      ∙ sym (drop-drop (offset + length source) (i - (offset + length source)) (front ++ tail))
      ∙ ap (drop (i - (offset + length source)))
          (ap₂ drop (sym size) refl ∙ drop-append_length front tail)
      ∙ drop-drop (offset + length source) (i - (offset + length source)) bs
      ∙ ap (λ k. drop k bs) gap)
