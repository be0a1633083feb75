-- ===== src/Wire/Segments/Signed.antt =====
-- The 30-bit offset field: decoding and encoding are inverse.
use capnp_deno.Base.{
  ℕ, ◌+◌, ◌-◌, ◌*◌, Bool-cases, ◌%◌, ◌^◌, ◌<◌, ◌≡◌, ok, err, arith, ltb, ◌⊎◌, inl, inr,
}
use capnp_deno.Base.Int.{ℤ, pos, negsuc, ◌≤ℤ◌}
use capnp_deno.Wire.Errors.{offset_out_of_range}
use capnp_deno.Wire.Segments.{signed30, encode_signed30}

abbrev pub InRange : ℤ → Type 0
InRange value = (negsuc (2 ^ 29 - 1) ≤ℤ value) × (value ≤ℤ pos (2 ^ 29 - 1))

-- `encodeSigned30` refuses exactly the offsets outside -2^29 to 2^29 - 1, and turns every other one
-- into a field below 2^30 from which `signed30` reads it back, whatever bits stand above the field.
pub signed30-encode_signed30 :
    (value : ℤ)
    → ((encode_signed30 value ≡ err offset_out_of_range) × (¬ InRange value))
      ⊎ ((w : ℕ) × (encode_signed30 value ≡ ok w)
          × InRange value
          × (w < 2 ^ 30)
          × ((high : ℕ) → signed30 (high * 2 ^ 30 + w) ≡ value))
unfolding signed30 encode_signed30
signed30-encode_signed30 (pos n) = elim (Bool-cases (ltb (2 ^ 29 - 1) n)) [
  | inl over ↦ inl (rw over, λ (h : InRange (pos n)). ground arith)
  | inr fits ↦
      inr (n % 2 ^ 30, rw fits, (omega arith, ground arith), ground arith, λ high. ground arith)
]
signed30-encode_signed30 (negsuc n) = elim (Bool-cases (ltb (2 ^ 29) (n + 1))) [
  | inl over ↦ inl (rw over, λ (h : InRange (negsuc n)). ground arith)
  | inr fits ↦ inr (
    (2 ^ 30 - (n + 1)) % 2 ^ 30,
    rw fits,
    (ground arith, omega arith),
    ground arith,
    λ high. ground arith,
  )
]

-- Encoding what `signed30` reads gives the field back.
pub encode_signed30-signed30 : (w : ℕ) → encode_signed30 (signed30 w) ≡ ok (w % 2 ^ 30)
unfolding signed30 encode_signed30
encode_signed30-signed30 w = ground arith
