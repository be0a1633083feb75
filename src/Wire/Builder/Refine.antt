-- ===== src/Wire/Builder/Refine.antt =====
-- `RpcWireMessageBuilder` against its contents: the words that are in use, without the spare capacity
-- of the buffer.
use capnp_deno.Base.{
  ℕ, zero, suc, ◌+◌, ◌-◌, ◌*◌, ◌≤◌, ◌<◌, ◌≡◌, refl, sym, ap, ap₂, ◌∙◌, inl, inr, ◌∷◌, ◌++◌, Bytes,
  arith, length, take, drop, replicate, leb, Bool-cases, set_bytes, length-append, length-replicate,
  length-set_bytes, take-append-le, drop-append-le, append-nil, append_assoc,
}
use capnp_deno.Wire.Builder.{
  Builder, new_builder, double_until, grown, ensure_capacity, alloc_words, store,
}

abbrev pub zeros : ℕ → Bytes
zeros n = replicate n 0

-- The loop that doubles the capacity ends at one that is large enough.
double_until-le :
    (fuel required next : ℕ)
    → 0 < next
    → required ≤ next + fuel
    → (required ≤ double_until fuel required next) × (next ≤ double_until fuel required next)
unfolding double_until
double_until-le zero required next h k = (omega arith, omega arith)
double_until-le (suc fuel) required next h k =
    let more = double_until-le fuel required (next * 2) (omega arith) (omega arith) in
    ground (arith, more)

zeros-append : (m n : ℕ) → zeros m ++ zeros n ≡ zeros (m + n)
zeros-append zero n = ap zeros (omega arith)
zeros-append (suc m) n = ap (◌∷◌ 0) (zeros-append m n) ∙ ap zeros {x = suc (m + n)} (omega arith)

pub length-zeros : (n : ℕ) → length (zeros n) ≡ n
length-zeros n = length-replicate {A = ℕ} n 0

pub drop-zeros : (m n : ℕ) → drop m (zeros n) ≡ zeros (n - m)
drop-zeros zero n = ap zeros (omega arith)
drop-zeros (suc m) zero = ap zeros {x = 0} (omega arith)
drop-zeros (suc m) (suc n) = drop-zeros m n ∙ ap zeros (omega arith)

-- The buffer holds `c`, a whole number of words with the root pointer's among them, then zeros.
pub record Holds (b : Builder) (c : Bytes) : Type 0 where
  pub spare : ℕ
  pub buffer : b.bytes ≡ c ++ zeros spare
  pub whole : length c ≡ b.words * 8
  pub rooted : 1 ≤ b.words

pub new_builder-Holds : Holds new_builder (zeros 8)
new_builder-Holds = record { spare = 0; buffer = refl; whole = refl; rooted = omega arith }

grown_lem :
    (bytes : Bytes) (required : ℕ)
    → 0 < length bytes
    → (k : ℕ) × (grown bytes required ≡ bytes ++ zeros k) × (required ≤ length bytes + k)
unfolding set_bytes
grown_lem bytes required h =
    let size = double_until required required (length bytes) in
    let (enough, larger) = double_until-le required required (length bytes) h (omega arith) in
    (
      size - length bytes,
      ap (◌++◌ bytes) (drop-zeros (0 + length bytes) size ∙ ap zeros (omega arith)),
      omega arith,
    )

ensure_capacity_lem :
    (required : ℕ) (b : Builder)
    → 0 < length b.bytes
    → (k : ℕ) × ((ensure_capacity required b).bytes ≡ b.bytes ++ zeros k)
      × ((ensure_capacity required b).words ≡ b.words)
      × (required ≤ length b.bytes + k)
unfolding ensure_capacity
ensure_capacity_lem required b h = elim (Bool-cases (leb required (length b.bytes))) [
  | inl fits ↦ (0, rw fits (sym (append-nil b.bytes)), rw fits, ground arith)
  | inr short ↦
      let (k, made, enough) = grown_lem b.bytes required h in (k, rw short made, rw short, enough)
]

pub alloc_words-Holds :
    (count : ℕ) (b : Builder) (c : Bytes)
    → Holds b c
    → Holds (alloc_words count b).1 (c ++ zeros (count * 8))
unfolding alloc_words
alloc_words-Holds count b c h =
    let after = record b { words = b.words + count } in
    let size : length b.bytes ≡ length c + h.spare =
      ap length h.buffer
      ∙ length-append c (zeros h.spare)
      ∙ ap (λ n. length c + n) (length-zeros h.spare) in
    let filled : 0 < length b.bytes = omega (arith, size, h.whole, h.rooted) in
    let (k, made, words, enough) = ensure_capacity_lem ((b.words + count) * 8) after filled in
    let split : h.spare + k ≡ count * 8 + (h.spare + k - count * 8) =
      omega (arith, size, h.whole, enough) in
    record {
      spare = h.spare + k - count * 8;
      buffer =
          made
          ∙ ap (λ bs. bs ++ zeros k) h.buffer
          ∙ append_assoc c (zeros h.spare) (zeros k)
          ∙ ap (◌++◌ c) (
              zeros-append h.spare k
              ∙ ap zeros split
              ∙ sym (zeros-append (count * 8) (h.spare + k - count * 8)))
          ∙ sym (append_assoc c (zeros (count * 8)) (zeros (h.spare + k - count * 8)));
      whole =
          length-append c (zeros (count * 8))
          ∙ omega (arith, length-zeros (count * 8), h.whole, words);
      rooted = omega (arith, h.rooted, words);
    }

set_bytes-append :
    (c rest source : Bytes) (offset : ℕ)
    → offset + length source ≤ length c
    → set_bytes (c ++ rest) offset source ≡ set_bytes c offset source ++ rest
unfolding set_bytes
set_bytes-append c rest source offset h =
    let tail = drop (offset + length source) c in
    ap₂ (λ front back. front ++ (source ++ back)) (take-append-le offset c rest (omega arith))
      (drop-append-le (offset + length source) c rest h)
    ∙ ap (◌++◌ (take offset c)) (sym (append_assoc source tail rest))
    ∙ sym (append_assoc (take offset c) (source ++ tail) rest)

pub store-Holds :
    (offset : ℕ) (source : Bytes) (b : Builder) (c : Bytes)
    → offset + length source ≤ length c
    → Holds b c
    → Holds (store offset source b) (set_bytes c offset source)
store-Holds offset source b c fits h = record {
  spare = h.spare;
  buffer =
      ap (λ bs. set_bytes bs offset source) h.buffer
      ∙ set_bytes-append c (zeros h.spare) source offset fits;
  whole = length-set_bytes c source offset fits ∙ h.whole;
  rooted = h.rooted;
}
