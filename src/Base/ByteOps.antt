-- ===== src/Base/ByteOps.antt =====
-- Byte sequences (`Uint8Array`) as lists of numbers, and the little-endian reads and writes of a
-- `DataView`. A read or write out of range throws in JavaScript; the callers check the range first.
use Prim.Native.Nat.{ℕ, zero, suc, ◌+◌, ◌-◌, ◌*◌, ◌/◌, ◌%◌, ◌^◌, ◌<◌}
use mathlib.Core.Path.{◌≡◌, refl, ap}
use mathlib.Core.List.{List, [], ◌∷◌, ◌++◌}
use native.Mathlib.Omega.{arith}
use capnp_deno.Base.Lists.{length, take, drop}

abbrev pub Byte : Type 0
Byte = ℕ

abbrev pub Bytes : Type 0
Bytes = List Byte

-- Every element is a byte.
abbrev pub AreBytes : Bytes → Type 0
AreBytes [] = Unit {0}
AreBytes (b ∷ bs) = (b < 256) × AreBytes bs

-- The number that little-endian bytes stand for.
abbrev pub of_le : Bytes → ℕ
of_le [] = 0
of_le (b ∷ bs) = b + 256 * of_le bs

-- `k` little-endian bytes of a number.
abbrev pub to_le : ℕ → ℕ → Bytes
to_le zero v = []
to_le (suc k) v = v % 256 ∷ to_le k (v / 256)

-- `view.getUint32(offset, true)`
unfoldable pub get_uint32 : Bytes → ℕ → ℕ
get_uint32 bs offset = of_le (take 4 (drop offset bs))

-- `view.getBigUint64(offset, true)`
unfoldable pub get_uint64 : Bytes → ℕ → ℕ
get_uint64 bs offset = of_le (take 8 (drop offset bs))

-- `target.set(source, offset)`
unfoldable pub set_bytes : Bytes → ℕ → Bytes → Bytes
set_bytes bs offset source = take offset bs ++ (source ++ drop (offset + length source) bs)

-- `array.subarray(start, end)` and `array.slice(start, end)`: the bytes are the same.
abbrev pub subarray : Bytes → ℕ → ℕ → Bytes
subarray bs start end = take (end - start) (drop start bs)

pub length-to_le : (k v : ℕ) → length (to_le k v) ≡ k
length-to_le zero v = refl
length-to_le (suc k) v = ap suc (length-to_le k (v / 256))

pub to_le-AreBytes : (k v : ℕ) → AreBytes (to_le k v)
to_le-AreBytes zero v = tt
to_le-AreBytes (suc k) v = (omega arith, to_le-AreBytes k (v / 256))

pub get_uint32-to_le : (v : ℕ) → v < 2 ^ 32 → of_le (to_le 4 v) ≡ v
get_uint32-to_le v h = omega arith

pub get_uint64-to_le : (v : ℕ) → v < 2 ^ 64 → of_le (to_le 8 v) ≡ v
get_uint64-to_le v h = omega arith

-- The bytes of several arrays, one after the other.
abbrev pub concat : List Bytes → Bytes
concat [] = []
concat (bs ∷ rest) = bs ++ concat rest
