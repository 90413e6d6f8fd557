-- ===== src/Prelude/LittleEndian.antt =====
-- Bytes, little-endian numbers and Rust's lexicographic order on `[u8]`.
use Prim.Native.Nat.{ℕ, zero, suc, ◌+◌, ◌-◌, ◌*◌, ◌/◌, ◌%◌, ◌^◌, ◌<◌}
use mathlib.Core.Path.{◌≡◌, refl, ap, ap₂}
use mathlib.Core.List.{List, [], ◌∷◌}
use native.Mathlib.Omega.{arith}
use native.Mathlib.Nat.{pow-suc}
use jam_script.Prelude.Lists.{length, All}

abbrev pub Bytes : Type 0
Bytes = List ℕ

abbrev pub IsByte : ℕ → Type 0
IsByte b = b < 256

abbrev pub IsBytes : Bytes → Type 0
IsBytes bs = All IsByte bs

abbrev pub usize_max : ℕ
usize_max = 2 ^ 64 - 1

abbrev pub u32_max : ℕ
u32_max = 2 ^ 32 - 1

-- `to_le_bytes` of a number of `w` bytes.
unfoldable pub le_bytes : ℕ → ℕ → Bytes
le_bytes zero v = []
le_bytes (suc w) v = (v % 256) ∷ le_bytes w (v / 256)

-- `from_le_bytes`.
unfoldable pub from_le : Bytes → ℕ
from_le [] = 0
from_le (b ∷ bs) = b + 256 * from_le bs

pub length-le_bytes : (w v : ℕ) → length (le_bytes w v) ≡ w
unfolding le_bytes
length-le_bytes zero v = refl
length-le_bytes (suc w) v = ap suc (length-le_bytes w (v / 256))

pub le_bytes-IsBytes : (w v : ℕ) → IsBytes (le_bytes w v)
unfolding le_bytes
le_bytes-IsBytes zero v = tt
le_bytes-IsBytes (suc w) v = (omega arith, le_bytes-IsBytes w (v / 256))

-- What is written is read back.
pub from_le-le_bytes : (w v : ℕ) → v < 256 ^ w → from_le (le_bytes w v) ≡ v
unfolding le_bytes from_le
from_le-le_bytes zero v h = omega arith
from_le-le_bytes (suc w) v h =
    let bound : v < 256 ^ w * 256 = rw (pow-suc 256 w) at h in
    omega (arith, from_le-le_bytes w (v / 256) (omega (arith, bound)))

-- What is read is what was written, over bytes.
pub le_bytes-from_le : (bs : Bytes) → IsBytes bs → le_bytes (length bs) (from_le bs) ≡ bs
unfolding le_bytes from_le
le_bytes-from_le [] h = refl
le_bytes-from_le (b ∷ bs) (hb, h) =
    ap₂ ◌∷◌ {x = (b + 256 * from_le bs) % 256} (omega arith)
      (rw (shift b (from_le bs) hb) (le_bytes-from_le bs h))
  where
    shift : (b v : ℕ) → b < 256 → (b + 256 * v) / 256 ≡ v
    shift b v h = omega arith

pub from_le-lt : (bs : Bytes) → IsBytes bs → from_le bs < 256 ^ length bs
unfolding from_le
from_le-lt [] h = omega arith
from_le-lt (b ∷ bs) (hb, h) = rw (pow-suc 256 (length bs)) (omega (arith, from_le-lt bs h))
