-- ===== src/Codec/Natural.antt =====
-- `encode_natural` and `Reader` of crates/jamscript-codec/src/lib.rs. A reader is the bytes that are
-- left: its offset is at most their number, so that the addition in `take` does not overflow.
pub mod Laws
use jam_script.Prelude.{
  ℕ, zero, suc, ◌+◌, ◌-◌, ◌*◌, ◌/◌, ◌%◌, ◌^◌, Bytes, le_bytes, from_le, length, take, drop, List,
  [], ◌∷◌, ltb, ◌==◌, Bool, Result, ok, err, if◌then◌else◌,
}
use jam_script.Codec.Value.{CodecError, unexpected_eof}

-- `64 - leading_zeros`: how many of the low `n` bits are in use.
unfoldable pub bit_length : ℕ → ℕ → ℕ
bit_length zero v = 0
bit_length (suc n) v = let rest = bit_length n (v / 2) in if v == 0 then 0 else suc rest

unfoldable pub extra_bytes : ℕ → ℕ
extra_bytes value = (bit_length 64 value - 1) / 7

-- The bits of the first byte that mark the length are above those of the value.
unfoldable pub encode_natural : ℕ → Bytes
encode_natural value =
    let extra = extra_bytes value in
    if ltb value (2 ^ 7)
    then value ∷ []
    else if ltb value (2 ^ 56)
    then ((256 - 2 ^ (8 - extra)) + value / 2 ^ (8 * extra)) ∷ le_bytes extra value
    else 0xff ∷ le_bytes 8 value

abbrev pub Read : Type 0 → Type 0
Read A = Bytes → Result CodecError (A × Bytes)

infixl 5 ◌>>=◌
abbrev pub ◌>>=◌ : {A B : Type 0} → Read A → (A → Read B) → Read B
◌>>=◌ m f s = elim (m s) [ ok (a, s') ↦ f a s' | err e ↦ err e ]

unfoldable pub pure : {A : Type 0} → A → Read A
pure a s = ok (a, s)

unfoldable pub fail : {A : Type 0} → CodecError → Read A
fail e s = err e

unfoldable pub take_bytes : ℕ → Read Bytes
take_bytes n s = if ltb (length s) n then err unexpected_eof else ok (take n s, drop n s)

unfoldable pub u8 : Read ℕ
u8 [] = err unexpected_eof
u8 (b ∷ s) = ok (b, s)

-- `u8::leading_ones`
unfoldable pub leading_ones : ℕ → ℕ
leading_ones b =
    if ltb b 0x80
    then 0
    else if ltb b 0xc0
    then 1
    else if ltb b 0xe0
    then 2
    else if ltb b 0xf0
    then 3
    else if ltb b 0xf8
    then 4
    else if ltb b 0xfc
    then 5
    else if ltb b 0xfe
    then 6
    else if ltb b 0xff
    then 7
    else 8

-- `natural` after its first byte, when `extra` bytes follow.
unfoldable pub natural_low : ℕ → ℕ → Read ℕ
natural_low first extra =
    take_bytes extra >>= λ low. pure (from_le low + first % 2 ^ (7 - extra) * 2 ^ (8 * extra))

unfoldable pub natural : Read ℕ
natural = u8 >>= λ first.
    let extra = leading_ones first in
    if ltb first 0x80
    then pure first
    else if extra == 8
    then (take_bytes 8 >>= λ low. pure (from_le low))
    else natural_low first extra
