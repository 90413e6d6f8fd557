-- ===== src/Codec/Value.antt =====
-- `Value` and `CodecError` of crates/jamscript-codec/src/lib.rs.
use jam_script.Prelude.{
  ℕ, zero, suc, Bytes, Bool, true, false, ◌&&◌, ltb, leb, ◌==◌, [], ◌∷◌, Option, none, some,
  if◌then◌else◌,
}
use jam_script.Ownership.{Ownership}

-- `negsuc n` is -(n + 1).
pub data ℤ : Type 0 where
  pos negsuc : ℕ → ℤ

mutual
  pub data Value : Type 0 where
    unit : Value
    bool : Bool → Value
    unsigned : ℕ → Value
    signed : ℤ → Value
    bytes : Bytes → Value
    ownership : Ownership → Value
    -- the bytes of the string in UTF-8
    string : Bytes → Value
    array tuple : Values → Value
    structure : Named → Value
    absent : Value
    present : Value → Value
    enum : ℕ → Value → Value
    success failure : Value → Value

  -- `Vec<Value>`
  pub data Values : Type 0 where
    no_values : Values
    value_and : Value → Values → Values

  -- `Vec<(String, Value)>`
  pub data Named : Type 0 where
    no_named : Named
    named_and : Bytes → Value → Named → Named

unfoldable pub length : Values → ℕ
length no_values = 0
length (value_and v vs) = suc (length vs)

pub data CodecError : Type 0 where
  type_mismatch : Bytes → CodecError
  unexpected_eof trailing_bytes invalid_bool invalid_utf8 invalid_variant : CodecError
  invalid_length out_of_range bound_exceeded unsupported_type : CodecError

-- The first byte of a character in UTF-8: how many bytes follow, and the range of the first of them.
lead : ℕ → Option (ℕ × ℕ × ℕ)
lead b =
    if ltb b 0x80
    then some (0, 0, 0)
    else if ltb b 0xc2
    then none
    else if ltb b 0xe0
    then some (1, 0x80, 0xbf)
    else if b == 0xe0
    then some (2, 0xa0, 0xbf)
    else if b == 0xed
    then some (2, 0x80, 0x9f)
    else if ltb b 0xf0
    then some (2, 0x80, 0xbf)
    else if b == 0xf0
    then some (3, 0x90, 0xbf)
    else if ltb b 0xf4
    then some (3, 0x80, 0xbf)
    else if b == 0xf4
    then some (3, 0x80, 0x8f)
    else none

-- `String::from_utf8`, with the bytes of a character that are still to come.
unfoldable pub is_utf8_from : ℕ → ℕ → ℕ → Bytes → Bool
unfolding lead
is_utf8_from zero low high [] = true
is_utf8_from (suc n) low high [] = false
is_utf8_from zero low high (b ∷ bs) = elim (lead b) [
  | none ↦ false
  | some (n, l, h) ↦ is_utf8_from n l h bs
]
is_utf8_from (suc n) low high (b ∷ bs) = leb low b && leb b high && is_utf8_from n 0x80 0xbf bs

unfoldable pub is_utf8 : Bytes → Bool
is_utf8 bs = is_utf8_from 0 0 0 bs
