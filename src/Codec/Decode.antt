-- ===== src/Codec/Decode.antt =====
-- `decode` and `decode_from` of crates/jamscript-codec/src/lib.rs.
use jam_script.Prelude.{
  ℕ, zero, suc, ◌+◌, ◌-◌, ◌^◌, true, false, ◌==◌, ltb, Bytes, [], ◌∷◌, from_le, take, Result, ok,
  err, if◌then◌else◌,
}
use jam_script.Ownership
use jam_script.Codec.Ir.{
  TypeIr, Types, no_types, type_and, Fields, no_fields, field_and, Variants, no_variants,
  variant_and,
}
use jam_script.Codec.Value.{
  ℤ, pos, negsuc, Value, Values, no_values, value_and, Named, no_named, named_and, CodecError,
  trailing_bytes, invalid_bool, invalid_utf8, invalid_variant, invalid_length, bound_exceeded,
  unsupported_type, is_utf8,
}
use jam_script.Codec.Natural.{Read, ◌>>=◌, pure, fail, take_bytes, u8, natural}

unfoldable pub read_unsigned : ℕ → Read Value
read_unsigned width = take_bytes width >>= λ b. pure (Value.unsigned (from_le b))

-- Two's complement in `width` bytes, of which `half` is the first negative pattern.
unfoldable pub to_signed : ℕ → ℕ → ℕ → ℤ
to_signed width half n = if ltb n half then pos n else negsuc (256 ^ width - 1 - n)

unfoldable pub read_signed : ℕ → ℕ → Read Value
read_signed width half =
    take_bytes width >>= λ b. pure (Value.signed (to_signed width half (from_le b)))

-- `Ownership::decode` of the bytes that were read.
unfoldable pub ownership_of : Bytes → Read Value
ownership_of b s = elim (Ownership.decode b) [
  | ok o ↦ ok (Value.ownership o, s)
  | err e ↦ err invalid_length
]

unfoldable pub read_ownership : Read Value
read_ownership s =
    (u8 >>= λ version. u8 >>= λ kind. take_bytes 2 >>= λ l.
    take_bytes (from_le l) >>= λ public. ownership_of (take (4 + from_le l) s))
      s

unfoldable pub read_bytes : ℕ → Read Bytes
read_bytes max = natural >>= λ len. if ltb max len then fail bound_exceeded else take_bytes len

unfoldable pub string_of : Bytes → Read Value
string_of b = if is_utf8 b then pure (Value.string b) else fail invalid_utf8

unfoldable pub bool_of : ℕ → Read Value
bool_of b =
    if b == 0
    then pure (Value.bool false)
    else if b == 1
    then pure (Value.bool true)
    else fail invalid_bool

-- `(0..n).map(|_| item()).collect()`
unfoldable pub repeat : ℕ → Read Value → Read Values
repeat zero item = pure no_values
repeat (suc n) item = item >>= λ v. repeat n item >>= λ vs. pure (value_and v vs)

unfoldable pub option_of : Read Value → ℕ → Read Value
option_of item tag =
    if tag == 0
    then pure Value.absent
    else if tag == 1
    then (item >>= λ v. pure (Value.present v))
    else fail invalid_variant

unfoldable pub result_of : Read Value → Read Value → ℕ → Read Value
result_of success failure tag =
    if tag == 0
    then (success >>= λ v. pure (Value.success v))
    else if tag == 1
    then (failure >>= λ v. pure (Value.failure v))
    else fail invalid_variant

unfoldable mutual
  pub decode_from : TypeIr → Read Value
  decode_from TypeIr.unit = pure Value.unit
  decode_from TypeIr.bool = u8 >>= bool_of
  decode_from TypeIr.u8 = u8 >>= λ n. pure (Value.unsigned n)
  decode_from TypeIr.u16 = read_unsigned 2
  decode_from TypeIr.u32 = read_unsigned 4
  decode_from TypeIr.u64 = read_unsigned 8
  decode_from TypeIr.u128 = read_unsigned 16
  decode_from TypeIr.i8 = read_signed 1 (2 ^ 7)
  decode_from TypeIr.i16 = read_signed 2 (2 ^ 15)
  decode_from TypeIr.i32 = read_signed 4 (2 ^ 31)
  decode_from TypeIr.i64 = read_signed 8 (2 ^ 63)
  decode_from TypeIr.i128 = read_signed 16 (2 ^ 127)
  decode_from TypeIr.address = take_bytes 32 >>= λ b. pure (Value.bytes b)
  decode_from TypeIr.ownership = read_ownership
  decode_from (TypeIr.fixed_bytes len) = take_bytes len >>= λ b. pure (Value.bytes b)
  decode_from (TypeIr.bytes max) = read_bytes max >>= λ b. pure (Value.bytes b)
  decode_from (TypeIr.string max) = read_bytes max >>= string_of
  decode_from (TypeIr.fixed_array item len) =
      repeat len (decode_from item) >>= λ vs. pure (Value.array vs)
  decode_from (TypeIr.array item max) = natural >>= λ len.
      if ltb max len
      then fail bound_exceeded
      else (repeat len (decode_from item) >>= λ vs. pure (Value.array vs))
  decode_from (TypeIr.option item) = u8 >>= option_of (decode_from item)
  decode_from (TypeIr.tuple items) = decode_items items >>= λ vs. pure (Value.tuple vs)
  decode_from (TypeIr.structure fields) = decode_fields fields >>= λ ns. pure (Value.structure ns)
  decode_from (TypeIr.enum variants) =
      u8 >>= λ i. decode_variant i variants >>= λ v. pure (Value.enum i v)
  decode_from (TypeIr.result success failure) =
      u8 >>= result_of (decode_from success) (decode_from failure)
  decode_from (TypeIr.unsupported name) = fail unsupported_type

  pub decode_items : Types → Read Values
  decode_items no_types = pure no_values
  decode_items (type_and t ts) =
      decode_from t >>= λ v. decode_items ts >>= λ vs. pure (value_and v vs)

  pub decode_fields : Fields → Read Named
  decode_fields no_fields = pure no_named
  decode_fields (field_and name t fs) =
      decode_from t >>= λ v. decode_fields fs >>= λ ns. pure (named_and name v ns)

  -- The first variant with the index.
  pub decode_variant : ℕ → Variants → Read Value
  decode_variant i no_variants = fail invalid_variant
  decode_variant i (variant_and name index t rest) =
      let later = decode_variant i rest in if index == i then decode_from t else later

-- The closing test for bytes that are left.
unfoldable pub whole : Result CodecError (Value × Bytes) → Result CodecError Value
whole (ok (v, [])) = ok v
whole (ok (v, b ∷ s)) = err trailing_bytes
whole (err e) = err e

unfoldable pub decode : TypeIr → Bytes → Result CodecError Value
unfolding whole
decode t bytes = whole (decode_from t bytes)
