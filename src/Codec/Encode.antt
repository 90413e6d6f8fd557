-- ===== src/Codec/Encode.antt =====
-- `encode` and `encode_into` of crates/jamscript-codec/src/lib.rs. What is appended to `out` is
-- returned; on an error `out` is dropped.
use jam_script.Prelude.{
  ℕ, suc, ◌-◌, ◌^◌, Bool, true, false, ◌==◌, ltb, not, Bytes, ◌++◌, [], ◌∷◌, le_bytes, Result, ok,
  err, ◌>>=◌, ◌>>◌, reject, map_err, if◌then◌else◌,
}
use jam_script.Prelude.{length, bytes_eq}
use jam_script.Keys.{codes}
use jam_script.Ownership
use jam_script.Ownership.{Ownership}
use jam_script.Codec.Ir.{
  TypeIr, Types, no_types, type_and, Fields, no_fields, field_and, Variants, no_variants,
  variant_and,
}
use jam_script.Codec.Value.{
  ℤ, pos, negsuc, Value, Values, no_values, value_and, Named, no_named, named_and, CodecError,
  type_mismatch, invalid_variant, invalid_length, out_of_range, bound_exceeded, unsupported_type,
}
use jam_script.Codec.Value
use jam_script.Codec.Natural.{encode_natural}

-- The `_` arm of the match.
abbrev pub mismatch {ℓ} : {A : Type ℓ} → Result CodecError A
mismatch = err (type_mismatch (codes "value"))

unfoldable pub push_unsigned : ℕ → ℕ → ℕ → Result CodecError Bytes
push_unsigned value max width =
    if ltb max value then err out_of_range else ok (le_bytes width value)

-- Two's complement in `width` bytes: the low bytes of the value of 128 bits.
unfoldable pub low_bytes : ℕ → ℤ → Bytes
low_bytes width (pos n) = le_bytes width n
low_bytes width (negsuc n) = le_bytes width (256 ^ width - 1 - n)

-- The bounds are -`half` and `half - 1`.
unfoldable pub is_outside : ℕ → ℤ → Bool
is_outside half (pos n) = not (ltb n half)
is_outside half (negsuc n) = not (ltb n half)

unfoldable pub push_signed : ℤ → ℕ → ℕ → Result CodecError Bytes
push_signed value half width =
    if is_outside half value then err out_of_range else ok (low_bytes width value)

-- The arms of the match take apart the values that they are for, and `_` has the others.
unfoldable pub as_unit : Value → Result CodecError (Unit {0})
as_unit Value.unit = ok tt
as_unit _ = mismatch

unfoldable pub as_bool : Value → Result CodecError Bool
as_bool (Value.bool b) = ok b
as_bool _ = mismatch

unfoldable pub as_unsigned : Value → Result CodecError ℕ
as_unsigned (Value.unsigned n) = ok n
as_unsigned _ = mismatch

unfoldable pub as_signed : Value → Result CodecError ℤ
as_signed (Value.signed z) = ok z
as_signed _ = mismatch

unfoldable pub as_bytes : Value → Result CodecError Bytes
as_bytes (Value.bytes b) = ok b
as_bytes _ = mismatch

unfoldable pub as_string : Value → Result CodecError Bytes
as_string (Value.string b) = ok b
as_string _ = mismatch

unfoldable pub as_ownership : Value → Result CodecError Ownership
as_ownership (Value.ownership o) = ok o
as_ownership _ = mismatch

unfoldable pub as_array : Value → Result CodecError Values
as_array (Value.array vs) = ok vs
as_array _ = mismatch

unfoldable pub as_tuple : Value → Result CodecError Values
as_tuple (Value.tuple vs) = ok vs
as_tuple _ = mismatch

unfoldable pub as_structure : Value → Result CodecError Named
as_structure (Value.structure ns) = ok ns
as_structure _ = mismatch

unfoldable pub as_enum : Value → Result CodecError (ℕ × Value)
as_enum (Value.enum i v) = ok (i, v)
as_enum _ = mismatch

unfoldable pub push_fixed : ℕ → Bytes → Result CodecError Bytes
push_fixed len b = if length b == len then ok b else err invalid_length

unfoldable pub push_bytes : ℕ → Bytes → Result CodecError Bytes
push_bytes max b =
    if ltb max (length b) then err bound_exceeded else ok (encode_natural (length b) ++ b)

unfoldable pub encode_each : (Value → Result CodecError Bytes) → Values → Result CodecError Bytes
encode_each item no_values = ok []
encode_each item (value_and v vs) = do a ← item v; b ← encode_each item vs; ok (a ++ b)

unfoldable pub encode_option : (Value → Result CodecError Bytes) → Value → Result CodecError Bytes
encode_option item Value.absent = ok (0 ∷ [])
encode_option item (Value.present v) = do b ← item v; ok (1 ∷ b)
encode_option item _ = mismatch

unfoldable pub encode_result :
    (Value → Result CodecError Bytes)
    → (Value → Result CodecError Bytes)
    → Value
    → Result CodecError Bytes
encode_result success failure (Value.success v) = do b ← success v; ok (0 ∷ b)
encode_result success failure (Value.failure v) = do b ← failure v; ok (1 ∷ b)
encode_result success failure _ = mismatch

unfoldable pub count_types : Types → ℕ
count_types no_types = 0
count_types (type_and t ts) = suc (count_types ts)

unfoldable pub count_fields : Fields → ℕ
count_fields no_fields = 0
count_fields (field_and name t fs) = suc (count_fields fs)

unfoldable pub count_named : Named → ℕ
count_named no_named = 0
count_named (named_and name v ns) = suc (count_named ns)

unfoldable mutual
  pub encode_into : TypeIr → Value → Result CodecError Bytes
  encode_into TypeIr.unit v = do as_unit v; ok []
  encode_into TypeIr.bool v = do b ← as_bool v; ok ((if b then 1 else 0) ∷ [])
  encode_into TypeIr.u8 v = do n ← as_unsigned v; push_unsigned n (2 ^ 8 - 1) 1
  encode_into TypeIr.u16 v = do n ← as_unsigned v; push_unsigned n (2 ^ 16 - 1) 2
  encode_into TypeIr.u32 v = do n ← as_unsigned v; push_unsigned n (2 ^ 32 - 1) 4
  encode_into TypeIr.u64 v = do n ← as_unsigned v; push_unsigned n (2 ^ 64 - 1) 8
  encode_into TypeIr.u128 v = do n ← as_unsigned v; push_unsigned n (2 ^ 128 - 1) 16
  encode_into TypeIr.i8 v = do z ← as_signed v; push_signed z (2 ^ 7) 1
  encode_into TypeIr.i16 v = do z ← as_signed v; push_signed z (2 ^ 15) 2
  encode_into TypeIr.i32 v = do z ← as_signed v; push_signed z (2 ^ 31) 4
  encode_into TypeIr.i64 v = do z ← as_signed v; push_signed z (2 ^ 63) 8
  encode_into TypeIr.i128 v = do z ← as_signed v; push_signed z (2 ^ 127) 16
  encode_into TypeIr.address v = do b ← as_bytes v; push_fixed 32 b
  encode_into TypeIr.ownership v = do
    o ← as_ownership v
    map_err (λ e. invalid_length) (Ownership.encode o)
  encode_into (TypeIr.fixed_bytes len) v = do b ← as_bytes v; push_fixed len b
  encode_into (TypeIr.bytes max) v = do b ← as_bytes v; push_bytes max b
  encode_into (TypeIr.string max) v = do b ← as_string v; push_bytes max b
  encode_into (TypeIr.fixed_array item len) v = do
    vs ← as_array v
    if Value.length vs == len then encode_each (encode_into item) vs else mismatch
  encode_into (TypeIr.array item max) v = do
    vs ← as_array v
    reject (ltb max (Value.length vs)) bound_exceeded
    b ← encode_each (encode_into item) vs
    ok (encode_natural (Value.length vs) ++ b)
  encode_into (TypeIr.option item) v = encode_option (encode_into item) v
  encode_into (TypeIr.tuple items) v = do
    vs ← as_tuple v
    if count_types items == Value.length vs then encode_items items vs else mismatch
  encode_into (TypeIr.structure fields) v = do
    ns ← as_structure v
    if count_fields fields == count_named ns then encode_fields fields ns else mismatch
  encode_into (TypeIr.enum variants) v = do
    (i, w) ← as_enum v
    b ← encode_variant i variants w
    ok (i ∷ b)
  encode_into (TypeIr.result success failure) v =
      encode_result (encode_into success) (encode_into failure) v
  encode_into (TypeIr.unsupported name) v = err unsupported_type

  pub encode_items : Types → Values → Result CodecError Bytes
  encode_items (type_and t ts) (value_and v vs) = do
    a ← encode_into t v
    b ← encode_items ts vs
    ok (a ++ b)
  encode_items _ _ = ok []

  pub encode_fields : Fields → Named → Result CodecError Bytes
  encode_fields (field_and name t fs) (named_and given v ns) = do
    reject (not (bytes_eq name given)) (type_mismatch (codes "record field order"))
    a ← encode_into t v
    b ← encode_fields fs ns
    ok (a ++ b)
  encode_fields _ _ = ok []

  -- The first variant with the index.
  pub encode_variant : ℕ → Variants → Value → Result CodecError Bytes
  encode_variant i no_variants v = err invalid_variant
  encode_variant i (variant_and name index t rest) v = elim (index == i) [
    | true ↦ encode_into t v
    | false ↦ encode_variant i rest v
  ]

unfoldable pub encode : TypeIr → Value → Result CodecError Bytes
encode t v = encode_into t v
