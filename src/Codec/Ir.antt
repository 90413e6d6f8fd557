-- ===== src/Codec/Ir.antt =====
-- `TypeIr` of crates/jamscript-ir/src/lib.rs, with the vectors that it holds. A string is its bytes.
use jam_script.Prelude.{ℕ, Bytes}

mutual
  pub data TypeIr : Type 0 where
    unit u8 u16 u64 u32 u128 i8 i16 i32 i64 i128 bool address ownership : TypeIr
    fixed_bytes bytes string : ℕ → TypeIr
    fixed_array array : TypeIr → ℕ → TypeIr
    option : TypeIr → TypeIr
    tuple : Types → TypeIr
    structure : Fields → TypeIr
    enum : Variants → TypeIr
    result : TypeIr → TypeIr → TypeIr
    unsupported : Bytes → TypeIr

  -- `Vec<TypeIr>`
  pub data Types : Type 0 where
    no_types : Types
    type_and : TypeIr → Types → Types

  -- `Vec<FieldIr>`: the name and the type of each
  pub data Fields : Type 0 where
    no_fields : Fields
    field_and : Bytes → TypeIr → Fields → Fields

  -- `Vec<VariantIr>`: the name, the index and the type of each
  pub data Variants : Type 0 where
    no_variants : Variants
    variant_and : Bytes → ℕ → TypeIr → Variants → Variants
