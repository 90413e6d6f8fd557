-- ===== src/Codec.antt =====
-- crates/jamscript-codec/src/lib.rs: the typed codec of action inputs and state, over the types
-- `TypeIr` of crates/jamscript-ir/src/lib.rs.
pub mod Ir
pub mod Value
pub mod Natural
pub mod Encode
pub mod Returns
pub mod Parts
pub mod Arms
pub mod RoundTrip
pub mod Decode
