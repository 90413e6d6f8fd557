-- ===== src/Wire.antt =====
-- crates/service-runtime-core/src/lib.rs: the wire formats' errors, limits and byte-level helpers
-- (`WireError`, the constants, `Writer` and `Reader`).
pub mod Limits
pub mod Writer
pub mod Reader

pub data WireError : Type 0 where
  invalid_length unexpected_eof invalid_encoding unsupported_version length_overflow : WireError
  duplicate_key unsorted_keys too_many_items reserved_key : WireError
  duplicate_service_id unsorted_dependencies : WireError
