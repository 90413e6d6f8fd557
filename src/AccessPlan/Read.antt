-- ===== src/AccessPlan/Read.antt =====
-- The reading loop of `StateAccessPlanV1::decode` of crates/service-runtime-core/src/lib.rs. The version
-- that it reads is the only one there is.
use jam_script.Prelude.{List, Bytes, ltb, ◌==◌, if◌then◌else◌}
use jam_script.Wire.{unsupported_version, too_many_items}
use jam_script.Wire.Limits.{
  managed_state_protocol_version, max_recovery_changes, max_state_key_bytes,
}
use jam_script.Wire.Reader.{Read, ◌>>=◌, fail, u8, u32, repeat, bytes_limited}

unfoldable pub read_keys : Read (List Bytes)
read_keys = do
  version ← u8
  if version == managed_state_protocol_version
      then (do
        count ← u32
        if ltb max_recovery_changes count
            then fail too_many_items
            else repeat count (bytes_limited max_state_key_bytes))
      else fail unsupported_version
