-- ===== src/Diff/Read.antt =====
-- The reading loop of `StateDiffV1::decode`.
use jam_script.Prelude.{List, ltb, ◌==◌, if◌then◌else◌}
use jam_script.Wire.{unsupported_version, too_many_items}
use jam_script.Wire.Limits.{managed_state_protocol_version, max_recovery_changes}
use jam_script.Wire.Reader.{Read, ◌>>=◌, fail, u8, u32, repeat}
use jam_script.Entry.{StateChange}
use jam_script.Entry.Read.{read_entry}

unfoldable pub read_changes : Read (List StateChange)
read_changes = do
  version ← u8
  if version == managed_state_protocol_version
      then (do
        count ← u32
        if ltb max_recovery_changes count then fail too_many_items else repeat count read_entry)
      else fail unsupported_version
