-- ===== src/View/Read.antt =====
-- The reading loop of `StateViewV1::decode` of crates/service-runtime-core/src/lib.rs. The version that
-- it reads is the only one there is.
use jam_script.Prelude.{List, ltb, ◌==◌, if◌then◌else◌}
use jam_script.Wire.{unsupported_version, too_many_items}
use jam_script.Wire.Limits.{state_view_version, max_state_view_entries}
use jam_script.Wire.Reader.{Read, ◌>>=◌, fail, u8, u32, repeat}
use jam_script.Entry.{StateViewEntry}
use jam_script.Entry.Read.{read_entry}

unfoldable pub read_view : Read (List StateViewEntry)
read_view = do
  version ← u8
  if version == state_view_version
      then (do
        count ← u32
        if ltb max_state_view_entries count then fail too_many_items else repeat count read_entry)
      else fail unsupported_version
