-- ===== src/Entry/Read.antt =====
-- One entry as `StateDiffV1::decode` and `StateViewV1::decode` of
-- crates/service-runtime-core/src/lib.rs read it.
use jam_script.Prelude.{ℕ, Bytes, Option, none, some, ◌==◌, if◌then◌else◌}
use jam_script.Wire.{invalid_encoding}
use jam_script.Wire.Limits.{max_state_key_bytes, max_state_value_bytes}
use jam_script.Wire.Reader.{Read, ◌>>=◌, pure, fail, u8, bytes_limited}
use jam_script.Entry.{Entry}

unfoldable pub read_value : ℕ → Read (Option Bytes)
read_value tag =
    if tag == 0
    then pure none
    else if tag == 1
    then (do value ← bytes_limited max_state_value_bytes; pure (some value))
    else fail invalid_encoding

unfoldable pub read_entry : Read Entry
read_entry = do
  key ← bytes_limited max_state_key_bytes
  tag ← u8
  value ← read_value tag
  pure (record { key = key; value = value })
