-- ===== src/Diff.antt =====
-- `StateDiffV1` of crates/service-runtime-core/src/lib.rs: the ordered changes of one transition.
pub mod Read
pub mod Canonical
pub mod RoundTrip
use jam_script.Prelude.{
  ℕ, List, [], ◌∷◌, ◌++◌, Option, none, some, Bool, true, false, Bytes, length, ltb, ◌==◌, not,
  Result, ok, err, ◌>>=◌, ◌>>◌, reject, if◌then◌else◌,
}
use jam_script.Wire.{WireError, unsupported_version, too_many_items, reserved_key, unsorted_keys}
use jam_script.Wire.Limits.{
  managed_state_protocol_version, max_recovery_changes, max_state_key_bytes, max_state_value_bytes,
}
use jam_script.Wire.Writer
use jam_script.Wire.Reader
use jam_script.Keys.{is_reserved_service_storage_key}
use jam_script.Entry.{StateChange, sort_entries, check_order, write_entries, entries_eq}
use jam_script.Diff.Read.{read_changes}

pub record StateDiff : Type 0 where
  pub changes : List StateChange

unfoldable pub value_too_long : Option Bytes → Bool
value_too_long none = false
value_too_long (some value) = ltb max_state_value_bytes (length value)

unfoldable pub check_change : StateChange → Result WireError (Unit {0})
unfolding value_too_long
check_change change =
    if is_reserved_service_storage_key change.key
    then err reserved_key
    else if ltb max_state_key_bytes (length change.key)
    then err too_many_items
    else if value_too_long change.value
    then err too_many_items
    else ok tt

unfoldable pub check_changes : List StateChange → Result WireError (Unit {0})
unfolding check_change
check_changes [] = ok tt
check_changes (change ∷ rest) = check_change change >> check_changes rest

unfoldable pub validate_limits : StateDiff → Result WireError (Unit {0})
validate_limits diff = do
  reject (ltb max_recovery_changes (length diff.changes)) too_many_items
  check_changes diff.changes

unfoldable pub validate_canonical : StateDiff → Result WireError (Unit {0})
validate_canonical diff = do validate_limits diff; check_order diff.changes

-- The diff as the call leaves it.
unfoldable pub canonicalize : StateDiff → Result WireError StateDiff
canonicalize diff = do
  let sorted : StateDiff = record { changes = sort_entries diff.changes }
  validate_canonical sorted
  ok sorted

unfoldable pub encode_canonical_checked : StateDiff → Result WireError Bytes
encode_canonical_checked diff = do
  validate_canonical diff
  count ← Writer.u32_len (length diff.changes)
  entries ← write_entries diff.changes
  ok (managed_state_protocol_version ∷ Writer.u32 count ++ entries)

unfoldable pub encode : StateDiff → Result WireError Bytes
encode diff = do
  validate_limits diff
  canonical ← canonicalize diff
  encode_canonical_checked canonical

-- The tests of `decode` once the changes are read.
unfoldable pub check_decoded : StateDiff → Result WireError StateDiff
check_decoded diff = do
  validate_limits diff
  sorted ← canonicalize diff
  reject (not (entries_eq sorted.changes diff.changes)) unsorted_keys
  ok diff

unfoldable pub decode : Bytes → Result WireError StateDiff
decode bytes =
    Reader.run
      (Reader.◌>>=◌ read_changes λ changes.
        Reader.◌>>=◌ Reader.finish λ _. Reader.lift (check_decoded (record { changes = changes })))
      bytes
