-- ===== src/Tests/Diffs.antt =====
-- A small diff, encoded and decoded.
use jam_script.Prelude.{
  ◌≡◌, refl, [], ◌∷◌, none, some, Bytes, ok, err, le_bytes, arith, bytes_lt, bytes_eq,
}
use jam_script.Wire.{duplicate_key}
use jam_script.Wire.Writer
use jam_script.Keys.{is_reserved_service_storage_key}
use jam_script.Entry.{
  insert_entry, sort_entries, check_order, write_value, write_entry, write_entries,
}
use jam_script.Diff.{
  StateDiff, check_changes, validate_limits, validate_canonical, canonicalize,
  encode_canonical_checked, encode, decode,
}
use jam_script.Diff.RoundTrip.{sorted_diff, decode-encode_diff, encode-decode_diff}

abbrev two_changes : StateDiff
two_changes = record {
  changes =
      record { key = 1 ∷ 9 ∷ []; value = none }
      ∷ record { key = 1 ∷ 2 ∷ []; value = some (7 ∷ []) }
      ∷ [];
}

abbrev two_changes_bytes : Bytes
two_changes_bytes =
    1 ∷ 2 ∷ 0 ∷ 0 ∷ 0 ∷ 2 ∷ 0 ∷ 0 ∷ 0 ∷ 1 ∷ 2 ∷ 1 ∷ 1 ∷ 0 ∷ 0 ∷ 0 ∷ 7 ∷ 2 ∷ 0 ∷ 0 ∷ 0 ∷ 1 ∷ 9 ∷ 0
    ∷ []

encode_two : encode two_changes ≡ ok two_changes_bytes
unfolding encode validate_limits check_changes is_reserved_service_storage_key bytes_eq canonicalize
    validate_canonical sort_entries insert_entry bytes_lt check_order encode_canonical_checked
    Writer.u32_len Writer.u32 write_entries write_entry write_value Writer.bytes_u32 le_bytes
encode_two = refl

encode_twice :
    encode (record {
      changes = record { key = 1 ∷ []; value = none } ∷ record { key = 1 ∷ []; value = none } ∷ [];
    })
    ≡ err duplicate_key
unfolding encode validate_limits check_changes is_reserved_service_storage_key bytes_eq canonicalize
    validate_canonical sort_entries insert_entry bytes_lt check_order
encode_twice = refl

decode-encode_diff_example : decode two_changes_bytes ≡ ok (sorted_diff two_changes)
decode-encode_diff_example = decode-encode_diff two_changes two_changes_bytes encode_two

encode-decode_diff_example : encode (sorted_diff two_changes) ≡ ok two_changes_bytes
encode-decode_diff_example =
    encode-decode_diff two_changes_bytes (sorted_diff two_changes) (omega arith)
      (decode-encode_diff two_changes two_changes_bytes encode_two)
