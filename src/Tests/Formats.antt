-- ===== src/Tests/Formats.antt =====
-- Small messages in each of the other formats.
use jam_script.Prelude.{
  ◌≡◌, refl, [], ◌∷◌, ◌++◌, none, some, Bytes, replicate, ok, le_bytes, from_le, arith, bytes_lt,
  bytes_eq,
}
use jam_script.Wire.Writer
use jam_script.KeyMap
use jam_script.Entry.{check_order, write_value, write_entry, write_entries}
use jam_script.Diff
use jam_script.View
use jam_script.View.{StateView}
use jam_script.View.Search.{get_canonical}
use jam_script.View.RoundTrip.{decode-encode_view, encode-decode_view}
use jam_script.Transition.{StateTransition}
use jam_script.Transition.RoundTrip.{IsTransition}
use jam_script.Metadata
use jam_script.Metadata.{BackendMetadata}
use jam_script.Metadata.RoundTrip.{IsMetadata}
use jam_script.Planner.{
  encode_planner_need_state, encode_planner_need_external_state, decode_planner_need_external_state,
}
use jam_script.Planner.RoundTrip.{decode_external-encode_state}

abbrev two_entries : StateView
two_entries = record {
  version = 1;
  entries =
      record { key = 1 ∷ 2 ∷ []; value = some (7 ∷ []) }
      ∷ record { key = 1 ∷ 9 ∷ []; value = none }
      ∷ [];
}

abbrev two_entries_bytes : Bytes
two_entries_bytes =
    1 ∷ 2 ∷ 0 ∷ 0 ∷ 0 ∷ 2 ∷ 0 ∷ 0 ∷ 0 ∷ 1 ∷ 2 ∷ 1 ∷ 1 ∷ 0 ∷ 0 ∷ 0 ∷ 7 ∷ 2 ∷ 0 ∷ 0 ∷ 0 ∷ 1 ∷ 9 ∷ 0
    ∷ []

valid_view : View.validate_canonical two_entries ≡ ok tt
unfolding View.validate_canonical View.check_entries Diff.value_too_long check_order bytes_eq
    bytes_lt
valid_view = refl

encode_view : View.encode two_entries ≡ ok two_entries_bytes
unfolding View.encode View.validate_canonical View.check_entries Diff.value_too_long check_order
    bytes_eq bytes_lt Writer.u32_len Writer.u32 write_entries write_entry write_value
    Writer.bytes_u32 le_bytes
encode_view = refl

decode-encode_view_example : View.decode two_entries_bytes ≡ ok two_entries
decode-encode_view_example = decode-encode_view two_entries two_entries_bytes encode_view

encode-decode_view_example : View.encode two_entries ≡ ok two_entries_bytes
encode-decode_view_example =
    encode-decode_view two_entries_bytes two_entries (omega arith)
      (decode-encode_view two_entries two_entries_bytes encode_view)

get_canonical_example :
    View.Search.get two_entries (1 ∷ 9 ∷ []) ≡ KeyMap.get (1 ∷ 9 ∷ []) two_entries.entries
get_canonical_example = get_canonical two_entries (1 ∷ 9 ∷ []) valid_view

abbrev root : Bytes
root = replicate 32 7

abbrev transition : StateTransition
transition = record { version = 1; parent_root = root; new_root = root; diff_hash = root }

transition-IsTransition : IsTransition transition
transition-IsTransition = record {
  version = refl;
  parent_root = refl;
  new_root = refl;
  diff_hash = refl;
}

abbrev metadata : BackendMetadata
metadata = record {
  service_key = root;
  abi_version = 3;
  planner_version = 1;
  managed_state_version = 1;
}

metadata-IsMetadata : IsMetadata metadata
metadata-IsMetadata = record {
  service_key = refl;
  abi_version = omega arith;
  planner_version = refl;
  managed_state_version = refl;
}

abbrev metadata_bytes : Bytes
metadata_bytes = 1 ∷ root ++ (3 ∷ 0 ∷ 0 ∷ 0 ∷ 1 ∷ 0 ∷ 0 ∷ 0 ∷ 1 ∷ 0 ∷ 0 ∷ 0 ∷ [])

decode-metadata : Metadata.decode metadata_bytes ≡ ok metadata
unfolding Metadata.decode Metadata.decode_key from_le
decode-metadata = refl

abbrev need_bytes : Bytes
need_bytes = 74 ∷ 83 ∷ 80 ∷ 49 ∷ 1 ∷ 2 ∷ 0 ∷ 0 ∷ 0 ∷ 1 ∷ 9 ∷ []

encode_need : encode_planner_need_state (1 ∷ 9 ∷ []) ≡ ok need_bytes
unfolding encode_planner_need_state Writer.u32_len le_bytes
encode_need = refl

decode_external-encode_state_example :
    ¬ (decode_planner_need_external_state need_bytes ≡ ok (5, 1 ∷ 9 ∷ []))
decode_external-encode_state_example =
    decode_external-encode_state (1 ∷ 9 ∷ []) need_bytes (5, 1 ∷ 9 ∷ []) encode_need

abbrev external_bytes : Bytes
external_bytes = 74 ∷ 83 ∷ 69 ∷ 49 ∷ 1 ∷ 5 ∷ 0 ∷ 0 ∷ 0 ∷ 1 ∷ 0 ∷ 0 ∷ 0 ∷ 9 ∷ []

encode_external : encode_planner_need_external_state 5 (9 ∷ []) ≡ ok external_bytes
unfolding encode_planner_need_external_state Writer.u32_len le_bytes
encode_external = refl
