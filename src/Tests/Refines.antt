-- ===== src/Tests/Refines.antt =====
-- A refine output with two dependencies and two receipts.
use jam_script.Prelude.{
  ℕ, [], ◌∷◌, ◌++◌, ◌≡◌, ◌↔◌, ◌⊎◌, refl, List, none, some, Bytes, replicate, ok, err, from_le,
  bytes_eq,
}
use jam_script.Wire.{duplicate_service_id}
use jam_script.Wire.Reader
use jam_script.RefineOutput.{
  ExternalStateDependency, RefineOutput, applied, failed, check_recovery, insert_dependency,
  sort_dependencies, push_rest, push_all, canonicalize_dependencies,
}
use jam_script.RefineOutput.Read.{
  is_before, is_repeated, is_conflict, read_rest, decode_dependencies, read_validity, read_head,
  status_from, read_error_code, read_receipt, read_receipts, read_output, decode,
  decode_transition_header,
}
use jam_script.RefineOutput.Header.{header_of, decode_transition_header-decode}
use jam_script.RefineOutput.Dependencies.{In, IsIncreasing}
use jam_script.RefineOutput.Dependencies.Canonical.{IsConflict, canonicalize_dependencies_lem}
use jam_script.RefineOutput.Dependencies.Decoded.{IsPublished, decode-IsPublished}
use jam_script.Tests.Plans.{recovery_wire, decode-recovery}

abbrev root : Bytes
root = replicate 32 7

-- A hash function.
abbrev hash : Bytes → Bytes
hash bytes = root

abbrev dependency : ℕ → ExternalStateDependency
dependency n = record { service_id = n; state_root = root }

abbrev output : RefineOutput
output = record {
  version = 1;
  parent_root = root;
  new_root = root;
  external_dependencies = dependency 5 ∷ dependency 9 ∷ [];
  transition_valid_until = some 258;
  receipts =
      record { action_hash = root; status = applied; error_code = none }
      ∷ record { action_hash = root; status = failed; error_code = some 3 }
      ∷ [];
  recovery_commitment = root;
  recovery_payload = recovery_wire;
}

abbrev tail : Bytes
tail =
    2
    ∷ 0
    ∷ 0
    ∷ 0
    ∷ (root ++ 0 ∷ 0 ∷ (root ++ 1 ∷ 1 ∷ 3 ∷ 0 ∷ 0 ∷ 0 ∷ 22 ∷ 0 ∷ 0 ∷ 0 ∷ recovery_wire))

abbrev wire : Bytes
wire =
    1
    ∷ (root
        ++ (root
            ++ 2
              ∷ 0
              ∷ 0
              ∷ 0
              ∷ 5
              ∷ 0
              ∷ 0
              ∷ 0
              ∷ (root
                  ++ 9 ∷ 0 ∷ 0 ∷ 0 ∷ (root ++ 1 ∷ 2 ∷ 1 ∷ 0 ∷ 0 ∷ 0 ∷ 0 ∷ 0 ∷ 0 ∷ (root ++ tail)))))

decode-output : decode hash wire ≡ ok output
unfolding decode check_recovery bytes_eq Reader.run Reader.◌>>=◌ Reader.pure Reader.lift
    Reader.value Reader.new Reader.u8 Reader.u32 Reader.u64 Reader.array Reader.take_bytes
    Reader.bytes_limited Reader.repeat Reader.finish Reader.remaining from_le read_output
    read_receipts read_receipt read_error_code status_from read_head read_validity
    decode_dependencies read_rest is_before is_repeated is_conflict
decode-output = rw decode-recovery

decode_transition_header-decode_example : decode_transition_header wire ≡ ok (header_of output)
decode_transition_header-decode_example =
    decode_transition_header-decode hash wire output decode-output

decode-IsPublished_example : IsPublished hash output
decode-IsPublished_example = decode-IsPublished hash wire output decode-output

abbrev unsorted : List ExternalStateDependency
unsorted = dependency 9 ∷ dependency 5 ∷ dependency 9 ∷ []

canonicalize_unsorted : canonicalize_dependencies unsorted ≡ ok (dependency 5 ∷ dependency 9 ∷ [])
unfolding canonicalize_dependencies sort_dependencies insert_dependency push_all push_rest bytes_eq
canonicalize_unsorted = refl

conflicting :
    canonicalize_dependencies (dependency 9 ∷ record { service_id = 9; state_root = 1 ∷ [] } ∷ [])
    ≡ err duplicate_service_id
unfolding canonicalize_dependencies sort_dependencies insert_dependency push_all push_rest bytes_eq
conflicting = refl

canonicalize_dependencies_lem_example :
    ((out : List ExternalStateDependency) × (canonicalize_dependencies unsorted ≡ ok out)
      × IsIncreasing out
      × ((d : ExternalStateDependency) → In d unsorted ↔ In d out))
    ⊎ ((canonicalize_dependencies unsorted ≡ err duplicate_service_id) × IsConflict unsorted)
canonicalize_dependencies_lem_example = canonicalize_dependencies_lem unsorted
