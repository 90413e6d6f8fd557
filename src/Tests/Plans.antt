-- ===== src/Tests/Plans.antt =====
-- An access plan, a recovery and a result.
use jam_script.Prelude.{
  replicate, ◌++◌, ◌≡◌, refl, subst, [], ◌∷◌, some, Bytes, ok, le_bytes, arith, bytes_lt, bytes_eq,
}
use jam_script.Wire.Writer
use jam_script.Keys.{wallet_nonce_key, runtime_internal_key, is_reserved_service_storage_key}
use jam_script.Entry.{
  insert_entry, sort_entries, check_order, write_value, write_entry, write_entries,
}
use jam_script.Diff
use jam_script.Diff.{StateDiff}
use jam_script.Diff.Canonical.{IsCanonical}
use jam_script.AccessPlan
use jam_script.AccessPlan.{StateAccessPlan}
use jam_script.AccessPlan.Order.{contains}
use jam_script.AccessPlan.Made.{IsPlan, from_keys_lem}
use jam_script.AccessPlan.RoundTrip.{decode-encode_plan, encode-decode-IsPlan}
use jam_script.Recovery
use jam_script.Recovery.{StateRecovery}
use jam_script.Recovery.RoundTrip.{decode-encode_recovery, encode-decode_recovery}
use jam_script.RecoveryRecord
use jam_script.RecoveryRecord.{RecoveryRecord}
use jam_script.RecoveryRecord.RoundTrip.{IsRecord, decode-encode_record, encode-decode-IsRecord}
use jam_script.ActionResult
use jam_script.ActionResult.{ScriptActionResult, abort, applied}
use jam_script.ActionResult.Encoded.{IsResult}
use jam_script.ActionResult.RoundTrip.{decode-encode_result, encode-decode-IsResult}

abbrev plan : StateAccessPlan
plan = record { version = 1; keys = (1 ∷ 2 ∷ []) ∷ (1 ∷ 9 ∷ []) ∷ [] }

plan_keys : AccessPlan.from_keys ((1 ∷ 9 ∷ []) ∷ (1 ∷ 2 ∷ []) ∷ (1 ∷ 9 ∷ []) ∷ []) ≡ ok plan
unfolding AccessPlan.from_keys AccessPlan.dedup AccessPlan.dedup_from AccessPlan.sort_keys
    AccessPlan.insert_key AccessPlan.any_too_long bytes_lt bytes_eq
plan_keys = refl

from_keys_lem_example :
    IsPlan plan
    × ((k : Bytes)
        → contains k plan.keys ≡ contains k ((1 ∷ 9 ∷ []) ∷ (1 ∷ 2 ∷ []) ∷ (1 ∷ 9 ∷ []) ∷ []))
from_keys_lem_example =
    from_keys_lem ((1 ∷ 9 ∷ []) ∷ (1 ∷ 2 ∷ []) ∷ (1 ∷ 9 ∷ []) ∷ []) plan plan_keys

decode-encode_plan_example :
    (bytes : Bytes) × (AccessPlan.encode plan ≡ ok bytes) × (AccessPlan.decode bytes ≡ ok plan)
decode-encode_plan_example =
    decode-encode_plan ((1 ∷ 9 ∷ []) ∷ (1 ∷ 2 ∷ []) ∷ (1 ∷ 9 ∷ []) ∷ []) plan plan_keys

abbrev plan_wire : Bytes
plan_wire = 1 ∷ 2 ∷ 0 ∷ 0 ∷ 0 ∷ 2 ∷ 0 ∷ 0 ∷ 0 ∷ 1 ∷ 2 ∷ 2 ∷ 0 ∷ 0 ∷ 0 ∷ 1 ∷ 9 ∷ []

encode-plan : AccessPlan.encode plan ≡ ok plan_wire
unfolding AccessPlan.encode AccessPlan.write_keys Writer.u32 Writer.bytes_u32 Writer.u32_len
    le_bytes
encode-plan = refl

decode-plan : AccessPlan.decode plan_wire ≡ ok plan
decode-plan =
    let same : (decode-encode_plan ((1 ∷ 9 ∷ []) ∷ (1 ∷ 2 ∷ []) ∷ (1 ∷ 9 ∷ []) ∷ []) plan
          plan_keys).0
        ≡ plan_wire =
      cc (
        (decode-encode_plan ((1 ∷ 9 ∷ []) ∷ (1 ∷ 2 ∷ []) ∷ (1 ∷ 9 ∷ []) ∷ []) plan plan_keys).1,
        encode-plan,
      ) in
    subst (λ (b : Bytes). AccessPlan.decode b ≡ ok plan) same
      (decode-encode_plan ((1 ∷ 9 ∷ []) ∷ (1 ∷ 2 ∷ []) ∷ (1 ∷ 9 ∷ []) ∷ []) plan plan_keys).2

encode-decode-IsPlan_example : (AccessPlan.encode plan ≡ ok plan_wire) × IsPlan plan
encode-decode-IsPlan_example = encode-decode-IsPlan plan_wire plan (omega arith) decode-plan

abbrev wallet_plan : StateAccessPlan
wallet_plan = record { version = 1; keys = (0 ∷ 1 ∷ 4 ∷ []) ∷ (1 ∷ 9 ∷ []) ∷ [] }

wallet_keys : AccessPlan.for_wallet (4 ∷ []) ((1 ∷ 9 ∷ []) ∷ []) ≡ ok wallet_plan
unfolding AccessPlan.for_wallet wallet_nonce_key runtime_internal_key AccessPlan.from_keys
    AccessPlan.dedup AccessPlan.dedup_from AccessPlan.sort_keys AccessPlan.insert_key
    AccessPlan.any_too_long bytes_lt bytes_eq
wallet_keys = refl

abbrev pub one_change : StateDiff
one_change = record { changes = record { key = 1 ∷ 2 ∷ []; value = some (7 ∷ []) } ∷ [] }

abbrev pub recovery : StateRecovery
recovery = record { version = 1; diff = one_change }

abbrev pub recovery_wire : Bytes
recovery_wire =
    1 ∷ 17 ∷ 0 ∷ 0 ∷ 0 ∷ 1 ∷ 1 ∷ 0 ∷ 0 ∷ 0 ∷ 2 ∷ 0 ∷ 0 ∷ 0 ∷ 1 ∷ 2 ∷ 1 ∷ 1 ∷ 0 ∷ 0 ∷ 0 ∷ 7 ∷ []

encode-recovery : Recovery.encode recovery ≡ ok recovery_wire
unfolding Recovery.encode Diff.encode_canonical_checked Diff.validate_canonical Diff.validate_limits
    Diff.check_changes is_reserved_service_storage_key bytes_eq bytes_lt check_order Writer.u32_len
    Writer.u32 write_entries write_entry write_value Writer.bytes_u32 le_bytes
encode-recovery = refl

pub decode-recovery : Recovery.decode recovery_wire ≡ ok recovery
decode-recovery = decode-encode_recovery recovery recovery_wire encode-recovery

encode-decode_recovery_example :
    (Recovery.encode recovery ≡ ok recovery_wire) × IsCanonical one_change
encode-decode_recovery_example =
    encode-decode_recovery recovery_wire recovery (omega arith)
      (decode-encode_recovery recovery recovery_wire encode-recovery)

abbrev result_wire : Bytes
result_wire =
    1 ∷ 0 ∷ 17 ∷ 0 ∷ 0 ∷ 0 ∷ 1 ∷ 1 ∷ 0 ∷ 0 ∷ 0 ∷ 2 ∷ 0 ∷ 0 ∷ 0 ∷ 1 ∷ 2 ∷ 1 ∷ 1 ∷ 0 ∷ 0 ∷ 0 ∷ 7 ∷ []

encode_result : ActionResult.encode (applied one_change) ≡ ok result_wire
unfolding ActionResult.encode ActionResult.encode_body ActionResult.validate_application_diff
    ActionResult.any_foreign ActionResult.is_foreign Diff.encode Diff.canonicalize sort_entries
    insert_entry Diff.encode_canonical_checked Diff.validate_canonical Diff.validate_limits
    Diff.check_changes is_reserved_service_storage_key bytes_eq bytes_lt check_order Writer.u32_len
    Writer.u32 write_entries write_entry write_value Writer.bytes_u32 le_bytes
encode_result = refl

decode-encode_result_example : ActionResult.decode result_wire ≡ ok (applied one_change)
decode-encode_result_example =
    decode-encode_result (applied one_change) result_wire tt encode_result

encode-decode-IsResult_example :
    (ActionResult.encode (applied one_change) ≡ ok result_wire) × IsResult (applied one_change)
encode-decode-IsResult_example =
    encode-decode-IsResult result_wire (applied one_change) (omega arith)
      (decode-encode_result (applied one_change) result_wire tt encode_result)

abbrev root : Bytes
root = replicate 32 7

abbrev recorded : RecoveryRecord
recorded = record {
  version = 1;
  service_key = root;
  parent_root = root;
  new_root = root;
  code_hash = root;
  state_delta = one_change;
}

recorded-IsRecord : IsRecord recorded
recorded-IsRecord = record {
  version = refl;
  service_key = refl;
  parent_root = refl;
  new_root = refl;
  code_hash = refl;
  canonical =
      (encode-decode_recovery recovery_wire recovery (omega arith)
        (decode-encode_recovery recovery recovery_wire encode-recovery)).1;
}

abbrev recorded_wire : Bytes
recorded_wire =
    1
    ∷ (root
        ++ (root
            ++ (root
                ++ (root
                    ++ (17 ∷ 0 ∷ 0 ∷ 0 ∷ 1 ∷ 1 ∷ 0 ∷ 0 ∷ 0 ∷ 2 ∷ 0 ∷ 0 ∷ 0 ∷ 1 ∷ 2 ∷ 1 ∷ 1 ∷ 0 ∷ 0
                        ∷ 0 ∷ 7 ∷ [])))))

encode-recorded : RecoveryRecord.encode recorded ≡ ok recorded_wire
unfolding RecoveryRecord.encode Diff.encode Diff.canonicalize sort_entries insert_entry
    Diff.encode_canonical_checked Diff.validate_canonical Diff.validate_limits Diff.check_changes
    is_reserved_service_storage_key bytes_eq bytes_lt check_order Writer.u32_len Writer.u32
    write_entries write_entry write_value Writer.bytes_u32 le_bytes
encode-recorded = refl

decode-recorded : RecoveryRecord.decode recorded_wire ≡ ok recorded
decode-recorded =
    let same : (decode-encode_record recorded recorded-IsRecord).0 ≡ recorded_wire =
      cc ((decode-encode_record recorded recorded-IsRecord).1, encode-recorded) in
    subst (λ (b : Bytes). RecoveryRecord.decode b ≡ ok recorded) same
      (decode-encode_record recorded recorded-IsRecord).2

encode-decode-IsRecord_example :
    (RecoveryRecord.encode recorded ≡ ok recorded_wire) × IsRecord recorded
encode-decode-IsRecord_example =
    encode-decode-IsRecord recorded_wire recorded (omega arith) decode-recorded
