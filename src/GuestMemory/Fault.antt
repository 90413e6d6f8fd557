-- ===== src/GuestMemory/Fault.antt =====
-- `GuestFaultRecordV1` of crates/service-runtime-core/src/guest_memory.rs, with its codes and stages.
use jam_script.Prelude.{
  ℕ, zero, suc, ◌^◌, ◌++◌, Bytes, bytes_eq, le_bytes, from_le, length, take, drop, Bool, true,
  false, ◌||◌, ◌&&◌, ltb, ◌==◌, not, Option, none, some, Result, ok, ◌>>◌, reject, if◌then◌else◌,
}
use jam_script.Keys.{codes}
use jam_script.GuestMemory.{guest_heap_platform_max_bytes}

abbrev pub guest_fault_magic : Bytes
guest_fault_magic = codes "JSGF"

abbrev pub guest_fault_record_version : ℕ
guest_fault_record_version = 1

abbrev pub guest_fault_record_len : ℕ
guest_fault_record_len = 44

pub data GuestFaultCode : Type 0 where
  heap_limit_exceeded memory_grow_failed memory_allocation_failed : GuestFaultCode
  panic memory_config_invalid abort : GuestFaultCode

-- `GuestFaultCodeV1::from_u32`
unfoldable pub code_from : ℕ → Option GuestFaultCode
code_from value =
    if value == 1
    then some heap_limit_exceeded
    else if value == 2
    then some memory_grow_failed
    else if value == 3
    then some memory_allocation_failed
    else if value == 4
    then some panic
    else if value == 5
    then some memory_config_invalid
    else if value == 6
    then some abort
    else none

-- `code as u32`
unfoldable pub code_number : GuestFaultCode → ℕ
code_number heap_limit_exceeded = 1
code_number memory_grow_failed = 2
code_number memory_allocation_failed = 3
code_number panic = 4
code_number memory_config_invalid = 5
code_number abort = 6

pub data GuestFaultStage : Type 0 where
  invocation plan refine : GuestFaultStage

-- `stage as u32`
unfoldable pub stage_number : GuestFaultStage → ℕ
stage_number invocation = 0
stage_number plan = 1
stage_number refine = 2

-- `GuestFaultStageV1::from_u32`
unfoldable pub stage_from : ℕ → Option GuestFaultStage
stage_from value =
    if value == 0
    then some invocation
    else if value == 1
    then some plan
    else if value == 2
    then some refine
    else none

pub data GuestFaultRecordError : Type 0 where
  invalid_length unsupported_version unknown_code unknown_stage invalid_alignment :
      ℕ → GuestFaultRecordError
  invalid_magic inconsistent_fields : GuestFaultRecordError

pub record GuestFaultRecord : Type 0 where
  pub magic : Bytes
  pub version : ℕ
  pub record_length : ℕ
  pub code : ℕ
  pub stage : ℕ
  pub requested_bytes : ℕ
  pub alignment : ℕ
  pub heap_committed_bytes : ℕ
  pub heap_max_bytes : ℕ
  pub live_requested_bytes : ℕ
  pub high_water_requested_bytes : ℕ
  pub cumulative_requested_bytes : ℕ

-- `GuestFaultRecordV1::EMPTY`
abbrev pub empty : GuestFaultRecord
empty = record {
  magic = guest_fault_magic;
  version = guest_fault_record_version;
  record_length = guest_fault_record_len;
  code = 0;
  stage = 0;
  requested_bytes = 0;
  alignment = 0;
  heap_committed_bytes = 0;
  heap_max_bytes = 0;
  live_requested_bytes = 0;
  high_water_requested_bytes = 0;
  cumulative_requested_bytes = 0;
}

unfoldable pub is_none {ℓ} : {A : Type ℓ} → Option A → Bool
is_none none = true
is_none (some a) = false

-- `u32::is_power_of_two`: one of the first `n` powers.
unfoldable pub is_power_below : ℕ → ℕ → Bool
is_power_below zero v = false
is_power_below (suc n) v = v == 2 ^ n || is_power_below n v

unfoldable pub validate : GuestFaultRecord → Result GuestFaultRecordError (Unit {0})
validate r = do
  reject (not (bytes_eq r.magic guest_fault_magic)) invalid_magic
  reject (not (r.version == guest_fault_record_version)) (unsupported_version r.version)
  reject (not (r.record_length == guest_fault_record_len)) (invalid_length r.record_length)
  reject (not (r.code == 0) && is_none (code_from r.code)) (unknown_code r.code)
  reject (is_none (stage_from r.stage)) (unknown_stage r.stage)
  reject
      (ltb r.heap_max_bytes r.heap_committed_bytes
        || ltb guest_heap_platform_max_bytes r.heap_max_bytes
        || ltb r.high_water_requested_bytes r.live_requested_bytes
        || ltb r.cumulative_requested_bytes r.high_water_requested_bytes)
      inconsistent_fields
  reject (not (r.alignment == 0) && not (is_power_below 32 r.alignment))
      (invalid_alignment r.alignment)

unfoldable pub encode : GuestFaultRecord → Bytes
encode r =
    r.magic
    ++ (le_bytes 2 r.version
        ++ (le_bytes 2 r.record_length
            ++ (le_bytes 4 r.code
                ++ (le_bytes 4 r.stage
                    ++ (le_bytes 4 r.requested_bytes
                        ++ (le_bytes 4 r.alignment
                            ++ (le_bytes 4 r.heap_committed_bytes
                                ++ (le_bytes 4 r.heap_max_bytes
                                    ++ (le_bytes 4 r.live_requested_bytes
                                        ++ (le_bytes 4 r.high_water_requested_bytes
                                            ++ le_bytes 4 r.cumulative_requested_bytes))))))))))

-- The bytes `start..start + width` as a number.
unfoldable pub number_at : ℕ → ℕ → Bytes → ℕ
number_at start width input = from_le (take width (drop start input))

unfoldable pub read_fields : Bytes → GuestFaultRecord
read_fields input = record {
  magic = take 4 input;
  version = number_at 4 2 input;
  record_length = number_at 6 2 input;
  code = number_at 8 4 input;
  stage = number_at 12 4 input;
  requested_bytes = number_at 16 4 input;
  alignment = number_at 20 4 input;
  heap_committed_bytes = number_at 24 4 input;
  heap_max_bytes = number_at 28 4 input;
  live_requested_bytes = number_at 32 4 input;
  high_water_requested_bytes = number_at 36 4 input;
  cumulative_requested_bytes = number_at 40 4 input;
}

unfoldable pub decode : Bytes → Result GuestFaultRecordError GuestFaultRecord
decode input =
    let r = read_fields input in
    do
      reject (not (length input == guest_fault_record_len)) (invalid_length (length input))
      reject (not (bytes_eq r.magic guest_fault_magic)) invalid_magic
      reject (not (r.version == guest_fault_record_version)) (unsupported_version r.version)
      reject (not (r.record_length == guest_fault_record_len)) (invalid_length r.record_length)
      validate r
      ok r
