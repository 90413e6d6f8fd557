-- ===== src/Tests/Faults.antt =====
-- A budget, and the record of a fault with its text.
use jam_script.Prelude.{◌≡◌, ◌≤◌, ◌↔◌, refl, some, Bytes, length, ok, bytes_eq, arith}
use jam_script.GuestMemory.Fault.{
  GuestFaultRecord, guest_fault_magic, validate, is_none, code_from, stage_from, is_power_below,
  encode, decode,
}
use jam_script.GuestMemory
use jam_script.GuestMemory.{GuestMemoryBudget}
use jam_script.GuestMemory.Laws.{IsBudget, IsFault, validate-IsBudget, decode-encode_fault}
use jam_script.GuestMemory.Log.{write_log_message, parts}
use jam_script.GuestMemory.Log.Text.{IsText, write_log_message_fits}

abbrev budget : GuestMemoryBudget
budget = record { heap_initial_bytes = 4096; heap_max_bytes = 8192 }

validate-IsBudget_example : (GuestMemory.validate budget ≡ ok budget) ↔ IsBudget budget
validate-IsBudget_example = validate-IsBudget budget

abbrev fault : GuestFaultRecord
fault = record {
  magic = guest_fault_magic;
  version = 1;
  record_length = 44;
  code = 1;
  stage = 2;
  requested_bytes = 5000;
  alignment = 8;
  heap_committed_bytes = 4096;
  heap_max_bytes = 8192;
  live_requested_bytes = 100;
  high_water_requested_bytes = 200;
  cumulative_requested_bytes = 300;
}

valid_fault : validate fault ≡ ok tt
unfolding validate bytes_eq is_none code_from stage_from is_power_below
valid_fault = refl

fault-IsFault : IsFault fault
fault-IsFault = record {
  valid = valid_fault;
  code = omega arith;
  stage = omega arith;
  requested_bytes = omega arith;
  alignment = omega arith;
  heap_committed_bytes = omega arith;
  heap_max_bytes = omega arith;
  live_requested_bytes = omega arith;
  high_water_requested_bytes = omega arith;
  cumulative_requested_bytes = omega arith;
}

decode-encode_fault_example : decode (encode fault) ≡ ok fault
decode-encode_fault_example = decode-encode_fault fault fault-IsFault

write_log_message_fits_example :
    (message : Bytes) × (write_log_message 256 fault ≡ some message)
    × IsText (parts fault) message
    × (length message ≤ 256)
write_log_message_fits_example =
    write_log_message_fits 256 fault
      (record {
        code = omega arith;
        stage = omega arith;
        requested_bytes = omega arith;
        alignment = omega arith;
        heap_committed_bytes = omega arith;
        heap_max_bytes = omega arith;
        live_requested_bytes = omega arith;
        high_water_requested_bytes = omega arith;
        cumulative_requested_bytes = omega arith;
      })
      (omega arith)
