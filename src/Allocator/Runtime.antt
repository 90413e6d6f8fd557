-- ===== src/Allocator/Runtime.antt =====
-- The statics of guest_allocator.rs as one record, and the functions that keep the metrics and the
-- record of the fault.
use jam_script.Prelude.{
  ℕ, ◌+◌, ◌-◌, min, max, Bool, not, ltb, ◌==◌, Option, none, some, if◌then◌else◌, u32_max,
}
use jam_script.GuestMemory.{GuestMemoryBudget}
use jam_script.GuestMemory.Fault.{
  GuestFaultRecord, GuestFaultCode, heap_limit_exceeded, memory_allocation_failed, code_number,
}
use jam_script.Allocator.Layout.{Layout}
use jam_script.Allocator.Platform.{Platform}

-- `u32::saturating_add`
unfoldable pub saturating_add : ℕ → ℕ → ℕ
saturating_add a b = min (a + b) u32_max

-- A loop of the allocator that did not end within its fuel.
pub data Unfinished : Type 0 where
  out_of_fuel : Unfinished

-- The branch of `record_failure` that fills the record in.
unfoldable pub first_failure : GuestFaultRecord → GuestFaultCode → ℕ → ℕ → GuestFaultRecord
first_failure r code requested_bytes alignment =
    if r.code == 0
    then record r {
      code = code_number code;
      requested_bytes = min requested_bytes u32_max;
      alignment = min alignment u32_max;
    }
    else r

-- The size that a layout asks for, as a `u32`.
unfoldable pub request_of : Option Layout → ℕ
request_of none = 0
request_of (some layout) = min layout.size u32_max

module _ (p : Platform) where
  pub record Runtime : Type 0 where
    pub memory_budget : GuestMemoryBudget
    pub heap_base : ℕ
    pub heap_committed_bytes : ℕ
    pub runtime_initialized : Bool
    pub live_bytes : ℕ
    pub high_water_bytes : ℕ
    pub cumulative_bytes : ℕ
    pub fault_record : GuestFaultRecord
    pub heap : p.Heap
    pub machine : p.Machine
    -- the byte at each address
    pub memory : ℕ → ℕ

  unfoldable pub update_fault_metrics : Runtime → Runtime
  update_fault_metrics s = record s {
    fault_record = record s.fault_record {
      heap_committed_bytes = s.heap_committed_bytes;
      heap_max_bytes = s.memory_budget.heap_max_bytes;
      live_requested_bytes = s.live_bytes;
      high_water_requested_bytes = s.high_water_bytes;
      cumulative_requested_bytes = s.cumulative_bytes;
    };
  }

  unfoldable pub has_fault : Runtime → Bool
  has_fault s = not (s.fault_record.code == 0)

  unfoldable pub record_failure : Runtime → GuestFaultCode → ℕ → ℕ → Runtime
  unfolding first_failure update_fault_metrics
  record_failure s code requested_bytes alignment =
      update_fault_metrics
        (record s { fault_record = first_failure s.fault_record code requested_bytes alignment })

  unfoldable pub update_failure_request : Runtime → ℕ → ℕ → Runtime
  unfolding update_fault_metrics
  update_failure_request s requested_bytes alignment = update_fault_metrics (record s {
    fault_record = record s.fault_record {
      requested_bytes = min requested_bytes u32_max;
      alignment = min alignment u32_max;
    };
  })

  unfoldable pub record_allocation : Runtime → ℕ → Runtime
  unfolding update_fault_metrics saturating_add
  record_allocation s bytes =
      let live = saturating_add s.live_bytes (min bytes u32_max) in
      update_fault_metrics (record s {
        live_bytes = live;
        high_water_bytes = max s.high_water_bytes live;
        cumulative_bytes = saturating_add s.cumulative_bytes (min bytes u32_max);
      })

  unfoldable pub record_deallocation : Runtime → ℕ → Runtime
  unfolding update_fault_metrics
  record_deallocation s bytes =
      update_fault_metrics (record s { live_bytes = s.live_bytes - min bytes u32_max })

  unfoldable pub classify_budget_exhaustion : Runtime → Option Layout → ℕ → GuestFaultCode
  unfolding request_of saturating_add
  classify_budget_exhaustion s layout heap_max =
      if ltb heap_max (request_of layout)
      then heap_limit_exceeded
      else if ltb heap_max (saturating_add s.live_bytes (request_of layout))
      then heap_limit_exceeded
      else memory_allocation_failed
