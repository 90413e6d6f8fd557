-- ===== src/Allocator/Growth.antt =====
-- `grow_heap`, `allocate_with_growth` and `reset_runtime` of guest_allocator.rs.
use jam_script.Prelude.{
  ℕ, zero, suc, ◌+◌, ◌-◌, ◌*◌, ◌/◌, ◌%◌, min, max, Bool, true, false, not, ◌||◌, ltb, leb, ◌==◌,
  Option, none, some, Result, ok, err, ◌>>=◌, ◌>>◌, ok_or, reject, if◌then◌else◌, u32_max,
}
use jam_script.GuestMemory.{
  GuestMemoryBudget, guest_memory_page_bytes, guest_heap_platform_max_bytes,
}
use jam_script.GuestMemory
use jam_script.GuestMemory.Fault.{
  GuestFaultRecord, GuestFaultCode, GuestFaultStage, heap_limit_exceeded, memory_grow_failed,
  memory_allocation_failed, memory_config_invalid, stage_number,
}
use jam_script.GuestMemory.Fault
use jam_script.Allocator.Layout.{Layout, next_power_of_two, checked_add}
use jam_script.Allocator.Platform.{Platform}
use jam_script.Allocator.Runtime.{
  Runtime, Unfinished, out_of_fuel, update_fault_metrics, record_failure,
  classify_budget_exhaustion,
}

-- The block of the heap that holds a layout, at least a `usize`.
unfoldable pub requested_block : Layout → Option ℕ
requested_block layout = next_power_of_two (max layout.size (max layout.align 8))

-- What is asked of the machine: enough to reach the next aligned block, and that block.
unfoldable pub required_growth : ℕ → ℕ → ℕ → Option Layout → Result GuestFaultCode ℕ
required_growth current heap_max minimum none = ok minimum
required_growth current heap_max minimum (some layout) = do
  block ← ok_or (requested_block layout) memory_allocation_failed
  reject (ltb heap_max block) heap_limit_exceeded
  ok_or (checked_add ((block - current % block) % block) (max block guest_memory_page_bytes))
      memory_grow_failed

unfoldable pub is_valid_budget : GuestMemoryBudget → Bool
is_valid_budget budget = elim (GuestMemory.validate budget) [ ok _ ↦ true | err _ ↦ false ]

module _ (p : Platform) where
  -- `grow_heap` up to the call of `sbrk`: by how much to grow.
  unfoldable pub planned_growth : Runtime p → ℕ → Option Layout → Result GuestFaultCode ℕ
  planned_growth s minimum failed =
      let heap_max = s.memory_budget.heap_max_bytes in
      let remaining = heap_max - s.heap_committed_bytes in
      let current = p.program_break s.machine in
      let exhausted = classify_budget_exhaustion p s failed heap_max in
      do
        reject (remaining == 0) exhausted
        required ← required_growth current heap_max minimum failed
        padded ← ok_or (checked_add required (guest_memory_page_bytes - 1)) memory_allocation_failed
        let growth = min (padded / guest_memory_page_bytes * guest_memory_page_bytes) remaining
        reject (growth == 0) exhausted
        expected ← ok_or (checked_add s.heap_base s.heap_committed_bytes) memory_grow_failed
        reject (not (current == expected)) memory_grow_failed
        end ← ok_or (checked_add current growth) memory_grow_failed
        reject (ltb u32_max end || ltb u32_max growth) memory_grow_failed
        ok growth

  -- `grow_heap` after the call of `sbrk` returned `pointer` and left `machine`.
  unfoldable pub commit_growth :
      Runtime p → ℕ → ℕ → p.Machine → Runtime p × Result GuestFaultCode (Unit {0})
  commit_growth s growth pointer machine =
      let current = p.program_break s.machine in
      let added = p.add_to_heap s.heap s.memory current (current + growth) in
      let grown = record s { heap = added.0; memory = added.1; machine = machine } in
      if pointer == 0
      then (record s { machine = machine }, err memory_grow_failed)
      else if ltb u32_max (s.heap_committed_bytes + growth)
      then (grown, err memory_grow_failed)
      else (
        update_fault_metrics p
            (record grown { heap_committed_bytes = s.heap_committed_bytes + growth }),
        ok tt,
      )

  unfoldable pub grow_heap :
      Runtime p → ℕ → Option Layout → Runtime p × Result GuestFaultCode (Unit {0})
  grow_heap s minimum failed = elim (planned_growth s minimum failed) [
    | err e ↦ (s, err e)
    | ok growth ↦ commit_growth s growth (p.sbrk s.machine growth).0 (p.sbrk s.machine growth).1
  ]

  -- The loop of `allocate_with_growth`.
  unfoldable pub retry_alloc :
      ℕ → Runtime p → Layout → Result Unfinished (Runtime p × Result GuestFaultCode ℕ)
  retry_alloc zero s layout = err out_of_fuel
  retry_alloc (suc fuel) s layout =
      let grown = grow_heap s 0 (some layout) in
      elim (p.heap_alloc s.heap s.memory layout) [
        | some (pointer, heap, memory) ↦ ok (record s { heap = heap; memory = memory }, ok pointer)
        | none ↦ elim grown.1 [
          | err e ↦ ok (grown.0, err e)
          | ok _ ↦ retry_alloc fuel grown.0 layout
        ]
      ]

  -- Every round but the last adds a page, or all that the budget leaves.
  unfoldable pub growth_rounds : Runtime p → ℕ
  growth_rounds s = s.memory_budget.heap_max_bytes / guest_memory_page_bytes + 2

  unfoldable pub allocate_with_growth :
      Runtime p → Layout → Result Unfinished (Runtime p × Result GuestFaultCode ℕ)
  allocate_with_growth s layout = elim (requested_block layout) [
    | none ↦ ok (s, err heap_limit_exceeded)
    | some block ↦
        if ltb s.memory_budget.heap_max_bytes block
        then ok (s, err heap_limit_exceeded)
        else retry_alloc (growth_rounds s) s layout
  ]

  -- The assignments at the start of `reset_runtime`.
  unfoldable pub cleared : Runtime p → GuestMemoryBudget → GuestFaultStage → Runtime p
  cleared s budget stage = record s {
    fault_record = record Fault.empty {
      heap_max_bytes = budget.heap_max_bytes;
      stage = stage_number stage;
    };
    memory_budget = budget;
    heap_base = 0;
    heap_committed_bytes = 0;
    runtime_initialized = false;
    live_bytes = 0;
    high_water_bytes = 0;
    cumulative_bytes = 0;
  }

  -- The heap over what the machine has committed before the guest starts.
  unfoldable pub with_existing : Runtime p → ℕ → Runtime p
  with_existing s existing =
      let base = p.heap_base s.machine in
      let added = p.add_to_heap p.empty_heap s.memory base (p.program_break s.machine) in
      record s {
        heap_base = base;
        heap_committed_bytes = existing;
        runtime_initialized = true;
        heap = if existing == 0 then p.empty_heap else added.0;
        memory = if existing == 0 then s.memory else added.1;
      }

  -- The end of `reset_runtime`: growth to the initial size.
  unfoldable pub grow_initial : Runtime p → GuestMemoryBudget → Runtime p × Bool
  grow_initial s budget =
      let grown = grow_heap s budget.heap_initial_bytes none in
      if leb budget.heap_initial_bytes s.heap_committed_bytes then (s, true) else elim grown.1 [
        | ok _ ↦ (grown.0, true)
        | err _ ↦ (
          record_failure p (record grown.0 { runtime_initialized = false }) memory_grow_failed
              budget.heap_initial_bytes 1,
          false,
        )
      ]

  unfoldable pub start_heap : Runtime p → GuestMemoryBudget → Runtime p × Bool
  start_heap s budget =
      let base = p.heap_base s.machine in
      let current = p.program_break s.machine in
      let existing = current - base in
      if ltb current base
      then (record_failure p s memory_grow_failed 0 0, false)
      else if ltb u32_max existing
      then (record_failure p s memory_grow_failed 0 0, false)
      else if ltb budget.heap_max_bytes existing
      then (record_failure p s memory_config_invalid existing guest_memory_page_bytes, false)
      else grow_initial (with_existing s existing) budget

  unfoldable pub reset_runtime : Runtime p → GuestMemoryBudget → GuestFaultStage → Runtime p × Bool
  reset_runtime s budget stage =
      if not (is_valid_budget budget)
        || ltb guest_heap_platform_max_bytes budget.heap_max_bytes
        || ltb u32_max budget.heap_max_bytes
      then (record_failure p (cleared s budget stage) memory_config_invalid 0 0, false)
      else start_heap (cleared s budget stage) budget
