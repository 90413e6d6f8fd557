-- ===== src/Allocator/Sound.antt =====
-- The invariant of the guest's allocator: its counters are ordered and within the budget, and the
-- record of the fault can be read by the host.
pub mod Growing
pub mod Ending
pub mod Failing
pub mod Starting
pub mod Calling
pub mod Placing
pub mod Freeing
pub mod Moving
use jam_script.Prelude.{
  ℕ, ◌≤◌, ◌<◌, ◌≡◌, ◌⊎◌, inl, inr, ◌^◌, ◌+◌, ◌-◌, min, max, not, ◌&&◌, ◌==◌, Bool, true, false, ok,
  err, Bytes, bytes_eq, bytes_eq_refl, u32_max, arith,
}
use jam_script.GuestMemory.Fault.{
  GuestFaultRecord, GuestFaultCode, heap_limit_exceeded, memory_grow_failed,
  memory_allocation_failed, panic, memory_config_invalid, abort, code_number, guest_fault_magic,
  is_power_below, is_none, code_from, stage_from, validate, decode, encode,
}
use jam_script.GuestMemory.Laws.{IsFault, IsConsistent, decode-encode_fault}
use jam_script.Allocator.Layout.{Layout}
use jam_script.Allocator.Platform.{Platform}
use jam_script.Allocator.Runtime.{
  Runtime, update_fault_metrics, first_failure, record_failure, update_failure_request,
  record_allocation, record_deallocation, saturating_add,
}

-- Zero, or a power of two that fits in 32 bits.
abbrev pub IsAlignment : ℕ → Type 0
IsAlignment a = (a ≤ u32_max) × ((a ≡ 0) ⊎ (is_power_below 32 a ≡ true))

-- The fields of a record that the counters do not touch.
pub record IsHeader (r : GuestFaultRecord) : Type 0 where
  pub magic : r.magic ≡ guest_fault_magic
  pub version : r.version ≡ 1
  pub record_length : r.record_length ≡ 44
  pub code : r.code < 7
  pub stage : r.stage < 3
  pub requested : r.requested_bytes ≤ u32_max
  pub alignment : IsAlignment r.alignment

module _ (p : Platform) where
  -- The counters.
  pub record IsCounted (s : Runtime p) : Type 0 where
    pub capped : s.memory_budget.heap_max_bytes ≤ 67108864
    pub committed : s.heap_committed_bytes ≤ s.memory_budget.heap_max_bytes
    pub live : s.live_bytes ≤ s.high_water_bytes
    pub high_water : s.high_water_bytes ≤ s.cumulative_bytes
    pub cumulative : s.cumulative_bytes ≤ u32_max

  pub record IsSound (s : Runtime p) : Type 0 where
    pub counted : IsCounted s
    pub header : IsHeader s.fault_record
    pub metrics : IsConsistent s.fault_record
    pub counter : s.fault_record.cumulative_requested_bytes ≤ u32_max

  pub update_fault_metrics-IsSound :
      {s : Runtime p} → IsCounted s → IsHeader s.fault_record → IsSound (update_fault_metrics p s)
  unfolding update_fault_metrics
  update_fault_metrics-IsSound c h = record {
    counted = ground arith;
    header = ground arith;
    metrics = ground arith;
    counter = ground arith;
  }

-- A failure is recorded only if no fault is.
pub first_failure-IsHeader :
    (r : GuestFaultRecord) (code : GuestFaultCode) (bytes alignment : ℕ)
    → IsHeader r
    → IsAlignment alignment
    → IsHeader (first_failure r code bytes alignment)
unfolding first_failure code_number
first_failure-IsHeader r heap_limit_exceeded bytes alignment h a = ground arith
first_failure-IsHeader r code bytes alignment h a = ground arith

code-known : (code : ℕ) → code < 7 → (not (code == 0) && is_none (code_from code)) ≡ false
unfolding code_from is_none
code-known code h = ground arith

stage-known : (stage : ℕ) → stage < 3 → is_none (stage_from stage) ≡ false
unfolding stage_from is_none
stage-known stage h = ground arith

module _ (p : Platform) {s : Runtime p} where
  pub record_failure-IsSound :
      (code : GuestFaultCode) (bytes alignment : ℕ)
      → IsSound p s
      → IsAlignment alignment
      → IsSound p (record_failure p s code bytes alignment)
  unfolding record_failure
  record_failure-IsSound code bytes alignment h a =
      update_fault_metrics-IsSound p
        (record {
          capped = h.counted.capped;
          committed = h.counted.committed;
          live = h.counted.live;
          high_water = h.counted.high_water;
          cumulative = h.counted.cumulative;
        })
        (first_failure-IsHeader s.fault_record code bytes alignment h.header a)

  pub update_failure_request-IsSound :
      (bytes alignment : ℕ)
      → IsSound p s
      → IsAlignment alignment
      → IsSound p (update_failure_request p s bytes alignment)
  unfolding update_failure_request
  update_failure_request-IsSound bytes alignment h a = record {
    counted = ground arith;
    header = ground arith;
    metrics = ground arith;
    counter = ground arith;
  }

  pub record_allocation-IsSound :
      (bytes : ℕ) → IsSound p s → IsSound p (record_allocation p s bytes)
  unfolding record_allocation
  record_allocation-IsSound bytes h = record {
    counted = ground arith;
    header = ground arith;
    metrics = ground arith;
    counter = ground arith;
  }

  pub record_deallocation-IsSound :
      (bytes : ℕ) → IsSound p s → IsSound p (record_deallocation p s bytes)
  unfolding record_deallocation
  record_deallocation-IsSound bytes h = record {
    counted = ground arith;
    header = ground arith;
    metrics = ground arith;
    counter = ground arith;
  }

  IsSound-valid : IsSound p s → validate s.fault_record ≡ ok tt
  unfolding validate bytes_eq
  IsSound-valid h =
      let known : (not (s.fault_record.code == 0) && is_none (code_from s.fault_record.code))
          ≡ false =
        code-known s.fault_record.code h.header.code in
      let staged : is_none (stage_from s.fault_record.stage) ≡ false =
        stage-known s.fault_record.stage h.header.stage in
      rw (h.header.magic, h.header.version, h.header.record_length, known, staged) (ground arith)

  pub IsSound-IsFault : IsSound p s → IsFault s.fault_record
  IsSound-IsFault h = record {
    valid = IsSound-valid h;
    code = ground arith;
    stage = ground arith;
    requested_bytes = ground arith;
    alignment = ground arith;
    heap_committed_bytes = ground arith;
    heap_max_bytes = ground arith;
    live_requested_bytes = ground arith;
    high_water_requested_bytes = ground arith;
    cumulative_requested_bytes = ground arith;
  }
