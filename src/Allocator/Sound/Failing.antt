-- ===== src/Allocator/Sound/Failing.antt =====
-- A failure of `reset_runtime`, and the fields that it clears.
use jam_script.Prelude.{ℕ, ◌≤◌, ◌<◌, ◌≡◌, ◌≢◌, refl, inl, inr, Bool, true, false, arith}
use jam_script.GuestMemory.{GuestMemoryBudget, guest_memory_page_bytes}
use jam_script.GuestMemory.Fault.{
  GuestFaultCode, GuestFaultStage, invocation, plan, refine, stage_number, code_number,
  is_power_below,
}
use jam_script.Allocator.Platform.{Platform}
use jam_script.Allocator.Runtime.{Runtime, record_failure}
use jam_script.Allocator.Growth.{cleared}
use jam_script.Allocator.Sound.{IsSound, IsAlignment, record_failure-IsSound}

pub one-IsAlignment : IsAlignment 1
unfolding is_power_below
one-IsAlignment = (omega arith, inr refl)

pub page-IsAlignment : IsAlignment guest_memory_page_bytes
unfolding is_power_below
page-IsAlignment = (omega arith, inr refl)

module _ (p : Platform) where
  -- A failure is on record after `record_failure`.
  pub record_failure-code :
      (s : Runtime p) (code : GuestFaultCode) (bytes alignment : ℕ)
      → (record_failure p s code bytes alignment).fault_record.code ≢ 0
  unfolding record_failure code_number
  record_failure-code s GuestFaultCode.heap_limit_exceeded bytes alignment = ground arith
  record_failure-code s code bytes alignment = ground arith

  pub cleared-IsSound :
      (s : Runtime p) (budget : GuestMemoryBudget) (stage : GuestFaultStage)
      → budget.heap_max_bytes ≤ 67108864
      → IsSound p (cleared p s budget stage)
  unfolding cleared stage_number
  cleared-IsSound s budget stage h = record {
    counted = ground arith;
    header = record {
      magic = refl;
      version = refl;
      record_length = refl;
      code = omega arith;
      stage = stage_bound stage;
      requested = omega arith;
      alignment = (omega arith, inl refl);
    };
    metrics = ground arith;
    counter = ground arith;
  }
    where
      stage_bound : (stage : GuestFaultStage) → stage_number stage < 3
      stage_bound invocation = omega arith
      stage_bound plan = omega arith
      stage_bound refine = omega arith

  -- An answer of `reset_runtime`: a heap of the initial size and no fault, or a fault on record.
  pub record IsReset (budget : GuestMemoryBudget) (r : Runtime p × Bool) : Type 0 where
    pub sound : IsSound p r.0
    pub memory_budget : r.0.memory_budget ≡ budget
    pub unused : r.0.live_bytes ≡ 0
    pub ready :
        r.1 ≡ true
        → (r.0.runtime_initialized ≡ true)
          × (r.0.fault_record.code ≡ 0)
          × (budget.heap_initial_bytes ≤ r.0.heap_committed_bytes)
    pub failed : r.1 ≡ false → (r.0.runtime_initialized ≡ false) × (r.0.fault_record.code ≢ 0)

  pub failed-IsReset :
      (s : Runtime p) (code : GuestFaultCode) (bytes alignment : ℕ)
      → IsSound p s
      → IsAlignment alignment
      → s.live_bytes ≡ 0
      → s.runtime_initialized ≡ false
      → IsReset s.memory_budget (record_failure p s code bytes alignment, false)
  unfolding record_failure
  failed-IsReset s code bytes alignment h a unused off = record {
    sound = record_failure-IsSound p code bytes alignment h a;
    memory_budget = refl;
    unused = unused;
    ready = λ e. cc;
    failed = λ e. (off, record_failure-code s code bytes alignment);
  }
