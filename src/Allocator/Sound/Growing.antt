-- ===== src/Allocator/Sound/Growing.antt =====
-- What a call of `grow_heap` does to the counters, and that `allocate_with_growth` ends.
use jam_script.Prelude.{
  ℕ, ◌≤◌, ◌<◌, ◌≡◌, ◌≢◌, refl, ◌⊎◌, inl, inr, ◌+◌, ◌-◌, ok, err, Result, Option, some, Result-cases,
  arith,
}
use jam_script.GuestMemory.Fault.{GuestFaultCode}
use jam_script.Allocator.Layout.{Layout, checked_add}
use jam_script.Allocator.Platform.{Platform}
use jam_script.Allocator.Runtime.{Runtime, update_fault_metrics}
use jam_script.Allocator.Growth.{required_growth, planned_growth, commit_growth, grow_heap}
use jam_script.Allocator.Sound.{IsSound}

-- What a block needs is at least a page.
required_growth-page :
    (current heap_max minimum : ℕ) (layout : Layout) (n : ℕ)
    → required_growth current heap_max minimum (some layout) ≡ ok n
    → 4096 ≤ n
unfolding required_growth checked_add
required_growth-page current heap_max minimum layout n h = ground arith

module _ (p : Platform) (s : Runtime p) where
  -- A growth is positive and within what the budget leaves, and the break is where it should be.
  pub planned_growth-bounds :
      (minimum : ℕ) (failed : Option Layout) (g : ℕ)
      → planned_growth p s minimum failed ≡ ok g
      → (0 < g)
        × (g ≤ s.memory_budget.heap_max_bytes - s.heap_committed_bytes)
        × (p.program_break s.machine ≡ s.heap_base + s.heap_committed_bytes)
  unfolding planned_growth checked_add
  planned_growth-bounds minimum failed g h = (ground arith, ground arith, ground arith)

  -- For a block it is a page at least, or all that is left.
  pub planned_growth-page :
      (layout : Layout) (g : ℕ)
      → planned_growth p s 0 (some layout) ≡ ok g
      → (4096 ≤ g) ⊎ (g ≡ s.memory_budget.heap_max_bytes - s.heap_committed_bytes)
  unfolding planned_growth checked_add
  planned_growth-page layout g h =
      let heap_max = s.memory_budget.heap_max_bytes in
      elim (Result-cases (required_growth (p.program_break s.machine) heap_max 0 (some layout))) [
        | inl (n, e) ↦ ground (arith, required_growth-page _ _ _ _ n e)
        | inr (code, e) ↦ ground arith
      ]

  commit_growth-IsSound :
      (g pointer : ℕ) (machine : p.Machine)
      → g ≤ s.memory_budget.heap_max_bytes - s.heap_committed_bytes
      → IsSound p s
      → IsSound p (commit_growth p s g pointer machine).0
  unfolding commit_growth update_fault_metrics
  commit_growth-IsSound g pointer machine room h = record {
    counted = ground arith;
    header = ground arith;
    metrics = ground arith;
    counter = ground arith;
  }

  -- Either nothing was done, or a planned growth was carried out.
  pub grow_heap-cases :
      (P : Runtime p × Result GuestFaultCode (Unit {0}) → Type 0) (minimum : ℕ)
      (failed : Option Layout)
      → ((code : GuestFaultCode) → P (s, err code))
      → ((g : ℕ)
          → planned_growth p s minimum failed ≡ ok g
          → P (commit_growth p s g (p.sbrk s.machine g).0 (p.sbrk s.machine g).1))
      → P (grow_heap p s minimum failed)
  unfolding grow_heap
  grow_heap-cases P minimum failed refused planned =
      elim (Result-cases (planned_growth p s minimum failed)) [
        | inl (g, e) ↦ rw (e, grow_heap) (planned g e)
        | inr (code, e) ↦ rw (e, grow_heap) (refused code)
      ]

  pub grow_heap-IsSound :
      (minimum : ℕ) (failed : Option Layout)
      → IsSound p s
      → IsSound p (grow_heap p s minimum failed).0
  grow_heap-IsSound minimum failed h =
      grow_heap-cases (λ r. IsSound p r.0) minimum failed (λ code. h)
        (λ g planned.
          commit_growth-IsSound g (p.sbrk s.machine g).0 (p.sbrk s.machine g).1
            (planned_growth-bounds minimum failed g planned).1 h)

  -- What a growth leaves as it was.
  pub record Keeps (s' : Runtime p) : Type 0 where
    pub memory_budget : s'.memory_budget ≡ s.memory_budget
    pub heap_base : s'.heap_base ≡ s.heap_base
    pub initialized : s'.runtime_initialized ≡ s.runtime_initialized
    pub live : s'.live_bytes ≡ s.live_bytes
    pub high_water : s'.high_water_bytes ≡ s.high_water_bytes
    pub cumulative : s'.cumulative_bytes ≡ s.cumulative_bytes
    pub code : s'.fault_record.code ≡ s.fault_record.code
    pub requested : s'.fault_record.requested_bytes ≡ s.fault_record.requested_bytes
    pub alignment : s'.fault_record.alignment ≡ s.fault_record.alignment
    pub committed : s.heap_committed_bytes ≤ s'.heap_committed_bytes

  commit_growth-Keeps :
      (g pointer : ℕ) (machine : p.Machine) → Keeps (commit_growth p s g pointer machine).0
  unfolding commit_growth update_fault_metrics
  commit_growth-Keeps g pointer machine = record {
    memory_budget = ground arith;
    heap_base = ground arith;
    initialized = ground arith;
    live = ground arith;
    high_water = ground arith;
    cumulative = ground arith;
    code = ground arith;
    requested = ground arith;
    alignment = ground arith;
    committed = ground arith;
  }

  pub Keeps-refl : Keeps s
  Keeps-refl = record {
    memory_budget = refl;
    heap_base = refl;
    initialized = refl;
    live = refl;
    high_water = refl;
    cumulative = refl;
    code = refl;
    requested = refl;
    alignment = refl;
    committed = omega arith;
  }

  pub grow_heap-Keeps :
      (minimum : ℕ) (failed : Option Layout) → Keeps (grow_heap p s minimum failed).0
  grow_heap-Keeps minimum failed =
      grow_heap-cases (λ r. Keeps r.0) minimum failed (λ code. Keeps-refl)
        (λ g planned. commit_growth-Keeps g (p.sbrk s.machine g).0 (p.sbrk s.machine g).1)

  pub commit_growth-committed :
      (g pointer : ℕ) (machine : p.Machine)
      → (commit_growth p s g pointer machine).1 ≡ ok tt
      → (commit_growth p s g pointer machine).0.heap_committed_bytes ≡ s.heap_committed_bytes + g
  unfolding commit_growth update_fault_metrics
  commit_growth-committed g pointer machine h = ground arith

  -- A growth for a block adds a page, or all that the budget leaves.
  pub grow_heap-page :
      (layout : Layout)
      → (grow_heap p s 0 (some layout)).1 ≡ ok tt
      → (s.heap_committed_bytes + 4096 ≤ (grow_heap p s 0 (some layout)).0.heap_committed_bytes)
        ⊎ (s.memory_budget.heap_max_bytes ≤ (grow_heap p s 0 (some layout)).0.heap_committed_bytes)
  grow_heap-page layout =
      grow_heap-cases
        (λ r.
          r.1 ≡ ok tt
          → (s.heap_committed_bytes + 4096 ≤ r.0.heap_committed_bytes)
            ⊎ (s.memory_budget.heap_max_bytes ≤ r.0.heap_committed_bytes))
        0 (some layout) (λ code h. cc)
        (λ g planned h. ground (
          arith,
          commit_growth-committed g (p.sbrk s.machine g).0 (p.sbrk s.machine g).1 h,
          planned_growth-page layout g planned,
        ))

  -- With nothing left there is no growth.
  pub grow_heap-exhausted :
      (layout : Layout)
      → s.memory_budget.heap_max_bytes ≤ s.heap_committed_bytes
      → (grow_heap p s 0 (some layout)).1 ≢ ok tt
  grow_heap-exhausted layout full =
      grow_heap-cases (λ r. r.1 ≢ ok tt) 0 (some layout) (λ code h. cc)
        (λ g planned h. ground (arith, planned_growth-bounds 0 (some layout) g planned))
