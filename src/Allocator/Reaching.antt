-- ===== src/Allocator/Reaching.antt =====
-- Runs of the allocator's calls, in any order, from the statics that the guest starts with.
use jam_script.Prelude.{
  ℕ, ◌≤◌, ◌≡◌, ◌≢◌, refl, inl, inr, false, ◌==◌, Bool-cases, Result, ok, Option-cases, arith,
}
use jam_script.GuestMemory.{GuestMemoryBudget, default}
use jam_script.GuestMemory.Fault.{
  GuestFaultCode, GuestFaultStage, memory_allocation_failed, encode, decode,
}
use jam_script.GuestMemory.Fault
use jam_script.GuestMemory.Laws.{IsBudget, decode-encode_fault}
use jam_script.Allocator.Layout.{Layout, from_size_align}
use jam_script.Allocator.Platform.{Platform, PlatformLaws}
use jam_script.Allocator.Runtime.{Runtime, Unfinished, record_failure}
use jam_script.Allocator.Growth.{reset_runtime}
use jam_script.Allocator.Calls.{alloc, dealloc, with_layout, realloc_preserving, realloc}
use jam_script.Allocator.Sound.{IsSound, IsAlignment, record_failure-IsSound, IsSound-IsFault}
use jam_script.Allocator.Sound.Starting.{reset_runtime-IsReset}
use jam_script.Allocator.Sound.Calling.{IsLayout, alloc_total, dealloc-IsSound}
use jam_script.Allocator.Sound.Freeing.{from_size_align-some}
use jam_script.Allocator.Abi.{c_malloc, c_calloc, c_realloc, c_free}
use jam_script.Allocator.Abi.Sound.{Ends, LeavesSound, c_free-IsSound}
use jam_script.Allocator.Abi.Ending.{
  realloc_preserving-Ends, c_malloc-Ends, c_calloc-Ends, c_realloc-Ends,
}

module _ (p : Platform) where
  -- The statics before the first call.
  unfoldable pub at_start : p.Heap → p.Machine → (ℕ → ℕ) → Runtime p
  at_start heap machine memory = record {
    memory_budget = default;
    heap_base = 0;
    heap_committed_bytes = 0;
    runtime_initialized = false;
    live_bytes = 0;
    high_water_bytes = 0;
    cumulative_bytes = 0;
    fault_record = Fault.empty;
    heap = heap;
    machine = machine;
    memory = memory;
  }

  -- One call, of Rust's allocator, of the C functions, or of the functions around them. A layout's
  -- alignment fits in 32 bits: with a larger one the record of a refusal has the alignment 2 ^ 32 - 1,
  -- which the host refuses.
  pub data Call (s : Runtime p) : Runtime p → Type 0 where
    allocated :
        (layout : Layout) (t : Runtime p) (pointer : ℕ)
        → IsLayout layout
        → alloc p s layout ≡ ok (t, pointer)
        → Call s t
    released : (pointer : ℕ) (layout : Layout) → Call s (dealloc p s pointer layout)
    reallocated :
        (pointer : ℕ) (layout : Layout) (size : ℕ) (t : Runtime p) (moved : ℕ)
        → IsLayout layout
        → realloc p s pointer layout size ≡ ok (t, moved)
        → Call s t
    c_allocated :
        (size : ℕ) (t : Runtime p) (pointer : ℕ) → c_malloc p s size ≡ ok (t, pointer) → Call s t
    c_zeroed :
        (count size : ℕ) (t : Runtime p) (pointer : ℕ)
        → c_calloc p s count size ≡ ok (t, pointer)
        → Call s t
    c_reallocated :
        (pointer size : ℕ) (t : Runtime p) (moved : ℕ)
        → c_realloc p s pointer size ≡ ok (t, moved)
        → Call s t
    c_freed : (pointer : ℕ) → Call s (c_free p s pointer)
    failed :
        (code : GuestFaultCode) (bytes alignment : ℕ)
        → IsAlignment alignment
        → Call s (record_failure p s code bytes alignment)
    restarted :
        (budget : GuestMemoryBudget) (stage : GuestFaultStage)
        → IsBudget budget
        → Call s (reset_runtime p s budget stage).0

  pub data Reach (s : Runtime p) : Runtime p → Type 0 where
    here : Reach s s
    next : {t u : Runtime p} → Reach s t → Call t u → Reach s u

  at_start-IsSound :
      (heap : p.Heap) (machine : p.Machine) (memory : ℕ → ℕ)
      → IsSound p (at_start heap machine memory)
  unfolding at_start default
  at_start-IsSound heap machine memory = record {
    counted = record {
      capped = omega arith;
      committed = omega arith;
      live = omega arith;
      high_water = omega arith;
      cumulative = omega arith;
    };
    header = record {
      magic = refl;
      version = refl;
      record_length = refl;
      code = omega arith;
      stage = omega arith;
      requested = omega arith;
      alignment = (omega arith, inl refl);
    };
    metrics = record {
      committed = omega arith;
      capped = omega arith;
      live = omega arith;
      high_water = omega arith;
    };
    counter = omega arith;
  }

  -- What is known of a result holds of the result that a call is known to have.
  Ends-result :
      {A : Type 0} (P : A → Type 0) (m : Result Unfinished A) (a : A) → Ends P m → m ≡ ok a → P a
  Ends-result P m a (r, e, h) known = let same : r ≡ a = cc (e, known) in rw (← same) h

module _ (p : Platform) (laws : PlatformLaws p) where
  alloc-Ends :
      (s : Runtime p) (layout : Layout)
      → IsSound p s
      → IsLayout layout
      → Ends (LeavesSound p) (alloc p s layout)
  alloc-Ends s layout h a = let (r, e, sound, _) = alloc_total p laws s layout h a in (r, e, sound)

  with_layout-Ends :
      (s : Runtime p) (size align : ℕ) (after : Layout → Result Unfinished (Runtime p × ℕ))
      → IsSound p s
      → IsAlignment align
      → align ≢ 0
      → ((layout : Layout) → IsLayout layout → Ends (LeavesSound p) (after layout))
      → Ends (LeavesSound p) (with_layout p s size align after)
  unfolding with_layout
  with_layout-Ends s size align after h a positive call =
      elim (Option-cases (from_size_align size align)) [
        | inl e ↦
            rw (e, with_layout)
              (
                (record_failure p s memory_allocation_failed size align, 0),
                refl,
                record_failure-IsSound p memory_allocation_failed size align h a,
              )
        | inr (layout, e) ↦
            let fields = from_size_align-some p size align layout e in
            rw (e, with_layout) (call layout (rw fields.1 (a, positive)))
      ]

  realloc-Ends :
      (s : Runtime p) (pointer : ℕ) (layout : Layout) (size : ℕ)
      → IsSound p s
      → IsLayout layout
      → Ends (LeavesSound p) (realloc p s pointer layout size)
  unfolding realloc
  realloc-Ends s pointer layout size h a = elim (Bool-cases (pointer == 0)) [
    | inl null ↦
        rw (null, realloc)
          (with_layout-Ends s size layout.align (alloc p s) h a.0 a.1 (λ l k. alloc-Ends s l h k))
    | inr block ↦ elim (Bool-cases (size == 0)) [
      | inl empty ↦
          rw (block, empty, realloc)
            ((dealloc p s pointer layout, 0), refl, dealloc-IsSound p s pointer layout h)
      | inr sized ↦
          rw (block, sized, realloc)
            (with_layout-Ends s size layout.align (realloc_preserving p s pointer layout) h a.0 a.1
              (λ l k. realloc_preserving-Ends p laws s pointer layout l h k))
    ]
  ]

  Call-IsSound : {s t : Runtime p} → Call p s t → IsSound p s → IsSound p t
  Call-IsSound {s} (allocated layout t q a e) h =
      Ends-result p (LeavesSound p) _ (t, q) (alloc-Ends s layout h a) e
  Call-IsSound {s} (released pointer layout) h = dealloc-IsSound p s pointer layout h
  Call-IsSound {s} (reallocated pointer layout size t q a e) h =
      Ends-result p (LeavesSound p) _ (t, q) (realloc-Ends s pointer layout size h a) e
  Call-IsSound {s} (c_allocated size t q e) h =
      Ends-result p (LeavesSound p) _ (t, q) (c_malloc-Ends p laws s size h) e
  Call-IsSound {s} (c_zeroed count size t q e) h =
      Ends-result p (LeavesSound p) _ (t, q) (c_calloc-Ends p laws s count size h) e
  Call-IsSound {s} (c_reallocated pointer size t q e) h =
      Ends-result p (LeavesSound p) _ (t, q) (c_realloc-Ends p laws s pointer size h) e
  Call-IsSound {s} (c_freed pointer) h = c_free-IsSound p s pointer h
  Call-IsSound {s} (failed code bytes alignment a) h =
      record_failure-IsSound p code bytes alignment h a
  Call-IsSound {s} (restarted budget stage b) h = (reset_runtime-IsReset p s budget stage b).sound

  Reach-IsSound : {s t : Runtime p} → Reach p s t → IsSound p s → IsSound p t
  Reach-IsSound here h = h
  Reach-IsSound (next r call) h = Call-IsSound call (Reach-IsSound r h)

  -- From the statics that the guest starts with, after any sequence of calls of the allocator with
  -- alignments below 2 ^ 32, of the C functions, of records of failures with an alignment that is
  -- zero or a power of two below 2 ^ 32, and of resets to valid budgets, the host decodes the record
  -- of the fault to what it is in the guest, the committed bytes are within the budget, and the live
  -- bytes are at most their high water mark.
  pub Reach-decode :
      (heap : p.Heap) (machine : p.Machine) (memory : ℕ → ℕ) {t : Runtime p}
      → Reach p (at_start p heap machine memory) t
      → (decode (encode t.fault_record) ≡ ok t.fault_record)
        × (t.heap_committed_bytes ≤ t.memory_budget.heap_max_bytes)
        × (t.live_bytes ≤ t.high_water_bytes)
  Reach-decode heap machine memory r =
      let h = Reach-IsSound r (at_start-IsSound p heap machine memory) in
      (decode-encode_fault _ (IsSound-IsFault p h), h.counted.committed, h.counted.live)
