-- ===== src/Allocator/Sound/Placing.antt =====
-- Where an allocation is placed: growth and allocation leave the memory in use alone, and the block
-- that they return was not in use.
use jam_script.Prelude.{
  ℕ, zero, suc, ◌+◌, ◌<◌, ◌≡◌, ◌≢◌, refl, ◌∙◌, sym, inl, inr, true, ◌==◌, ltb, ok, err, Bool-cases,
  Result, Result-cases, some, Option, Option-cases, u32_max, >>=-eq-ok, arith,
}
use jam_script.GuestMemory.Fault.{GuestFaultCode, heap_limit_exceeded}
use jam_script.Allocator.Layout.{Layout}
use jam_script.Allocator.Platform.{Memory, Platform, Within, PlatformLaws, HeapLaws}
use jam_script.Allocator.Runtime.{Runtime, update_fault_metrics, record_failure, record_allocation}
use jam_script.Allocator.Growth.{
  requested_block, commit_growth, grow_heap, retry_alloc, growth_rounds, allocate_with_growth,
}
use jam_script.Allocator.Calls.{settle, alloc_block, alloc}
use jam_script.Allocator.Sound.Growing.{grow_heap-cases}
use jam_script.Allocator.Sound.Calling.{alloc-on}

module _ (p : Platform) where
  -- Below the break, and not in a block that the heap holds.
  abbrev pub InUse : Runtime p → ℕ → Type 0
  InUse s a = (¬ (p.Holds s.heap a)) × (a < p.program_break s.machine)

  -- What is in use is in use afterwards, with the byte that it had.
  abbrev pub KeepsMemory : Runtime p → Runtime p → Type 0
  KeepsMemory s t = (a : ℕ) → InUse s a → (t.memory a ≡ s.memory a) × InUse t a

  KeepsMemory-trans : (s t u : Runtime p) → KeepsMemory s t → KeepsMemory t u → KeepsMemory s u
  KeepsMemory-trans s t u h k a used =
      let (e, used') = h a used in let (f, used'') = k a used' in (f ∙ e, used'')

  -- A block that was not in use, and that the heap no longer holds.
  pub record IsPlaced (s t : Runtime p) (layout : Layout) (q : ℕ) : Type 0 where
    pub fresh : (a : ℕ) → Within q (p.block_size layout) a → ¬ (InUse s a)
    pub taken : (a : ℕ) → Within q (p.block_size layout) a → ¬ (p.Holds t.heap a)

  -- The memory after a request, and the block if there is one.
  pub record KeepsUsed (s : Runtime p) (layout : Layout) (r : Runtime p × ℕ) : Type 0 where
    pub kept : KeepsMemory s r.0
    pub placed : r.1 ≢ 0 → IsPlaced s r.0 layout r.1

module _ (p : Platform) (laws : PlatformLaws p) (heap_laws : HeapLaws p) where
  commit_growth-KeepsMemory :
      (s : Runtime p) (g pointer : ℕ) (machine : p.Machine)
      → (pointer ≡ 0 → p.program_break machine ≡ p.program_break s.machine)
      → (pointer ≢ 0 → p.program_break machine ≡ p.program_break s.machine + g)
      → KeepsMemory p s (commit_growth p s g pointer machine).0
  unfolding commit_growth update_fault_metrics
  commit_growth-KeepsMemory s g pointer machine failed grown a (free, below) =
      let current = p.program_break s.machine in
      let added = heap_laws.add_keeps s.heap s.memory current (current + g) a free (inl below) in
      elim (Bool-cases (pointer == 0)) [
        | inl e ↦
            let same = failed (ground arith) in
            rw (e, commit_growth) (refl, (free, omega (arith, same, below)))
        | inr e ↦
            let more = grown (ground arith) in
            elim (Bool-cases (ltb u32_max (s.heap_committed_bytes + g))) [
              | inl wide ↦
                  rw (e, wide, commit_growth) (added.0, (added.1, omega (arith, more, below)))
              | inr fits ↦
                  rw (e, fits, commit_growth) (added.0, (added.1, omega (arith, more, below)))
            ]
      ]

  grow_heap-KeepsMemory :
      (s : Runtime p) (minimum : ℕ) (failed : Option Layout)
      → KeepsMemory p s (grow_heap p s minimum failed).0
  grow_heap-KeepsMemory s minimum failed =
      grow_heap-cases p s (λ r. KeepsMemory p s r.0) minimum failed (λ code a used. (refl, used))
        (λ g planned.
          commit_growth-KeepsMemory s g (p.sbrk s.machine g).0 (p.sbrk s.machine g).1
            (laws.sbrk_failed s.machine g) (laws.sbrk_grown s.machine g))

  -- A result of the loop.
  record IsLooped (s : Runtime p) (layout : Layout) (r : Runtime p × Result GuestFaultCode ℕ)
      : Type 0 where
    kept : KeepsMemory p s r.0
    placed : (q : ℕ) → r.1 ≡ ok q → IsPlaced p s r.0 layout q

  stopped-IsLooped :
      (s t : Runtime p) (layout : Layout) (code : GuestFaultCode)
      → KeepsMemory p s t
      → IsLooped s layout (t, err code)
  stopped-IsLooped s t layout code h = record { kept = h; placed = λ q e. cc }

  found-IsLooped :
      (s : Runtime p) (layout : Layout) (pointer : ℕ) (heap : p.Heap) (memory : Memory)
      → p.heap_alloc s.heap s.memory layout ≡ some (pointer, heap, memory)
      → IsLooped s layout (record s { heap = heap; memory = memory }, ok pointer)
  found-IsLooped s layout pointer heap memory e = record {
    kept = λ a (free, below).
        let (same, free') =
          heap_laws.alloc_keeps s.heap heap s.memory memory layout pointer a e free in
        (same, (free', below));
    placed = λ q same.
        let here : pointer ≡ q = cc same in
        let takes = heap_laws.alloc_takes s.heap heap s.memory memory layout pointer in
        rw (← here) (record {
          fresh = λ a inside used. used.0 (takes a e inside).0;
          taken = λ a inside. (takes a e inside).1;
        });
  }

  IsLooped-after :
      (s t : Runtime p) (layout : Layout) (r : Runtime p × Result GuestFaultCode ℕ)
      → KeepsMemory p s t
      → IsLooped t layout r
      → IsLooped s layout r
  IsLooped-after s t layout r k h = record {
    kept = KeepsMemory-trans p s t r.0 k h.kept;
    placed = λ q e. record {
      fresh = λ a inside used. (h.placed q e).fresh a inside (k a used).1;
      taken = (h.placed q e).taken;
    };
  }

  retry_alloc-IsLooped :
      (fuel : ℕ) (s : Runtime p) (layout : Layout) (r : Runtime p × Result GuestFaultCode ℕ)
      → retry_alloc p fuel s layout ≡ ok r
      → IsLooped s layout r
  unfolding retry_alloc
  retry_alloc-IsLooped zero s layout r h = cc
  retry_alloc-IsLooped (suc fuel) s layout r h =
      let grown = grow_heap p s 0 (some layout) in
      let k = grow_heap-KeepsMemory s 0 (some layout) in
      elim (Option-cases (p.heap_alloc s.heap s.memory layout)) [
        | inr ((pointer, heap, memory), e) ↦
            let same : (record s { heap = heap; memory = memory }, ok pointer) ≡ r =
              cc (rw (e, retry_alloc) at h) in
            rw (← same) (found-IsLooped s layout pointer heap memory e)
        | inl e ↦ elim (Result-cases grown.1) [
          | inr (code, failed) ↦
              let same : (grown.0, err code) ≡ r = cc (rw (e, failed, retry_alloc) at h) in
              rw (← same) (stopped-IsLooped s grown.0 layout code k)
          | inl (u, done) ↦
              IsLooped-after s grown.0 layout r k
                (retry_alloc-IsLooped fuel grown.0 layout r (rw (e, done, retry_alloc) at h))
        ]
      ]

  allocate_with_growth-IsLooped :
      (s : Runtime p) (layout : Layout) (r : Runtime p × Result GuestFaultCode ℕ)
      → allocate_with_growth p s layout ≡ ok r
      → IsLooped s layout r
  unfolding allocate_with_growth
  allocate_with_growth-IsLooped s layout r h =
      let refused = stopped-IsLooped s s layout heap_limit_exceeded (λ a used. (refl, used)) in
      elim (Option-cases (requested_block layout)) [
        | inl e ↦
            let same : (s, err heap_limit_exceeded) ≡ r = cc (rw (e, allocate_with_growth) at h) in
            rw (← same) refused
        | inr (block, e) ↦ elim (Bool-cases (ltb s.memory_budget.heap_max_bytes block)) [
          | inl large ↦
              let same : (s, err heap_limit_exceeded) ≡ r =
                cc (rw (e, large, allocate_with_growth) at h) in
              rw (← same) refused
          | inr fits ↦
              retry_alloc-IsLooped (growth_rounds p s) s layout r
                (rw (e, fits, allocate_with_growth) at h)
        ]
      ]

  settle-KeepsUsed :
      (s : Runtime p) (layout : Layout) (r : Runtime p × Result GuestFaultCode ℕ)
      → IsLooped s layout r
      → KeepsUsed p s layout (settle p layout r)
  unfolding settle record_allocation record_failure update_fault_metrics
  settle-KeepsUsed s layout (t, ok q) h = record {
    kept = h.kept;
    placed =
        λ e. let placed = h.placed q refl in record { fresh = placed.fresh; taken = placed.taken };
  }
  settle-KeepsUsed s layout (t, err code) h = record {
    kept = h.kept;
    placed = λ e. absurd (e refl);
  }

  -- In an initialised runtime, under the laws of the heap and of `sbrk`, a request of at least a
  -- byte leaves every address in use (below the break and not held by the heap) in use, with its
  -- byte. If the pointer is not null, no address of its block was in use, and the heap no longer
  -- holds any of them.
  pub alloc-KeepsUsed :
      (s : Runtime p) (layout : Layout) (r : Runtime p × ℕ)
      → s.runtime_initialized ≡ true
      → layout.size ≢ 0
      → alloc p s layout ≡ ok r
      → KeepsUsed p s layout r
  unfolding alloc_block
  alloc-KeepsUsed s layout r on sized h =
      let (looped, e, done) =
        >>=-eq-ok (allocate_with_growth p s layout) _
          (sym (alloc-on p laws s layout sized on) ∙ h) in
      let same : settle p layout looped ≡ r = cc done in
      rw (← same)
        (settle-KeepsUsed s layout looped (allocate_with_growth-IsLooped s layout looped e))
