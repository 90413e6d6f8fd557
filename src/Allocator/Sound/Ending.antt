-- ===== src/Allocator/Sound/Ending.antt =====
-- The loop of `allocate_with_growth` ends, and what it leaves.
use jam_script.Prelude.{
  ℕ, zero, suc, ◌<◌, ◌≡◌, ◌≢◌, refl, inl, inr, ◌∙◌, ◌+◌, ◌-◌, ◌/◌, ok, err, Bool-cases, ltb, Result,
  Result-cases, some, Option-cases, arith,
}
use jam_script.GuestMemory.Fault.{GuestFaultCode, heap_limit_exceeded}
use jam_script.Allocator.Layout.{Layout}
use jam_script.Allocator.Platform.{Memory, Platform, PlatformLaws}
use jam_script.Allocator.Runtime.{Runtime}
use jam_script.Allocator.Growth.{
  requested_block, grow_heap, retry_alloc, growth_rounds, allocate_with_growth,
}
use jam_script.Allocator.Sound.{IsSound}
use jam_script.Allocator.Sound.Growing.{
  Keeps, Keeps-refl, grow_heap-IsSound, grow_heap-Keeps, grow_heap-page, grow_heap-exhausted,
}

module _ (p : Platform) where
  Keeps-trans : (s t u : Runtime p) → Keeps p s t → Keeps p t u → Keeps p s u
  Keeps-trans s t u h k = record {
    memory_budget = k.memory_budget ∙ h.memory_budget;
    heap_base = k.heap_base ∙ h.heap_base;
    initialized = k.initialized ∙ h.initialized;
    live = k.live ∙ h.live;
    high_water = k.high_water ∙ h.high_water;
    cumulative = k.cumulative ∙ h.cumulative;
    code = k.code ∙ h.code;
    requested = k.requested ∙ h.requested;
    alignment = k.alignment ∙ h.alignment;
    committed = omega (arith, h.committed, k.committed);
  }

  -- A result of the loop: the invariant holds, the counters are as before, and a pointer is not null.
  pub record IsSettled (s : Runtime p) (r : Runtime p × Result GuestFaultCode ℕ) : Type 0 where
    pub sound : IsSound p r.0
    pub kept : Keeps p s r.0
    pub nonnull : (pointer : ℕ) → r.1 ≡ ok pointer → pointer ≢ 0

  failed-IsSettled :
      (s t : Runtime p) (code : GuestFaultCode)
      → IsSound p t
      → Keeps p s t
      → IsSettled s (t, err code)
  failed-IsSettled s t code h k = record { sound = h; kept = k; nonnull = λ pointer e. cc }

  IsSettled-after :
      (s t : Runtime p) (r : Runtime p × Result GuestFaultCode ℕ)
      → Keeps p s t
      → IsSettled t r
      → IsSettled s r
  IsSettled-after s t r k h = record {
    sound = h.sound;
    kept = Keeps-trans s t r.0 k h.kept;
    nonnull = h.nonnull;
  }

  abbrev rounds_left : Runtime p → ℕ
  rounds_left s = (s.memory_budget.heap_max_bytes - s.heap_committed_bytes + 4095) / 4096

  rounds_left-lt :
      (s : Runtime p) (layout : Layout)
      → (grow_heap p s 0 (some layout)).1 ≡ ok tt
      → rounds_left (grow_heap p s 0 (some layout)).0 < rounds_left s
  rounds_left-lt s layout e =
      let t = (grow_heap p s 0 (some layout)).0 in
      let k = grow_heap-Keeps p s 0 (some layout) in
      ground (arith, grow_heap-page p s layout e, grow_heap-exhausted p s layout)

module _ (p : Platform) (laws : PlatformLaws p) where
  found-IsSettled :
      (s : Runtime p) (layout : Layout) (pointer : ℕ) (heap : p.Heap) (memory : Memory)
      → IsSound p s
      → p.heap_alloc s.heap s.memory layout ≡ some (pointer, heap, memory)
      → IsSettled p s (record s { heap = heap; memory = memory }, ok pointer)
  found-IsSettled s layout pointer heap memory h e = record {
    sound = record {
      counted = record {
        capped = h.counted.capped;
        committed = h.counted.committed;
        live = h.counted.live;
        high_water = h.counted.high_water;
        cumulative = h.counted.cumulative;
      };
      header = h.header;
      metrics = h.metrics;
      counter = h.counter;
    };
    kept = record {
      memory_budget = refl;
      heap_base = refl;
      initialized = refl;
      live = refl;
      high_water = refl;
      cumulative = refl;
      code = refl;
      requested = refl;
      alignment = refl;
      committed = omega arith;
    };
    nonnull = λ q same.
        let nonnull = laws.alloc_nonnull s.heap heap s.memory memory layout pointer e in
        ground arith;
  }

  retry_alloc-IsSettled :
      (fuel : ℕ) (s : Runtime p) (layout : Layout)
      → IsSound p s
      → rounds_left p s < fuel
      → (r : Runtime p × Result GuestFaultCode ℕ) × (retry_alloc p fuel s layout ≡ ok r)
        × IsSettled p s r
  unfolding retry_alloc
  retry_alloc-IsSettled zero s layout h enough = absurd (omega arith)
  retry_alloc-IsSettled (suc fuel) s layout h enough =
      let grown = grow_heap p s 0 (some layout) in
      elim (Option-cases (p.heap_alloc s.heap s.memory layout)) [
        | inr ((pointer, heap, memory), e) ↦ (
          (record s { heap = heap; memory = memory }, ok pointer),
          rw (e, retry_alloc),
          found-IsSettled s layout pointer heap memory h e,
        )
        | inl e ↦ elim (Result-cases grown.1) [
          | inr (code, failed) ↦ (
            (grown.0, err code),
            rw (e, failed, retry_alloc),
            failed-IsSettled p s grown.0 code (grow_heap-IsSound p s 0 (some layout) h)
                (grow_heap-Keeps p s 0 (some layout)),
          )
          | inl (u, done) ↦
              let (r, e', settled) =
                retry_alloc-IsSettled fuel grown.0 layout (grow_heap-IsSound p s 0 (some layout) h)
                  (omega (arith, rounds_left-lt p s layout done)) in
              (
                r,
                rw (e, done, retry_alloc) e',
                IsSettled-after p s grown.0 r (grow_heap-Keeps p s 0 (some layout)) settled,
              )
        ]
      ]

  -- The loop has enough fuel, and `allocate_with_growth` keeps the invariant.
  pub allocate_with_growth-IsSettled :
      (s : Runtime p) (layout : Layout)
      → IsSound p s
      → (r : Runtime p × Result GuestFaultCode ℕ) × (allocate_with_growth p s layout ≡ ok r)
        × IsSettled p s r
  unfolding allocate_with_growth growth_rounds
  allocate_with_growth-IsSettled s layout h =
      let refused = failed-IsSettled p s s heap_limit_exceeded h (Keeps-refl p s) in
      elim (Option-cases (requested_block layout)) [
        | inl e ↦ ((s, err heap_limit_exceeded), rw (e, allocate_with_growth), refused)
        | inr (block, e) ↦ elim (Bool-cases (ltb s.memory_budget.heap_max_bytes block)) [
          | inl large ↦ ((s, err heap_limit_exceeded), rw (e, large, allocate_with_growth), refused)
          | inr fits ↦
              rw (e, fits, allocate_with_growth)
                (retry_alloc-IsSettled (growth_rounds p s) s layout h (omega arith))
        ]
      ]
