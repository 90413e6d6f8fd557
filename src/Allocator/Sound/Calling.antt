-- ===== src/Allocator/Sound/Calling.antt =====
-- The calls of the allocator: each ends, keeps the invariant, and reports what it refuses.
use jam_script.Prelude.{
  ℕ, ◌≡◌, ◌≢◌, refl, inl, inr, ◌∙◌, min, max, true, false, ◌||◌, ◌==◌, ok, err, Bool-cases, Result,
  u32_max, arith,
}
use jam_script.GuestMemory.Fault.{GuestFaultCode, invocation}
use jam_script.GuestMemory.Laws.{IsBudget}
use jam_script.Allocator.Layout.{Layout}
use jam_script.Allocator.Platform.{Platform, PlatformLaws}
use jam_script.Allocator.Runtime.{
  Runtime, record_allocation, record_failure, first_failure, saturating_add, update_fault_metrics,
}
use jam_script.Allocator.Growth.{reset_runtime}
use jam_script.Allocator.Calls.{one_page, settle, alloc_block, alloc, dealloc}
use jam_script.Allocator.Sound.{
  IsSound, IsAlignment, record_failure-IsSound, record_allocation-IsSound,
  record_deallocation-IsSound,
}
use jam_script.Allocator.Sound.Ending.{IsSettled, allocate_with_growth-IsSettled}
use jam_script.Allocator.Sound.Failing.{record_failure-code}
use jam_script.Allocator.Sound.Starting.{reset_runtime-IsReset}

-- The alignment of a layout is a power of two, and fits in 32 bits. A 64-bit `Layout` can have a
-- larger one, which the record of a fault cannot hold.
abbrev pub IsLayout : Layout → Type 0
IsLayout layout = IsAlignment layout.align × (layout.align ≢ 0)

one_page-IsBudget : IsBudget one_page
one_page-IsBudget = record {
  positive = omega arith;
  initial_pages = omega arith;
  max_pages = omega arith;
  ordered = omega arith;
  capped = omega arith;
}

module _ (p : Platform) where
  -- What a refused request leaves: the live and the cumulative bytes as they were, and a fault on
  -- record, which is the earlier one if there was one and else names the request.
  pub record IsRefused (s : Runtime p) (layout : Layout) (t : Runtime p) : Type 0 where
    pub live : t.live_bytes ≡ s.live_bytes
    pub cumulative : t.cumulative_bytes ≡ s.cumulative_bytes
    pub reported : t.fault_record.code ≢ 0
    pub earlier :
        s.fault_record.code ≢ 0
        → (t.fault_record.code ≡ s.fault_record.code)
          × (t.fault_record.requested_bytes ≡ s.fault_record.requested_bytes)
          × (t.fault_record.alignment ≡ s.fault_record.alignment)
    pub fresh :
        s.fault_record.code ≡ 0
        → (t.fault_record.requested_bytes ≡ min layout.size u32_max)
          × (t.fault_record.alignment ≡ min layout.align u32_max)

  -- What a request that is met leaves: it is counted, and nothing is reported.
  pub record IsMet (s : Runtime p) (layout : Layout) (t : Runtime p) : Type 0 where
    pub live : t.live_bytes ≡ saturating_add s.live_bytes (min layout.size u32_max)
    pub high_water : t.high_water_bytes ≡ max s.high_water_bytes t.live_bytes
    pub cumulative :
        t.cumulative_bytes ≡ saturating_add s.cumulative_bytes (min layout.size u32_max)
    pub recorded :
        (t.fault_record.live_requested_bytes ≡ t.live_bytes)
        × (t.fault_record.high_water_requested_bytes ≡ t.high_water_bytes)
        × (t.fault_record.cumulative_requested_bytes ≡ t.cumulative_bytes)
    pub code : t.fault_record.code ≡ s.fault_record.code
    pub requested : t.fault_record.requested_bytes ≡ s.fault_record.requested_bytes
    pub alignment : t.fault_record.alignment ≡ s.fault_record.alignment

  pub record IsAnswer (s : Runtime p) (layout : Layout) (r : Runtime p × ℕ) : Type 0 where
    pub sound : IsSound p r.0
    pub initialized : r.0.runtime_initialized ≡ s.runtime_initialized
    pub refused : r.1 ≡ 0 → IsRefused s layout r.0
    pub met : r.1 ≢ 0 → IsMet s layout r.0

  settle-IsAnswer :
      (s : Runtime p) (layout : Layout) (r : Runtime p × Result GuestFaultCode ℕ)
      → IsLayout layout
      → IsSettled p s r
      → IsAnswer s layout (settle p layout r)
  unfolding settle record_failure record_allocation first_failure update_fault_metrics
  settle-IsAnswer s layout (t, ok pointer) a h =
      let k = h.kept in
      let nonnull = h.nonnull pointer refl in
      record {
        sound = record_allocation-IsSound p layout.size h.sound;
        initialized = k.initialized;
        refused = λ e. absurd (nonnull e);
        met = λ _. record {
          live = rw k.live refl;
          high_water = rw (k.live, k.high_water) refl;
          cumulative = rw k.cumulative refl;
          recorded = (refl, refl, refl);
          code = k.code;
          requested = k.requested;
          alignment = k.alignment;
        };
      }
  settle-IsAnswer s layout (t, err code) a h =
      let k = h.kept in
      record {
        sound = record_failure-IsSound p code layout.size layout.align h.sound a.0;
        initialized = k.initialized;
        refused = λ _. record {
          live = k.live;
          cumulative = k.cumulative;
          reported = record_failure-code p t code layout.size layout.align;
          earlier = λ e. (ground arith, ground arith, ground arith);
          fresh = λ e. (ground arith, ground arith);
        };
        met = λ e. absurd (e refl);
      }

module _ (p : Platform) where
  pub dealloc-IsSound :
      (s : Runtime p) (pointer : ℕ) (layout : Layout)
      → IsSound p s
      → IsSound p (dealloc p s pointer layout)
  unfolding dealloc
  dealloc-IsSound s pointer layout h = elim (Bool-cases (pointer == 0 || layout.size == 0)) [
    | inl nothing ↦ rw (nothing, dealloc) h
    | inr block ↦
        rw (block, dealloc)
          (record_deallocation-IsSound p layout.size (record {
            counted = record {
              capped = h.counted.capped;
              committed = h.counted.committed;
              live = h.counted.live;
              high_water = h.counted.high_water;
              cumulative = h.counted.cumulative;
            };
            header = h.header;
            metrics = h.metrics;
            counter = h.counter;
          }))
  ]

module _ (p : Platform) (laws : PlatformLaws p) where
  alloc_block-IsAnswer :
      (s : Runtime p) (layout : Layout)
      → IsSound p s
      → IsLayout layout
      → (r : Runtime p × ℕ) × (alloc_block p s layout ≡ ok r) × IsAnswer p s layout r
  unfolding alloc_block
  alloc_block-IsAnswer s layout h a =
      let (r, e, settled) = allocate_with_growth-IsSettled p laws s layout h in
      (settle p layout r, rw e refl, settle-IsAnswer p s layout r a settled)

  -- The branches of `alloc`.
  pub alloc-on :
      (s : Runtime p) (layout : Layout)
      → layout.size ≢ 0
      → s.runtime_initialized ≡ true
      → alloc p s layout ≡ alloc_block p s layout
  unfolding alloc
  alloc-on s layout sized on = ground arith

  alloc-off :
      (s : Runtime p) (layout : Layout)
      → layout.size ≢ 0
      → s.runtime_initialized ≡ false
      → (reset_runtime p s one_page invocation).1 ≡ true
      → alloc p s layout ≡ alloc_block p (reset_runtime p s one_page invocation).0 layout
  unfolding alloc
  alloc-off s layout sized off ready = ground arith

  alloc-stopped :
      (s : Runtime p) (layout : Layout)
      → layout.size ≢ 0
      → s.runtime_initialized ≡ false
      → (reset_runtime p s one_page invocation).1 ≡ false
      → alloc p s layout ≡ ok ((reset_runtime p s one_page invocation).0, 0)
  unfolding alloc
  alloc-stopped s layout sized off failed = ground arith

  -- In an initialised runtime that satisfies the invariant, a request of at least a byte, with an
  -- alignment below 2 ^ 32, returns. If the pointer is null, the live and the cumulative bytes are
  -- as before and a fault is on record: the earlier one if there was one, else one that names the
  -- request. If it is not null, the request is added to the live, high water and cumulative bytes,
  -- which are copied into the record of the fault, and its code, requested bytes and alignment are
  -- as before. The invariant holds afterwards.
  pub alloc_lem :
      (s : Runtime p) (layout : Layout)
      → IsSound p s
      → IsLayout layout
      → s.runtime_initialized ≡ true
      → layout.size ≢ 0
      → (r : Runtime p × ℕ) × (alloc p s layout ≡ ok r) × IsAnswer p s layout r
  alloc_lem s layout h a on sized =
      rw (alloc-on s layout sized on) (alloc_block-IsAnswer s layout h a)

  -- From any state that satisfies the invariant, a request whose alignment is below 2 ^ 32 returns,
  -- and the invariant holds afterwards; if the pointer is null, a fault is on record.
  pub alloc_total :
      (s : Runtime p) (layout : Layout)
      → IsSound p s
      → IsLayout layout
      → (r : Runtime p × ℕ) × (alloc p s layout ≡ ok r)
        × IsSound p r.0
        × (r.1 ≡ 0 → r.0.fault_record.code ≢ 0)
  unfolding alloc
  alloc_total s layout h a =
      let reset = reset_runtime p s one_page invocation in
      let restarted = reset_runtime-IsReset p s one_page invocation one_page-IsBudget in
      elim (Bool-cases (layout.size == 0)) [
        | inl empty ↦ rw empty ((s, layout.align), refl, h, λ e. absurd (a.1 e))
        | inr sized ↦ elim (Bool-cases s.runtime_initialized) [
          | inl on ↦
              let (r, e, answer) = alloc_block-IsAnswer s layout h a in
              (
                r,
                alloc-on s layout (ground arith) on ∙ e,
                answer.sound,
                λ null. (answer.refused null).reported,
              )
          | inr off ↦ elim (Bool-cases reset.1) [
            | inl ready ↦
                let (r, e, answer) = alloc_block-IsAnswer reset.0 layout restarted.sound a in
                (
                  r,
                  alloc-off s layout (ground arith) off ready ∙ e,
                  answer.sound,
                  λ null. (answer.refused null).reported,
                )
            | inr failed ↦ (
              (reset.0, 0),
              alloc-stopped s layout (ground arith) off failed,
              restarted.sound,
              λ null. (restarted.failed failed).1,
            )
          ]
        ]
      ]
