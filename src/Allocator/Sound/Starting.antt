-- ===== src/Allocator/Sound/Starting.antt =====
-- What `reset_runtime` leaves, on success and on failure.
use jam_script.Prelude.{
  ℕ, ◌≤◌, ◌≡◌, refl, inl, inr, ◌-◌, min, true, false, ltb, leb, ok, Bool-cases, Result-cases, none,
  u32_max, subst, ◌∙◌, arith,
}
use jam_script.GuestMemory.{GuestMemoryBudget, guest_memory_page_bytes}
use jam_script.GuestMemory.Fault.{GuestFaultStage, memory_grow_failed, memory_config_invalid}
use jam_script.GuestMemory.Laws.{IsBudget, validate-IsBudget}
use jam_script.Allocator.Layout.{checked_add}
use jam_script.Allocator.Platform.{Platform}
use jam_script.Allocator.Runtime.{Runtime, record_failure}
use jam_script.Allocator.Growth.{
  planned_growth, required_growth, grow_heap, cleared, is_valid_budget, with_existing, grow_initial,
  start_heap, reset_runtime,
}
use jam_script.Allocator.Sound.{IsSound}
use jam_script.Allocator.Sound.Growing.{
  grow_heap-cases, grow_heap-IsSound, grow_heap-Keeps, commit_growth-committed,
}
use jam_script.Allocator.Sound.Failing.{
  one-IsAlignment, page-IsAlignment, cleared-IsSound, IsReset, failed-IsReset,
}

module _ (p : Platform) where
  -- Without a block to fit, a growth is what was asked for or all that the budget leaves.
  planned_growth-initial :
      (s : Runtime p) (minimum g : ℕ)
      → planned_growth p s minimum none ≡ ok g
      → min minimum (s.memory_budget.heap_max_bytes - s.heap_committed_bytes) ≤ g
  unfolding planned_growth checked_add required_growth
  planned_growth-initial s minimum g h = ground arith

  grow_heap-initial :
      (s : Runtime p) (minimum : ℕ)
      → minimum ≤ s.memory_budget.heap_max_bytes
      → s.heap_committed_bytes ≤ s.memory_budget.heap_max_bytes
      → (grow_heap p s minimum none).1 ≡ ok tt
      → minimum ≤ (grow_heap p s minimum none).0.heap_committed_bytes
  grow_heap-initial s minimum room fits =
      grow_heap-cases p s (λ r. r.1 ≡ ok tt → minimum ≤ r.0.heap_committed_bytes) minimum none
        (λ code e. cc)
        (λ g planned e. ground (
          arith,
          planned_growth-initial s minimum g planned,
          commit_growth-committed p s g (p.sbrk s.machine g).0 (p.sbrk s.machine g).1 e,
        ))

  with_existing-IsSound :
      (s : Runtime p) (existing : ℕ)
      → existing ≤ s.memory_budget.heap_max_bytes
      → IsSound p s
      → IsSound p (with_existing p s existing)
  unfolding with_existing
  with_existing-IsSound s existing fits h = record {
    counted = ground arith;
    header = h.header;
    metrics = h.metrics;
    counter = h.counter;
  }

  -- A heap that has been set up over the existing bytes.
  record IsStarted (s : Runtime p) : Type 0 where
    sound : IsSound p s
    initialized : s.runtime_initialized ≡ true
    unused : s.live_bytes ≡ 0
    faultless : s.fault_record.code ≡ 0

  grown-IsReset :
      (s : Runtime p)
      → s.memory_budget.heap_initial_bytes ≤ s.memory_budget.heap_max_bytes
      → IsStarted s
      → (grow_heap p s s.memory_budget.heap_initial_bytes none).1 ≡ ok tt
      → IsReset p s.memory_budget ((grow_heap p s s.memory_budget.heap_initial_bytes none).0, true)
  grown-IsReset s ordered h e =
      let k = grow_heap-Keeps p s s.memory_budget.heap_initial_bytes none in
      let large =
        grow_heap-initial s s.memory_budget.heap_initial_bytes ordered h.sound.counted.committed
          e in
      record {
        sound = grow_heap-IsSound p s s.memory_budget.heap_initial_bytes none h.sound;
        memory_budget = k.memory_budget;
        unused = k.live ∙ h.unused;
        ready = λ _. (k.initialized ∙ h.initialized, k.code ∙ h.faultless, large);
        failed = λ x. cc;
      }

  -- The failure of the first growth.
  stopped-IsReset :
      (s : Runtime p)
      → IsStarted s
      → IsReset p s.memory_budget (
        record_failure p
            (record (grow_heap p s s.memory_budget.heap_initial_bytes none).0 {
              runtime_initialized = false;
            })
            memory_grow_failed
            s.memory_budget.heap_initial_bytes
            1,
        false,
      )
  stopped-IsReset s h =
      let t = (grow_heap p s s.memory_budget.heap_initial_bytes none).0 in
      let k = grow_heap-Keeps p s s.memory_budget.heap_initial_bytes none in
      let g = grow_heap-IsSound p s s.memory_budget.heap_initial_bytes none h.sound in
      subst
        (λ b. IsReset p b (
          record_failure p (record t { runtime_initialized = false }) memory_grow_failed
              s.memory_budget.heap_initial_bytes 1,
          false,
        ))
        k.memory_budget
        (failed-IsReset p (record t { runtime_initialized = false }) memory_grow_failed
          s.memory_budget.heap_initial_bytes 1
          (record {
            counted = record {
              capped = g.counted.capped;
              committed = g.counted.committed;
              live = g.counted.live;
              high_water = g.counted.high_water;
              cumulative = g.counted.cumulative;
            };
            header = g.header;
            metrics = g.metrics;
            counter = g.counter;
          })
          one-IsAlignment (k.live ∙ h.unused) refl)

  grow_initial-IsReset :
      (s : Runtime p)
      → s.memory_budget.heap_initial_bytes ≤ s.memory_budget.heap_max_bytes
      → IsStarted s
      → IsReset p s.memory_budget (grow_initial p s s.memory_budget)
  unfolding grow_initial
  grow_initial-IsReset s ordered h =
      let initial = s.memory_budget.heap_initial_bytes in
      elim (Bool-cases (leb initial s.heap_committed_bytes)) [
        | inl enough ↦
            rw (enough, grow_initial)
              (record {
                sound = h.sound;
                memory_budget = refl;
                unused = h.unused;
                ready = λ _. (h.initialized, h.faultless, ground arith);
                failed = λ x. cc;
              })
        | inr less ↦ elim (Result-cases (grow_heap p s initial none).1) [
          | inl (u, done) ↦ rw (less, done, grow_initial) (grown-IsReset s ordered h done)
          | inr (code, stopped) ↦ rw (less, stopped, grow_initial) (stopped-IsReset s h)
        ]
      ]

  -- Whether the machine has committed too much, or nothing that a heap can start from.
  start_heap-IsReset :
      (s : Runtime p)
      → s.memory_budget.heap_initial_bytes ≤ s.memory_budget.heap_max_bytes
      → IsSound p s
      → s.live_bytes ≡ 0
      → s.runtime_initialized ≡ false
      → s.fault_record.code ≡ 0
      → IsReset p s.memory_budget (start_heap p s s.memory_budget)
  unfolding start_heap with_existing
  start_heap-IsReset s ordered h unused off faultless =
      let base = p.heap_base s.machine in
      let current = p.program_break s.machine in
      let existing = current - base in
      elim (Bool-cases (ltb current base)) [
        | inl below ↦
            rw (below, start_heap)
              (failed-IsReset p s memory_grow_failed 0 0 h (omega arith, inl refl) unused off)
        | inr above ↦ elim (Bool-cases (ltb u32_max existing)) [
          | inl wide ↦
              rw (above, wide, start_heap)
                (failed-IsReset p s memory_grow_failed 0 0 h (omega arith, inl refl) unused off)
          | inr narrow ↦ elim (Bool-cases (ltb s.memory_budget.heap_max_bytes existing)) [
            | inl full ↦
                rw (above, narrow, full, start_heap)
                  (failed-IsReset p s memory_config_invalid existing guest_memory_page_bytes h
                    page-IsAlignment unused off)
            | inr fits ↦
                rw (above, narrow, fits, start_heap)
                  (grow_initial-IsReset (with_existing p s existing) ordered (record {
                    sound = with_existing-IsSound s existing (ground arith) h;
                    initialized = refl;
                    unused = unused;
                    faultless = faultless;
                  }))
          ]
        ]
      ]

  is_valid_budget-IsBudget :
      (budget : GuestMemoryBudget) → IsBudget budget → is_valid_budget budget ≡ true
  unfolding is_valid_budget
  is_valid_budget-IsBudget budget b = rw ((validate-IsBudget budget).1 b, is_valid_budget)

  -- For a budget that `validate` accepts, whatever the state before and whatever the machine holds,
  -- `reset_runtime` leaves a state with the invariant, that budget and no live bytes. If it reports
  -- success, the runtime is initialised, no fault is on record, and at least the initial bytes of
  -- the budget are committed; if not, the runtime is not initialised and a fault is on record.
  pub reset_runtime-IsReset :
      (s : Runtime p) (budget : GuestMemoryBudget) (stage : GuestFaultStage)
      → IsBudget budget
      → IsReset p budget (reset_runtime p s budget stage)
  unfolding reset_runtime cleared
  reset_runtime-IsReset s budget stage b =
      let accepted : is_valid_budget budget ≡ true = is_valid_budget-IsBudget budget b in
      let capped = b.capped in
      let platform : ltb 67108864 budget.heap_max_bytes ≡ false = ground arith in
      let word : ltb u32_max budget.heap_max_bytes ≡ false = ground arith in
      rw (accepted, platform, word)
        (start_heap-IsReset (cleared p s budget stage) b.ordered
          (cleared-IsSound p s budget stage b.capped) refl refl refl)
