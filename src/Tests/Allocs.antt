-- ===== src/Tests/Allocs.antt =====
-- Runs of the guest's allocator over a heap that never hands a block out again.
use jam_script.Prelude.{
  ℕ, suc, ◌+◌, ◌*◌, ◌%◌, ◌≤◌, max, ◌<◌, ◌≡◌, ◌≢◌, ◌⊎◌, ◌∙◌, subst, refl, inl, inr, Bool-cases, true,
  leb, ◌==◌, if◌then◌else◌, Option, none, some, Result, ok, err, replicate, le_bytes, arith,
}
use jam_script.GuestMemory.{default, validate}
use jam_script.GuestMemory.Laws.{IsBudget}
use jam_script.GuestMemory.Fault.{decode, encode, plan, is_power_below, stage_number}
use jam_script.Allocator.Platform.{Memory, Platform, PlatformLaws, HeapLaws}
use jam_script.Allocator.Layout.{
  Layout, checked_add, from_size_align, next_power_of_two, power_from,
}
use jam_script.Allocator.Growth
use jam_script.Allocator.Runtime.{
  Runtime, Unfinished, record_allocation, update_fault_metrics, saturating_add,
}
use jam_script.Allocator.Growth.{reset_runtime}
use jam_script.Allocator.Calls.{store, load, alloc, alloc_block, settle, dealloc, realloc}
use jam_script.Allocator.Abi.{
  allocation_layout, malloc_from, calloc_from, calloc_size, fill_zero, free_from, place_header,
  write_header,
}
use jam_script.Allocator.Abi.Release.{live-free-malloc, load-calloc_from}
use jam_script.Allocator.Sound.{IsSound}
use jam_script.Allocator.Sound.Failing.{IsReset}
use jam_script.Allocator.Sound.Starting.{reset_runtime-IsReset}
use jam_script.Allocator.Sound.Calling.{IsLayout, IsAnswer, alloc_lem, alloc_total}
use jam_script.Allocator.Sound.Moving.{IsAllocated, IsMoved, realloc_lem}
use jam_script.Allocator.Sound.Placing.{KeepsUsed, alloc-KeepsUsed}
use jam_script.Allocator.Reaching.{at_start, here, next, released, restarted, Reach-decode}

-- The free addresses of the heap, from the first to before the last.
pub record Free : Type 0 where
  pub first : ℕ
  pub last : ℕ

abbrev bump : Free → Memory → Layout → Option (ℕ × Free × Memory)
bump heap memory layout =
    if leb (suc heap.first + max layout.size 1) heap.last
    then some (suc heap.first, record heap { first = suc heap.first + max layout.size 1 }, memory)
    else none

-- A range that does not follow what the heap holds is left out.
abbrev extend : Free → ℕ → ℕ → Free
extend heap from to =
    if leb heap.last heap.first
    then record { first = from; last = to }
    else if heap.last == from
    then record { first = heap.first; last = to }
    else heap

abbrev toy : Platform
toy = record {
  Heap = Free;
  empty_heap = record { first = 0; last = 0 };
  add_to_heap = λ heap memory from to. (extend heap from to, memory);
  heap_alloc = bump;
  heap_dealloc = λ heap memory pointer layout. (heap, λ a. if a == pointer then 0 else memory a);
  Holds = λ heap a. (heap.first ≤ a) × (a < heap.last);
  block_size = λ layout. max layout.size 1;
  Machine = ℕ;
  heap_base = λ m. 65536;
  program_break = λ m. m;
  sbrk = λ m n. (m + n, m + n);
}

toy_laws : PlatformLaws toy
toy_laws = record {
  alloc_nonnull = λ heap heap' m m' layout pointer e. ground arith;
  sbrk_grown = λ m n e. refl;
  sbrk_failed = λ m n e. omega arith;
}

extend_keeps :
    (heap : Free) (from to a : ℕ)
    → ¬ ((heap.first ≤ a) × (a < heap.last))
    → (a < from) ⊎ (to ≤ a)
    → ¬ (((extend heap from to).first ≤ a) × (a < (extend heap from to).last))
extend_keeps heap from to a free outside = ground arith

-- What is freed gets a link in its first byte.
dealloc_byte :
    (m : Memory) (pointer size a : ℕ)
    → ¬ ((pointer ≤ a) × (a < pointer + max size 1))
    → (if a == pointer then 0 else m a) ≡ m a
dealloc_byte m pointer size a outside = elim (Bool-cases (a == pointer)) [
  | inl e ↦ absurd (outside (ground arith, ground arith))
  | inr e ↦ rw e refl
]

bump-eq-some :
    (heap heap' : Free) (m m' : Memory) (layout : Layout) (pointer : ℕ)
    → bump heap m layout ≡ some (pointer, heap', m')
    → (suc heap.first + max layout.size 1 ≤ heap.last)
      × (heap'.first ≡ suc heap.first + max layout.size 1)
      × (heap'.last ≡ heap.last)
      × (m ≡ m')
      × (pointer ≡ suc heap.first)
bump-eq-some heap heap' m m' layout pointer e =
    elim (Bool-cases (leb (suc heap.first + max layout.size 1) heap.last)) [
      | inr f ↦ let no = (rw f at e) in cc no
      | inl f ↦
          let same = (rw f at e) in
          let heaps : record heap { first = suc heap.first + max layout.size 1 } ≡ heap' =
            cc same in
          (ground arith, rw (← heaps) refl, rw (← heaps) refl, cc same, cc same)
    ]

toy_heap_laws : HeapLaws toy
toy_heap_laws = record {
  block_fits = λ layout. omega arith;
  alloc_keeps = λ heap heap' m m' layout pointer a e free.
      let (room, first, last, same, begins) = bump-eq-some heap heap' m m' layout pointer e in
      (rw same, λ held. free (omega (arith, held.0, first), omega (arith, held.1, last)));
  alloc_takes = λ heap heap' m m' layout pointer a e inside.
      let (room, first, last, same, begins) = bump-eq-some heap heap' m m' layout pointer e in
      (
        (omega (arith, inside.0, begins), omega (arith, inside.1, begins, room)),
        λ held. omega (arith, held.0, inside.1, begins, first),
      );
  dealloc_keeps =
      λ heap m pointer layout a free outside. (dealloc_byte m pointer layout.size a outside, free);
  add_keeps = λ heap m from to a free outside. (refl, extend_keeps heap from to a free outside);
}

-- The guest before its first call, on a machine that has committed nothing.
abbrev fresh : Runtime toy
fresh = at_start toy (record { first = 0; last = 0 }) 65536 (λ a. a % 256)

-- After it has set up its heap.
abbrev booted : Runtime toy
booted = (reset_runtime toy fresh default plan).0

default-IsBudget : IsBudget default
unfolding default
default-IsBudget = record {
  positive = omega arith;
  initial_pages = omega arith;
  max_pages = omega arith;
  ordered = omega arith;
  capped = omega arith;
}

booted-IsReset : IsReset toy default (reset_runtime toy fresh default plan)
booted-IsReset = reset_runtime-IsReset toy fresh default plan default-IsBudget

booted_ready : (reset_runtime toy fresh default plan).1 ≡ true
unfolding reset_runtime at_start default Growth.is_valid_budget validate Growth.start_heap
    Growth.cleared Growth.grow_initial Growth.with_existing Growth.grow_heap Growth.planned_growth
    Growth.required_growth checked_add Growth.commit_growth
booted_ready = refl

booted-IsSound : IsSound toy booted
booted-IsSound = booted-IsReset.sound

booted_on : booted.runtime_initialized ≡ true
booted_on = (booted-IsReset.ready booted_ready).0

abbrev words : Layout
words = record { size = 24; align = 8 }

words-IsLayout : IsLayout words
unfolding is_power_below
words-IsLayout = ((omega arith, inr refl), λ e. omega arith)

reset_runtime-IsReset_example : IsReset toy default (reset_runtime toy fresh default plan)
reset_runtime-IsReset_example = reset_runtime-IsReset toy fresh default plan default-IsBudget

alloc_lem_example :
    (r : Runtime toy × ℕ) × (alloc toy booted words ≡ ok r) × IsAnswer toy booted words r
alloc_lem_example =
    alloc_lem toy toy_laws booted words booted-IsSound words-IsLayout booted_on (λ e. omega arith)

alloc_total_example :
    (r : Runtime toy × ℕ) × (alloc toy booted words ≡ ok r)
    × IsSound toy r.0
    × (r.1 ≡ 0 → r.0.fault_record.code ≢ 0)
alloc_total_example = alloc_total toy toy_laws booted words booted-IsSound words-IsLayout

abbrev state_of : {A : Type 0} → Result Unfinished (Runtime toy × A) → Runtime toy
state_of (ok r) = r.0
state_of (err e) = fresh

abbrev taken : Runtime toy
taken = state_of (alloc toy booted words)

alloc-words : alloc toy booted words ≡ ok (taken, 65537)
unfolding reset_runtime at_start default Growth.is_valid_budget validate Growth.start_heap
    Growth.cleared Growth.grow_initial Growth.with_existing Growth.grow_heap Growth.planned_growth
    Growth.required_growth checked_add Growth.commit_growth is_power_below alloc alloc_block settle
    Growth.allocate_with_growth Growth.growth_rounds Growth.requested_block Growth.retry_alloc
    next_power_of_two power_from record_allocation update_fault_metrics saturating_add stage_number
alloc-words = refl

words-IsAllocated : IsAllocated toy taken 65537 words
unfolding reset_runtime at_start default Growth.is_valid_budget validate Growth.start_heap
    Growth.cleared Growth.grow_initial Growth.with_existing Growth.grow_heap Growth.planned_growth
    Growth.required_growth checked_add Growth.commit_growth is_power_below alloc alloc_block settle
    Growth.allocate_with_growth Growth.growth_rounds Growth.requested_block Growth.retry_alloc
    next_power_of_two power_from record_allocation update_fault_metrics saturating_add stage_number
words-IsAllocated a inside = (λ held. omega (arith, held.0, inside.1), omega (arith, inside.1))

taken-IsAnswer : IsAnswer toy booted words (taken, 65537)
taken-IsAnswer =
    let (r, e, answer) = alloc_lem_example in
    let same : r ≡ (taken, 65537) = cc (e, alloc-words) in
    subst (IsAnswer toy booted words) same answer

alloc-KeepsUsed_example : KeepsUsed toy booted words (taken, 65537)
alloc-KeepsUsed_example =
    alloc-KeepsUsed toy toy_laws toy_heap_laws booted words (taken, 65537) booted_on
      (λ e. omega arith) alloc-words

realloc_lem_example :
    (r : Runtime toy × ℕ) × (realloc toy taken 65537 words 48 ≡ ok r)
    × IsMoved toy taken 65537 words 48 r
realloc_lem_example =
    realloc_lem toy toy_laws toy_heap_laws taken 65537 words 48 taken-IsAnswer.sound words-IsLayout
      (taken-IsAnswer.initialized ∙ booted_on) (λ e. omega arith) words-IsAllocated
      (λ e. omega arith)

Reach-decode_example :
    let t = dealloc toy booted 65537 words in
    (decode (encode t.fault_record) ≡ ok t.fault_record)
    × (t.heap_committed_bytes ≤ t.memory_budget.heap_max_bytes)
    × (t.live_bytes ≤ t.high_water_bytes)
Reach-decode_example =
    Reach-decode toy toy_laws (record { first = 0; last = 0 }) 65536 (λ a. a % 256)
      (next (next here (restarted default plan default-IsBudget)) (released 65537 words))

abbrev block : Runtime toy
block = state_of (malloc_from toy booted 24)

malloc_24 : malloc_from toy booted 24 ≡ ok (block, ok 65553)
unfolding reset_runtime at_start default Growth.is_valid_budget validate Growth.start_heap
    Growth.cleared Growth.grow_initial Growth.with_existing Growth.grow_heap Growth.planned_growth
    Growth.required_growth checked_add Growth.commit_growth malloc_from place_header write_header
    allocation_layout from_size_align is_power_below alloc alloc_block settle store
    Growth.allocate_with_growth Growth.growth_rounds Growth.requested_block Growth.retry_alloc
    next_power_of_two power_from record_allocation update_fault_metrics saturating_add stage_number
    le_bytes
malloc_24 = refl

live-free-malloc_example : (free_from toy block 65553).0.live_bytes ≡ booted.live_bytes
live-free-malloc_example =
    live-free-malloc toy toy_laws booted block 24 65553 booted-IsSound booted_on
      (omega (arith, booted-IsReset.unused)) malloc_24

abbrev zeros : Runtime toy
zeros = state_of (calloc_from toy booted 3 5)

calloc_15 : calloc_from toy booted 3 5 ≡ ok (zeros, ok 65553)
unfolding reset_runtime at_start default Growth.is_valid_budget validate Growth.start_heap
    Growth.cleared Growth.grow_initial Growth.with_existing Growth.grow_heap Growth.planned_growth
    Growth.required_growth checked_add Growth.commit_growth calloc_from calloc_size fill_zero
    malloc_from place_header write_header allocation_layout from_size_align is_power_below alloc
    alloc_block settle store Growth.allocate_with_growth Growth.growth_rounds Growth.requested_block
    Growth.retry_alloc next_power_of_two power_from record_allocation update_fault_metrics
    saturating_add stage_number le_bytes
calloc_15 = refl

load-calloc_from_example : load zeros.memory 65553 (3 * 5) ≡ replicate (3 * 5) 0
load-calloc_from_example = load-calloc_from toy booted zeros 3 5 65553 calloc_15
