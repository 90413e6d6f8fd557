-- ===== src/Allocator/Calls.antt =====
-- The methods of `RuntimeAllocator` in guest_allocator.rs, and `realloc_preserving` of
-- allocator_abi.rs, which `realloc` ends with. They return the state and a pointer.
pub mod Memory
use jam_script.Prelude.{
  ℕ, zero, suc, ◌+◌, min, Bool, true, false, ◌||◌, ltb, ◌==◌, List, [], ◌∷◌, Bytes, Option, none,
  some, Result, ok, err, ◌>>=◌, if◌then◌else◌,
}
use jam_script.GuestMemory.{GuestMemoryBudget, guest_memory_page_bytes}
use jam_script.GuestMemory.Fault.{GuestFaultCode, invocation, memory_allocation_failed}
use jam_script.Allocator.Layout.{Layout, from_size_align}
use jam_script.Allocator.Platform.{Platform}
use jam_script.Allocator.Runtime.{
  Runtime, Unfinished, record_failure, record_allocation, record_deallocation,
}
use jam_script.Allocator.Growth.{allocate_with_growth, reset_runtime}

-- Bytes are written to, and read from, consecutive addresses.
unfoldable pub store : (ℕ → ℕ) → ℕ → Bytes → ℕ → ℕ
store memory address [] = memory
store memory address (b ∷ bs) = store (λ a. if a == address then b else memory a) (suc address) bs

unfoldable pub load : (ℕ → ℕ) → ℕ → ℕ → Bytes
load memory address zero = []
load memory address (suc n) = memory address ∷ load memory (suc address) n

-- `ptr::copy_nonoverlapping`
unfoldable pub copy : (ℕ → ℕ) → ℕ → ℕ → ℕ → ℕ → ℕ
unfolding store load
copy memory from to n = store memory to (load memory from n)

-- The budget of a runtime that is initialised lazily.
abbrev pub one_page : GuestMemoryBudget
one_page = record {
  heap_initial_bytes = guest_memory_page_bytes;
  heap_max_bytes = guest_memory_page_bytes;
}

module _ (p : Platform) where
  -- The end of `alloc`, on both results of the loop.
  unfoldable pub settle : Layout → Runtime p × Result GuestFaultCode ℕ → Runtime p × ℕ
  settle layout (s, ok pointer) = (record_allocation p s layout.size, pointer)
  settle layout (s, err code) = (record_failure p s code layout.size layout.align, 0)

  unfoldable pub alloc_block : Runtime p → Layout → Result Unfinished (Runtime p × ℕ)
  alloc_block s layout = do settled ← allocate_with_growth p s layout; ok (settle layout settled)

  unfoldable pub alloc : Runtime p → Layout → Result Unfinished (Runtime p × ℕ)
  alloc s layout =
      let (fresh, ready) = reset_runtime p s one_page invocation in
      if layout.size == 0
      then ok (s, layout.align)
      else if s.runtime_initialized
      then alloc_block s layout
      else if ready
      then alloc_block fresh layout
      else ok (fresh, 0)

  unfoldable pub dealloc : Runtime p → ℕ → Layout → Runtime p
  dealloc s pointer layout =
      let freed = p.heap_dealloc s.heap s.memory pointer layout in
      if pointer == 0 || layout.size == 0
      then s
      else record_deallocation p (record s { heap = freed.0; memory = freed.1 }) layout.size

  -- What `realloc_preserving` does with the replacement.
  unfoldable pub move_block : ℕ → Layout → Layout → Runtime p × ℕ → Runtime p × ℕ
  move_block pointer old_layout new_layout (s, replacement) =
      let moved = record s {
        memory = copy s.memory pointer replacement (min old_layout.size new_layout.size);
      } in
      if replacement == 0
      then (s, 0)
      else if pointer == 0
      then (s, replacement)
      else (dealloc moved pointer old_layout, replacement)

  unfoldable pub realloc_preserving :
      Runtime p → ℕ → Layout → Layout → Result Unfinished (Runtime p × ℕ)
  realloc_preserving s pointer old_layout new_layout = do
    allocated ← alloc s new_layout
    ok (move_block pointer old_layout new_layout allocated)

  -- The layout that `realloc` asks for, or the failure that it records.
  unfoldable pub with_layout :
      Runtime p
      → ℕ
      → ℕ
      → (Layout → Result Unfinished (Runtime p × ℕ))
      → Result Unfinished (Runtime p × ℕ)
  with_layout s size align next = elim (from_size_align size align) [
    | none ↦ ok (record_failure p s memory_allocation_failed size align, 0)
    | some layout ↦ next layout
  ]

  unfoldable pub realloc : Runtime p → ℕ → Layout → ℕ → Result Unfinished (Runtime p × ℕ)
  realloc s pointer old_layout new_size =
      if pointer == 0
      then with_layout s new_size old_layout.align (alloc s)
      else if new_size == 0
      then ok (dealloc s pointer old_layout, 0)
      else with_layout s new_size old_layout.align (realloc_preserving s pointer old_layout)
