-- ===== src/Allocator/Platform.antt =====
-- What the guest's allocator uses of the crate buddy_system_allocator and of polkavm_derive: a heap
-- of blocks, and the program break of the machine. An address is a number, and null is zero. The
-- heap keeps its links inside the blocks that it holds, so its operations take the memory and return
-- it.
use jam_script.Prelude.{ℕ, ◌+◌, ◌≤◌, ◌<◌, ◌≡◌, ◌≢◌, ◌⊎◌, Option, some}
use jam_script.Allocator.Layout.{Layout}

abbrev pub Memory : Type 0
Memory = ℕ → ℕ

pub record Platform : Type 1 where
  pub Heap : Type 0
  pub empty_heap : Heap
  pub add_to_heap : Heap → Memory → ℕ → ℕ → Heap × Memory
  -- `none` is an error, which leaves the heap and the memory as they were
  pub heap_alloc : Heap → Memory → Layout → Option (ℕ × Heap × Memory)
  pub heap_dealloc : Heap → Memory → ℕ → Layout → Heap × Memory
  -- the addresses that the heap holds, in blocks that are not allocated
  pub Holds : Heap → ℕ → Type 0
  -- the bytes that a block for a layout takes
  pub block_size : Layout → ℕ
  pub Machine : Type 0
  pub heap_base : Machine → ℕ
  -- `sbrk(0)`
  pub program_break : Machine → ℕ
  -- `sbrk(n)` for an `n` that is not zero: zero is a failure
  pub sbrk : Machine → ℕ → ℕ × Machine

-- An address is one of the bytes from `start` on.
abbrev pub Within : ℕ → ℕ → ℕ → Type 0
Within start size a = (start ≤ a) × (a < start + size)

-- The documented behaviour: an allocation is not null, and a call of `sbrk` moves the break by
-- what was asked for, or fails and leaves it.
pub record PlatformLaws (p : Platform) : Type 1 where
  pub alloc_nonnull :
      (heap heap' : p.Heap) (m m' : Memory) (layout : Layout) (pointer : ℕ)
      → p.heap_alloc heap m layout ≡ some (pointer, heap', m')
      → pointer ≢ 0
  pub sbrk_grown :
      (m : p.Machine) (n : ℕ)
      → (p.sbrk m n).0 ≢ 0
      → p.program_break (p.sbrk m n).1 ≡ p.program_break m + n
  pub sbrk_failed :
      (m : p.Machine) (n : ℕ)
      → (p.sbrk m n).0 ≡ 0
      → p.program_break (p.sbrk m n).1 ≡ p.program_break m

-- The documented behaviour of a heap that is used as its crate asks (what is freed was allocated,
-- with the same layout, and no range is added twice): it writes only to what it holds and to what it
-- is handed, and an allocation takes a block out of what it holds.
pub record HeapLaws (p : Platform) : Type 1 where
  pub block_fits : (layout : Layout) → layout.size ≤ p.block_size layout
  pub alloc_keeps :
      (heap heap' : p.Heap) (m m' : Memory) (layout : Layout) (pointer a : ℕ)
      → p.heap_alloc heap m layout ≡ some (pointer, heap', m')
      → ¬ (p.Holds heap a)
      → (m' a ≡ m a) × (¬ (p.Holds heap' a))
  pub alloc_takes :
      (heap heap' : p.Heap) (m m' : Memory) (layout : Layout) (pointer a : ℕ)
      → p.heap_alloc heap m layout ≡ some (pointer, heap', m')
      → Within pointer (p.block_size layout) a
      → p.Holds heap a × (¬ (p.Holds heap' a))
  pub dealloc_keeps :
      (heap : p.Heap) (m : Memory) (pointer : ℕ) (layout : Layout) (a : ℕ)
      → ¬ (p.Holds heap a)
      → ¬ (Within pointer (p.block_size layout) a)
      → ((p.heap_dealloc heap m pointer layout).1 a ≡ m a)
        × (¬ (p.Holds (p.heap_dealloc heap m pointer layout).0 a))
  pub add_keeps :
      (heap : p.Heap) (m : Memory) (from to a : ℕ)
      → ¬ (p.Holds heap a)
      → (a < from) ⊎ (to ≤ a)
      → ((p.add_to_heap heap m from to).1 a ≡ m a)
        × (¬ (p.Holds (p.add_to_heap heap m from to).0 a))
