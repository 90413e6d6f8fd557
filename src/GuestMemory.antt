-- ===== src/GuestMemory.antt =====
-- crates/service-runtime-core/src/guest_memory.rs: the memory budget of a guest and the record of a fault.
pub mod Fault
pub mod Laws
pub mod Log
use jam_script.Prelude.{
  ℕ, zero, suc, ◌*◌, ◌%◌, ◌^◌, Bool, true, false, ◌||◌, ltb, ◌==◌, not, Result, ok, err, ◌>>=◌,
  ◌>>◌, reject,
}

abbrev pub guest_memory_page_bytes : ℕ
guest_memory_page_bytes = 4096

abbrev pub default_guest_heap_initial_bytes : ℕ
default_guest_heap_initial_bytes = 1024 * 1024

abbrev pub default_guest_heap_max_bytes : ℕ
default_guest_heap_max_bytes = 16 * 1024 * 1024

abbrev pub guest_heap_platform_max_bytes : ℕ
guest_heap_platform_max_bytes = 64 * 1024 * 1024

pub data GuestMemoryBudgetError : Type 0 where
  initial_must_be_positive maximum_must_be_positive : GuestMemoryBudgetError
  initial_not_page_aligned maximum_not_page_aligned : ℕ → GuestMemoryBudgetError
  initial_exceeds_maximum maximum_exceeds_platform : ℕ → ℕ → GuestMemoryBudgetError

pub record GuestMemoryBudget : Type 0 where
  pub heap_initial_bytes : ℕ
  pub heap_max_bytes : ℕ

unfoldable pub default : GuestMemoryBudget
default = record {
  heap_initial_bytes = default_guest_heap_initial_bytes;
  heap_max_bytes = default_guest_heap_max_bytes;
}

unfoldable pub validate : GuestMemoryBudget → Result GuestMemoryBudgetError GuestMemoryBudget
validate b = do
  reject (b.heap_initial_bytes == 0) initial_must_be_positive
  reject (b.heap_max_bytes == 0) maximum_must_be_positive
  reject (not (b.heap_initial_bytes % guest_memory_page_bytes == 0))
      (initial_not_page_aligned b.heap_initial_bytes)
  reject (not (b.heap_max_bytes % guest_memory_page_bytes == 0))
      (maximum_not_page_aligned b.heap_max_bytes)
  reject (ltb b.heap_max_bytes b.heap_initial_bytes)
      (initial_exceeds_maximum b.heap_initial_bytes b.heap_max_bytes)
  reject (ltb guest_heap_platform_max_bytes b.heap_max_bytes)
      (maximum_exceeds_platform b.heap_max_bytes guest_heap_platform_max_bytes)
  ok b
