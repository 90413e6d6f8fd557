-- ===== src/Allocator/Abi.antt =====
-- The C interface of the allocator: crates/service-runtime-guest/src/allocator_abi.rs, and the
-- functions `c_malloc`, `c_calloc`, `c_realloc` and `c_free` of guest_allocator.rs. A block has a
-- header with its size in front of it.
pub mod Sound
pub mod Ending
pub mod Blocks
pub mod Release
use jam_script.Prelude.{
  ℕ, ◌+◌, ◌-◌, ◌*◌, min, max, Bool, true, false, ltb, ◌==◌, not, Bytes, ◌++◌, le_bytes, from_le,
  replicate, Option, none, some, Result, ok, err, ◌>>=◌, ok_or, if◌then◌else◌, u32_max, usize_max,
}
use jam_script.GuestMemory.Fault.{memory_allocation_failed}
use jam_script.Allocator.Layout.{Layout, checked_add, from_size_align}
use jam_script.Allocator.Platform.{Platform}
use jam_script.Allocator.Runtime.{
  Runtime, Unfinished, has_fault, record_failure, update_failure_request,
}
use jam_script.Allocator.Calls.{store, load, alloc, dealloc, realloc_preserving}

abbrev pub c_allocation_magic : ℕ
c_allocation_magic = 0x4a534354

abbrev pub c_max_alignment : ℕ
c_max_alignment = 16

abbrev pub c_header_size : ℕ
c_header_size = 16

pub data CAllocationError : Type 0 where
  size_overflow invalid_pointer out_of_memory : CAllocationError

unfoldable pub calloc_size : ℕ → ℕ → Result CAllocationError ℕ
calloc_size count size =
    if ltb usize_max (count * size) then err size_overflow else ok (count * size)

unfoldable pub allocation_layout : ℕ → Result CAllocationError Layout
allocation_layout size = do
  total ← ok_or (checked_add c_header_size (max size 1)) size_overflow
  ok_or (from_size_align total c_max_alignment) size_overflow

-- The two fields of `CAllocationHeader`.
unfoldable pub write_header : (ℕ → ℕ) → ℕ → ℕ → ℕ → ℕ
write_header memory base size =
    store memory base (le_bytes 4 c_allocation_magic ++ le_bytes 4 (min size u32_max))

unfoldable pub header_magic : (ℕ → ℕ) → ℕ → ℕ
header_magic memory base = from_le (load memory base 4)

unfoldable pub header_size : (ℕ → ℕ) → ℕ → ℕ
header_size memory base = from_le (load memory (base + 4) 4)

module _ (p : Platform) where
  -- The end of `malloc_from` and of `realloc_from`.
  unfoldable pub place_header : ℕ → Runtime p × ℕ → Runtime p × Result CAllocationError ℕ
  place_header size (s, base) =
      if base == 0
      then (s, err out_of_memory)
      else (record s { memory = write_header s.memory base size }, ok (base + c_header_size))

  unfoldable pub malloc_from :
      Runtime p → ℕ → Result Unfinished (Runtime p × Result CAllocationError ℕ)
  malloc_from s size = elim (allocation_layout size) [
    | err e ↦ ok (s, err e)
    | ok layout ↦ alloc p s layout >>= λ r. ok (place_header size r)
  ]

  unfoldable pub fill_zero :
      ℕ → Runtime p × Result CAllocationError ℕ → Runtime p × Result CAllocationError ℕ
  fill_zero total (s, ok pointer) =
      (record s { memory = store s.memory pointer (replicate total 0) }, ok pointer)
  fill_zero total (s, err e) = (s, err e)

  unfoldable pub calloc_from :
      Runtime p → ℕ → ℕ → Result Unfinished (Runtime p × Result CAllocationError ℕ)
  calloc_from s count size = elim (calloc_size count size) [
    | err e ↦ ok (s, err e)
    | ok total ↦ malloc_from s total >>= λ r. ok (fill_zero total r)
  ]

  -- The header is cleared, and the block given back.
  unfoldable pub release : Runtime p → ℕ → Layout → Runtime p
  release s header layout =
      dealloc p (record s { memory = store s.memory header (le_bytes 4 0) }) header layout

  unfoldable pub free_from : Runtime p → ℕ → Runtime p × Result CAllocationError (Unit {0})
  free_from s pointer =
      let header = pointer - c_header_size in
      if pointer == 0
      then (s, ok tt)
      else if not (header_magic s.memory header == c_allocation_magic)
      then (s, err invalid_pointer)
      else elim (allocation_layout (header_size s.memory header)) [
        | err e ↦ (s, err e)
        | ok layout ↦ (release s header layout, ok tt)
      ]

  unfoldable pub some_pointer :
      Runtime p × Result CAllocationError ℕ → Runtime p × Result CAllocationError (Option ℕ)
  some_pointer (s, ok pointer) = (s, ok (some pointer))
  some_pointer (s, err e) = (s, err e)

  unfoldable pub no_pointer :
      Runtime p × Result CAllocationError (Unit {0})
      → Runtime p × Result CAllocationError (Option ℕ)
  no_pointer (s, ok _) = (s, ok none)
  no_pointer (s, err e) = (s, err e)

  -- `realloc_from` of a block whose header is good.
  unfoldable pub resize :
      Runtime p
      → ℕ
      → Layout
      → ℕ
      → Result Unfinished (Runtime p × Result CAllocationError (Option ℕ))
  resize s pointer old_layout size =
      if size == 0 then ok (no_pointer (free_from s pointer)) else elim (allocation_layout size) [
        | err e ↦ ok (s, err e)
        | ok new_layout ↦
            realloc_preserving p s (pointer - c_header_size) old_layout new_layout >>= λ r.
            ok (some_pointer (place_header size r))
      ]

  unfoldable pub realloc_from :
      Runtime p → ℕ → ℕ → Result Unfinished (Runtime p × Result CAllocationError (Option ℕ))
  realloc_from s pointer size =
      let header = pointer - c_header_size in
      if pointer == 0
      then (if size == 0 then ok (s, ok none) else malloc_from s size >>= λ r. ok (some_pointer r))
      else if not (header_magic s.memory header == c_allocation_magic)
      then ok (s, err invalid_pointer)
      else elim (allocation_layout (header_size s.memory header)) [
        | err e ↦ ok (s, err e)
        | ok old_layout ↦ resize s pointer old_layout size
      ]

  -- The arms of `c_malloc`, given whether a fault was on record before.
  unfoldable pub report_malloc : Bool → ℕ → Runtime p × Result CAllocationError ℕ → Runtime p × ℕ
  report_malloc before size (s, ok pointer) = (s, pointer)
  report_malloc before size (s, err out_of_memory) =
      (if before then s else update_failure_request p s size c_max_alignment, 0)
  report_malloc before size (s, err size_overflow) =
      (record_failure p s memory_allocation_failed size c_max_alignment, 0)
  report_malloc before size (s, err invalid_pointer) =
      (record_failure p s memory_allocation_failed size c_max_alignment, 0)

  unfoldable pub c_malloc : Runtime p → ℕ → Result Unfinished (Runtime p × ℕ)
  c_malloc s size = malloc_from s size >>= λ r. ok (report_malloc (has_fault p s) size r)

  unfoldable pub report_calloc :
      Bool → ℕ → ℕ → Runtime p × Result CAllocationError ℕ → Runtime p × ℕ
  report_calloc before count size (s, ok pointer) = (s, pointer)
  report_calloc before count size (s, err out_of_memory) = (
    if before then s else update_failure_request p s (min (count * size) usize_max) c_max_alignment,
    0,
  )
  report_calloc before count size (s, err size_overflow) =
      (record_failure p s memory_allocation_failed usize_max c_max_alignment, 0)
  report_calloc before count size (s, err invalid_pointer) = (s, 0)

  unfoldable pub c_calloc : Runtime p → ℕ → ℕ → Result Unfinished (Runtime p × ℕ)
  c_calloc s count size =
      calloc_from s count size >>= λ r. ok (report_calloc (has_fault p s) count size r)

  unfoldable pub report_realloc :
      Bool → ℕ → Runtime p × Result CAllocationError (Option ℕ) → Runtime p × ℕ
  report_realloc before size (s, ok (some pointer)) = (s, pointer)
  report_realloc before size (s, ok none) = (s, 0)
  report_realloc before size (s, err out_of_memory) =
      (if before then s else update_failure_request p s size c_max_alignment, 0)
  report_realloc before size (s, err size_overflow) =
      (record_failure p s memory_allocation_failed size c_max_alignment, 0)
  report_realloc before size (s, err invalid_pointer) =
      (record_failure p s memory_allocation_failed size c_max_alignment, 0)

  unfoldable pub c_realloc : Runtime p → ℕ → ℕ → Result Unfinished (Runtime p × ℕ)
  c_realloc s pointer size =
      realloc_from s pointer size >>= λ r. ok (report_realloc (has_fault p s) size r)

  unfoldable pub c_free : Runtime p → ℕ → Runtime p
  c_free s pointer = (free_from s pointer).0
