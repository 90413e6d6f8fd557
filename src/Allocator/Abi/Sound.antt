-- ===== src/Allocator/Abi/Sound.antt =====
-- What the parts of the C functions leave satisfies the invariant of the allocator.
use jam_script.Prelude.{
  ℕ, zero, suc, ◌+◌, ◌-◌, ◌*◌, ◌≡◌, refl, inl, inr, min, max, Bool, true, false, ◌==◌, Bool-cases,
  Result, Result-cases, Option, none, some, ok, err, ◌>>=◌, usize_max, arith,
}
use jam_script.GuestMemory.Fault.{memory_allocation_failed, is_power_below}
use jam_script.Allocator.Layout.{Layout, checked_add, from_size_align}
use jam_script.Allocator.Platform.{Platform}
use jam_script.Allocator.Runtime.{Runtime, Unfinished}
use jam_script.Allocator.Calls.{move_block}
use jam_script.Allocator.Sound.{
  IsSound, IsAlignment, record_failure-IsSound, update_failure_request-IsSound,
}
use jam_script.Allocator.Sound.Calling.{IsLayout, dealloc-IsSound}
use jam_script.Allocator.Sound.Freeing.{
  with_memory-IsSound, move_block-zero, move_block-suc, move_block-null,
}
use jam_script.Allocator.Abi.{
  CAllocationError, size_overflow, invalid_pointer, out_of_memory, c_allocation_magic,
  allocation_layout, header_magic, header_size, write_header, place_header, fill_zero, release,
  free_from, some_pointer, no_pointer, report_malloc, report_calloc, report_realloc, c_free,
}

-- A call ends with a result that has a property.
abbrev pub Ends : {A : Type 0} → (A → Type 0) → Result Unfinished A → Type 0
Ends {A} P m = (r : A) × (m ≡ ok r) × P r

pub Ends-map :
    {A B : Type 0} (P : A → Type 0) (Q : B → Type 0) (f : A → B) (m : Result Unfinished A)
    → ((a : A) → P a → Q (f a))
    → Ends P m
    → Ends Q (m >>= λ a. ok (f a))
Ends-map P Q f m keep (a, e, h) = (f a, rw e refl, keep a h)

c-IsAlignment : IsAlignment 16
unfolding is_power_below
c-IsAlignment = (omega arith, inr refl)

pub allocation_layout-IsLayout :
    (size : ℕ) (layout : Layout)
    → allocation_layout size ≡ ok layout
    → IsLayout layout × (layout.size ≡ 16 + max size 1)
unfolding allocation_layout checked_add from_size_align
allocation_layout-IsLayout size layout e =
    let align : layout.align ≡ 16 = ground arith in
    (rw align (c-IsAlignment, λ z. omega arith), ground arith)

module _ (p : Platform) where
  -- The state that a call leaves satisfies the invariant.
  abbrev pub LeavesSound : {A : Type 0} → Runtime p × A → Type 0
  LeavesSound r = IsSound p r.0

  release-IsSound :
      (s : Runtime p) (header : ℕ) (layout : Layout)
      → IsSound p s
      → IsSound p (release p s header layout)
  unfolding release
  release-IsSound s header layout h =
      dealloc-IsSound p _ header layout (with_memory-IsSound p s _ h)

  pub place_header-suc :
      (size : ℕ) (s : Runtime p) (base : ℕ)
      → place_header p size (s, suc base)
        ≡ (record s { memory = write_header s.memory (suc base) size }, ok (suc base + 16))
  unfolding place_header
  place_header-suc size s base = ground arith

  pub place_header-LeavesSound :
      (size : ℕ) (r : Runtime p × ℕ) → LeavesSound r → LeavesSound (place_header p size r)
  unfolding place_header
  place_header-LeavesSound size (s, zero) h = h
  place_header-LeavesSound size (s, suc base) h =
      rw (place_header-suc size s base)
        (with_memory-IsSound p s (write_header s.memory (suc base) size) h)

  pub fill_zero-LeavesSound :
      (total : ℕ) (r : Runtime p × Result CAllocationError ℕ)
      → LeavesSound r
      → LeavesSound (fill_zero p total r)
  unfolding fill_zero
  fill_zero-LeavesSound total (s, ok pointer) h = with_memory-IsSound p s _ h
  fill_zero-LeavesSound total (s, err e) h = h

  pub free_from-LeavesSound :
      (s : Runtime p) (pointer : ℕ) → IsSound p s → LeavesSound (free_from p s pointer)
  unfolding free_from
  free_from-LeavesSound s pointer h =
      let header = pointer - 16 in
      elim (Bool-cases (pointer == 0)) [
        | inl null ↦ rw (null, free_from) h
        | inr block ↦ elim (Bool-cases (header_magic s.memory header == c_allocation_magic)) [
          | inr bad ↦ rw (block, bad, free_from) h
          | inl good ↦ elim (Result-cases (allocation_layout (header_size s.memory header))) [
            | inr (e, failed) ↦ rw (block, good, failed, free_from) h
            | inl (layout, found) ↦
                rw (block, good, found, free_from) (release-IsSound s header layout h)
          ]
        ]
      ]

  pub move_block-LeavesSound :
      (pointer : ℕ) (old new : Layout) (r : Runtime p × ℕ)
      → LeavesSound r
      → LeavesSound (move_block p pointer old new r)
  move_block-LeavesSound pointer old new (t, zero) h = rw (move_block-zero p t pointer old new) h
  move_block-LeavesSound zero old new (t, suc q) h = rw (move_block-null p t q old new) h
  move_block-LeavesSound (suc a) old new (t, suc q) h =
      rw (move_block-suc p t (suc a) q old new (λ e. omega arith))
        (dealloc-IsSound p _ (suc a) old (with_memory-IsSound p t _ h))

  pub some_pointer-LeavesSound :
      (r : Runtime p × Result CAllocationError ℕ) → LeavesSound r → LeavesSound (some_pointer p r)
  unfolding some_pointer
  some_pointer-LeavesSound (s, ok pointer) h = h
  some_pointer-LeavesSound (s, err e) h = h

  pub no_pointer-LeavesSound :
      (r : Runtime p × Result CAllocationError (Unit {0}))
      → LeavesSound r
      → LeavesSound (no_pointer p r)
  unfolding no_pointer
  no_pointer-LeavesSound (s, ok u) h = h
  no_pointer-LeavesSound (s, err e) h = h

  pub report_malloc-LeavesSound :
      (before : Bool) (size : ℕ) (r : Runtime p × Result CAllocationError ℕ)
      → LeavesSound r
      → LeavesSound (report_malloc p before size r)
  unfolding report_malloc
  report_malloc-LeavesSound before size (s, ok pointer) h = h
  report_malloc-LeavesSound true size (s, err out_of_memory) h = h
  report_malloc-LeavesSound false size (s, err out_of_memory) h =
      update_failure_request-IsSound p size 16 h c-IsAlignment
  report_malloc-LeavesSound before size (s, err size_overflow) h =
      record_failure-IsSound p memory_allocation_failed size 16 h c-IsAlignment
  report_malloc-LeavesSound before size (s, err invalid_pointer) h =
      record_failure-IsSound p memory_allocation_failed size 16 h c-IsAlignment

  pub report_calloc-LeavesSound :
      (before : Bool) (count size : ℕ) (r : Runtime p × Result CAllocationError ℕ)
      → LeavesSound r
      → LeavesSound (report_calloc p before count size r)
  unfolding report_calloc
  report_calloc-LeavesSound before count size (s, ok pointer) h = h
  report_calloc-LeavesSound true count size (s, err out_of_memory) h = h
  report_calloc-LeavesSound false count size (s, err out_of_memory) h =
      update_failure_request-IsSound p (min (count * size) usize_max) 16 h c-IsAlignment
  report_calloc-LeavesSound before count size (s, err size_overflow) h =
      record_failure-IsSound p memory_allocation_failed usize_max 16 h c-IsAlignment
  report_calloc-LeavesSound before count size (s, err invalid_pointer) h = h

  pub report_realloc-LeavesSound :
      (before : Bool) (size : ℕ) (r : Runtime p × Result CAllocationError (Option ℕ))
      → LeavesSound r
      → LeavesSound (report_realloc p before size r)
  unfolding report_realloc
  report_realloc-LeavesSound before size (s, ok (some pointer)) h = h
  report_realloc-LeavesSound before size (s, ok none) h = h
  report_realloc-LeavesSound true size (s, err out_of_memory) h = h
  report_realloc-LeavesSound false size (s, err out_of_memory) h =
      update_failure_request-IsSound p size 16 h c-IsAlignment
  report_realloc-LeavesSound before size (s, err size_overflow) h =
      record_failure-IsSound p memory_allocation_failed size 16 h c-IsAlignment
  report_realloc-LeavesSound before size (s, err invalid_pointer) h =
      record_failure-IsSound p memory_allocation_failed size 16 h c-IsAlignment

  pub c_free-IsSound : (s : Runtime p) (pointer : ℕ) → IsSound p s → IsSound p (c_free p s pointer)
  unfolding c_free
  c_free-IsSound s pointer h = free_from-LeavesSound s pointer h
