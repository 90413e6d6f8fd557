-- ===== src/Allocator/Abi/Ending.antt =====
-- The C functions return, and the invariant of the allocator holds afterwards.
use jam_script.Prelude.{ℕ, ◌-◌, refl, inl, inr, ◌==◌, Bool-cases, Result-cases, none, ok, err}
use jam_script.Allocator.Layout.{Layout}
use jam_script.Allocator.Platform.{Platform, PlatformLaws}
use jam_script.Allocator.Runtime.{Runtime, has_fault}
use jam_script.Allocator.Calls.{alloc, realloc_preserving, move_block}
use jam_script.Allocator.Sound.{IsSound}
use jam_script.Allocator.Sound.Calling.{IsLayout, alloc_total}
use jam_script.Allocator.Abi.{
  invalid_pointer, c_allocation_magic, calloc_size, allocation_layout, header_magic, header_size,
  place_header, malloc_from, fill_zero, calloc_from, free_from, some_pointer, no_pointer, resize,
  realloc_from, report_malloc, c_malloc, report_calloc, c_calloc, report_realloc, c_realloc,
}
use jam_script.Allocator.Abi.Sound.{
  Ends, Ends-map, allocation_layout-IsLayout, LeavesSound, place_header-LeavesSound,
  fill_zero-LeavesSound, free_from-LeavesSound, move_block-LeavesSound, some_pointer-LeavesSound,
  no_pointer-LeavesSound, report_malloc-LeavesSound, report_calloc-LeavesSound,
  report_realloc-LeavesSound,
}

module _ (p : Platform) (laws : PlatformLaws p) where
  pub malloc_from-Ends :
      (s : Runtime p) (size : ℕ) → IsSound p s → Ends (LeavesSound p) (malloc_from p s size)
  unfolding malloc_from
  malloc_from-Ends s size h = elim (Result-cases (allocation_layout size)) [
    | inr (e, failed) ↦ rw (failed, malloc_from) ((s, err e), refl, h)
    | inl (layout, found) ↦
        let (a, sized) = allocation_layout-IsLayout size layout found in
        let (r, e, sound, _) = alloc_total p laws s layout h a in
        rw (found, malloc_from)
          (Ends-map (LeavesSound p) (LeavesSound p) (place_header p size) (alloc p s layout)
            (place_header-LeavesSound p size) (r, e, sound))
  ]

  pub c_malloc-Ends :
      (s : Runtime p) (size : ℕ) → IsSound p s → Ends (LeavesSound p) (c_malloc p s size)
  unfolding c_malloc
  c_malloc-Ends s size h =
      Ends-map (LeavesSound p) (LeavesSound p) (report_malloc p (has_fault p s) size)
        (malloc_from p s size) (report_malloc-LeavesSound p (has_fault p s) size)
        (malloc_from-Ends s size h)

  calloc_from-Ends :
      (s : Runtime p) (count size : ℕ)
      → IsSound p s
      → Ends (LeavesSound p) (calloc_from p s count size)
  unfolding calloc_from
  calloc_from-Ends s count size h = elim (Result-cases (calloc_size count size)) [
    | inr (e, failed) ↦ rw (failed, calloc_from) ((s, err e), refl, h)
    | inl (total, found) ↦
        rw (found, calloc_from)
          (Ends-map (LeavesSound p) (LeavesSound p) (fill_zero p total) (malloc_from p s total)
            (fill_zero-LeavesSound p total) (malloc_from-Ends s total h))
  ]

  pub c_calloc-Ends :
      (s : Runtime p) (count size : ℕ)
      → IsSound p s
      → Ends (LeavesSound p) (c_calloc p s count size)
  unfolding c_calloc
  c_calloc-Ends s count size h =
      Ends-map (LeavesSound p) (LeavesSound p) (report_calloc p (has_fault p s) count size)
        (calloc_from p s count size) (report_calloc-LeavesSound p (has_fault p s) count size)
        (calloc_from-Ends s count size h)

  pub realloc_preserving-Ends :
      (s : Runtime p) (pointer : ℕ) (old new : Layout)
      → IsSound p s
      → IsLayout new
      → Ends (LeavesSound p) (realloc_preserving p s pointer old new)
  unfolding realloc_preserving
  realloc_preserving-Ends s pointer old new h a =
      let (r, e, sound, _) = alloc_total p laws s new h a in
      Ends-map (LeavesSound p) (LeavesSound p) (move_block p pointer old new) (alloc p s new)
        (move_block-LeavesSound p pointer old new) (r, e, sound)

  resize-Ends :
      (s : Runtime p) (pointer : ℕ) (old : Layout) (size : ℕ)
      → IsSound p s
      → Ends (LeavesSound p) (resize p s pointer old size)
  unfolding resize
  resize-Ends s pointer old size h = elim (Bool-cases (size == 0)) [
    | inl empty ↦
        rw (empty, resize)
          (
            no_pointer p (free_from p s pointer),
            refl,
            no_pointer-LeavesSound p (free_from p s pointer) (free_from-LeavesSound p s pointer h),
          )
    | inr sized ↦ elim (Result-cases (allocation_layout size)) [
      | inr (e, failed) ↦ rw (sized, failed, resize) ((s, err e), refl, h)
      | inl (new, found) ↦
          rw (sized, found, resize)
            (Ends-map (LeavesSound p) (LeavesSound p) (λ r. some_pointer p (place_header p size r))
              (realloc_preserving p s (pointer - 16) old new)
              (λ r k.
                some_pointer-LeavesSound p (place_header p size r)
                  (place_header-LeavesSound p size r k))
              (realloc_preserving-Ends s (pointer - 16) old new h
                (allocation_layout-IsLayout size new found).0))
    ]
  ]

  realloc_from-Ends :
      (s : Runtime p) (pointer size : ℕ)
      → IsSound p s
      → Ends (LeavesSound p) (realloc_from p s pointer size)
  unfolding realloc_from
  realloc_from-Ends s pointer size h =
      let header = pointer - 16 in
      elim (Bool-cases (pointer == 0)) [
        | inl null ↦ elim (Bool-cases (size == 0)) [
          | inl empty ↦ rw (null, empty, realloc_from) ((s, ok none), refl, h)
          | inr sized ↦
              rw (null, sized, realloc_from)
                (Ends-map (LeavesSound p) (LeavesSound p) (some_pointer p) (malloc_from p s size)
                  (some_pointer-LeavesSound p) (malloc_from-Ends s size h))
        ]
        | inr block ↦ elim (Bool-cases (header_magic s.memory header == c_allocation_magic)) [
          | inr bad ↦ rw (block, bad, realloc_from) ((s, err invalid_pointer), refl, h)
          | inl good ↦ elim (Result-cases (allocation_layout (header_size s.memory header))) [
            | inr (e, failed) ↦ rw (block, good, failed, realloc_from) ((s, err e), refl, h)
            | inl (layout, found) ↦
                rw (block, good, found, realloc_from) (resize-Ends s pointer layout size h)
          ]
        ]
      ]

  pub c_realloc-Ends :
      (s : Runtime p) (pointer size : ℕ)
      → IsSound p s
      → Ends (LeavesSound p) (c_realloc p s pointer size)
  unfolding c_realloc
  c_realloc-Ends s pointer size h =
      Ends-map (LeavesSound p) (LeavesSound p) (report_realloc p (has_fault p s) size)
        (realloc_from p s pointer size) (report_realloc-LeavesSound p (has_fault p s) size)
        (realloc_from-Ends s pointer size h)
