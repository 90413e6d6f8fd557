-- ===== src/Allocator/Sound/Moving.antt =====
-- What `realloc` does with the memory and the counters.
use jam_script.Prelude.{
  ℕ, zero, suc, ◌<◌, ◌≡◌, ◌≢◌, refl, inl, inr, ◌∙◌, ◌+◌, ◌-◌, min, true, ok, Option-cases, u32_max,
  ap, subst, arith,
}
use jam_script.GuestMemory.Fault.{memory_allocation_failed}
use jam_script.Allocator.Layout.{Layout, from_size_align}
use jam_script.Allocator.Platform.{Platform, Within, PlatformLaws, HeapLaws}
use jam_script.Allocator.Runtime.{Runtime, record_failure, saturating_add}
use jam_script.Allocator.Calls.{copy, dealloc, move_block, realloc_preserving, with_layout, realloc}
use jam_script.Allocator.Calls.Memory.{copy_lem, copy-outside}
use jam_script.Allocator.Sound.{IsSound, record_failure-IsSound}
use jam_script.Allocator.Sound.Failing.{record_failure-code}
use jam_script.Allocator.Sound.Placing.{InUse, KeepsMemory, IsPlaced, KeepsUsed, alloc-KeepsUsed}
use jam_script.Allocator.Sound.Calling.{IsLayout, IsAnswer, alloc_lem, dealloc-IsSound}
use jam_script.Allocator.Sound.Freeing.{
  from_size_align-some, dealloc_lem, dealloc-memory, with_memory-IsSound, move_block-zero,
  move_block-suc,
}

module _ (p : Platform) where
  -- What a `realloc` of a block leaves. A null pointer: the memory in use and the live bytes as
  -- before, and a fault on record. Any other: the bytes of the block, as far as both sizes go, at the
  -- new place, all other memory in use as before, and the new size in place of the old among the live
  -- bytes.
  pub record IsMoved (s : Runtime p) (pointer : ℕ) (old : Layout) (new_size : ℕ) (r : Runtime p × ℕ)
      : Type 0 where
    pub sound : IsSound p r.0
    pub refused :
        r.1 ≡ 0
        → KeepsMemory p s r.0 × (r.0.live_bytes ≡ s.live_bytes) × (r.0.fault_record.code ≢ 0)
    pub copied :
        r.1 ≢ 0
        → (i : ℕ) → i < min old.size new_size
        → r.0.memory (r.1 + i) ≡ s.memory (pointer + i)
    pub others :
        r.1 ≢ 0
        → (a : ℕ) → InUse p s a
        → ¬ (Within pointer (p.block_size old) a)
        → r.0.memory a ≡ s.memory a
    pub live :
        r.1 ≢ 0
        → r.0.live_bytes ≡ saturating_add s.live_bytes (min new_size u32_max) - min old.size u32_max
    pub reported : r.1 ≢ 0 → r.0.fault_record.code ≡ s.fault_record.code

  -- The block is in use, all of it.
  abbrev pub IsAllocated : Runtime p → ℕ → Layout → Type 0
  IsAllocated s pointer layout = (a : ℕ) → Within pointer (p.block_size layout) a → InUse p s a

  -- A move into a block that was not in use.
  module _ (heap_laws : HeapLaws p) (s t : Runtime p) (pointer q : ℕ) (old new : Layout)
      (used : IsAllocated s pointer old) (kept : KeepsMemory p s t)
      (placed : IsPlaced p s t new q) where
    abbrev size : ℕ
    size = min old.size new.size

    abbrev moved : Runtime p
    moved = record t { memory = copy t.memory pointer q size }

    moved-copied :
        (i : ℕ) → i < size → (dealloc p moved pointer old).memory (q + i) ≡ s.memory (pointer + i)
    moved-copied i small =
        let fits_old = heap_laws.block_fits old in
        let fits_new = heap_laws.block_fits new in
        let inside : Within q (p.block_size new) (q + i) = (omega arith, omega arith) in
        let source : Within pointer (p.block_size old) (pointer + i) = (omega arith, omega arith) in
        dealloc-memory p heap_laws moved pointer old (q + i) (placed.taken (q + i) inside)
          (λ overlap. placed.fresh (q + i) inside (used (q + i) overlap))
        ∙ copy_lem t.memory pointer q size i small
        ∙ (kept (pointer + i) (used (pointer + i) source)).0

    moved-others :
        (a : ℕ)
        → InUse p s a
        → ¬ (Within pointer (p.block_size old) a)
        → (dealloc p moved pointer old).memory a ≡ s.memory a
    moved-others a in_use outside =
        let (same, in_use') = kept a in_use in
        let fits_new = heap_laws.block_fits new in
        dealloc-memory p heap_laws moved pointer old a in_use'.0 outside
        ∙ copy-outside t.memory pointer q size a
            (λ inside. placed.fresh a (inside.0, omega (arith, inside.1, fits_new)) in_use)
        ∙ same

  move_block-IsMoved :
      (heap_laws : HeapLaws p) (s : Runtime p) (pointer : ℕ) (old new : Layout) (r : Runtime p × ℕ)
      → pointer ≢ 0
      → IsAllocated s pointer old
      → IsAnswer p s new r
      → KeepsUsed p s new r
      → IsMoved s pointer old new.size (move_block p pointer old new r)
  move_block-IsMoved heap_laws s pointer old new (t, zero) block used h k =
      let h' = h.refused refl in
      rw (move_block-zero p t pointer old new) (record {
        sound = h.sound;
        refused = λ _. (k.kept, h'.live, h'.reported);
        copied = λ e. absurd (e refl);
        others = λ e. absurd (e refl);
        live = λ e. absurd (e refl);
        reported = λ e. absurd (e refl);
      })
  move_block-IsMoved heap_laws s pointer old new (t, suc q) block used h k =
      let met = h.met (λ e. omega arith) in
      let n = min old.size new.size in
      let moved = record t { memory = copy t.memory pointer (suc q) n } in
      let freed = dealloc_lem p moved pointer old block in
      let placed = k.placed (λ e. omega arith) in
      rw (move_block-suc p t pointer q old new block) (record {
        sound =
            dealloc-IsSound p moved pointer old
              (with_memory-IsSound p t (copy t.memory pointer (suc q) n) h.sound);
        refused = λ e. absurd (omega arith);
        copied = λ _. moved-copied heap_laws s t pointer (suc q) old new used k.kept placed;
        others = λ _. moved-others heap_laws s t pointer (suc q) old new used k.kept placed;
        live = λ _. freed.0 ∙ ap (λ l. l - min old.size u32_max) met.live;
        reported = λ _. freed.1 ∙ met.code;
      })

  refused-IsMoved :
      (s : Runtime p) (pointer new_size : ℕ) (old : Layout)
      → IsSound p s
      → IsLayout old
      → IsMoved s pointer old new_size
          (record_failure p s memory_allocation_failed new_size old.align, 0)
  unfolding record_failure
  refused-IsMoved s pointer new_size old h a = record {
    sound = record_failure-IsSound p memory_allocation_failed new_size old.align h a.0;
    refused = λ _. (
      λ a used. (refl, used),
      refl,
      record_failure-code p s memory_allocation_failed new_size old.align,
    );
    copied = λ e. absurd (e refl);
    others = λ e. absurd (e refl);
    live = λ e. absurd (e refl);
    reported = λ e. absurd (e refl);
  }

  realloc-eq :
      (s : Runtime p) (pointer new_size : ℕ) (old : Layout)
      → pointer ≢ 0
      → new_size ≢ 0
      → realloc p s pointer old new_size
        ≡ with_layout p s new_size old.align (realloc_preserving p s pointer old)
  unfolding realloc
  realloc-eq s pointer new_size old block sized = ground arith

module _ (p : Platform) (laws : PlatformLaws p) (heap_laws : HeapLaws p) where
  -- In an initialised runtime that satisfies the invariant, under the laws of the heap and of `sbrk`,
  -- `realloc` of a block that is in use, with an alignment below 2 ^ 32, to a size that is not zero
  -- returns, and the invariant holds afterwards. If the pointer is null, the memory in use and the
  -- live bytes are as before and a fault is on record. If not, each byte of the old block below both
  -- sizes is found at the new place, all memory in use outside the old block is as before, the new
  -- size has taken the place of the old among the live bytes, and the code on record is as before.
  pub realloc_lem :
      (s : Runtime p) (pointer : ℕ) (old : Layout) (new_size : ℕ)
      → IsSound p s
      → IsLayout old
      → s.runtime_initialized ≡ true
      → pointer ≢ 0
      → IsAllocated p s pointer old
      → new_size ≢ 0
      → (r : Runtime p × ℕ) × (realloc p s pointer old new_size ≡ ok r)
        × IsMoved p s pointer old new_size r
  unfolding with_layout realloc_preserving
  realloc_lem s pointer old new_size h a on block used sized =
      let failed = record_failure p s memory_allocation_failed new_size old.align in
      rw (realloc-eq p s pointer new_size old block sized)
        (elim (Option-cases (from_size_align new_size old.align)) [
          | inl e ↦
              ((failed, 0), rw (e, with_layout) refl, refused-IsMoved p s pointer new_size old h a)
          | inr (new, e) ↦
              let fields = from_size_align-some p new_size old.align new e in
              let new_sized : new.size ≢ 0 = rw fields.0 sized in
              let (r, e', answer) = alloc_lem p laws s new h (rw fields.1 a) on new_sized in
              let k = alloc-KeepsUsed p laws heap_laws s new r on new_sized e' in
              (
                move_block p pointer old new r,
                rw (e, e', with_layout) refl,
                subst (λ n. IsMoved p s pointer old n (move_block p pointer old new r)) fields.0
                    (move_block-IsMoved p heap_laws s pointer old new r block used answer k),
              )
        ])
