-- ===== src/Allocator/Sound/Freeing.antt =====
-- What `dealloc` and `move_block` do on each branch.
use jam_script.Prelude.{
  ℕ, suc, ◌≡◌, ◌≢◌, refl, inl, inr, ◌-◌, min, ◌||◌, ◌==◌, Bool-cases, some, u32_max, arith,
}
use jam_script.Allocator.Layout.{Layout, from_size_align}
use jam_script.Allocator.Platform.{Platform, Within, HeapLaws}
use jam_script.Allocator.Runtime.{Runtime, record_deallocation, update_fault_metrics}
use jam_script.Allocator.Calls.{copy, dealloc, move_block}
use jam_script.Allocator.Sound.{IsSound}

module _ (p : Platform) where
  pub from_size_align-some :
      (size align : ℕ) (layout : Layout)
      → from_size_align size align ≡ some layout
      → (layout.size ≡ size) × (layout.align ≡ align)
  unfolding from_size_align
  from_size_align-some size align layout e = (ground arith, ground arith)

  -- What `dealloc` leaves of a block, also of an empty one.
  pub dealloc_lem :
      (s : Runtime p) (pointer : ℕ) (layout : Layout)
      → pointer ≢ 0
      → ((dealloc p s pointer layout).live_bytes ≡ s.live_bytes - min layout.size u32_max)
        × ((dealloc p s pointer layout).fault_record.code ≡ s.fault_record.code)
        × ((dealloc p s pointer layout).runtime_initialized ≡ s.runtime_initialized)
  unfolding dealloc record_deallocation
  dealloc_lem s pointer layout block = (ground arith, ground arith, ground arith)

  -- What the heap does not hold, outside the block that is freed, is as before.
  pub dealloc-memory :
      (heap_laws : HeapLaws p) (s : Runtime p) (pointer : ℕ) (layout : Layout) (a : ℕ)
      → ¬ (p.Holds s.heap a)
      → ¬ (Within pointer (p.block_size layout) a)
      → (dealloc p s pointer layout).memory a ≡ s.memory a
  unfolding dealloc record_deallocation update_fault_metrics
  dealloc-memory heap_laws s pointer layout a free outside =
      elim (Bool-cases (pointer == 0 || layout.size == 0)) [
        | inl e ↦ rw (e, dealloc) refl
        | inr e ↦
            rw (e, dealloc)
              (heap_laws.dealloc_keeps s.heap s.memory pointer layout a free outside).0
      ]

  pub with_memory-IsSound :
      (s : Runtime p) (memory : ℕ → ℕ) → IsSound p s → IsSound p (record s { memory = memory })
  with_memory-IsSound s memory h = record {
    counted = record {
      capped = h.counted.capped;
      committed = h.counted.committed;
      live = h.counted.live;
      high_water = h.counted.high_water;
      cumulative = h.counted.cumulative;
    };
    header = h.header;
    metrics = h.metrics;
    counter = h.counter;
  }

  pub move_block-zero :
      (t : Runtime p) (pointer : ℕ) (old new : Layout)
      → move_block p pointer old new (t, 0) ≡ (t, 0)
  unfolding move_block
  move_block-zero t pointer old new = refl

  pub move_block-suc :
      (t : Runtime p) (pointer q : ℕ) (old new : Layout)
      → pointer ≢ 0
      → move_block p pointer old new (t, suc q) ≡ (
        dealloc p
            (record t { memory = copy t.memory pointer (suc q) (min old.size new.size) })
            pointer
            old,
        suc q,
      )
  unfolding move_block
  move_block-suc t pointer q old new block = ground arith

  pub move_block-null :
      (t : Runtime p) (q : ℕ) (old new : Layout) → move_block p 0 old new (t, suc q) ≡ (t, suc q)
  unfolding move_block
  move_block-null t q old new = ground arith
