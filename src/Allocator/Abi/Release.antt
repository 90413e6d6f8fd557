-- ===== src/Allocator/Abi/Release.antt =====
-- Releasing a block that `malloc_from` returned, and the zeros of one that `calloc_from` returned.
use jam_script.Prelude.{
  ℕ, zero, suc, ◌+◌, ◌-◌, ◌*◌, ◌≤◌, ◌≡◌, ◌≢◌, refl, ◌∙◌, ap, sym, subst, inl, inr, min, max, true,
  Result, Result-cases, ok, err, ◌>>=◌, >>=-eq-ok, length, replicate, le_bytes, u32_max, arith,
}
use jam_script.Allocator.Layout.{Layout}
use jam_script.Allocator.Platform.{Platform, PlatformLaws}
use jam_script.Allocator.Runtime.{Runtime, saturating_add}
use jam_script.Allocator.Calls.{store, load}
use jam_script.Allocator.Calls.Memory.{load-store}
use jam_script.Allocator.Sound.{IsSound}
use jam_script.Allocator.Sound.Calling.{IsMet, alloc_lem}
use jam_script.Allocator.Sound.Freeing.{dealloc_lem}
use jam_script.Allocator.Abi.{
  CAllocationError, allocation_layout, write_header, header_magic, header_size, malloc_from,
  fill_zero, calloc_size, calloc_from, release, free_from,
}
use jam_script.Allocator.Abi.Sound.{allocation_layout-IsLayout}
use jam_script.Allocator.Abi.Blocks.{
  header_magic-write_header, header_size-write_header, malloc_from-IsBlock, free_from-good,
}

calloc_size-ok : (count size total : ℕ) → calloc_size count size ≡ ok total → count * size ≡ total
unfolding calloc_size
calloc_size-ok count size total e = ground arith

length-replicate : (n b : ℕ) → length (replicate n b) ≡ n
length-replicate zero b = refl
length-replicate (suc n) b = ap suc (length-replicate n b)

module _ (p : Platform) where
  release-live :
      (t : Runtime p) (header : ℕ) (layout : Layout)
      → header ≢ 0
      → (release p t header layout).live_bytes ≡ t.live_bytes - min layout.size u32_max
  unfolding release
  release-live t header layout positive =
      (dealloc_lem p (record t { memory = store t.memory header (le_bytes 4 0) }) header layout
        positive).0

  -- `free_from` of a block that `malloc_from` returned for a size of 32 bits takes the size from the
  -- header: it releases the block with the layout that was asked for.
  free-malloc :
      (s t : Runtime p) (size q : ℕ)
      → size ≤ u32_max
      → malloc_from p s size ≡ ok (t, ok q)
      → (layout : Layout) × (allocation_layout size ≡ ok layout)
        × (free_from p t q ≡ (release p t (q - 16) layout, ok tt))
  free-malloc s t size q small h =
      let b = malloc_from-IsBlock p s t size q h in
      let header = suc b.base in
      let base : q - 16 ≡ header = omega (arith, b.pointer) in
      let wrote : t.memory ≡ write_header b.before.memory header size =
        ap (λ (r : Runtime p). r.memory) b.headed in
      let magic =
        ap (λ m. header_magic m header) wrote
        ∙ header_magic-write_header b.before.memory header size in
      let sized =
        ap (λ m. header_size m header) wrote
        ∙ header_size-write_header b.before.memory header size
        ∙ omega arith in
      let freed : free_from p t q ≡ (release p t header b.layout, ok tt) =
        rw b.pointer (free_from-good p t header size b.layout magic sized b.laid_out) in
      (b.layout, b.laid_out, freed ∙ ap (λ (a : ℕ). (release p t a b.layout, ok tt)) (sym base))

  calloc_from-eq :
      (s : Runtime p) (count size total : ℕ)
      → calloc_size count size ≡ ok total
      → calloc_from p s count size ≡ (malloc_from p s total >>= λ r. ok (fill_zero p total r))
  unfolding calloc_from
  calloc_from-eq s count size total e = rw (e, calloc_from) refl

  calloc_from-eq_err :
      (s : Runtime p) (count size : ℕ) (e : CAllocationError)
      → calloc_size count size ≡ err e
      → calloc_from p s count size ≡ ok (s, err e)
  unfolding calloc_from
  calloc_from-eq_err s count size e failed = rw (failed, calloc_from) refl

  load-fill_zero :
      (total q : ℕ) (t : Runtime p) (r : Runtime p × Result CAllocationError ℕ)
      → fill_zero p total r ≡ (t, ok q)
      → load t.memory q total ≡ replicate total 0
  unfolding fill_zero
  load-fill_zero total q t (u, err e) h = cc
  load-fill_zero total q t (u, ok q') h =
      let same : store u.memory q' (replicate total 0) ≡ t.memory = cc (ap (λ r. r.0.memory) h) in
      let pointer : q' ≡ q = cc h in
      rw (← same, ← pointer)
        (subst (λ n. load (store u.memory q' (replicate total 0)) q' n ≡ replicate total 0)
          (length-replicate total 0) (load-store u.memory q' (replicate total 0)))

  -- If `calloc_from` returns a pointer, the bytes behind it are zeros, as many as were asked for.
  pub load-calloc_from :
      (s t : Runtime p) (count size q : ℕ)
      → calloc_from p s count size ≡ ok (t, ok q)
      → load t.memory q (count * size) ≡ replicate (count * size) 0
  load-calloc_from s t count size q h = elim (Result-cases (calloc_size count size)) [
    | inr (e, failed) ↦ cc (sym (calloc_from-eq_err s count size e failed) ∙ h)
    | inl (total, found) ↦
        let (r, e, filled) =
          >>=-eq-ok (malloc_from p s total) (λ r. ok (fill_zero p total r))
            (sym (calloc_from-eq s count size total found) ∙ h) in
        rw (calloc_size-ok count size total found) (load-fill_zero total q t r (cc filled))
  ]

module _ (p : Platform) (laws : PlatformLaws p) where
  -- In an initialised runtime that satisfies the invariant, let `malloc_from` return a pointer for a
  -- size of 32 bits, and let the live bytes with the block fit in 32 bits. `free_from` of the pointer
  -- then brings the live bytes back to what they were.
  pub live-free-malloc :
      (s t : Runtime p) (size q : ℕ)
      → IsSound p s
      → s.runtime_initialized ≡ true
      → s.live_bytes + 16 + max size 1 ≤ u32_max
      → malloc_from p s size ≡ ok (t, ok q)
      → (free_from p t q).0.live_bytes ≡ s.live_bytes
  unfolding saturating_add
  live-free-malloc s t size q h on room e =
      let b = malloc_from-IsBlock p s t size q e in
      let (laid, sized) = allocation_layout-IsLayout size b.layout b.laid_out in
      let (r, e', answer) = alloc_lem p laws s b.layout h laid on (λ z. omega arith) in
      let same : r ≡ (b.before, suc b.base) = cc (sym e' ∙ b.allocated) in
      let met : IsMet p s b.layout b.before =
        subst (λ (x : Runtime p × ℕ). x.1 ≢ 0 → IsMet p s b.layout x.0) same answer.met
          (λ z. omega arith) in
      let held : t.live_bytes ≡ b.before.live_bytes =
        ap (λ (x : Runtime p). x.live_bytes) b.headed in
      let (layout, laid_out, freed) = free-malloc p s t size q (omega arith) e in
      let layouts : layout ≡ b.layout = cc (sym laid_out ∙ b.laid_out) in
      let left =
        ap (λ (x : Runtime p × Result CAllocationError (Unit {0})). x.0.live_bytes) freed
        ∙ release-live p t (q - 16) layout (λ z. omega (arith, b.pointer)) in
      let counted = added s.live_bytes b.layout.size (omega arith) in
      let asked : layout.size ≡ b.layout.size = ap (λ (l : Layout). l.size) layouts in
      omega (arith, left, held, met.live, counted, asked)
    where
      added : (live n : ℕ) → live + n ≤ u32_max → saturating_add live (min n u32_max) ≡ live + n
      added live n room = omega arith
