-- ===== src/Allocator/Abi/Blocks.antt =====
-- A block that `malloc_from` returned, and its header.
use jam_script.Prelude.{
  ℕ, zero, suc, ◌+◌, ◌-◌, ◌≡◌, refl, ◌∙◌, ap, sym, inl, inr, min, false, ◌==◌, Result-cases, ok,
  err, ◌>>=◌, >>=-eq-ok, le_bytes, from_le, from_le-le_bytes, u32_max, arith,
}
use jam_script.Allocator.Layout.{Layout}
use jam_script.Allocator.Platform.{Platform}
use jam_script.Allocator.Runtime.{Runtime}
use jam_script.Allocator.Calls.{alloc}
use jam_script.Allocator.Calls.Memory.{load-store_first, load-store_second}
use jam_script.Allocator.Abi.{
  CAllocationError, c_allocation_magic, allocation_layout, write_header, header_magic, header_size,
  place_header, malloc_from, release, free_from,
}
use jam_script.Allocator.Abi.Sound.{place_header-suc}

pub header_magic-write_header :
    (m : ℕ → ℕ) (base size : ℕ) → header_magic (write_header m base size) base ≡ c_allocation_magic
unfolding header_magic write_header le_bytes
header_magic-write_header m base size =
    ap from_le
      (load-store_first m base (le_bytes 4 c_allocation_magic) (le_bytes 4 (min size u32_max)))
    ∙ from_le-le_bytes 4 c_allocation_magic (omega arith)

pub header_size-write_header :
    (m : ℕ → ℕ) (base size : ℕ) → header_size (write_header m base size) base ≡ min size u32_max
unfolding header_size write_header le_bytes
header_size-write_header m base size =
    ap from_le
      (load-store_second m base (le_bytes 4 c_allocation_magic) (le_bytes 4 (min size u32_max)))
    ∙ from_le-le_bytes 4 (min size u32_max) (omega arith)

module _ (p : Platform) where
  -- How a block came about.
  pub record IsBlock (s : Runtime p) (size : ℕ) (t : Runtime p) (q : ℕ) : Type 0 where
    pub layout : Layout
    pub before : Runtime p
    pub base : ℕ
    pub laid_out : allocation_layout size ≡ ok layout
    pub allocated : alloc p s layout ≡ ok (before, suc base)
    pub headed : t ≡ record before { memory = write_header before.memory (suc base) size }
    pub pointer : q ≡ suc base + 16

  malloc_from-eq :
      (s : Runtime p) (size : ℕ) (layout : Layout)
      → allocation_layout size ≡ ok layout
      → malloc_from p s size ≡ (alloc p s layout >>= λ r. ok (place_header p size r))
  unfolding malloc_from
  malloc_from-eq s size layout e = rw (e, malloc_from) refl

  malloc_from-eq_err :
      (s : Runtime p) (size : ℕ) (e : CAllocationError)
      → allocation_layout size ≡ err e
      → malloc_from p s size ≡ ok (s, err e)
  unfolding malloc_from
  malloc_from-eq_err s size e failed = rw (failed, malloc_from) refl

  placed-IsBlock :
      (s t : Runtime p) (size q : ℕ) (layout : Layout) (r : Runtime p × ℕ)
      → allocation_layout size ≡ ok layout
      → alloc p s layout ≡ ok r
      → place_header p size r ≡ (t, ok q)
      → IsBlock s size t q
  unfolding place_header
  placed-IsBlock s t size q layout (u, zero) found e h = cc
  placed-IsBlock s t size q layout (u, suc base) found e h =
      let same = sym (place_header-suc p size u base) ∙ h in
      record {
        layout = layout;
        before = u;
        base = base;
        laid_out = found;
        allocated = e;
        headed = cc (ap (λ r. r.0) same);
        pointer = cc same;
      }

  pub malloc_from-IsBlock :
      (s t : Runtime p) (size q : ℕ) → malloc_from p s size ≡ ok (t, ok q) → IsBlock s size t q
  malloc_from-IsBlock s t size q h = elim (Result-cases (allocation_layout size)) [
    | inr (e, failed) ↦ cc (sym (malloc_from-eq_err s size e failed) ∙ h)
    | inl (layout, found) ↦
        let (r, e, placed) =
          >>=-eq-ok (alloc p s layout) (λ r. ok (place_header p size r))
            (sym (malloc_from-eq s size layout found) ∙ h) in
        placed-IsBlock s t size q layout r found e (cc placed)
  ]

  pub free_from-good :
      (t : Runtime p) (header size : ℕ) (layout : Layout)
      → header_magic t.memory header ≡ c_allocation_magic
      → header_size t.memory header ≡ size
      → allocation_layout size ≡ ok layout
      → free_from p t (header + 16) ≡ (release p t header layout, ok tt)
  unfolding free_from
  free_from-good t header size layout magic sized found =
      let back : header + 16 - 16 ≡ header = omega arith in
      let nonnull : (header + 16 == 0) ≡ false = ground arith in
      rw (nonnull, back, magic, sized, found, free_from)
        (ap (λ (a : ℕ). (release p t a layout, ok tt)) back)
