-- ===== src/Allocator/Layout.antt =====
-- `core::alloc::Layout` and `usize::checked_next_power_of_two` of Rust's library, as documented.
use jam_script.Prelude.{
  ℕ, zero, suc, ◌+◌, ◌*◌, ◌^◌, ◌-◌, ◌≤◌, ◌≡◌, ◌||◌, not, leb, ltb, Option, none, some,
  if◌then◌else◌, usize_max, arith,
}
use jam_script.GuestMemory.Fault.{is_power_below}

pub record Layout : Type 0 where
  pub size : ℕ
  pub align : ℕ

-- The first of `c`, `2 * c`, ... (`n` of them) that is at least `v`.
unfoldable pub power_from : ℕ → ℕ → ℕ → Option ℕ
power_from zero c v = none
power_from (suc n) c v = let rest = power_from n (2 * c) v in if leb v c then some c else rest

-- `none` if no power of two of 64 bits is at least `v`.
unfoldable pub next_power_of_two : ℕ → Option ℕ
next_power_of_two v = power_from 64 1 v

-- `usize::checked_add`
unfoldable pub checked_add : ℕ → ℕ → Option ℕ
checked_add a b = if ltb usize_max (a + b) then none else some (a + b)

-- `Layout::from_size_align`: the size, rounded up to the alignment, fits in an `isize`.
unfoldable pub from_size_align : ℕ → ℕ → Option Layout
from_size_align size align =
    if not (is_power_below 64 align) || ltb (2 ^ 63 - align) size
    then none
    else some (record { size = size; align = align })

power_from-le : (n c v b : ℕ) → power_from n c v ≡ some b → v ≤ b
unfolding power_from
power_from-le zero c v b h = cc
power_from-le (suc n) c v b h = ground (arith, power_from-le n (2 * c) v b)

pub next_power_of_two-le : (v b : ℕ) → next_power_of_two v ≡ some b → v ≤ b
unfolding next_power_of_two
next_power_of_two-le v b h = power_from-le 64 1 v b h
