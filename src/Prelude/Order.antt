-- ===== src/Prelude/Order.antt =====
-- Rust's order on `[u8]`, lexicographic, and equality.
use mathlib.Core.Path.{◌≡◌, refl}
use mathlib.Core.Bool.{Bool, true, false, ◌&&◌, ◌||◌}
use mathlib.Core.List.{[], ◌∷◌}
use native.Mathlib.Omega.{arith}
use jam_script.Prelude.Tests.{ltb, ◌==◌}
use jam_script.Prelude.LittleEndian.{Bytes}

unfoldable pub bytes_eq : Bytes → Bytes → Bool
bytes_eq [] [] = true
bytes_eq [] (y ∷ ys) = false
bytes_eq (x ∷ xs) [] = false
bytes_eq (x ∷ xs) (y ∷ ys) = x == y && bytes_eq xs ys

unfoldable pub bytes_lt : Bytes → Bytes → Bool
bytes_lt [] [] = false
bytes_lt [] (y ∷ ys) = true
bytes_lt (x ∷ xs) [] = false
bytes_lt (x ∷ xs) (y ∷ ys) = ltb x y || (x == y && bytes_lt xs ys)

pub bytes_eq_refl : (xs : Bytes) → bytes_eq xs xs ≡ true
unfolding bytes_eq
bytes_eq_refl [] = refl
bytes_eq_refl (x ∷ xs) = ground (arith, bytes_eq_refl xs)

pub bytes_eq→eq : (xs ys : Bytes) → bytes_eq xs ys ≡ true → xs ≡ ys
unfolding bytes_eq
bytes_eq→eq [] [] h = refl
bytes_eq→eq [] (y ∷ ys) h = cc
bytes_eq→eq (x ∷ xs) [] h = cc
bytes_eq→eq (x ∷ xs) (y ∷ ys) h = ground (arith, bytes_eq→eq xs ys)

pub bytes_lt_irrefl : (xs : Bytes) → bytes_lt xs xs ≡ false
unfolding bytes_lt
bytes_lt_irrefl [] = refl
bytes_lt_irrefl (x ∷ xs) = ground (arith, bytes_lt_irrefl xs)

pub bytes_lt_trans :
    (xs ys zs : Bytes) → bytes_lt xs ys ≡ true → bytes_lt ys zs ≡ true → bytes_lt xs zs ≡ true
unfolding bytes_lt
bytes_lt_trans [] [] zs p q = cc
bytes_lt_trans [] (y ∷ ys) [] p q = cc
bytes_lt_trans [] (y ∷ ys) (z ∷ zs) p q = refl
bytes_lt_trans (x ∷ xs) [] zs p q = cc
bytes_lt_trans (x ∷ xs) (y ∷ ys) [] p q = cc
bytes_lt_trans (x ∷ xs) (y ∷ ys) (z ∷ zs) p q = ground (arith, bytes_lt_trans xs ys zs)

-- Of two different keys one is below the other.
pub bytes_lt_total :
    (xs ys : Bytes) → bytes_eq xs ys ≡ false → bytes_lt xs ys ≡ false → bytes_lt ys xs ≡ true
unfolding bytes_eq bytes_lt
bytes_lt_total [] [] p q = cc
bytes_lt_total [] (y ∷ ys) p q = cc
bytes_lt_total (x ∷ xs) [] p q = refl
bytes_lt_total (x ∷ xs) (y ∷ ys) p q = ground (arith, bytes_lt_total xs ys)

pub bytes_lt_asymm : (xs ys : Bytes) → bytes_lt xs ys ≡ true → bytes_lt ys xs ≡ false
unfolding bytes_lt
bytes_lt_asymm [] [] p = cc
bytes_lt_asymm [] (y ∷ ys) p = refl
bytes_lt_asymm (x ∷ xs) [] p = cc
bytes_lt_asymm (x ∷ xs) (y ∷ ys) p = ground (arith, bytes_lt_asymm xs ys)

pub bytes_lt→ne : (xs ys : Bytes) → bytes_lt xs ys ≡ true → bytes_eq xs ys ≡ false
unfolding bytes_lt bytes_eq
bytes_lt→ne [] [] p = cc
bytes_lt→ne [] (y ∷ ys) p = refl
bytes_lt→ne (x ∷ xs) [] p = refl
bytes_lt→ne (x ∷ xs) (y ∷ ys) p = ground (arith, bytes_lt→ne xs ys)
