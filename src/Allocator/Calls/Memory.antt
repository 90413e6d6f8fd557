-- ===== src/Allocator/Calls/Memory.antt =====
-- What a store leaves, and what a copy copies.
use jam_script.Prelude.{
  ℕ, zero, suc, ◌+◌, ◌≤◌, ◌<◌, ◌≡◌, refl, ◌∙◌, ap, subst, ◌⊎◌, inl, inr, Bool-cases, ltb, [], ◌∷◌,
  ◌++◌, ap₂, ◌==◌, if◌then◌else◌, Bytes, length, arith,
}
use jam_script.Allocator.Calls.{store, load, copy}

pub store-outside :
    (memory : ℕ → ℕ) (address : ℕ) (bs : Bytes) (x : ℕ)
    → (x < address) ⊎ (address + length bs ≤ x)
    → store memory address bs x ≡ memory x
unfolding store
store-outside memory address [] x h = refl
store-outside memory address (b ∷ bs) x h =
    store-outside (λ a. if a == address then b else memory a) (suc address) bs x (ground arith)
    ∙ ground arith

pub load-store :
    (memory : ℕ → ℕ) (address : ℕ) (bs : Bytes)
    → load (store memory address bs) address (length bs) ≡ bs
unfolding store load
load-store memory address [] = refl
load-store memory address (b ∷ bs) =
    let m = λ (a : ℕ). if a == address then b else memory a in
    ap₂ ◌∷◌ (store-outside m (suc address) bs address (inl (omega arith)) ∙ ground arith)
      (load-store m (suc address) bs)

-- A load reads only its own addresses.
pub load-congr :
    (m m' : ℕ → ℕ) (address n : ℕ)
    → ((i : ℕ) → i < n → m (address + i) ≡ m' (address + i))
    → load m address n ≡ load m' address n
unfolding load
load-congr m m' address zero h = refl
load-congr m m' address (suc n) h =
    ap₂ ◌∷◌ (subst (λ a. m a ≡ m' a) (omega arith) (h 0 (omega arith))) (
      load-congr m m' (suc address) n
        (λ i small. subst (λ a. m a ≡ m' a) (omega arith) (h (suc i) (omega arith))))

store-load :
    (m memory : ℕ → ℕ) (from to n i : ℕ)
    → i < n
    → store memory to (load m from n) (to + i) ≡ m (from + i)
unfolding store load
store-load m memory from to zero i h = absurd (omega arith)
store-load m memory from to (suc n) zero h =
    let m' = λ (a : ℕ). if a == to then m from else memory a in
    let here : to + 0 ≡ to = omega arith in
    let there : from + 0 ≡ from = omega arith in
    rw (here, there)
      (store-outside m' (suc to) (load m (suc from) n) to (inl (omega arith)) ∙ ground arith)
store-load m memory from to (suc n) (suc i) h =
    let m' = λ (a : ℕ). if a == to then m from else memory a in
    let here : to + suc i ≡ suc to + i = omega arith in
    let there : from + suc i ≡ suc from + i = omega arith in
    rw (here, there) (store-load m m' (suc from) (suc to) n i (omega arith))

-- A copy brings each byte over, also where the two ranges overlap.
pub copy_lem :
    (memory : ℕ → ℕ) (from to n i : ℕ) → i < n → copy memory from to n (to + i) ≡ memory (from + i)
unfolding copy
copy_lem memory from to n i h = store-load memory memory from to n i h

length-load : (m : ℕ → ℕ) (from n : ℕ) → length (load m from n) ≡ n
unfolding load
length-load m from zero = refl
length-load m from (suc n) = ap suc (length-load m (suc from) n)

lt-or-le : (a b : ℕ) → (a < b) ⊎ (b ≤ a)
lt-or-le a b = elim (Bool-cases (ltb a b)) [
  | inl e ↦ inl (ground arith)
  | inr e ↦ inr (ground arith)
]

-- A copy writes nowhere else.
pub copy-outside :
    (memory : ℕ → ℕ) (from to n a : ℕ)
    → ¬ ((to ≤ a) × (a < to + n))
    → copy memory from to n a ≡ memory a
unfolding copy
copy-outside memory from to n a h =
    let size = length-load memory from n in
    store-outside memory to (load memory from n) a (elim (lt-or-le a to) [
      | inl before ↦ inl before
      | inr after ↦ elim (lt-or-le a (to + n)) [
        | inl inside ↦ absurd (h (after, inside))
        | inr beyond ↦ inr (omega (arith, size, beyond))
      ]
    ])

store-append :
    (m : ℕ → ℕ) (address : ℕ) (xs ys : Bytes)
    → store m address (xs ++ ys) ≡ store (store m address xs) (address + length xs) ys
unfolding store
store-append m address [] ys = ap (λ a. store m a ys) (omega arith)
store-append m address (x ∷ xs) ys =
    let m' = λ (a : ℕ). if a == address then x else m a in
    store-append m' (suc address) xs ys
    ∙ ap (λ a. store (store m' (suc address) xs) a ys) (omega arith)

-- Of two parts stored one after the other each is read back.
pub load-store_first :
    (m : ℕ → ℕ) (address : ℕ) (xs ys : Bytes)
    → load (store m address (xs ++ ys)) address (length xs) ≡ xs
load-store_first m address xs ys =
    load-congr (store m address (xs ++ ys)) (store m address xs) address (length xs) (λ i small.
      ap (λ (f : ℕ → ℕ). f (address + i)) (store-append m address xs ys)
      ∙ store-outside (store m address xs) (address + length xs) ys (address + i)
          (inl (omega arith)))
    ∙ load-store m address xs

pub load-store_second :
    (m : ℕ → ℕ) (address : ℕ) (xs ys : Bytes)
    → load (store m address (xs ++ ys)) (address + length xs) (length ys) ≡ ys
load-store_second m address xs ys =
    ap (λ (f : ℕ → ℕ). load f (address + length xs) (length ys)) (store-append m address xs ys)
    ∙ load-store (store m address xs) (address + length xs) ys
