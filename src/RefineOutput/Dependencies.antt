-- ===== src/RefineOutput/Dependencies.antt =====
-- The dependencies of a refine output in order of their services: `sort_by_key` of
-- `canonicalize_dependencies` in crates/service-runtime-core/src/lib.rs.
pub mod Canonical
pub mod Decoded
use jam_script.Prelude.{
  ℕ, ◌≤◌, ◌<◌, ◌≡◌, ◌↔◌, ◌⊎◌, inl, inr, List, [], ◌∷◌, Bool, true, false, ltb, arith, Bool-cases,
  if◌then◌else◌,
}
use jam_script.RefineOutput.{ExternalStateDependency, insert_dependency, sort_dependencies}

-- `d` is one of the dependencies.
abbrev pub In : ExternalStateDependency → List ExternalStateDependency → Type 0
In d [] = ⊥
In d (x ∷ xs) = (d ≡ x) ⊎ In d xs

-- The services do not decrease from `n` on.
abbrev pub NotBelow : ℕ → List ExternalStateDependency → Type 0
NotBelow n [] = Unit
NotBelow n (d ∷ ds) = (n ≤ d.service_id) × NotBelow d.service_id ds

abbrev pub IsSorted : List ExternalStateDependency → Type 0
IsSorted [] = Unit
IsSorted (d ∷ ds) = NotBelow d.service_id ds

-- The services increase from above `n` on.
abbrev pub IncreasingAbove : ℕ → List ExternalStateDependency → Type 0
IncreasingAbove n [] = Unit
IncreasingAbove n (d ∷ ds) = (n < d.service_id) × IncreasingAbove d.service_id ds

-- Each service has one dependency, and they stand in the order of the services.
abbrev pub IsIncreasing : List ExternalStateDependency → Type 0
IsIncreasing [] = Unit
IsIncreasing (d ∷ ds) = IncreasingAbove d.service_id ds

insert-NotBelow :
    (n : ℕ) (x : ExternalStateDependency) (ys : List ExternalStateDependency)
    → n ≤ x.service_id
    → NotBelow n ys
    → NotBelow n (insert_dependency x ys)
unfolding insert_dependency
insert-NotBelow n x [] h hs = (h, tt)
insert-NotBelow n x (y ∷ ys) h (k, ks) = elim (Bool-cases (ltb y.service_id x.service_id)) [
  | inl e ↦ rw e (k, insert-NotBelow y.service_id x ys (ground arith) ks)
  | inr e ↦ rw e (h, ((ground arith), ks))
]

insert-IsSorted :
    (x : ExternalStateDependency) (ys : List ExternalStateDependency)
    → IsSorted ys
    → IsSorted (insert_dependency x ys)
unfolding insert_dependency
insert-IsSorted x [] h = tt
insert-IsSorted x (y ∷ ys) h = elim (Bool-cases (ltb y.service_id x.service_id)) [
  | inl e ↦ rw e (insert-NotBelow y.service_id x ys (ground arith) h)
  | inr e ↦ rw e ((ground arith), h)
]

pub sort-IsSorted : (ds : List ExternalStateDependency) → IsSorted (sort_dependencies ds)
unfolding sort_dependencies
sort-IsSorted [] = tt
sort-IsSorted (d ∷ ds) = insert-IsSorted d (sort_dependencies ds) (sort-IsSorted ds)

In-insert :
    (d x : ExternalStateDependency) (ys : List ExternalStateDependency)
    → In d (insert_dependency x ys)
    → In d (x ∷ ys)
unfolding insert_dependency
In-insert d x [] h = h
In-insert d x (y ∷ ys) h = elim (Bool-cases (ltb y.service_id x.service_id)) [
  | inl e ↦ elim (rw e at h) [
    | inl here ↦ inr (inl here)
    | inr later ↦ elim (In-insert d x ys later) [ inl here ↦ inl here | inr k ↦ inr (inr k) ]
  ]
  | inr e ↦ rw e at h
]

insert-In :
    (d x : ExternalStateDependency) (ys : List ExternalStateDependency)
    → In d (x ∷ ys)
    → In d (insert_dependency x ys)
unfolding insert_dependency
insert-In d x [] h = h
insert-In d x (y ∷ ys) h = elim (Bool-cases (ltb y.service_id x.service_id)) [
  | inl e ↦ rw e (elim h [
    | inl here ↦ inr (insert-In d x ys (inl here))
    | inr (inl here) ↦ inl here
    | inr (inr later) ↦ inr (insert-In d x ys (inr later))
  ])
  | inr e ↦ rw e h
]

pub sort-In :
    (d : ExternalStateDependency) (ds : List ExternalStateDependency)
    → In d ds ↔ In d (sort_dependencies ds)
unfolding sort_dependencies
sort-In d [] = (λ h. h, λ h. h)
sort-In d (x ∷ xs) =
    let (there, back) = sort-In d xs in
    (
      λ h. insert-In d x (sort_dependencies xs) (elim h [ inl e ↦ inl e | inr k ↦ inr (there k) ]),
      λ h. elim (In-insert d x (sort_dependencies xs) h) [ inl e ↦ inl e | inr k ↦ inr (back k) ],
    )
