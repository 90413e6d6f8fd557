-- ===== src/RefineOutput/Dependencies/Canonical.antt =====
-- `canonicalize_dependencies` of crates/service-runtime-core/src/lib.rs on every branch.
use jam_script.Prelude.{
  ◌≡◌, refl, sym, subst, ◌∙◌, ◌↔◌, ◌⊎◌, inl, inr, List, [], ◌∷◌, true, false, bytes_eq, bytes_eq→eq,
  bytes_eq_refl, ◌==◌, arith, Bool-cases, ok, err, >>=-eq-ok,
}
use jam_script.Wire.{duplicate_service_id}
use jam_script.RefineOutput.{
  ExternalStateDependency, sort_dependencies, push_rest, push_all, canonicalize_dependencies,
}
use jam_script.RefineOutput.Dependencies.{
  In, NotBelow, IsSorted, IncreasingAbove, IsIncreasing, sort-IsSorted, sort-In,
}

-- Two dependencies with the fields of each other are the same.
same_dependency :
    (x y : ExternalStateDependency)
    → (x.service_id == y.service_id) ≡ true
    → bytes_eq x.state_root y.state_root ≡ true
    → x ≡ y
same_dependency x y e f =
    let ids : x.service_id ≡ y.service_id = ground arith in
    let roots = bytes_eq→eq x.state_root y.state_root f in
    λ i. record { service_id = ids i; state_root = roots i }

-- What the loop returns: the services increase from the last one pushed, and nothing is lost or
-- added.
record IsPushed (last : ExternalStateDependency) (ds out : List ExternalStateDependency)
    : Type 0 where
  increasing : NotBelow last.service_id ds → IncreasingAbove last.service_id out
  kept : (d : ExternalStateDependency) → In d (last ∷ ds) → In d (last ∷ out)
  from : (d : ExternalStateDependency) → In d (last ∷ out) → In d (last ∷ ds)

IsPushed-same :
    (last d : ExternalStateDependency) (ds out : List ExternalStateDependency)
    → last ≡ d
    → IsPushed last ds out
    → IsPushed last (d ∷ ds) out
IsPushed-same last d ds out same h = record {
  increasing = λ (k, ks). h.increasing (rw same ks);
  kept = λ e below. elim below [
    | inl here ↦ inl here
    | inr (inl here) ↦ inl (here ∙ sym same)
    | inr (inr later) ↦ h.kept e (inr later)
  ];
  from = λ e below. elim (h.from e below) [ inl here ↦ inl here | inr later ↦ inr (inr later) ];
}

IsPushed-next :
    (last d : ExternalStateDependency) (ds out : List ExternalStateDependency)
    → (last.service_id == d.service_id) ≡ false
    → IsPushed d ds out
    → IsPushed last (d ∷ ds) (d ∷ out)
IsPushed-next last d ds out other h = record {
  increasing = λ (k, ks). (ground arith, h.increasing ks);
  kept = λ e below. elim below [ inl here ↦ inl here | inr later ↦ inr (h.kept e later) ];
  from = λ e below. elim below [ inl here ↦ inl here | inr later ↦ inr (h.from e later) ];
}

push_rest-IsPushed :
    (last : ExternalStateDependency) (ds out : List ExternalStateDependency)
    → push_rest last ds ≡ ok out
    → IsPushed last ds out
unfolding push_rest
push_rest-IsPushed last [] out h =
    let none : [] ≡ out = cc h in
    subst (λ x. IsPushed last [] x) none
      (record { increasing = λ k. tt; kept = λ d k. k; from = λ d k. k })
push_rest-IsPushed last (d ∷ ds) out h = elim (Bool-cases (last.service_id == d.service_id)) [
  | inl e ↦ elim (Bool-cases (bytes_eq last.state_root d.state_root)) [
    | inl f ↦
        IsPushed-same last d ds out (same_dependency last d e f)
          (push_rest-IsPushed last ds out (rw (e, f) at h))
    | inr f ↦ let no = (rw (e, f) at h) in cc no
  ]
  | inr e ↦
      let (more, rest, made) = >>=-eq-ok (push_rest d ds) _ (rw e at h) in
      let whole : d ∷ more ≡ out = cc made in
      subst (λ x. IsPushed last (d ∷ ds) x) whole
        (IsPushed-next last d ds more e (push_rest-IsPushed d ds more rest))
]

push_all-eq-ok :
    (ds out : List ExternalStateDependency)
    → IsSorted ds
    → push_all ds ≡ ok out
    → IsIncreasing out × ((d : ExternalStateDependency) → In d ds ↔ In d out)
unfolding push_all
push_all-eq-ok [] out h e =
    let none : [] ≡ out = cc e in
    subst (λ x. IsIncreasing x × ((d : ExternalStateDependency) → In d [] ↔ In d x)) none
      (tt, λ d. (λ k. k, λ k. k))
push_all-eq-ok (d ∷ ds) out h e =
    let (more, rest, made) = >>=-eq-ok (push_rest d ds) _ e in
    let whole : d ∷ more ≡ out = cc made in
    let pushed = push_rest-IsPushed d ds more rest in
    subst (λ x. IsIncreasing x × ((e : ExternalStateDependency) → In e (d ∷ ds) ↔ In e x)) whole
      (pushed.increasing h, λ e. (pushed.kept e, pushed.from e))

canonicalize_dependencies-eq-ok :
    (ds out : List ExternalStateDependency)
    → canonicalize_dependencies ds ≡ ok out
    → IsIncreasing out × ((d : ExternalStateDependency) → In d ds ↔ In d out)
unfolding canonicalize_dependencies
canonicalize_dependencies-eq-ok ds out h =
    let (increasing, same) = push_all-eq-ok (sort_dependencies ds) out (sort-IsSorted ds) h in
    (increasing, λ d. (λ k. (same d).0 ((sort-In d ds).0 k), λ k. (sort-In d ds).1 ((same d).1 k)))

-- Two of the dependencies name one service with different roots.
pub record IsConflict (ds : List ExternalStateDependency) : Type 0 where
  pub first : ExternalStateDependency
  pub second : ExternalStateDependency
  pub has_first : In first ds
  pub has_second : In second ds
  pub same_service : first.service_id ≡ second.service_id
  pub other_root : ¬ (first.state_root ≡ second.state_root)

IsConflict-mono :
    {ds es : List ExternalStateDependency}
    → IsConflict ds
    → ((x : ExternalStateDependency) → In x ds → In x es)
    → IsConflict es
IsConflict-mono c h = record {
  first = c.first;
  second = c.second;
  has_first = h c.first c.has_first;
  has_second = h c.second c.has_second;
  same_service = c.same_service;
  other_root = c.other_root;
}

push_rest-cases :
    (last : ExternalStateDependency) (ds : List ExternalStateDependency)
    → ((out : List ExternalStateDependency) × (push_rest last ds ≡ ok out))
      ⊎ ((push_rest last ds ≡ err duplicate_service_id) × IsConflict (last ∷ ds))
unfolding push_rest
push_rest-cases last [] = inl ([], refl)
push_rest-cases last (d ∷ ds) = elim (Bool-cases (last.service_id == d.service_id)) [
  | inl e ↦ elim (Bool-cases (bytes_eq last.state_root d.state_root)) [
    | inl f ↦ elim (push_rest-cases last ds) [
      | inl (out, h) ↦ inl (out, rw (e, f) h)
      | inr (h, c) ↦ inr (
        rw (e, f) h,
        IsConflict-mono c (λ x k. elim k [ inl here ↦ inl here | inr later ↦ inr (inr later) ]),
      )
    ]
    | inr f ↦ inr (
      rw (e, f),
      record {
        first = last;
        second = d;
        has_first = inl refl;
        has_second = inr (inl refl);
        same_service = (ground arith);
        other_root = λ same. (let no = (rw (same, bytes_eq_refl d.state_root) at f) in cc no);
      },
    )
  ]
  | inr e ↦ elim (push_rest-cases d ds) [
    | inl (out, h) ↦ inl (d ∷ out, rw (e, h))
    | inr (h, c) ↦ inr (rw (e, h), IsConflict-mono c (λ x k. inr k))
  ]
]

push_all-cases :
    (ds : List ExternalStateDependency)
    → ((out : List ExternalStateDependency) × (push_all ds ≡ ok out))
      ⊎ ((push_all ds ≡ err duplicate_service_id) × IsConflict ds)
unfolding push_all
push_all-cases [] = inl ([], refl)
push_all-cases (d ∷ ds) = elim (push_rest-cases d ds) [
  | inl (out, h) ↦ inl (d ∷ out, rw h)
  | inr (h, c) ↦ inr (rw h, c)
]

-- Either `canonicalize_dependencies` succeeds, and then the services of its result increase and the
-- result has exactly the dependencies that were given, or it fails with DuplicateServiceId, and
-- then two of the given dependencies name one service with different roots.
pub canonicalize_dependencies_lem :
    (ds : List ExternalStateDependency)
    → ((out : List ExternalStateDependency) × (canonicalize_dependencies ds ≡ ok out)
        × IsIncreasing out
        × ((d : ExternalStateDependency) → In d ds ↔ In d out))
      ⊎ ((canonicalize_dependencies ds ≡ err duplicate_service_id) × IsConflict ds)
unfolding canonicalize_dependencies
canonicalize_dependencies_lem ds = elim (push_all-cases (sort_dependencies ds)) [
  | inl (out, h) ↦
      let (increasing, same) = canonicalize_dependencies-eq-ok ds out h in
      inl (out, h, increasing, same)
  | inr (h, c) ↦ inr (h, IsConflict-mono c λ x k. (sort-In x ds).1 k)
]
