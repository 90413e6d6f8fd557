-- ===== src/AccessPlan/Order.antt =====
-- Sorting and deduplication of the keys of a plan.
use jam_script.Prelude.{
  List, [], ◌∷◌, ◌≡◌, refl, sym, ap, subst, ◌∙◌, Bool, true, false, ◌||◌, Bytes, bytes_eq, bytes_lt,
  bytes_eq→eq, bytes_eq_refl, bytes_lt→ne, bytes_lt_asymm, bytes_lt_total, arith, Bool-cases, inl,
  inr,
}
use jam_script.KeyMap.Laws.{bytes_eq_sym}
use jam_script.AccessPlan.{insert_key, sort_keys, dedup_from, dedup, keys_eq}

-- No key is below the one before it.
abbrev Sorted : List Bytes → Type 0
Sorted [] = Unit
Sorted (x ∷ []) = Unit
Sorted (x ∷ y ∷ rest) = (bytes_lt y x ≡ false) × Sorted (y ∷ rest)

-- Every key is above the one before it.
abbrev pub StrictlySortedKeys : List Bytes → Type 0
StrictlySortedKeys [] = Unit
StrictlySortedKeys (x ∷ []) = Unit
StrictlySortedKeys (x ∷ y ∷ rest) = (bytes_lt x y ≡ true) × StrictlySortedKeys (y ∷ rest)

insert_key-Sorted : (x : Bytes) (ys : List Bytes) → Sorted ys → Sorted (insert_key x ys)
unfolding insert_key
insert_key-Sorted x [] h = tt
insert_key-Sorted x (y ∷ []) h = elim (Bool-cases (bytes_lt y x)) [
  | inl e ↦ rw e (bytes_lt_asymm y x e, tt)
  | inr e ↦ rw e (e, tt)
]
insert_key-Sorted x (y ∷ z ∷ zs) (h, hs) =
    let below = insert_key-Sorted x (z ∷ zs) hs in
    elim (Bool-cases (bytes_lt y x)) [
      | inr e ↦ rw e (e, (h, hs))
      | inl e ↦ elim (Bool-cases (bytes_lt z x)) [
        | inl f ↦ rw (e, f) (h, rw f at below)
        | inr f ↦ rw (e, f) (bytes_lt_asymm y x e, rw f at below)
      ]
    ]

sort_keys-Sorted : (xs : List Bytes) → Sorted (sort_keys xs)
unfolding sort_keys
sort_keys-Sorted [] = tt
sort_keys-Sorted (x ∷ xs) = insert_key-Sorted x (sort_keys xs) (sort_keys-Sorted xs)

dedup_from-StrictlySortedKeys :
    (x : Bytes) (ys : List Bytes) → Sorted (x ∷ ys) → StrictlySortedKeys (x ∷ dedup_from x ys)
unfolding dedup_from
dedup_from-StrictlySortedKeys x [] h = tt
dedup_from-StrictlySortedKeys x (y ∷ ys) (h, hs) = elim (Bool-cases (bytes_eq x y)) [
  | inl e ↦ rw e (
      dedup_from-StrictlySortedKeys x ys
        (subst (λ (z : Bytes). Sorted (z ∷ ys)) (sym (bytes_eq→eq x y e)) hs))
  | inr e ↦
      rw e (bytes_lt_total y x (bytes_eq_sym y x ∙ e) h, dedup_from-StrictlySortedKeys y ys hs)
]

dedup-StrictlySortedKeys : (xs : List Bytes) → Sorted xs → StrictlySortedKeys (dedup xs)
unfolding dedup
dedup-StrictlySortedKeys [] h = tt
dedup-StrictlySortedKeys (x ∷ xs) h = dedup_from-StrictlySortedKeys x xs h

pub dedup-sort_keys : (xs : List Bytes) → StrictlySortedKeys (dedup (sort_keys xs))
dedup-sort_keys xs = dedup-StrictlySortedKeys (sort_keys xs) (sort_keys-Sorted xs)

-- Strictly sorted keys stay as they are.
sort_keys-StrictlySortedKeys : (xs : List Bytes) → StrictlySortedKeys xs → sort_keys xs ≡ xs
unfolding sort_keys insert_key
sort_keys-StrictlySortedKeys [] h = refl
sort_keys-StrictlySortedKeys (x ∷ []) h = refl
sort_keys-StrictlySortedKeys (x ∷ y ∷ ys) (h, hs) =
    ground (arith, sort_keys-StrictlySortedKeys (y ∷ ys) hs, bytes_lt_asymm x y h)

dedup_from-same : (x : Bytes) (ys : List Bytes) → StrictlySortedKeys (x ∷ ys) → dedup_from x ys ≡ ys
unfolding dedup_from
dedup_from-same x [] h = refl
dedup_from-same x (y ∷ ys) (h, hs) =
    rw (bytes_lt→ne x y h) (ap (λ r. y ∷ r) (dedup_from-same y ys hs))

pub dedup-sort_keys-same : (xs : List Bytes) → StrictlySortedKeys xs → dedup (sort_keys xs) ≡ xs
dedup-sort_keys-same [] h = unfold sort_keys dedup in refl
dedup-sort_keys-same (x ∷ xs) h =
    ap dedup (sort_keys-StrictlySortedKeys (x ∷ xs) h)
    ∙ (unfold dedup in ap (λ r. x ∷ r) (dedup_from-same x xs h))

-- Whether a key is among others.
abbrev pub contains : Bytes → List Bytes → Bool
contains k [] = false
contains k (x ∷ xs) = bytes_eq x k || contains k xs

contains-insert_key :
    (k x : Bytes) (ys : List Bytes) → contains k (insert_key x ys) ≡ (bytes_eq x k || contains k ys)
unfolding insert_key
contains-insert_key k x [] = refl
contains-insert_key k x (y ∷ ys) = ground (arith, contains-insert_key k x ys)

contains-sort_keys : (k : Bytes) (xs : List Bytes) → contains k (sort_keys xs) ≡ contains k xs
unfolding sort_keys
contains-sort_keys k [] = refl
contains-sort_keys k (x ∷ xs) =
    ground (arith, contains-insert_key k x (sort_keys xs), contains-sort_keys k xs)

contains-dedup_from :
    (k x : Bytes) (ys : List Bytes)
    → (bytes_eq x k || contains k (dedup_from x ys)) ≡ (bytes_eq x k || contains k ys)
unfolding dedup_from
contains-dedup_from k x [] = refl
contains-dedup_from k x (y ∷ ys) =
    ground (arith, contains-dedup_from k x ys, contains-dedup_from k y ys, bytes_eq→eq x y)

contains-dedup : (k : Bytes) (xs : List Bytes) → contains k (dedup xs) ≡ contains k xs
unfolding dedup
contains-dedup k [] = refl
contains-dedup k (x ∷ xs) = contains-dedup_from k x xs

-- Sorting and deduplication keep exactly the keys that were there.
pub contains-dedup-sort_keys :
    (k : Bytes) (xs : List Bytes) → contains k (dedup (sort_keys xs)) ≡ contains k xs
contains-dedup-sort_keys k xs = contains-dedup k (sort_keys xs) ∙ contains-sort_keys k xs

pub keys_eq_refl : (xs : List Bytes) → keys_eq xs xs ≡ true
unfolding keys_eq
keys_eq_refl [] = refl
keys_eq_refl (x ∷ xs) = rw (bytes_eq_refl x) (keys_eq_refl xs)

pub keys_eq→eq : (xs ys : List Bytes) → keys_eq xs ys ≡ true → xs ≡ ys
unfolding keys_eq
keys_eq→eq [] [] h = refl
keys_eq→eq [] (y ∷ ys) h = cc
keys_eq→eq (x ∷ xs) [] h = cc
keys_eq→eq (x ∷ xs) (y ∷ ys) h = ground (arith, bytes_eq→eq x y, keys_eq→eq xs ys)
