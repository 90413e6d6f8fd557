-- ===== src/Entry/Order.antt =====
-- The canonical order: sorting, the order check, and equality of entries.
use jam_script.Prelude.{
  List, [], ◌∷◌, ◌≡◌, refl, ap, Option, none, some, true, Bytes, bytes_lt, bytes_eq_refl,
  bytes_eq→eq, bytes_lt→ne, bytes_lt_asymm, bytes_lt_total, ok, length, All, arith, Bool-cases, inl,
  inr,
}
use jam_script.Entry.{Entry}
use jam_script.Entry.{insert_entry, sort_entries, check_order, value_eq, entries_eq}

-- Keys strictly increase.
abbrev pub StrictlySorted : List Entry → Type 0
StrictlySorted [] = Unit
StrictlySorted (x ∷ []) = Unit
StrictlySorted (x ∷ y ∷ rest) = (bytes_lt x.key y.key ≡ true) × StrictlySorted (y ∷ rest)

-- The check accepts exactly the strictly sorted lists.
pub check_order→StrictlySorted : (es : List Entry) → check_order es ≡ ok tt → StrictlySorted es
unfolding check_order
check_order→StrictlySorted [] h = tt
check_order→StrictlySorted (x ∷ []) h = tt
check_order→StrictlySorted (x ∷ y ∷ rest) h = ground (
  arith,
  bytes_lt_total y.key x.key,
  bytes_lt_total x.key y.key,
  check_order→StrictlySorted (y ∷ rest),
)

pub StrictlySorted→check_order : (es : List Entry) → StrictlySorted es → check_order es ≡ ok tt
unfolding check_order
StrictlySorted→check_order [] h = refl
StrictlySorted→check_order (x ∷ []) h = refl
StrictlySorted→check_order (x ∷ y ∷ rest) (h, hs) = ground (
  arith,
  bytes_lt→ne x.key y.key h,
  bytes_lt_asymm x.key y.key h,
  StrictlySorted→check_order (y ∷ rest) hs,
)

-- Sorting leaves a strictly sorted list as it is.
pub sort_entries-StrictlySorted : (es : List Entry) → StrictlySorted es → sort_entries es ≡ es
unfolding sort_entries insert_entry
sort_entries-StrictlySorted [] h = refl
sort_entries-StrictlySorted (x ∷ []) h = refl
sort_entries-StrictlySorted (x ∷ y ∷ rest) (h, hs) =
    ground (arith, sort_entries-StrictlySorted (y ∷ rest) hs, bytes_lt_asymm x.key y.key h)

module _ (P : Entry → Type 0) where
  All-insert_entry : (x : Entry) (es : List Entry) → P x → All P es → All P (insert_entry x es)
  unfolding insert_entry
  All-insert_entry x [] h hs = (h, tt)
  All-insert_entry x (y ∷ ys) h (hy, hs) = elim (Bool-cases (bytes_lt y.key x.key)) [
    | inl e ↦ rw e (hy, All-insert_entry x ys h hs)
    | inr e ↦ rw e (h, (hy, hs))
  ]

  pub All-sort_entries : (es : List Entry) → All P es → All P (sort_entries es)
  unfolding sort_entries
  All-sort_entries [] h = tt
  All-sort_entries (x ∷ xs) (h, hs) =
      All-insert_entry x (sort_entries xs) h (All-sort_entries xs hs)

length-insert_entry : (x : Entry) (es : List Entry) → length (insert_entry x es) ≡ length (x ∷ es)
unfolding insert_entry
length-insert_entry x [] = refl
length-insert_entry x (y ∷ ys) = ground (arith, length-insert_entry x ys)

pub length-sort_entries : (es : List Entry) → length (sort_entries es) ≡ length es
unfolding sort_entries
length-sort_entries [] = refl
length-sort_entries (x ∷ xs) =
    ground (arith, length-insert_entry x (sort_entries xs), length-sort_entries xs)

value_eq_refl : (a : Option Bytes) → value_eq a a ≡ true
unfolding value_eq
value_eq_refl none = refl
value_eq_refl (some a) = bytes_eq_refl a

value_eq→eq : (a b : Option Bytes) → value_eq a b ≡ true → a ≡ b
unfolding value_eq
value_eq→eq none none h = refl
value_eq→eq none (some b) h = cc
value_eq→eq (some a) none h = cc
value_eq→eq (some a) (some b) h = ap some (bytes_eq→eq a b h)

pub entries_eq_refl : (es : List Entry) → entries_eq es es ≡ true
unfolding entries_eq
entries_eq_refl [] = refl
entries_eq_refl (x ∷ xs) = rw (bytes_eq_refl x.key, value_eq_refl x.value) (entries_eq_refl xs)

pub entries_eq→eq : (xs ys : List Entry) → entries_eq xs ys ≡ true → xs ≡ ys
unfolding entries_eq
entries_eq→eq [] [] h = refl
entries_eq→eq [] (y ∷ ys) h = cc
entries_eq→eq (x ∷ xs) [] h = cc
entries_eq→eq (x ∷ xs) (y ∷ ys) h =
    ground (arith, bytes_eq→eq x.key y.key, value_eq→eq x.value y.value, entries_eq→eq xs ys)
