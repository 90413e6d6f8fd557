-- ===== src/KeyMap/Laws.antt =====
-- The laws of the key maps, and their order.
use jam_script.Prelude.{
  [], ◌∷◌, Option, none, some, ◌≡◌, refl, ◌∙◌, true, Bytes, bytes_eq, bytes_lt, bytes_eq_refl,
  bytes_eq→eq, bytes_lt→ne, bytes_lt_total, bytes_lt_trans, if◌then◌else◌, All, arith, Bool-cases,
  inl, inr,
}
use jam_script.Entry.{Entry}
use jam_script.Entry.Order.{StrictlySorted}
use jam_script.KeyMap.{KeyMap, get, insert, extend}

-- A lookup in a first map, then in a second one.
abbrev pub or_else : Option (Option Bytes) → Option (Option Bytes) → Option (Option Bytes)
or_else none b = b
or_else (some a) b = some a

pub bytes_eq_sym : (xs ys : Bytes) → bytes_eq xs ys ≡ bytes_eq ys xs
unfolding bytes_eq
bytes_eq_sym [] [] = refl
bytes_eq_sym [] (y ∷ ys) = refl
bytes_eq_sym (x ∷ xs) [] = refl
bytes_eq_sym (x ∷ xs) (y ∷ ys) = ground (arith, bytes_eq_sym xs ys)

pub get-insert :
    (k : Bytes) (x : Entry) (m : KeyMap)
    → get k (insert x m) ≡ (if bytes_eq x.key k then some x.value else get k m)
unfolding get insert
get-insert k x [] = refl
get-insert k x (e ∷ m) = ground (
  arith,
  bytes_eq→eq e.key x.key,
  bytes_eq→eq e.key k,
  bytes_eq→eq x.key k,
  bytes_eq_refl k,
  get-insert k x m,
)

-- Below every key of a map.
abbrev pub Below : Bytes → KeyMap → Type 0
Below k m = All (λ e. bytes_lt k e.key ≡ true) m

pub Below-trans : (j k : Bytes) (m : KeyMap) → bytes_lt j k ≡ true → Below k m → Below j m
Below-trans j k [] h hs = tt
Below-trans j k (e ∷ m) h (he, hs) = (bytes_lt_trans j k e.key h he, Below-trans j k m h hs)

pub StrictlySorted-tail : (x : Entry) (m : KeyMap) → StrictlySorted (x ∷ m) → StrictlySorted m
StrictlySorted-tail x [] h = tt
StrictlySorted-tail x (e ∷ m) h = h.1

pub StrictlySorted-Below : (x : Entry) (m : KeyMap) → StrictlySorted (x ∷ m) → Below x.key m
StrictlySorted-Below x [] h = tt
StrictlySorted-Below x (e ∷ m) (h, hs) =
    (h, Below-trans x.key e.key m h (StrictlySorted-Below e m hs))

pub get-Below : (k : Bytes) (m : KeyMap) → Below k m → get k m ≡ none
unfolding get
get-Below k [] h = refl
get-Below k (e ∷ m) (h, hs) = rw (bytes_eq_sym e.key k, bytes_lt→ne k e.key h) (get-Below k m hs)

-- The first key of a map is not among the others.
pub get-tail : (x : Entry) (m : KeyMap) → StrictlySorted (x ∷ m) → get x.key m ≡ none
get-tail x m h = get-Below x.key m (StrictlySorted-Below x m h)

pub or_else-head :
    (k : Bytes) (e : Entry) (more : KeyMap) (below : Option (Option Bytes))
    → get e.key more ≡ none
    → or_else (get k more) (if bytes_eq e.key k then some e.value else below)
      ≡ or_else (get k (e ∷ more)) below
unfolding get
or_else-head k e more below missing = ground (arith, bytes_eq→eq e.key k)

-- A lookup in an extended map finds the second map's entry first.
pub get-extend :
    (k : Bytes) (m more : KeyMap)
    → StrictlySorted more
    → get k (extend m more) ≡ or_else (get k more) (get k m)
unfolding extend
get-extend k m [] h = unfold get in refl
get-extend k m (e ∷ more) h =
    get-extend k (insert e m) more (StrictlySorted-tail e more h)
    ∙ rw (get-insert k e m) (or_else-head k e more (get k m) (get-tail e more h))

StrictlySorted-cons :
    (x : Entry) (m : KeyMap) → Below x.key m → StrictlySorted m → StrictlySorted (x ∷ m)
StrictlySorted-cons x [] h hs = tt
StrictlySorted-cons x (e ∷ m) h hs = (h.0, hs)

module _ (P : Entry → Type 0) where
  pub All-insert : (x : Entry) (m : KeyMap) → P x → All P m → All P (insert x m)
  unfolding insert
  All-insert x [] h hs = (h, tt)
  All-insert x (e ∷ m) h (he, hs) = elim (Bool-cases (bytes_eq e.key x.key)) [
    | inl same ↦ rw same (h, hs)
    | inr other ↦ rw other (elim (Bool-cases (bytes_lt x.key e.key)) [
      | inl below ↦ rw below (h, (he, hs))
      | inr above ↦ rw above (he, All-insert x m h hs)
    ])
  ]

  pub All-extend : (m more : KeyMap) → All P m → All P more → All P (extend m more)
  unfolding extend
  All-extend m [] h hs = h
  All-extend m (e ∷ more) h (he, hs) = All-extend (insert e m) more (All-insert e m he h) hs

pub insert-StrictlySorted :
    (x : Entry) (m : KeyMap) → StrictlySorted m → StrictlySorted (insert x m)
unfolding insert
insert-StrictlySorted x [] h = tt
insert-StrictlySorted x (e ∷ m) h =
    let tail = StrictlySorted-tail e m h in
    let below = StrictlySorted-Below e m h in
    elim (Bool-cases (bytes_eq e.key x.key)) [
      | inl same ↦
          rw same (StrictlySorted-cons x m (rw (bytes_eq→eq e.key x.key same) at below) tail)
      | inr other ↦ rw other (elim (Bool-cases (bytes_lt x.key e.key)) [
        | inl before ↦ rw before (before, h)
        | inr behind ↦ rw behind (
            StrictlySorted-cons e (insert x m)
              (All-insert (λ y. bytes_lt e.key y.key ≡ true) x m
                (bytes_lt_total x.key e.key (bytes_eq_sym x.key e.key ∙ other) behind) below)
              (insert-StrictlySorted x m tail))
      ])
    ]

pub extend-StrictlySorted : (m more : KeyMap) → StrictlySorted m → StrictlySorted (extend m more)
unfolding extend
extend-StrictlySorted m [] h = h
extend-StrictlySorted m (e ∷ more) h =
    extend-StrictlySorted (insert e m) more (insert-StrictlySorted e m h)
