-- ===== src/View/Search.antt =====
-- `StateViewV1::get` of crates/service-runtime-core/src/lib.rs: a binary search of the entries.
use jam_script.Prelude.{
  ℕ, zero, suc, ◌/◌, ◌≤◌, List, [], ◌∷◌, ◌++◌, ◌≡◌, refl, sym, ◌∙◌, ap, Option, none, some, Bytes,
  bytes_lt, true, length, take, drop, length-append, take-append-drop, length-take, append-nil, ok,
  ◌-◌, if◌then◌else◌, arith, All, bytes_lt_total, bytes_lt_trans, bytes_eq_refl, bytes_eq→eq,
  bytes_lt→ne, Bool-cases, inl, inr,
}
use jam_script.Entry.{Entry}
use jam_script.Entry.Order.{StrictlySorted}
use jam_script.KeyMap
use jam_script.KeyMap.Laws.{Below-trans, StrictlySorted-Below, StrictlySorted-tail, get-Below}
use jam_script.View.{StateView, validate_canonical}
use jam_script.View.RoundTrip.{validate_canonical→IsView}

-- `binary_search_by`: the entry in the middle decides which half is searched next. The fuel bounds
-- the number of steps, and the length of the list is enough.
choose : Bytes → Option (Option Bytes) → Option (Option Bytes) → List Entry → Option (Option Bytes)
choose key lower upper [] = none
choose key lower upper (middle ∷ back) =
    if bytes_lt middle.key key
    then upper
    else if bytes_lt key middle.key
    then lower
    else some middle.value

unfoldable pub search : ℕ → Bytes → List Entry → Option (Option Bytes)
unfolding choose
search zero key entries = none
search (suc fuel) key entries =
    let front = take (length entries / 2) entries in
    let back = drop (length entries / 2) entries in
    let lower = search fuel key front in
    let upper = search fuel key (drop 1 back) in choose key lower upper back

unfoldable pub get : StateView → Bytes → Option (Option Bytes)
get view key = search (length view.entries) key view.entries

get-append :
    (k : Bytes) (a b : List Entry) → KeyMap.get k b ≡ none → KeyMap.get k (a ++ b) ≡ KeyMap.get k a
unfolding KeyMap.get
get-append k [] b h = h
get-append k (x ∷ a) b h = ground (arith, get-append k a b h)

-- Every key is below `k`.
abbrev Under : Bytes → List Entry → Type 0
Under k m = All (λ e. bytes_lt e.key k ≡ true) m

get-append-Under :
    (k : Bytes) (a b : List Entry) → Under k a → KeyMap.get k (a ++ b) ≡ KeyMap.get k b
unfolding KeyMap.get
get-append-Under k [] b h = refl
get-append-Under k (x ∷ a) b (h, hs) = rw (bytes_lt→ne x.key k h) (get-append-Under k a b hs)

-- What the strict order of a list cut in two says of its parts.
StrictlySorted-append :
    (a : List Entry) (x : Entry) (b : List Entry)
    → StrictlySorted (a ++ x ∷ b)
    → StrictlySorted a × Under x.key a × StrictlySorted (x ∷ b)
StrictlySorted-append [] x b h = (tt, tt, h)
StrictlySorted-append (y ∷ []) x b (h, hs) = (tt, (h, tt), hs)
StrictlySorted-append (y ∷ z ∷ a) x b (h, hs) =
    let (s, u, t) = StrictlySorted-append (z ∷ a) x b hs in
    ((h, s), (bytes_lt_trans y.key z.key x.key h u.0, u), t)

Under-trans : (j k : Bytes) (m : List Entry) → bytes_lt j k ≡ true → Under j m → Under k m
Under-trans j k [] h hs = tt
Under-trans j k (e ∷ m) h (he, hs) = (bytes_lt_trans e.key j k he h, Under-trans j k m h hs)

-- The choice finds what a lookup in the whole list finds, if the halves do.
choose-get :
    (k : Bytes) (front : List Entry) (x : Entry) (back : List Entry)
    → StrictlySorted (front ++ x ∷ back)
    → choose k (KeyMap.get k front) (KeyMap.get k back) (x ∷ back)
      ≡ KeyMap.get k (front ++ x ∷ back)
unfolding choose
choose-get k front x back h =
    let (s, under, t) = StrictlySorted-append front x back h in
    let above = StrictlySorted-Below x back t in
    elim (Bool-cases (bytes_lt x.key k)) [
      | inl up ↦
          let passed = get-append-Under k front (x ∷ back) (Under-trans x.key k front up under) in
          rw (up, passed) (unfold KeyMap.get in rw (bytes_lt→ne x.key k up))
      | inr not_up ↦ elim (Bool-cases (bytes_lt k x.key)) [
        | inl down ↦
            let missing = get-Below k (x ∷ back) (down, Below-trans k x.key back down above) in
            rw (not_up, down) (sym (get-append k front (x ∷ back) missing))
        | inr not_down ↦
            let same : x.key ≡ k = ground (arith, bytes_lt_total x.key k, bytes_eq→eq x.key k) in
            let passed = get-append-Under k front (x ∷ back) (rw same at under) in
            rw (not_up, not_down, passed) (unfold KeyMap.get in rw (same, bytes_eq_refl k))
      ]
    ]

-- One step of the search, if the halves are searched right.
search_step :
    (fuel : ℕ) (k : Bytes) (front back : List Entry)
    → StrictlySorted (front ++ back)
    → (back ≡ [] → front ≡ [])
    → search fuel k front ≡ KeyMap.get k front
    → search fuel k (drop 1 back) ≡ KeyMap.get k (drop 1 back)
    → choose k (search fuel k front) (search fuel k (drop 1 back)) back
      ≡ KeyMap.get k (front ++ back)
search_step fuel k front [] h empty lower upper = rw (empty refl) (unfold choose KeyMap.get in refl)
search_step fuel k front (x ∷ back) h empty lower upper =
    rw (lower, upper) (choose-get k front x back h)

StrictlySorted-left : (a b : List Entry) → StrictlySorted (a ++ b) → StrictlySorted a
StrictlySorted-left a [] h = rw append-nil at h
StrictlySorted-left a (x ∷ b) h = (StrictlySorted-append a x b h).0

StrictlySorted-right : (a b : List Entry) → StrictlySorted (a ++ b) → StrictlySorted (drop 1 b)
StrictlySorted-right a [] h = tt
StrictlySorted-right a (x ∷ b) h = StrictlySorted-tail x b (StrictlySorted-append a x b h).2

length-drop_one : (b : List Entry) → length (drop 1 b) ≡ length b - 1
length-drop_one [] = refl
length-drop_one (x ∷ b) = omega arith

empty-length : (a : List Entry) → length a ≡ 0 → a ≡ []
empty-length [] h = refl
empty-length (x ∷ a) h = absurd (omega arith)

search-get :
    (fuel : ℕ) (k : Bytes) (es : List Entry)
    → length es ≤ fuel
    → StrictlySorted es
    → search fuel k es ≡ KeyMap.get k es
unfolding search
search-get zero k es few h = rw (empty-length es (omega arith)) (unfold KeyMap.get in refl)
search-get (suc fuel) k es few h =
    let n = length es / 2 in
    let front = take n es in
    let back = drop n es in
    let whole : front ++ back ≡ es = take-append-drop n es in
    let sorted : StrictlySorted (front ++ back) = rw whole h in
    let front_length : length front ≡ n = length-take n es (omega arith) in
    let lengths = length-append front back in
    let total : length (front ++ back) ≡ length es = ap length whole in
    let empty : back ≡ [] → front ≡ [] =
      λ e. empty-length front (omega (arith, front_length, lengths, total, ap length e)) in
    let lower =
      search-get fuel k front (omega (arith, front_length))
        (StrictlySorted-left front back sorted) in
    let upper =
      search-get fuel k (drop 1 back)
        (omega (arith, length-drop_one back, front_length, lengths, total))
        (StrictlySorted-right front back sorted) in
    search_step fuel k front back sorted empty lower upper ∙ ap (KeyMap.get k) whole

-- On a view that `validate_canonical` accepts, `get` answers what a lookup from the front answers,
-- for every key: the binary search finds each entry and does not run out of steps.
pub get_canonical :
    (v : StateView) (k : Bytes) → validate_canonical v ≡ ok tt → get v k ≡ KeyMap.get k v.entries
unfolding get
get_canonical v k h =
    search-get (length v.entries) k v.entries (omega arith) (validate_canonical→IsView v h).sorted
