-- ===== src/Codec/Natural/Laws.antt =====
-- A natural is read back from its encoding.
use jam_script.Prelude.{
  ℕ, zero, suc, ◌+◌, ◌-◌, ◌*◌, ◌/◌, ◌%◌, ◌^◌, ◌≤◌, ◌<◌, ◌≡◌, ◌≢◌, refl, ap, inl, inr, ◌∙◌, Bytes,
  le_bytes, from_le, from_le-le_bytes, length-le_bytes, take-append, drop-append, length,
  length-append, ◌++◌, [], ◌∷◌, ltb, ltb→lt, ltb_not→le, Bool-cases, true, false, ◌==◌, ok, arith,
}
use native.Mathlib.Nat.{pow-suc}
use jam_script.Codec.Natural.{
  bit_length, extra_bytes, encode_natural, Read, ◌>>=◌, pure, take_bytes, u8, leading_ones,
  natural_low, natural,
}

-- A number below a power of two has at most as many bits as its exponent says.
bit_length-le : (n k v : ℕ) → v < 2 ^ k → bit_length n v ≤ k
unfolding bit_length
bit_length-le zero k v h = omega arith
bit_length-le (suc n) zero v h = ground arith
bit_length-le (suc n) (suc k) v h =
    let half : v / 2 < 2 ^ k = omega (arith, pow-suc 2 k) in
    ground (arith, bit_length-le n k (v / 2) half)

power_pos : (k : ℕ) → 0 < 2 ^ k
power_pos zero = omega arith
power_pos (suc k) = omega (arith, power_pos k, pow-suc 2 k)

bit_length-gt : (n k v : ℕ) → k < n → 2 ^ k ≤ v → k < bit_length n v
unfolding bit_length
bit_length-gt zero k v room h = absurd (omega arith)
bit_length-gt (suc n) zero v room h = ground arith
bit_length-gt (suc n) (suc k) v room h =
    let half : 2 ^ k ≤ v / 2 = omega (arith, pow-suc 2 k) in
    let some_bits : 0 < 2 ^ k = power_pos k in
    ground (arith, bit_length-gt n k (v / 2) (omega arith) half)

-- The first byte of a number with `j` extra bytes.
abbrev first_byte : ℕ → ℕ → ℕ
first_byte j v = (256 - 2 ^ (8 - j)) + v / 2 ^ (8 * j)

abbrev IsFirst : ℕ → ℕ → Type 0
IsFirst j v =
    (leading_ones (first_byte j v) ≡ j)
    × (128 ≤ first_byte j v)
    × (from_le (le_bytes j v) + first_byte j v % 2 ^ (7 - j) * 2 ^ (8 * j) ≡ v)
    × (extra_bytes v ≡ j)

IsFirst-1 : (v : ℕ) → 2 ^ 7 ≤ v → v < 2 ^ 14 → IsFirst 1 v
unfolding leading_ones from_le le_bytes extra_bytes
IsFirst-1 v low high = (
  ground arith,
  omega arith,
  omega arith,
  omega (arith, bit_length-gt 64 7 v (omega arith) low, bit_length-le 64 14 v high),
)

IsFirst-2 : (v : ℕ) → 2 ^ 14 ≤ v → v < 2 ^ 21 → IsFirst 2 v
unfolding leading_ones from_le le_bytes extra_bytes
IsFirst-2 v low high = (
  ground arith,
  omega arith,
  omega arith,
  omega (arith, bit_length-gt 64 14 v (omega arith) low, bit_length-le 64 21 v high),
)

IsFirst-3 : (v : ℕ) → 2 ^ 21 ≤ v → v < 2 ^ 28 → IsFirst 3 v
unfolding leading_ones from_le le_bytes extra_bytes
IsFirst-3 v low high = (
  ground arith,
  omega arith,
  omega arith,
  omega (arith, bit_length-gt 64 21 v (omega arith) low, bit_length-le 64 28 v high),
)

IsFirst-4 : (v : ℕ) → 2 ^ 28 ≤ v → v < 2 ^ 35 → IsFirst 4 v
unfolding leading_ones from_le le_bytes extra_bytes
IsFirst-4 v low high = (
  ground arith,
  omega arith,
  omega arith,
  omega (arith, bit_length-gt 64 28 v (omega arith) low, bit_length-le 64 35 v high),
)

IsFirst-5 : (v : ℕ) → 2 ^ 35 ≤ v → v < 2 ^ 42 → IsFirst 5 v
unfolding leading_ones from_le le_bytes extra_bytes
IsFirst-5 v low high = (
  ground arith,
  omega arith,
  omega arith,
  omega (arith, bit_length-gt 64 35 v (omega arith) low, bit_length-le 64 42 v high),
)

IsFirst-6 : (v : ℕ) → 2 ^ 42 ≤ v → v < 2 ^ 49 → IsFirst 6 v
unfolding leading_ones from_le le_bytes extra_bytes
IsFirst-6 v low high = (
  ground arith,
  omega arith,
  omega arith,
  omega (arith, bit_length-gt 64 42 v (omega arith) low, bit_length-le 64 49 v high),
)

IsFirst-7 : (v : ℕ) → 2 ^ 49 ≤ v → v < 2 ^ 56 → IsFirst 7 v
unfolding leading_ones from_le le_bytes extra_bytes
IsFirst-7 v low high = (
  ground arith,
  omega arith,
  omega arith,
  omega (arith, bit_length-gt 64 49 v (omega arith) low, bit_length-le 64 56 v high),
)

-- A number of several bytes has one of seven first bytes.
IsFirst-cases : (v : ℕ) → 2 ^ 7 ≤ v → v < 2 ^ 56 → (j : ℕ) × (j < 8) × IsFirst j v
IsFirst-cases v low high = elim (Bool-cases (ltb v (2 ^ 14))) [
  | inl h ↦ (1, omega arith, IsFirst-1 v low (ltb→lt _ _ h))
  | inr h₂ ↦ elim (Bool-cases (ltb v (2 ^ 21))) [
    | inl h ↦ (2, omega arith, IsFirst-2 v (ltb_not→le _ _ h₂) (ltb→lt _ _ h))
    | inr h₃ ↦ elim (Bool-cases (ltb v (2 ^ 28))) [
      | inl h ↦ (3, omega arith, IsFirst-3 v (ltb_not→le _ _ h₃) (ltb→lt _ _ h))
      | inr h₄ ↦ elim (Bool-cases (ltb v (2 ^ 35))) [
        | inl h ↦ (4, omega arith, IsFirst-4 v (ltb_not→le _ _ h₄) (ltb→lt _ _ h))
        | inr h₅ ↦ elim (Bool-cases (ltb v (2 ^ 42))) [
          | inl h ↦ (5, omega arith, IsFirst-5 v (ltb_not→le _ _ h₅) (ltb→lt _ _ h))
          | inr h₆ ↦ elim (Bool-cases (ltb v (2 ^ 49))) [
            | inl h ↦ (6, omega arith, IsFirst-6 v (ltb_not→le _ _ h₆) (ltb→lt _ _ h))
            | inr h₇ ↦ (7, omega arith, IsFirst-7 v (ltb_not→le _ _ h₇) high)
          ]
        ]
      ]
    ]
  ]
]

pub take_bytes-append :
    (bs rest : Bytes) {n : ℕ} → length bs ≡ n → take_bytes n (bs ++ rest) ≡ ok (bs, rest)
unfolding take_bytes
take_bytes-append bs rest e =
    let fits : ltb (length (bs ++ rest)) (length bs) ≡ false =
      ground (arith, length-append bs rest) in
    rw (← e, fits, take-append bs rest, drop-append bs rest)

-- A read that succeeds, followed by another.
pub >>=-ok :
    {A B : Type 0} (m : Read A) (f : A → Read B) (s : Bytes) {a : A} {s' : Bytes}
    → m s ≡ ok (a, s')
    → (m >>= f) s ≡ f a s'
>>=-ok m f s e = rw (e, ◌>>=◌)

natural-single :
    (v : ℕ) (rest : Bytes) → v < 2 ^ 7 → natural (encode_natural v ++ rest) ≡ ok (v, rest)
unfolding natural encode_natural u8 pure
natural-single v rest h = let small : ltb v 128 ≡ true = ground arith in rw (small, small)

natural-wide :
    (low rest : Bytes) → length low ≡ 8 → natural (255 ∷ low ++ rest) ≡ ok (from_le low, rest)
unfolding natural u8 pure leading_ones
natural-wide low rest e =
    >>=-ok (take_bytes 8) (λ b. pure (from_le b)) (low ++ rest) (take_bytes-append low rest e)

natural-first :
    (f j : ℕ) (low rest : Bytes)
    → leading_ones f ≡ j
    → 128 ≤ f
    → j < 8
    → length low ≡ j
    → natural (f ∷ low ++ rest) ≡ ok (from_le low + f % 2 ^ (7 - j) * 2 ^ (8 * j), rest)
unfolding natural natural_low u8 pure
natural-first f j low rest ones large small e =
    let test : ltb f 128 ≡ false = ground arith in
    let few : (j == 8) ≡ false = ground arith in
    rw (test, ones, few)
      (>>=-ok (take_bytes j) (λ b. pure (from_le b + f % 2 ^ (7 - j) * 2 ^ (8 * j))) (low ++ rest)
        (take_bytes-append low rest e))

encode_natural-wide : (v : ℕ) → 2 ^ 56 ≤ v → encode_natural v ≡ 255 ∷ le_bytes 8 v
unfolding encode_natural
encode_natural-wide v h =
    let above : ltb v (2 ^ 7) ≡ false = ground arith in
    let wide : ltb v (2 ^ 56) ≡ false = ground arith in rw (above, wide)

encode_natural-middle :
    (v j : ℕ)
    → 2 ^ 7 ≤ v
    → v < 2 ^ 56
    → extra_bytes v ≡ j
    → encode_natural v ≡ first_byte j v ∷ le_bytes j v
unfolding encode_natural
encode_natural-middle v j low high e =
    let above : ltb v (2 ^ 7) ≡ false = ground arith in
    let narrow : ltb v (2 ^ 56) ≡ true = ground arith in rw (e, above, narrow)

-- A number of 64 bits is read back from its encoding, whatever follows.
pub natural-encode_natural :
    (v : ℕ) (rest : Bytes) → v < 2 ^ 64 → natural (encode_natural v ++ rest) ≡ ok (v, rest)
natural-encode_natural v rest h = elim (Bool-cases (ltb v (2 ^ 7))) [
  | inl single ↦ natural-single v rest (ltb→lt _ _ single)
  | inr several ↦ elim (Bool-cases (ltb v (2 ^ 56))) [
    | inl narrow ↦
        let low = ltb_not→le _ _ several in
        let high = ltb→lt _ _ narrow in
        let (j, small, (ones, large, back, extra)) = IsFirst-cases v low high in
        rw (encode_natural-middle v j low high extra) (
          natural-first (first_byte j v) j (le_bytes j v) rest ones large small
            (length-le_bytes j v)
          ∙ rw back refl)
    | inr wide ↦
        rw (encode_natural-wide v (ltb_not→le _ _ wide)) (
          natural-wide (le_bytes 8 v) rest (length-le_bytes 8 v) ∙ rw (from_le-le_bytes 8 v h) refl)
  ]
]

encode_natural-single : (v : ℕ) → v < 128 → encode_natural v ≡ v ∷ []
unfolding encode_natural
encode_natural-single v h = let single : ltb v 128 ≡ true = ground arith in rw single refl

-- A number below 128 is also read from two bytes, 128 and the number, which are not its encoding.
pub natural_overlong :
    (v : ℕ) (rest : Bytes)
    → v < 128
    → (natural (128 ∷ v ∷ rest) ≡ ok (v, rest)) × (128 ∷ v ∷ [] ≢ encode_natural v)
unfolding from_le leading_ones
natural_overlong v rest h =
    let same : v + 256 * 0 + 128 % 2 ^ 6 * 2 ^ 8 ≡ v = omega arith in
    (
      natural-first 128 1 (v ∷ []) rest refl (omega arith) (omega arith) refl
          ∙ ap (λ n. ok (n, rest)) same,
      λ e. cc (e ∙ encode_natural-single v h),
    )
