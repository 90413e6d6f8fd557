-- ===== src/GuestMemory/Log/Text.antt =====
-- What the text of a fault record says: each label, and after it the number in decimal.
use jam_script.Prelude.{
  ℕ, zero, suc, ◌+◌, ◌*◌, ◌-◌, ◌≤◌, ◌<◌, ◌/◌, ◌%◌, List, [], ◌∷◌, ◌++◌, ◌≡◌, ◌≢◌, ◌⊎◌, inl, inr,
  refl, ◌∙◌, ap, append_assoc, append-nil, some, Bytes, length, length-append, le→ltb_not, ◌==◌,
  All, u32_max, Bool-cases, arith,
}
use jam_script.GuestMemory.Fault.{GuestFaultRecord}
use jam_script.GuestMemory.Log.{
  GuestFaultLogWriter, write_bytes, reversed_digits, reverse_onto, write_each, write_number, Part,
  write_parts, parts, written_of, write_log_message,
}

-- The number that digits stand for, after the digits of `n`.
abbrev pub read_decimal : ℕ → Bytes → ℕ
read_decimal n [] = n
read_decimal n (d ∷ ds) = read_decimal (10 * n + (d - 48)) ds

-- `0` to `9` in ASCII.
abbrev pub IsDigit : ℕ → Type 0
IsDigit d = (48 ≤ d) × (d < 58)

-- At least one digit, and no zero in front of others.
abbrev pub IsTrimmed : Bytes → Type 0
IsTrimmed [] = ⊥
IsTrimmed (d ∷ []) = Unit
IsTrimmed (d ∷ e ∷ ds) = d ≢ 48

-- The decimal of `n`.
pub record IsDecimal (n : ℕ) (ds : Bytes) : Type 0 where
  pub digits : All IsDigit ds
  pub trimmed : IsTrimmed ds
  pub value : read_decimal 0 ds ≡ n

-- The labels, each with the decimal of its number.
abbrev pub IsText : List Part → Bytes → Type 0
IsText [] text = text ≡ []
IsText (part ∷ rest) text =
    (ds : Bytes) × (after : Bytes) × IsDecimal part.number ds
    × IsText rest after
    × (text ≡ part.label ++ (ds ++ after))

-- The digits from the last: their value, and no zero at the end.
record IsReversed (n : ℕ) (out ds : Bytes) : Type 0 where
  digits : All IsDigit out → All IsDigit (reverse_onto ds out)
  trimmed : (n ≢ 0) ⊎ (out ≡ []) → IsTrimmed (reverse_onto ds out)
  value : read_decimal 0 (reverse_onto ds out) ≡ read_decimal n out

IsReversed-last : (n : ℕ) (out : Bytes) → n < 10 → IsReversed n out ((48 + n) ∷ [])
unfolding reverse_onto
IsReversed-last n [] h = record {
  digits = λ k. ((omega arith, omega arith), k);
  trimmed = λ k. tt;
  value = omega arith;
}
IsReversed-last n (d ∷ out) h = record {
  digits = λ k. ((omega arith, omega arith), k);
  trimmed = λ k zero_digit. elim k [ inl positive ↦ positive (omega arith) | inr e ↦ cc ];
  value = ap (λ m. read_decimal m out) (omega arith);
}

IsReversed-more :
    (n : ℕ) (out ds : Bytes)
    → n / 10 ≢ 0
    → IsReversed (n / 10) ((48 + n % 10) ∷ out) ds
    → IsReversed n out ((48 + n % 10) ∷ ds)
unfolding reverse_onto
IsReversed-more n out ds big h = record {
  digits = λ k. h.digits ((omega arith, omega arith), k);
  trimmed = λ k. h.trimmed (inl big);
  value = h.value ∙ ap (λ m. read_decimal m out) (omega arith);
}

-- The number has at most so many digits.
abbrev Fits : ℕ → ℕ → Type 0
Fits zero n = ⊥
Fits (suc room) n = (n < 10) ⊎ Fits room (n / 10)

reversed_digits-IsReversed :
    (room n : ℕ) (out : Bytes)
    → Fits room n
    → (ds : Bytes) × (reversed_digits room n ≡ some ds) × IsReversed n out ds × (length ds ≤ room)
unfolding reversed_digits
reversed_digits-IsReversed zero n out h = absurd h
reversed_digits-IsReversed (suc room) n out h = elim (Bool-cases (n / 10 == 0)) [
  | inl e ↦
      let small : n < 10 = ground arith in
      let same : n % 10 ≡ n = omega arith in
      ((48 + n) ∷ [], rw (e, same), IsReversed-last n out small, omega arith)
  | inr e ↦
      let large : n / 10 ≢ 0 = ground arith in
      let (ds, found, reversed, short) =
        reversed_digits-IsReversed room (n / 10) ((48 + n % 10) ∷ out)
          (elim h [ inl small ↦ absurd (large (omega arith)) | inr fits ↦ fits ]) in
      ((48 + n % 10) ∷ ds, rw (e, found), IsReversed-more n out ds large reversed, omega arith)
]

length-reverse_onto : (ds out : Bytes) → length (reverse_onto ds out) ≡ length ds + length out
unfolding reverse_onto
length-reverse_onto [] out = omega arith
length-reverse_onto (d ∷ ds) out = omega (arith, length-reverse_onto ds (d ∷ out))

Fits-u32 : (n : ℕ) → n ≤ u32_max → Fits 10 n
Fits-u32 n h = inr (inr (inr (inr (inr (inr (inr (inr (inr (inl (omega arith))))))))))

write_bytes-fits :
    (bytes : Bytes) (w : GuestFaultLogWriter)
    → length w.written + length bytes ≤ w.capacity
    → write_bytes bytes w ≡ some (record w { written = w.written ++ bytes })
unfolding write_bytes
write_bytes-fits bytes w h = rw (le→ltb_not w.capacity (length w.written + length bytes) h) refl

write_each-fits :
    (bytes : Bytes) (w : GuestFaultLogWriter)
    → length w.written + length bytes ≤ w.capacity
    → write_each bytes w ≡ some (record w { written = w.written ++ bytes })
unfolding write_each
write_each-fits [] w h = rw append-nil refl
write_each-fits (d ∷ rest) w h =
    let w' : GuestFaultLogWriter = record w { written = w.written ++ (d ∷ []) } in
    rw (write_bytes-fits (d ∷ []) w (omega (arith, h))) (
      write_each-fits rest w' (omega (arith, h, length-append w.written (d ∷ [])))
      ∙ rw (append_assoc w.written (d ∷ []) rest) refl)

-- A number of 32 bits is written in decimal where ten bytes are left.
write_number-IsDecimal :
    (n : ℕ) (w : GuestFaultLogWriter)
    → n ≤ u32_max
    → length w.written + 10 ≤ w.capacity
    → (ds : Bytes) × IsDecimal n ds
      × (length ds ≤ 10)
      × (write_number n w ≡ some (record w { written = w.written ++ ds }))
unfolding write_number
write_number-IsDecimal n w h room =
    let (ds, found, reversed, short) = reversed_digits-IsReversed 10 n [] (Fits-u32 n h) in
    let size = length-reverse_onto ds [] in
    (
      reverse_onto ds [],
      record {
        digits = reversed.digits tt;
        trimmed = reversed.trimmed (inr refl);
        value = reversed.value;
      },
      omega (arith, size, short),
      rw (found, write_number)
          (write_each-fits (reverse_onto ds []) w (omega (arith, room, size, short))),
    )

-- The room that labels and numbers can take.
abbrev room : List Part → ℕ
room [] = 0
room (p ∷ ps) = length p.label + 10 + room ps

abbrev IsWord : Part → Type 0
IsWord p = p.number ≤ u32_max

write_parts-IsText :
    (ps : List Part) (w : GuestFaultLogWriter)
    → All IsWord ps
    → length w.written + room ps ≤ w.capacity
    → (text : Bytes) × IsText ps text
      × (length text ≤ room ps)
      × (write_parts ps w ≡ some (record w { written = w.written ++ text }))
unfolding write_parts
write_parts-IsText [] w words h = ([], refl, omega arith, rw append-nil refl)
write_parts-IsText (p ∷ ps) w (word, words) h =
    let w₁ : GuestFaultLogWriter = record w { written = w.written ++ p.label } in
    let l₁ = length-append w.written p.label in
    let (ds, decimal, short, wrote) =
      write_number-IsDecimal p.number w₁ word (omega (arith, h, l₁)) in
    let w₂ : GuestFaultLogWriter = record w { written = w.written ++ p.label ++ ds } in
    let l₂ = length-append (w.written ++ p.label) ds in
    let (after, rest, small, done) =
      write_parts-IsText ps w₂ words (omega (arith, h, l₁, l₂, short)) in
    let l₃ = length-append p.label (ds ++ after) in
    let l₄ = length-append ds after in
    (
      p.label ++ (ds ++ after),
      (ds, after, decimal, rest, refl),
      omega (arith, l₃, l₄, short, small),
      rw (write_bytes-fits p.label w (omega (arith, h)), wrote)
          (done ∙ rw (append_assoc, append_assoc) refl),
    )

-- The numbers of a record, which have 32 bits.
pub record IsWords (r : GuestFaultRecord) : Type 0 where
  pub code : r.code ≤ u32_max
  pub stage : r.stage ≤ u32_max
  pub requested_bytes : r.requested_bytes ≤ u32_max
  pub alignment : r.alignment ≤ u32_max
  pub heap_committed_bytes : r.heap_committed_bytes ≤ u32_max
  pub heap_max_bytes : r.heap_max_bytes ≤ u32_max
  pub live_requested_bytes : r.live_requested_bytes ≤ u32_max
  pub high_water_requested_bytes : r.high_water_requested_bytes ≤ u32_max
  pub cumulative_requested_bytes : r.cumulative_requested_bytes ≤ u32_max

-- For a record whose numbers have 32 bits, into a buffer of at least 256 bytes the whole text is
-- written: the labels in order, each followed by the decimal of its number, without leading zeros.
-- The text has at most 256 bytes.
pub write_log_message_fits :
    (capacity : ℕ) (r : GuestFaultRecord)
    → IsWords r
    → 256 ≤ capacity
    → (text : Bytes) × (write_log_message capacity r ≡ some text)
      × IsText (parts r) text
      × (length text ≤ 256)
unfolding write_log_message written_of
write_log_message_fits capacity r h large =
    let (text, good, short, wrote) =
      write_parts-IsText (parts r) (record { capacity = capacity; written = [] })
        (
          h.code,
          (
            h.stage,
            (
              h.requested_bytes,
              (
                h.alignment,
                (
                  h.heap_committed_bytes,
                  (
                    h.heap_max_bytes,
                    (
                      h.live_requested_bytes,
                      (h.high_water_requested_bytes, (h.cumulative_requested_bytes, tt)),
                    ),
                  ),
                ),
              ),
            ),
          ),
        )
        (omega (arith, large)) in
    (text, ap written_of wrote, good, omega (arith, short))
