-- ===== src/Wire/Reader/Rules/Fields.antt =====
-- The rules for the methods of `Reader`: bytes, numbers, byte strings with their length, and items
-- one after the other.
use jam_script.Prelude.{
  ℕ, zero, suc, ◌+◌, ◌≤◌, ◌<◌, ◌≡◌, refl, sym, ap, ◌∙◌, List, [], ◌∷◌, ◌++◌, append_assoc,
  append-nil, Bytes, IsBytes, IsByte, usize_max, length, take, drop, ltb, ok, All, All-append_left,
  take-append, drop-append, length-append, flat_map, take-append-drop, length-take, arith, le_bytes,
  from_le, length-le_bytes, from_le-le_bytes, le_bytes-from_le, from_le-lt, ltb_not→le, le→ltb_not,
  ◌^◌,
}
use jam_script.Wire.{too_many_items}
use jam_script.Wire.Writer
use jam_script.Wire.Reader.{
  Reader, Read, ◌>>=◌, pure, lift, take_bytes, u8, array, u32, u64, bytes_u32, bytes_limited,
  repeat, first,
}
use jam_script.Wire.Reader.Rules.{
  Reads, Consumes, reader_at, Reads-bind, Consumes-bind, Reads-pure, Reads-lift, Consumes-pure,
  Consumes-fail, Consumes-if, Consumes-mono, Reads-cast, Consumes-lift_end,
}

-- The reader that is left when `n` of the bytes ahead are taken.
advance :
    (n : ℕ) (pre s : Bytes)
    → n ≤ length s
    → record (reader_at pre s) { offset = length pre + n } ≡ reader_at (pre ++ take n s) (drop n s)
unfolding reader_at
advance n pre s h =
    let same_bytes : pre ++ s ≡ pre ++ take n s ++ drop n s =
      rw (append_assoc, take-append-drop n s) refl in
    let same_offset : length pre + n ≡ length (pre ++ take n s) =
      rw (length-append, length-take n s h) refl in
    λ i. record { bytes = same_bytes i; offset = same_offset i }

take_bytes-ok :
    (n : ℕ) (pre s : Bytes)
    → length (pre ++ s) ≤ usize_max
    → n ≤ length s
    → take_bytes n (reader_at pre s) ≡ ok (take n s, reader_at (pre ++ take n s) (drop n s))
take_bytes-ok n pre s fits h = rw (← advance n pre s h) (
    unfold take_bytes reader_at in
    rw (le→ltb_not usize_max (length pre + n) (omega (arith, length-append pre s))) (
      rw (le→ltb_not (length (pre ++ s)) (length pre + n) (omega (arith, length-append pre s)))
        (rw drop-append refl)))

Reads-take : (n : ℕ) (bs : Bytes) → length bs ≡ n → Reads (take_bytes n) bs bs
Reads-take n bs e = record {
  at = λ pre rest fits.
      let fits' = rw append_assoc at fits in
      let taken : take n (bs ++ rest) ≡ bs = rw (← e, take-append) refl in
      let left : drop n (bs ++ rest) ≡ rest = rw (← e, drop-append) refl in
      let h = take_bytes-ok n pre (bs ++ rest) fits' (omega (arith, length-append bs rest, e)) in
      rw (taken, left) at h;
}

take_bytes-eq-ok :
    (n : ℕ) (pre s b : Bytes) (r : Reader)
    → take_bytes n (reader_at pre s) ≡ ok (b, r)
    → (n ≤ length s) × (b ≡ take n s) × (r ≡ record (reader_at pre s) { offset = length pre + n })
unfolding take_bytes reader_at
take_bytes-eq-ok n pre s b r e =
    let within : length pre + n ≤ length (pre ++ s) = ground arith in
    let taken : b ≡ take n (drop (length pre) (pre ++ s)) = ground arith in
    let left : r ≡ record { bytes = pre ++ s; offset = length pre + n } = ground arith in
    (omega (arith, within, length-append pre s), rw drop-append at taken, left)

Consumes-take : (n : ℕ) → Consumes (take_bytes n) (λ b u. (u ≡ b) × (length b ≡ n) × IsBytes b)
Consumes-take n = record {
  at = λ pre s b r bytes e.
      let (h, eb, er) = take_bytes-eq-ok n pre s b r e in
      let all = rw (← take-append-drop n s) at bytes in
      (
        take n s,
        drop n s,
        sym (take-append-drop n s),
        er ∙ advance n pre s h,
        (
          sym eb,
          rw eb (length-take n s h),
          rw eb (All-append_left IsByte (take n s) (drop n s) all),
        ),
      );
}

pub Reads-array : (n : ℕ) (bs : Bytes) → length bs ≡ n → Reads (array n) bs bs
unfolding array
Reads-array = Reads-take

pub Consumes-array : (n : ℕ) → Consumes (array n) (λ b u. (u ≡ b) × (length b ≡ n) × IsBytes b)
unfolding array
Consumes-array = Consumes-take

pub Reads-u8 : (b : ℕ) → Reads u8 (b ∷ []) b
unfolding u8
Reads-u8 b =
    Reads-bind (take_bytes 1) (λ bs. lift (first bs)) (b ∷ []) [] (Reads-take 1 (b ∷ []) refl)
      (Reads-lift (first (b ∷ [])) refl)

pub Consumes-u8 : Consumes u8 (λ b u. (u ≡ b ∷ []) × IsByte b)
unfolding u8
Consumes-u8 = Consumes-bind (take_bytes 1) (λ bs. lift (first bs)) (Consumes-take 1) one_byte
  where
    one_byte :
        (bs u : Bytes)
        → (u ≡ bs) × (length bs ≡ 1) × IsBytes bs
        → Consumes (lift (first bs)) (λ b v. (u ++ v ≡ b ∷ []) × IsByte b)
    one_byte (b ∷ []) u (e, n, (h, h')) =
        Consumes-lift_end (ok b) (λ c q. let eb : b ≡ c = cc q in rw (← eb) (append-nil u ∙ e, h))
    one_byte [] u (e, n, h) = absurd (omega arith)
    one_byte (b ∷ c ∷ bs) u (e, n, h) = absurd (omega arith)

-- A little-endian number of `w` bytes.
number : ℕ → Read ℕ
number w = array w >>= λ b. pure (from_le b)

Reads-number : (w v : ℕ) → v < 256 ^ w → Reads (number w) (le_bytes w v) v
unfolding number
Reads-number w v h =
    let last : Reads (pure (from_le (le_bytes w v))) [] v =
      rw (from_le-le_bytes w v h) (Reads-pure v) in
    Reads-cast
      (Reads-bind (array w) (λ b. pure (from_le b)) (le_bytes w v) []
        (Reads-array w (le_bytes w v) (length-le_bytes w v)) last)
      (append-nil (le_bytes w v))

Consumes-number : (w : ℕ) → Consumes (number w) (λ v u. (u ≡ le_bytes w v) × (v < 256 ^ w))
unfolding number
Consumes-number w =
    Consumes-bind (array w) (λ b. pure (from_le b)) (Consumes-array w)
      (λ b u h. Consumes-pure (from_le b) (written b u h))
  where
    written :
        (b u : Bytes)
        → (u ≡ b) × (length b ≡ w) × IsBytes b
        → (u ++ [] ≡ le_bytes w (from_le b)) × (from_le b < 256 ^ w)
    written b u (e, n, h) =
        (append-nil u ∙ e ∙ rw (← n) (sym (le_bytes-from_le b h)), rw (← n) (from_le-lt b h))

pub Reads-u32 : (v : ℕ) → v < 2 ^ 32 → Reads u32 (Writer.u32 v) v
unfolding u32 Writer.u32 number
Reads-u32 v h = Reads-number 4 v h

pub Consumes-u32 : Consumes u32 (λ v u. (u ≡ Writer.u32 v) × (v < 2 ^ 32))
unfolding u32 Writer.u32 number
Consumes-u32 = Consumes-number 4

pub Reads-u64 : (v : ℕ) → v < 2 ^ 64 → Reads u64 (le_bytes 8 v) v
unfolding u64 number
Reads-u64 v h = Reads-number 8 v h

pub Consumes-u64 : Consumes u64 (λ v u. (u ≡ le_bytes 8 v) × (v < 2 ^ 64))
unfolding u64 number
Consumes-u64 = Consumes-number 8

-- A length in four bytes, and the bytes.
abbrev pub prefixed : Bytes → Bytes
prefixed b = Writer.u32 (length b) ++ b

pub length-prefixed : (b : Bytes) → length (prefixed b) ≡ 4 + length b
unfolding Writer.u32
length-prefixed b =
    omega (arith, length-append (le_bytes 4 (length b)) b, length-le_bytes 4 (length b))

pub Reads-bytes_limited :
    (maximum : ℕ) (b : Bytes)
    → length b ≤ maximum
    → length b < 2 ^ 32
    → Reads (bytes_limited maximum) (prefixed b) b
unfolding bytes_limited
Reads-bytes_limited maximum b h fits =
    Reads-bind u32 _ (Writer.u32 (length b)) b (Reads-u32 (length b) fits)
      (rw (le→ltb_not maximum (length b) h) (Reads-take (length b) b refl))

pub Consumes-bytes_limited :
    (maximum : ℕ)
    → Consumes
        (bytes_limited maximum)
        (λ b u. (u ≡ prefixed b) × (length b ≤ maximum) × (length b < 2 ^ 32) × IsBytes b)
unfolding bytes_limited
Consumes-bytes_limited maximum = Consumes-bind u32 _ Consumes-u32 λ n u hn.
    Consumes-if (ltb maximum n) _ _ (λ p. Consumes-fail too_many_items)
      (λ p. Consumes-mono (Consumes-take n) (λ b v hb.
        (rw (hn.0, hb.0, hb.1) refl, rw hb.1 (ltb_not→le maximum n p), rw hb.1 hn.1, hb.2)))

pub Reads-bytes_u32 : (b : Bytes) → length b < 2 ^ 32 → Reads bytes_u32 (prefixed b) b
unfolding bytes_u32
Reads-bytes_u32 b fits =
    Reads-bind u32 _ (Writer.u32 (length b)) b (Reads-u32 (length b) fits)
      (Reads-take (length b) b refl)

pub Consumes-bytes_u32 :
    Consumes bytes_u32 (λ b u. (u ≡ prefixed b) × (length b < 2 ^ 32) × IsBytes b)
unfolding bytes_u32
Consumes-bytes_u32 = Consumes-bind u32 _ Consumes-u32 λ n u hn.
    Consumes-mono (Consumes-take n) (λ b v hb. (rw (hn.0, hb.0, hb.1) refl, rw hb.1 hn.1, hb.2))

module _ {A : Type 0} (item : Read A) (encode : A → Bytes) where
  pub Reads-repeat :
      (xs : List A)
      → All (λ x. Reads item (encode x) x) xs
      → Reads (repeat (length xs) item) (flat_map encode xs) xs
  unfolding repeat
  Reads-repeat [] h = Reads-pure []
  Reads-repeat (x ∷ xs) (h, hs) = Reads-bind item _ (encode x) (flat_map encode xs) h (
      Reads-cast
        (Reads-bind (repeat (length xs) item) _ (flat_map encode xs) [] (Reads-repeat xs hs)
          (Reads-pure (x ∷ xs)))
        (append-nil _))

  pub Consumes-repeat :
      {P : A → Type 0}
      → Consumes item (λ x u. (u ≡ encode x) × P x)
      → (n : ℕ)
      → Consumes (repeat n item) (λ xs u. (u ≡ flat_map encode xs) × (length xs ≡ n) × All P xs)
  unfolding repeat
  Consumes-repeat h zero = Consumes-pure [] (refl, refl, tt)
  Consumes-repeat h (suc n) = Consumes-bind item _ h λ x u hx.
      Consumes-bind (repeat n item) _ (Consumes-repeat h n) λ xs v hxs.
        Consumes-pure (x ∷ xs) (rw (append-nil, hx.0, hxs.0) refl, ap suc hxs.1, (hx.1, hxs.2))
