-- ===== src/Codec/Returns.antt =====
-- Rules for what a decoder reads.
use jam_script.Prelude.{
  ℕ, ◌+◌, ◌-◌, ◌^◌, ◌≤◌, ◌<◌, ◌≡◌, refl, ◌∙◌, ap, subst, ◌++◌, append_assoc, Bytes, [], ◌∷◌, length,
  le_bytes, from_le, length-le_bytes, from_le-le_bytes, ltb, true, false, ok, if◌then◌else◌,
  u32_max, arith,
}
use jam_script.Codec.Value.{ℤ, pos, negsuc, Value, bound_exceeded}
use jam_script.Codec.Natural.{Read, ◌>>=◌, pure, fail, take_bytes, u8, natural, encode_natural}
use jam_script.Codec.Natural.Laws.{>>=-ok, take_bytes-append, natural-encode_natural}
use jam_script.Codec.Encode.{
  push_unsigned, low_bytes, is_outside, push_signed, push_fixed, push_bytes,
}
use jam_script.Codec.Decode.{read_unsigned, to_signed, read_signed, read_bytes}

-- A decoder takes `bs` off the front of any input, and returns `a`.
abbrev pub Returns : {A : Type 0} → Read A → Bytes → A → Type 0
Returns m bs a = (rest : Bytes) → m (bs ++ rest) ≡ ok (a, rest)

module _ {A B : Type 0} where
  pub Returns-bind :
      (m : Read A) (f : A → Read B) (us vs : Bytes) (a : A) (b : B)
      → Returns m us a
      → Returns (f a) vs b
      → Returns (m >>= f) (us ++ vs) b
  Returns-bind m f us vs a b h k rest =
      rw (append_assoc us vs rest) (>>=-ok m f (us ++ (vs ++ rest)) (h (vs ++ rest)) ∙ k rest)

  -- The last step reads nothing.
  pub Returns-map :
      (m : Read A) (f : A → B) (us : Bytes) (a : A)
      → Returns m us a
      → Returns (m >>= λ x. pure (f x)) us (f a)
  unfolding pure
  Returns-map m f us a h rest = >>=-ok m (λ x. pure (f x)) (us ++ rest) (h rest)

pub Returns-take_bytes : (n : ℕ) (bs : Bytes) → length bs ≡ n → Returns (take_bytes n) bs bs
Returns-take_bytes n bs e rest = take_bytes-append bs rest e

pub Returns-u8 : (b : ℕ) → Returns u8 (b ∷ []) b
unfolding u8
Returns-u8 b rest = refl

pub Returns-natural : (n : ℕ) → n < 2 ^ 64 → Returns natural (encode_natural n) n
Returns-natural n h rest = natural-encode_natural n rest h

pub Returns-unsigned :
    (n max width : ℕ) (bs : Bytes)
    → max < 256 ^ width
    → push_unsigned n max width ≡ ok bs
    → Returns (read_unsigned width) bs (Value.unsigned n)
unfolding read_unsigned push_unsigned
Returns-unsigned n max width bs room h =
    let small : n ≤ max = ground arith in
    let e : bs ≡ le_bytes width n = ground arith in
    let back : from_le (le_bytes width n) ≡ n = from_le-le_bytes width n (omega arith) in
    rw e (
      subst (λ k. Returns (read_unsigned width) (le_bytes width n) (Value.unsigned k)) back
        (Returns-map (take_bytes width) (λ b. Value.unsigned (from_le b)) (le_bytes width n)
          (le_bytes width n)
          (Returns-take_bytes width (le_bytes width n) (length-le_bytes width n))))

length-low_bytes : (width : ℕ) (z : ℤ) → length (low_bytes width z) ≡ width
unfolding low_bytes
length-low_bytes width (pos n) = length-le_bytes width n
length-low_bytes width (negsuc n) = length-le_bytes width (256 ^ width - 1 - n)

-- Two's complement, from the half of the patterns that are negative.
to_signed-low_bytes :
    (width half : ℕ) (z : ℤ)
    → half + half ≡ 256 ^ width
    → is_outside half z ≡ false
    → to_signed width half (from_le (low_bytes width z)) ≡ z
unfolding to_signed low_bytes is_outside
to_signed-low_bytes width half (pos n) e inside =
    let small : n < half = ground arith in
    let test : ltb n half ≡ true = ground arith in rw (from_le-le_bytes width n (omega arith), test)
to_signed-low_bytes width half (negsuc n) e inside =
    let small : n < half = ground arith in
    let pattern = 256 ^ width - 1 - n in
    let test : ltb pattern half ≡ false = ground arith in
    let back : 256 ^ width - 1 - pattern ≡ n = omega arith in
    rw (from_le-le_bytes width pattern (omega arith), test) (ap negsuc back)

pub Returns-signed :
    (z : ℤ) (half width : ℕ) (bs : Bytes)
    → half + half ≡ 256 ^ width
    → push_signed z half width ≡ ok bs
    → Returns (read_signed width half) bs (Value.signed z)
unfolding read_signed push_signed
Returns-signed z half width bs e h =
    let inside : is_outside half z ≡ false = ground arith in
    let same : bs ≡ low_bytes width z = ground arith in
    let back = to_signed-low_bytes width half z e inside in
    rw same (
      subst (λ k. Returns (read_signed width half) (low_bytes width z) (Value.signed k)) back
        (Returns-map (take_bytes width) (λ b. Value.signed (to_signed width half (from_le b)))
          (low_bytes width z) (low_bytes width z)
          (Returns-take_bytes width (low_bytes width z) (length-low_bytes width z))))

pub Returns-fixed : (n : ℕ) (b bs : Bytes) → push_fixed n b ≡ ok bs → Returns (take_bytes n) bs b
unfolding push_fixed
Returns-fixed n b bs h =
    let size : length b ≡ n = ground arith in
    let same : bs ≡ b = ground arith in rw same (Returns-take_bytes n b size)

pub Returns-bytes :
    (max : ℕ) (b bs : Bytes)
    → max ≤ u32_max
    → push_bytes max b ≡ ok bs
    → Returns (read_bytes max) bs b
unfolding push_bytes read_bytes
Returns-bytes max b bs word h =
    let fits : ltb max (length b) ≡ false = ground arith in
    let same : bs ≡ encode_natural (length b) ++ b = ground arith in
    let small : length b ≤ max = ground arith in
    rw same (
      Returns-bind natural (λ len. if ltb max len then fail bound_exceeded else take_bytes len)
        (encode_natural (length b)) b (length b) b (Returns-natural (length b) (omega arith))
        (rw fits (Returns-take_bytes (length b) b refl)))
