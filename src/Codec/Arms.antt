-- ===== src/Codec/Arms.antt =====
-- What the arms of `encode_into` encode, they decode.
use jam_script.Prelude.{
  ℕ, ◌+◌, ◌%◌, ◌^◌, ◌≤◌, ◌<◌, ◌≡◌, refl, subst, ◌++◌, append-nil, Bytes, [], ◌∷◌, le_bytes, ltb,
  ◌==◌, ==_iff, Bool, true, false, reject, reject-eq-ok, Result, ok, ◌>>=◌, ◌>>◌, >>=-eq-ok,
  if◌then◌else◌, u32_max, arith,
}
use jam_script.Ownership.{Ownership}
use jam_script.Codec.Value.{
  ℤ, Value, Values, Named, CodecError, invalid_length, bound_exceeded, invalid_utf8, is_utf8,
}
use jam_script.Codec.Value
use jam_script.Codec.Natural.{Read, pure, fail, take_bytes, u8, natural, encode_natural}
use jam_script.Codec.Natural
use jam_script.Codec.Encode.{
  mismatch, as_unit, as_bool, as_unsigned, as_signed, as_bytes, as_string, as_ownership, as_array,
  as_tuple, as_structure, as_enum, push_unsigned, push_signed, push_fixed, push_bytes, encode_each,
}
use jam_script.Codec.Decode.{read_unsigned, read_signed, read_bytes, bool_of, string_of, repeat}
use jam_script.Codec.Returns.{
  Returns, Returns-bind, Returns-map, Returns-u8, Returns-natural, Returns-unsigned, Returns-signed,
  Returns-fixed, Returns-bytes,
}
use jam_script.Codec.Parts.{Undoes, IsText, Returns-repeat}

pub as_unit-eq-ok : (v : Value) → as_unit v ≡ ok tt → v ≡ Value.unit
unfolding as_unit
as_unit-eq-ok Value.unit h = refl
as_unit-eq-ok v h = cc

pub as_bool-eq-ok : (v : Value) (x : Bool) → as_bool v ≡ ok x → v ≡ Value.bool x
unfolding as_bool
as_bool-eq-ok (Value.bool y) x h = cc
as_bool-eq-ok v x h = cc

pub as_unsigned-eq-ok : (v : Value) (x : ℕ) → as_unsigned v ≡ ok x → v ≡ Value.unsigned x
unfolding as_unsigned
as_unsigned-eq-ok (Value.unsigned y) x h = cc
as_unsigned-eq-ok v x h = cc

pub as_signed-eq-ok : (v : Value) (x : ℤ) → as_signed v ≡ ok x → v ≡ Value.signed x
unfolding as_signed
as_signed-eq-ok (Value.signed y) x h = cc
as_signed-eq-ok v x h = cc

pub as_bytes-eq-ok : (v : Value) (x : Bytes) → as_bytes v ≡ ok x → v ≡ Value.bytes x
unfolding as_bytes
as_bytes-eq-ok (Value.bytes y) x h = cc
as_bytes-eq-ok v x h = cc

pub as_string-eq-ok : (v : Value) (x : Bytes) → as_string v ≡ ok x → v ≡ Value.string x
unfolding as_string
as_string-eq-ok (Value.string y) x h = cc
as_string-eq-ok v x h = cc

pub as_ownership-eq-ok : (v : Value) (x : Ownership) → as_ownership v ≡ ok x → v ≡ Value.ownership x
unfolding as_ownership
as_ownership-eq-ok (Value.ownership y) x h = cc
as_ownership-eq-ok v x h = cc

pub as_array-eq-ok : (v : Value) (x : Values) → as_array v ≡ ok x → v ≡ Value.array x
unfolding as_array
as_array-eq-ok (Value.array y) x h = cc
as_array-eq-ok v x h = cc

pub as_tuple-eq-ok : (v : Value) (x : Values) → as_tuple v ≡ ok x → v ≡ Value.tuple x
unfolding as_tuple
as_tuple-eq-ok (Value.tuple y) x h = cc
as_tuple-eq-ok v x h = cc

pub as_structure-eq-ok : (v : Value) (x : Named) → as_structure v ≡ ok x → v ≡ Value.structure x
unfolding as_structure
as_structure-eq-ok (Value.structure y) x h = cc
as_structure-eq-ok v x h = cc

pub as_enum-eq-ok : (v : Value) (x : ℕ × Value) → as_enum v ≡ ok x → v ≡ Value.enum x.0 x.1
unfolding as_enum
as_enum-eq-ok (Value.enum i w) x h = cc
as_enum-eq-ok v x h = cc

-- A guard whose other branch is a mismatch.
pub if-eq-ok :
    (t : Bool) (m : Result CodecError Bytes) {bs : Bytes}
    → (if t then m else mismatch) ≡ ok bs
    → (t ≡ true) × (m ≡ ok bs)
if-eq-ok true m h = (refl, h)
if-eq-ok false m h = cc

pub Returns-arm_unsigned :
    (v : Value) (bs : Bytes) (max width : ℕ)
    → max < 256 ^ width
    → (as_unsigned v >>= λ n. push_unsigned n max width) ≡ ok bs
    → Returns (read_unsigned width) bs v
Returns-arm_unsigned v bs max width room h =
    let (n, h₁, h₂) = >>=-eq-ok (as_unsigned v) (λ n. push_unsigned n max width) h in
    rw (as_unsigned-eq-ok v n h₁) (Returns-unsigned n max width bs room h₂)

pub Returns-arm_u8 :
    (v : Value) (bs : Bytes)
    → (as_unsigned v >>= λ n. push_unsigned n 255 1) ≡ ok bs
    → Returns (Natural.◌>>=◌ u8 (λ n. pure (Value.unsigned n))) bs v
unfolding push_unsigned le_bytes
Returns-arm_u8 v bs h =
    let (n, h₁, h₂) = >>=-eq-ok (as_unsigned v) (λ n. push_unsigned n 255 1) h in
    let small : n ≤ 255 = ground arith in
    let e : bs ≡ (n % 256) ∷ [] = ground arith in
    let low : n % 256 ≡ n = omega arith in
    rw (as_unsigned-eq-ok v n h₁, e, low)
      (Returns-map u8 (λ n. Value.unsigned n) (n ∷ []) n (Returns-u8 n))

pub Returns-arm_signed :
    (v : Value) (bs : Bytes) (half width : ℕ)
    → half + half ≡ 256 ^ width
    → (as_signed v >>= λ z. push_signed z half width) ≡ ok bs
    → Returns (read_signed width half) bs v
Returns-arm_signed v bs half width e h =
    let (z, h₁, h₂) = >>=-eq-ok (as_signed v) (λ z. push_signed z half width) h in
    rw (as_signed-eq-ok v z h₁) (Returns-signed z half width bs e h₂)

pub Returns-arm_fixed :
    (v : Value) (bs : Bytes) (len : ℕ)
    → (as_bytes v >>= λ b. push_fixed len b) ≡ ok bs
    → Returns (Natural.◌>>=◌ (take_bytes len) (λ b. pure (Value.bytes b))) bs v
Returns-arm_fixed v bs len h =
    let (b, h₁, h₂) = >>=-eq-ok (as_bytes v) (λ b. push_fixed len b) h in
    rw (as_bytes-eq-ok v b h₁)
      (Returns-map (take_bytes len) (λ b. Value.bytes b) bs b (Returns-fixed len b bs h₂))

pub Returns-arm_bytes :
    (v : Value) (bs : Bytes) (max : ℕ)
    → max ≤ u32_max
    → (as_bytes v >>= λ b. push_bytes max b) ≡ ok bs
    → Returns (Natural.◌>>=◌ (read_bytes max) (λ b. pure (Value.bytes b))) bs v
Returns-arm_bytes v bs max word h =
    let (b, h₁, h₂) = >>=-eq-ok (as_bytes v) (λ b. push_bytes max b) h in
    rw (as_bytes-eq-ok v b h₁)
      (Returns-map (read_bytes max) (λ b. Value.bytes b) bs b (Returns-bytes max b bs word h₂))

pub Returns-arm_string :
    (v : Value) (bs : Bytes) (max : ℕ)
    → max ≤ u32_max
    → IsText v
    → (as_string v >>= λ b. push_bytes max b) ≡ ok bs
    → Returns (Natural.◌>>=◌ (read_bytes max) string_of) bs v
unfolding string_of IsText pure
Returns-arm_string v bs max word text h =
    let (b, h₁, h₂) = >>=-eq-ok (as_string v) (λ b. push_bytes max b) h in
    let e = as_string-eq-ok v b h₁ in
    let valid : is_utf8 b ≡ true = subst IsText e text in
    rw e (
      subst (λ s. Returns (Natural.◌>>=◌ (read_bytes max) string_of) s (Value.string b))
        (append-nil bs)
        (Returns-bind (read_bytes max) string_of bs [] b (Value.string b)
          (Returns-bytes max b bs word h₂) (λ rest. rw valid)))

pub Returns-arm_bool :
    (v : Value) (bs : Bytes)
    → (as_bool v >>= λ b. ok ((if b then 1 else 0) ∷ [])) ≡ ok bs
    → Returns (Natural.◌>>=◌ u8 bool_of) bs v
unfolding bool_of pure u8
Returns-arm_bool v bs h =
    let (b, h₁, h₂) = >>=-eq-ok (as_bool v) (λ b. ok ((if b then 1 else 0) ∷ [])) h in
    let e : (if b then 1 else 0) ∷ [] ≡ bs = cc h₂ in rw (as_bool-eq-ok v b h₁, ← e) (read_bool b)
  where
    read_bool :
        (b : Bool) → Returns (Natural.◌>>=◌ u8 bool_of) ((if b then 1 else 0) ∷ []) (Value.bool b)
    read_bool true rest = refl
    read_bool false rest = refl

pub Returns-arm_fixed_array :
    (v : Value) (bs : Bytes) (len : ℕ) (item : Value → Result CodecError Bytes) (read : Read Value)
    → Undoes item read
    → IsText v
    → (as_array v >>= λ vs. if Value.length vs == len then encode_each item vs else mismatch)
      ≡ ok bs
    → Returns (Natural.◌>>=◌ (repeat len read) (λ vs. pure (Value.array vs))) bs v
unfolding IsText
Returns-arm_fixed_array v bs len item read undo text h =
    let (vs, h₁, h₂) =
      >>=-eq-ok (as_array v)
        (λ vs. if Value.length vs == len then encode_each item vs else mismatch) h in
    let e = as_array-eq-ok v vs h₁ in
    let (t, h₃) = if-eq-ok (Value.length vs == len) (encode_each item vs) h₂ in
    let size : Value.length vs ≡ len = (==_iff (Value.length vs) len).0 t in
    rw (e, ← size)
      (Returns-map (repeat (Value.length vs) read) (λ vs. Value.array vs) bs vs
        (Returns-repeat item read undo vs bs (subst IsText e text) h₃))

pub Returns-arm_array :
    (v : Value) (bs : Bytes) (max : ℕ) (item : Value → Result CodecError Bytes) (read : Read Value)
    → Undoes item read
    → max ≤ u32_max
    → IsText v
    → (as_array v >>= λ vs.
        reject (ltb max (Value.length vs)) bound_exceeded
        >> (encode_each item vs >>= λ b. ok (encode_natural (Value.length vs) ++ b)))
      ≡ ok bs
    → Returns
        (Natural.◌>>=◌ natural (λ len.
          if ltb max len
          then fail bound_exceeded
          else Natural.◌>>=◌ (repeat len read) (λ vs. pure (Value.array vs))))
        bs
        v
unfolding IsText
Returns-arm_array v bs max item read undo word text h =
    let (vs, h₁, h₂) = >>=-eq-ok (as_array v) _ h in
    let e = as_array-eq-ok v vs h₁ in
    let n = Value.length vs in
    let (fits, h₃) = reject-eq-ok (ltb max n) bound_exceeded _ h₂ in
    let (b, h₄, h₅) = >>=-eq-ok (encode_each item vs) _ h₃ in
    let same : encode_natural n ++ b ≡ bs = cc h₅ in
    let small : n < 2 ^ 64 = ground arith in
    rw (e, ← same)
      (Returns-bind natural
        (λ len.
          if ltb max len
          then fail bound_exceeded
          else Natural.◌>>=◌ (repeat len read) (λ vs. pure (Value.array vs)))
        (encode_natural n) b n (Value.array vs) (Returns-natural n small)
        (rw fits (
          Returns-map (repeat n read) (λ vs. Value.array vs) b vs
            (Returns-repeat item read undo vs b (subst IsText e text) h₄))))
