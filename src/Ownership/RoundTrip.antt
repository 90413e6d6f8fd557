-- ===== src/Ownership/RoundTrip.antt =====
-- The canonical bytes of an ownership determine it, and the decoder accepts no others.
use jam_script.Prelude.{
  ℕ, ◌+◌, ◌≤◌, ◌<◌, ◌/◌, ◌%◌, [], ◌∷◌, ◌++◌, ◌≡◌, refl, sym, ◌∙◌, ap, false, ◌&&◌, not, ◌==◌, ltb,
  Bytes, IsBytes, le_bytes, from_le, le_bytes-from_le, length, drop, ok, reject, >>=-eq-ok,
  reject-eq-ok, arith, le→ltb_not, length-append, length-le_bytes,
}
use jam_script.Ownership.{
  Ownership, OwnershipKind, secp256k1_key, kind_byte, try_from, public_len, validate, new, encode,
  decode, decode_fields, key, ownership_key_domain, is_secp256k1_key, is_compressed,
}

pub record IsValid (o : Ownership) : Type 0 where
  pub version : o.version ≡ 1
  pub length_public : length o.public ≡ public_len o.kind
  pub compressed : (is_secp256k1_key o.kind && not (is_compressed o.public)) ≡ false

pub validate→IsValid : (o : Ownership) → validate o ≡ ok tt → IsValid o
unfolding validate
validate→IsValid o h = record {
  version = ground arith;
  length_public = ground arith;
  compressed = ground arith;
}

pub IsValid→validate : (o : Ownership) → IsValid o → validate o ≡ ok tt
unfolding validate
IsValid→validate o h = ground (arith, h.version, h.length_public, h.compressed)

public_len-le : (k : OwnershipKind) → public_len k ≤ 33
unfolding public_len
public_len-le secp256k1_key = omega arith
public_len-le _ = omega arith

try_from-kind_byte : (k : OwnershipKind) → try_from (kind_byte k) ≡ ok k
unfolding try_from kind_byte
try_from-kind_byte secp256k1_key = refl
try_from-kind_byte _ = refl

kind_byte-try_from : (b : ℕ) (k : OwnershipKind) → try_from b ≡ ok k → kind_byte k ≡ b
unfolding try_from kind_byte
kind_byte-try_from b k h = ground arith

unfoldable pub canonical : Ownership → Bytes
canonical o = o.version ∷ kind_byte o.kind ∷ le_bytes 2 (length o.public) ++ o.public

pub encode-eq-ok : (o : Ownership) (bs : Bytes) → encode o ≡ ok bs → IsValid o × (bs ≡ canonical o)
unfolding encode canonical
encode-eq-ok o bs h =
    let (u, h₁, h₂) = >>=-eq-ok (validate o) _ h in (validate→IsValid o h₁, ground (arith, h₂))

length-canonical : (o : Ownership) → length (canonical o) ≡ 4 + length o.public
unfolding canonical
length-canonical o = omega (
  arith,
  length-append (le_bytes 2 (length o.public)) o.public,
  length-le_bytes 2 (length o.public),
)

pub length_small : (o : Ownership) → IsValid o → length o.public ≤ 33
length_small o h = omega (arith, public_len-le o.kind, h.length_public)

canonical_short : (o : Ownership) → IsValid o → ltb 4096 (length (canonical o)) ≡ false
canonical_short o h =
    le→ltb_not 4096 (length (canonical o)) (omega (arith, length-canonical o, length_small o h))

canonical_long : (o : Ownership) → ltb (length (canonical o)) 4 ≡ false
canonical_long o = le→ltb_not (length (canonical o)) 4 (omega (arith, length-canonical o))

encode-IsValid : (o : Ownership) → IsValid o → encode o ≡ ok (canonical o)
unfolding encode canonical
encode-IsValid o h = rw (
  IsValid→validate o h,
  le→ltb_not 65535 (length o.public) (omega (arith, length_small o h)),
  canonical_short o h,
)

announced : (n : ℕ) → n < 65536 → from_le (n % 256 ∷ n / 256 % 256 ∷ []) ≡ n
unfolding from_le
announced n h = omega arith

new-IsValid : (o : Ownership) → IsValid o → new o.kind o.public ≡ ok o
unfolding new
new-IsValid o h =
    let one = sym h.version in
    let same : record { version = 1; kind = o.kind; public = o.public } ≡ o =
      (λ i. record { version = one i; kind = o.kind; public = o.public }) in
    rw same (rw (IsValid→validate o h))

decode_fields-canonical : (o : Ownership) → IsValid o → decode_fields (canonical o) ≡ ok o
unfolding decode_fields canonical le_bytes
decode_fields-canonical o h = ground (
  arith,
  h.version,
  h.length_public,
  try_from-kind_byte o.kind,
  announced (length o.public) (omega (arith, length_small o h)),
  new-IsValid o h,
)

-- If `encode` succeeds on an ownership, `decode` of its output returns the ownership.
pub decode-encode_ownership : (o : Ownership) (bs : Bytes) → encode o ≡ ok bs → decode bs ≡ ok o
unfolding decode
decode-encode_ownership o bs h =
    let (v, e) = encode-eq-ok o bs h in
    rw (e, canonical_short o v, canonical_long o) (decode_fields-canonical o v)

new-eq-ok :
    (kind : OwnershipKind) (public : Bytes) (o : Ownership)
    → new kind public ≡ ok o
    → IsValid o × (o ≡ record { version = 1; kind = kind; public = public })
unfolding new
new-eq-ok kind public o h =
    let made : Ownership = record { version = 1; kind = kind; public = public } in
    let (u, h₁, h₂) = >>=-eq-ok (validate made) _ h in
    let same : made ≡ o = cc h₂ in (rw (← same) (validate→IsValid made h₁), sym same)

decode_fields-eq-ok :
    (bs : Bytes) (o : Ownership)
    → IsBytes bs
    → decode_fields bs ≡ ok o
    → IsValid o × (canonical o ≡ bs)
unfolding decode_fields
decode_fields-eq-ok [] o all h = cc
decode_fields-eq-ok (a ∷ []) o all h = cc
decode_fields-eq-ok (a ∷ b ∷ []) o all h = cc
decode_fields-eq-ok (a ∷ b ∷ c ∷ []) o all h = cc
decode_fields-eq-ok (version ∷ kind_value ∷ low ∷ high ∷ public) o all h =
    let (u, h₁, h₂) = >>=-eq-ok (reject (not (version == 1)) _) _ h in
    let (kind, h₃, h₄) = >>=-eq-ok (try_from kind_value) _ h₂ in
    let (tests, h₅) = reject-eq-ok _ _ (new kind public) h₄ in
    let is_one : version ≡ 1 = ground arith in
    let long : length public ≡ from_le (low ∷ high ∷ []) = ground arith in
    let (v, same) = new-eq-ok kind public o h₅ in
    let digits = le_bytes-from_le (low ∷ high ∷ []) (all.1.1.0, (all.1.1.1.0, tt)) in
    let length_bytes : le_bytes 2 (length public) ≡ low ∷ high ∷ [] = rw long digits in
    (
      v,
      ap canonical same
          ∙ (unfold canonical in
              rw (length_bytes, kind_byte-try_from kind_value kind h₃, is_one) refl),
    )

-- On any input of bytes, if `decode` returns an ownership, the ownership is valid (its version,
-- the length of its key, and the form of a compressed key) and `encode` gives back the input.
pub encode-decode_ownership :
    (bs : Bytes) (o : Ownership) → IsBytes bs → decode bs ≡ ok o → (encode o ≡ ok bs) × IsValid o
unfolding decode
encode-decode_ownership bs o all h =
    let (v, e) = decode_fields-eq-ok bs o all (ground arith) in (rw (← e) (encode-IsValid o v), v)

module _ (blake2_256 : Bytes → Bytes) where
  -- The preimage of a key: the domain and the canonical bytes.
  abbrev pub preimage : Ownership → Bytes
  preimage o = ownership_key_domain ++ canonical o

  key-eq-ok :
      (o : Ownership) (h : Bytes)
      → key blake2_256 o ≡ ok h
      → (encode o ≡ ok (canonical o)) × (h ≡ blake2_256 (preimage o))
  unfolding key
  key-eq-ok o h e =
      let (bs, h₁, h₂) = >>=-eq-ok (encode o) _ e in
      let (v, same) = encode-eq-ok o bs h₁ in
      let out : blake2_256 (ownership_key_domain ++ bs) ≡ h = cc h₂ in
      (rw same at h₁, sym out ∙ ap (λ (b : Bytes). blake2_256 (ownership_key_domain ++ b)) same)

  -- If the hash does not collide on the preimages of two ownerships, and `key` returns the same
  -- for both, the ownerships are the same.
  pub key_injective :
      (o o' : Ownership) (h : Bytes)
      → (blake2_256 (preimage o) ≡ blake2_256 (preimage o') → preimage o ≡ preimage o')
      → key blake2_256 o ≡ ok h
      → key blake2_256 o' ≡ ok h
      → o ≡ o'
  key_injective o o' h no_collision e e' =
      let (w, p) = key-eq-ok o h e in
      let (w', p') = key-eq-ok o' h e' in
      let same : canonical o ≡ canonical o' =
        ap (λ (b : Bytes). drop 28 b) (no_collision (sym p ∙ p')) in
      let read = decode-encode_ownership o (canonical o) w in
      let read' = decode-encode_ownership o' (canonical o') w' in cc (same, read, read')
