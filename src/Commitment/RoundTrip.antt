-- ===== src/Commitment/RoundTrip.antt =====
-- The bytes of a commitment.
use jam_script.Prelude.{◌≡◌, refl, [], ◌∷◌, Bytes, length, ok, reject-eq-ok, arith}
use jam_script.Wire.{invalid_length, unsupported_version}
use jam_script.Commitment.{ManagedStateCommitment, new, encode, decode, decode_fields}

-- The commitment to a root of 32 bytes is decoded from its encoding.
pub decode-encode_commitment :
    (root : Bytes) → length root ≡ 32 → decode (encode (new root)) ≡ ok (new root)
unfolding decode encode new decode_fields
decode-encode_commitment root h = ground arith

-- If `decode` returns a commitment, it is the one that `new` makes of its root, the root has 32
-- bytes, and `encode` gives back the input.
pub encode-decode_commitment :
    (bytes : Bytes) (c : ManagedStateCommitment)
    → decode bytes ≡ ok c
    → (encode c ≡ bytes) × (c ≡ new c.root) × (length c.root ≡ 32)
unfolding decode encode new decode_fields
encode-decode_commitment [] c h = ground arith
encode-decode_commitment (a ∷ []) c h = ground arith
encode-decode_commitment (a ∷ b ∷ root) c h =
    let (long, h₁) = reject-eq-ok _ invalid_length (decode_fields (a ∷ b ∷ root)) h in
    let parts : ManagedStateCommitment = record {
      protocol_version = a;
      layout_version = b;
      root = root;
    } in
    let (ones, h₂) = reject-eq-ok _ unsupported_version (ok parts) h₁ in
    let made : parts ≡ c = cc h₂ in
    let is_one : a ≡ 1 = ground arith in
    let is_one' : b ≡ 1 = ground arith in
    let long' : length root ≡ 32 = ground arith in
    (rw (← made) refl, rw (← made, is_one, is_one') refl, rw (← made) long')
