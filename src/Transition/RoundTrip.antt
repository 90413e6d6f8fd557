-- ===== src/Transition/RoundTrip.antt =====
-- The bytes of a transition.
use jam_script.Prelude.{
  ◌≡◌, refl, ◌∙◌, ap, subst, [], ◌∷◌, ◌++◌, Bytes, length, take, drop, ok, ◌==◌, not, reject-eq-ok,
  arith, take-append, drop-append, take-append-drop, length-append, length-take, ◌+◌, ℕ,
}
use jam_script.Wire.{invalid_length, unsupported_version}
use jam_script.Transition.{StateTransition, encode, decode, decode_fields}

-- A transition of the current version with hashes of 32 bytes.
pub record IsTransition (t : StateTransition) : Type 0 where
  pub version : t.version ≡ 1
  pub parent_root : length t.parent_root ≡ 32
  pub new_root : length t.new_root ≡ 32
  pub diff_hash : length t.diff_hash ≡ 32

pub take_prefix : {n : ℕ} (a b : Bytes) → length a ≡ n → take n (a ++ b) ≡ a
take_prefix a b h = rw (← h) (take-append a b)

pub drop_prefix : {n : ℕ} (a b : Bytes) → length a ≡ n → drop n (a ++ b) ≡ b
drop_prefix a b h = rw (← h) (drop-append a b)

length-encode : (t : StateTransition) → IsTransition t → length (encode t) ≡ 97
unfolding encode
length-encode t h = omega (
  arith,
  length-append t.parent_root (t.new_root ++ t.diff_hash),
  length-append t.new_root t.diff_hash,
  h.parent_root,
  h.new_root,
  h.diff_hash,
)

decode_fields-encode : (t : StateTransition) → IsTransition t → decode_fields (encode t) ≡ ok t
unfolding decode_fields encode
decode_fields-encode t h =
    let tail = t.new_root ++ t.diff_hash in
    rw
      (
        h.version,
        take_prefix t.parent_root tail h.parent_root,
        drop_prefix t.parent_root tail h.parent_root,
        take_prefix t.new_root t.diff_hash h.new_root,
        drop_prefix t.new_root t.diff_hash h.new_root,
      )
      refl

-- A transition of version 1 with hashes of 32 bytes is decoded from its encoding.
pub decode-encode_transition : (t : StateTransition) → IsTransition t → decode (encode t) ≡ ok t
unfolding decode
decode-encode_transition t h = rw (length-encode t h) (decode_fields-encode t h)

pub length-drop : (n m : ℕ) (bs : Bytes) → length bs ≡ n + m → length (drop n bs) ≡ m
length-drop n m bs h =
    let whole : length (take n bs ++ drop n bs) ≡ length bs = ap length (take-append-drop n bs) in
    omega (arith, whole, length-append (take n bs) (drop n bs), length-take n bs (omega arith), h)

-- If `decode` returns a transition, it has the current version and hashes of 32 bytes, and
-- `encode` gives back the input.
pub encode-decode-IsTransition :
    (bytes : Bytes) (t : StateTransition)
    → decode bytes ≡ ok t
    → (encode t ≡ bytes) × IsTransition t
unfolding decode encode decode_fields
encode-decode-IsTransition [] t h = ground arith
encode-decode-IsTransition (v ∷ rest) t h =
    let made : StateTransition = record {
      version = v;
      parent_root = take 32 rest;
      new_root = take 32 (drop 32 rest);
      diff_hash = drop 32 (drop 32 rest);
    } in
    let (long, h₁) =
      reject-eq-ok (not (length (v ∷ rest) == 97)) invalid_length (decode_fields (v ∷ rest)) h in
    let (one, h₂) = reject-eq-ok (not (v == 1)) unsupported_version (ok made) h₁ in
    let same : made ≡ t = cc h₂ in
    let is_one : v ≡ 1 = ground arith in
    let all : length rest ≡ 96 = ground arith in
    let after : length (drop 32 rest) ≡ 64 = length-drop 32 64 rest all in
    let last : length (drop 32 (drop 32 rest)) ≡ 32 = length-drop 32 32 (drop 32 rest) after in
    let valid : IsTransition made = record {
      version = is_one;
      parent_root = length-take 32 rest (omega (arith, all));
      new_root = length-take 32 (drop 32 rest) (omega (arith, after));
      diff_hash = last;
    } in
    let back : encode made ≡ v ∷ rest =
      ap (λ (b : Bytes). v ∷ (take 32 rest ++ b)) (take-append-drop 32 (drop 32 rest))
      ∙ ap (λ (b : Bytes). v ∷ b) (take-append-drop 32 rest) in
    (subst (λ (x : StateTransition). encode x ≡ v ∷ rest) same back, subst IsTransition same valid)
