-- ===== src/Metadata/RoundTrip.antt =====
-- The bytes of the metadata.
use jam_script.Prelude.{
  ◌<◌, ◌^◌, ◌≡◌, refl, ◌∙◌, ap, [], ◌∷◌, ◌++◌, Bytes, IsBytes, IsByte, le_bytes, from_le, length,
  take, drop, ok, ◌==◌, not, reject-eq-ok, >>=-eq-ok, arith, take-append-drop, length-append,
  length-take, length-le_bytes, from_le-le_bytes, le_bytes-from_le, from_le-lt, All-append_left,
  All-append_right,
}
use jam_script.Wire.{invalid_length, unsupported_version}
use jam_script.Transition.RoundTrip.{take_prefix, drop_prefix, length-drop}
use jam_script.Metadata.{BackendMetadata, encode, decode_key, check_versions, decode_fields, decode}

-- A key of 32 bytes, the current versions, and an ABI version in 32 bits.
pub record IsMetadata (m : BackendMetadata) : Type 0 where
  pub service_key : length m.service_key ≡ 32
  pub abi_version : m.abi_version < 2 ^ 32
  pub planner_version : m.planner_version ≡ 1
  pub managed_state_version : m.managed_state_version ≡ 1

check_versions-IsMetadata : (m : BackendMetadata) → IsMetadata m → check_versions m ≡ ok m
unfolding check_versions
check_versions-IsMetadata m h = rw (h.planner_version, h.managed_state_version) refl

-- Three numbers of four bytes.
numbers : BackendMetadata → Bytes
numbers m =
    le_bytes 4 m.abi_version ++ (le_bytes 4 m.planner_version ++ le_bytes 4 m.managed_state_version)

length-numbers : (m : BackendMetadata) → length (numbers m) ≡ 12
unfolding numbers
length-numbers m =
    let a = le_bytes 4 m.abi_version in
    let b = le_bytes 4 m.planner_version in
    let c = le_bytes 4 m.managed_state_version in
    omega (
      arith,
      length-append a (b ++ c),
      length-append b c,
      length-le_bytes 4 m.abi_version,
      length-le_bytes 4 m.planner_version,
      length-le_bytes 4 m.managed_state_version,
    )

length-encode_metadata : (m : BackendMetadata) → IsMetadata m → length (encode m) ≡ 45
unfolding encode numbers
length-encode_metadata m h =
    omega (arith, length-append m.service_key (numbers m), length-numbers m, h.service_key)

read_numbers :
    (m : BackendMetadata)
    → IsMetadata m
    → (from_le (take 4 (numbers m)) ≡ m.abi_version)
      × (from_le (take 4 (drop 4 (numbers m))) ≡ m.planner_version)
      × (from_le (drop 4 (drop 4 (numbers m))) ≡ m.managed_state_version)
unfolding numbers
read_numbers m h =
    let a = le_bytes 4 m.abi_version in
    let b = le_bytes 4 m.planner_version in
    let c = le_bytes 4 m.managed_state_version in
    let la = length-le_bytes 4 m.abi_version in
    let lb = length-le_bytes 4 m.planner_version in
    (
      rw (take_prefix a (b ++ c) la) (from_le-le_bytes 4 m.abi_version h.abi_version),
      rw (drop_prefix a (b ++ c) la, take_prefix b c lb)
          (from_le-le_bytes 4 m.planner_version (omega (arith, h.planner_version))),
      rw (drop_prefix a (b ++ c) la, drop_prefix b c lb)
          (from_le-le_bytes 4 m.managed_state_version (omega (arith, h.managed_state_version))),
    )

decode_fields-encode_metadata :
    (m : BackendMetadata) → IsMetadata m → decode_fields (encode m) ≡ ok m
unfolding decode_fields encode numbers decode_key
decode_fields-encode_metadata m h =
    let (ra, rb, rc) = read_numbers m h in
    rw
      (
        take_prefix m.service_key (numbers m) h.service_key,
        drop_prefix m.service_key (numbers m) h.service_key,
        h.service_key,
        ra,
        rb,
        rc,
      )
      (check_versions-IsMetadata m h)

-- Metadata with a key of 32 bytes, the current planner and state versions and an ABI version below
-- 2 ^ 32 is decoded from its encoding.
pub decode-encode_metadata : (m : BackendMetadata) → IsMetadata m → decode (encode m) ≡ ok m
unfolding decode
decode-encode_metadata m h = rw (length-encode_metadata m h) (decode_fields-encode_metadata m h)

check_versions-eq-ok :
    (m m' : BackendMetadata)
    → check_versions m ≡ ok m'
    → (m ≡ m') × (m.planner_version ≡ 1) × (m.managed_state_version ≡ 1)
unfolding check_versions
check_versions-eq-ok m m' h =
    let (ones, e) = reject-eq-ok _ unsupported_version (ok m) h in
    (cc e, ground arith, ground arith)

-- Twelve bytes are the three numbers that they are read as.
numbers-from_le :
    (key b : Bytes)
    → length b ≡ 12
    → IsBytes b
    → let m : BackendMetadata = record {
      service_key = key;
      abi_version = from_le (take 4 b);
      planner_version = from_le (take 4 (drop 4 b));
      managed_state_version = from_le (drop 4 (drop 4 b));
    } in
      (numbers m ≡ b) × (m.abi_version < 2 ^ 32)
unfolding numbers
numbers-from_le key b h bytes =
    let rest = drop 4 b in
    let halves = rw (← take-append-drop 4 b) at bytes in
    let bytes₁ = All-append_left IsByte (take 4 b) rest halves in
    let bytes' = All-append_right IsByte (take 4 b) rest halves in
    let halves' = rw (← take-append-drop 4 rest) at bytes' in
    let bytes₂ = All-append_left IsByte (take 4 rest) (drop 4 rest) halves' in
    let bytes₃ = All-append_right IsByte (take 4 rest) (drop 4 rest) halves' in
    let eight : length rest ≡ 8 = length-drop 4 8 b h in
    let l₁ : length (take 4 b) ≡ 4 = length-take 4 b (omega (arith, h)) in
    let l₂ : length (take 4 rest) ≡ 4 = length-take 4 rest (omega (arith, eight)) in
    let l₃ : length (drop 4 rest) ≡ 4 = length-drop 4 4 rest eight in
    let e₁ : le_bytes 4 (from_le (take 4 b)) ≡ take 4 b =
      rw l₁ at (le_bytes-from_le (take 4 b) bytes₁) in
    let e₂ : le_bytes 4 (from_le (take 4 rest)) ≡ take 4 rest =
      rw l₂ at (le_bytes-from_le (take 4 rest) bytes₂) in
    let e₃ : le_bytes 4 (from_le (drop 4 rest)) ≡ drop 4 rest =
      rw l₃ at (le_bytes-from_le (drop 4 rest) bytes₃) in
    let small : from_le (take 4 b) < 256 ^ 4 = rw l₁ at (from_le-lt (take 4 b) bytes₁) in
    (
      rw (e₁, e₂, e₃)
          (ap (λ (x : Bytes). take 4 b ++ x) (take-append-drop 4 rest) ∙ take-append-drop 4 b),
      omega (arith, small),
    )

-- On any input of bytes, if `decode` returns metadata, it has a key of 32 bytes, the current
-- planner and state versions and an ABI version below 2 ^ 32, and `encode` gives back the input.
encode-decode-IsMetadata :
    (bytes : Bytes) (m : BackendMetadata)
    → IsBytes bytes
    → decode bytes ≡ ok m
    → (encode m ≡ bytes) × IsMetadata m
unfolding decode encode decode_fields decode_key numbers
encode-decode-IsMetadata [] m all h = ground arith
encode-decode-IsMetadata (v ∷ rest) m (one_byte, all) h =
    let (long, h₁) =
      reject-eq-ok (not (length (v ∷ rest) == 45)) invalid_length (decode_fields (v ∷ rest)) h in
    let (one, h₂) = reject-eq-ok (not (v == 1)) unsupported_version _ h₁ in
    let (key, h₃, h₄) = >>=-eq-ok (decode_key (take 32 rest)) _ h₂ in
    let is_one : v ≡ 1 = ground arith in
    let size : length rest ≡ 44 = ground arith in
    let same_key : take 32 rest ≡ key = ground (arith, h₃) in
    let twelve : length (drop 32 rest) ≡ 12 = length-drop 32 12 rest size in
    let bytes =
      All-append_right IsByte (take 32 rest) (drop 32 rest)
        (rw (← take-append-drop 32 rest) at all) in
    let (read, small) = numbers-from_le key (drop 32 rest) twelve bytes in
    let (same, p, s) = check_versions-eq-ok _ m h₄ in
    let back : 1 ∷ (key ++ drop 32 rest) ≡ v ∷ rest =
      rw (is_one, ← same_key) (ap (λ (b : Bytes). 1 ∷ b) (take-append-drop 32 rest)) in
    let key_size : length key ≡ 32 = rw same_key at (length-take 32 rest (omega (arith, size))) in
    (
      rw (← same) (ap (λ (b : Bytes). 1 ∷ (key ++ b)) read ∙ back),
      rw (← same) (record {
        service_key = key_size;
        abi_version = small;
        planner_version = p;
        managed_state_version = s;
      }),
    )
