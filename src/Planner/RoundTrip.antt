-- ===== src/Planner/RoundTrip.antt =====
-- The envelopes are read back, and neither is mistaken for the other.
use jam_script.Prelude.{
  ℕ, ◌+◌, ◌≤◌, ◌<◌, ◌^◌, [], ◌∷◌, ◌++◌, ◌≡◌, ap, subst, Bytes, IsBytes, bytes_eq, le_bytes, from_le,
  from_le-le_bytes, le_bytes-from_le, length-le_bytes, length, length-append, ltb, le→ltb_not,
  ltb_not→le, ◌==◌, not, ◌||◌, u32_max, ok, reject-eq-ok, arith,
}
use jam_script.Wire.{invalid_length, invalid_encoding, too_many_items}
use jam_script.Wire.Limits.{max_state_key_bytes}
use jam_script.Wire.Writer
use jam_script.Planner.{
  encode_planner_need_state, decode_planner_need_state, decode_state_fields,
  encode_planner_need_external_state, decode_planner_need_external_state, decode_external_fields,
  planner_need_state_magic,
}

-- The bytes of an envelope.
abbrev state_bytes : Bytes → Bytes
state_bytes key = 74 ∷ 83 ∷ 80 ∷ 49 ∷ 1 ∷ le_bytes 4 (length key) ++ key

encode_planner_need_state-eq-ok :
    (key bytes : Bytes)
    → encode_planner_need_state key ≡ ok bytes
    → (length key ≤ max_state_key_bytes) × (bytes ≡ state_bytes key)
unfolding encode_planner_need_state Writer.u32_len
encode_planner_need_state-eq-ok key bytes h =
    let (short, h₁) = reject-eq-ok (ltb max_state_key_bytes (length key)) too_many_items _ h in
    let fits = ltb_not→le max_state_key_bytes (length key) short in
    (fits, cc (h₁, le→ltb_not u32_max (length key) (omega (arith, fits))))

length-state_bytes : (key : Bytes) → length (state_bytes key) ≡ 9 + length key
length-state_bytes key =
    omega (arith, length-append (le_bytes 4 (length key)) key, length-le_bytes 4 (length key))

decode_state_fields-state_bytes :
    (key : Bytes)
    → length key ≤ max_state_key_bytes
    → decode_state_fields (state_bytes key) ≡ ok key
unfolding decode_state_fields le_bytes bytes_eq
decode_state_fields-state_bytes key h =
    let read : from_le (le_bytes 4 (length key)) ≡ length key =
      from_le-le_bytes 4 (length key) (omega (arith, h)) in
    ground (arith, read, le→ltb_not max_state_key_bytes (length key) h)

-- If a request for a state key is encoded, decoding the output returns the key.
pub decode-encode_planner_need_state :
    (key bytes : Bytes)
    → encode_planner_need_state key ≡ ok bytes
    → decode_planner_need_state bytes ≡ ok key
unfolding decode_planner_need_state
decode-encode_planner_need_state key bytes h =
    let (fits, e) = encode_planner_need_state-eq-ok key bytes h in
    let size = length-state_bytes key in
    rw
      (
        e,
        le→ltb_not (length (state_bytes key)) 9 (omega (arith, size)),
        le→ltb_not 4105 (length (state_bytes key)) (omega (arith, size, fits)),
      )
      (decode_state_fields-state_bytes key fits)

decode_state_fields-eq-ok :
    (bytes key : Bytes)
    → IsBytes bytes
    → decode_state_fields bytes ≡ ok key
    → (bytes ≡ state_bytes key) × (length key ≤ max_state_key_bytes)
unfolding decode_state_fields bytes_eq
decode_state_fields-eq-ok (a ∷ b ∷ c ∷ d ∷ version ∷ n₀ ∷ n₁ ∷ n₂ ∷ n₃ ∷ rest) key
      (ha, (hb, (hc, (hd, (hv, (h₀, (h₁, (h₂, (h₃, hs))))))))) h =
    let announced_length = from_le (n₀ ∷ n₁ ∷ n₂ ∷ n₃ ∷ []) in
    let (magic, g) =
      reject-eq-ok
        (not (bytes_eq (a ∷ b ∷ c ∷ d ∷ []) planner_need_state_magic) || not (version == 1))
        invalid_encoding _ h in
    let (size, g') =
      reject-eq-ok
        (ltb max_state_key_bytes announced_length
          || not
              (length (a ∷ b ∷ c ∷ d ∷ version ∷ n₀ ∷ n₁ ∷ n₂ ∷ n₃ ∷ rest) == 9 + announced_length))
        invalid_encoding (ok rest) g in
    let same : rest ≡ key = cc g' in
    let announced : length rest ≡ from_le (n₀ ∷ n₁ ∷ n₂ ∷ n₃ ∷ []) = ground arith in
    let digits : le_bytes 4 (length rest) ≡ n₀ ∷ n₁ ∷ n₂ ∷ n₃ ∷ [] =
      rw announced (le_bytes-from_le (n₀ ∷ n₁ ∷ n₂ ∷ n₃ ∷ []) (h₀, (h₁, (h₂, (h₃, tt))))) in
    let front : a ∷ b ∷ c ∷ d ∷ version ∷ [] ≡ 74 ∷ 83 ∷ 80 ∷ 49 ∷ 1 ∷ [] = ground arith in
    let whole : a ∷ b ∷ c ∷ d ∷ version ∷ n₀ ∷ n₁ ∷ n₂ ∷ n₃ ∷ rest ≡ state_bytes rest =
      rw digits (ap (λ (x : Bytes). x ++ (n₀ ∷ n₁ ∷ n₂ ∷ n₃ ∷ rest)) front) in
    (
      subst (λ (k : Bytes). a ∷ b ∷ c ∷ d ∷ version ∷ n₀ ∷ n₁ ∷ n₂ ∷ n₃ ∷ rest ≡ state_bytes k) same
          whole,
      ground arith,
    )
decode_state_fields-eq-ok _ key all h = cc

-- On any input of bytes, if the request for a state key is decoded, encoding the key gives back
-- the input.
pub encode-decode_planner_need_state :
    (bytes key : Bytes)
    → IsBytes bytes
    → decode_planner_need_state bytes ≡ ok key
    → encode_planner_need_state key ≡ ok bytes
unfolding decode_planner_need_state encode_planner_need_state Writer.u32_len
encode-decode_planner_need_state bytes key all h =
    let (size, h₁) = reject-eq-ok _ invalid_length (decode_state_fields bytes) h in
    let (e, fits) = decode_state_fields-eq-ok bytes key all h₁ in
    rw (
      le→ltb_not max_state_key_bytes (length key) fits,
      le→ltb_not u32_max (length key) (omega (arith, fits)),
      e,
    )

-- The bytes of an envelope for another service.
abbrev external_bytes : ℕ → Bytes → Bytes
external_bytes service_id key =
    74 ∷ 83 ∷ 69 ∷ 49 ∷ 1 ∷ (le_bytes 4 service_id ++ (le_bytes 4 (length key) ++ key))

encode_planner_need_external_state-eq-ok :
    (service_id : ℕ) (key bytes : Bytes)
    → encode_planner_need_external_state service_id key ≡ ok bytes
    → (length key ≤ max_state_key_bytes) × (bytes ≡ external_bytes service_id key)
unfolding encode_planner_need_external_state Writer.u32_len
encode_planner_need_external_state-eq-ok service_id key bytes h =
    let (short, h₁) = reject-eq-ok (ltb max_state_key_bytes (length key)) too_many_items _ h in
    let fits = ltb_not→le max_state_key_bytes (length key) short in
    (fits, cc (h₁, le→ltb_not u32_max (length key) (omega (arith, fits))))

length-external_bytes :
    (service_id : ℕ) (key : Bytes) → length (external_bytes service_id key) ≡ 13 + length key
length-external_bytes service_id key =
    let tail = le_bytes 4 (length key) ++ key in
    omega (
      arith,
      length-append (le_bytes 4 service_id) tail,
      length-append (le_bytes 4 (length key)) key,
      length-le_bytes 4 service_id,
      length-le_bytes 4 (length key),
    )

decode_external_fields-external_bytes :
    (service_id : ℕ) (key : Bytes)
    → service_id < 2 ^ 32
    → length key ≤ max_state_key_bytes
    → decode_external_fields (external_bytes service_id key) ≡ ok (service_id, key)
unfolding decode_external_fields le_bytes bytes_eq
decode_external_fields-external_bytes service_id key small h =
    let read : from_le (le_bytes 4 (length key)) ≡ length key =
      from_le-le_bytes 4 (length key) (omega (arith, h)) in
    let read_id : from_le (le_bytes 4 service_id) ≡ service_id =
      from_le-le_bytes 4 service_id small in
    ground (arith, read, read_id, le→ltb_not max_state_key_bytes (length key) h)

-- If the number of a service fits in 32 bits and a request for one of its keys is encoded,
-- decoding the output returns the number and the key.
pub decode-encode_planner_need_external_state :
    (service_id : ℕ) (key bytes : Bytes)
    → service_id < 2 ^ 32
    → encode_planner_need_external_state service_id key ≡ ok bytes
    → decode_planner_need_external_state bytes ≡ ok (service_id, key)
unfolding decode_planner_need_external_state
decode-encode_planner_need_external_state service_id key bytes small h =
    let (fits, e) = encode_planner_need_external_state-eq-ok service_id key bytes h in
    let size = length-external_bytes service_id key in
    rw
      (
        e,
        le→ltb_not (length (external_bytes service_id key)) 13 (omega (arith, size)),
        le→ltb_not 4109 (length (external_bytes service_id key)) (omega (arith, size, fits)),
      )
      (decode_external_fields-external_bytes service_id key small fits)

not_external :
    (key : Bytes) (answer : ℕ × Bytes)
    → ¬ (decode_planner_need_external_state (state_bytes key) ≡ ok answer)
unfolding decode_planner_need_external_state decode_external_fields le_bytes bytes_eq
not_external [] answer e = cc
not_external (a ∷ []) answer e = cc
not_external (a ∷ b ∷ []) answer e = cc
not_external (a ∷ b ∷ c ∷ []) answer e = cc
not_external (a ∷ b ∷ c ∷ d ∷ key) answer e = ground arith

-- The encoding of a request for the service's own state is never decoded as a request for another
-- service's.
pub decode_external-encode_state :
    (key bytes : Bytes) (answer : ℕ × Bytes)
    → encode_planner_need_state key ≡ ok bytes
    → ¬ (decode_planner_need_external_state bytes ≡ ok answer)
decode_external-encode_state key bytes answer h e =
    let (fits, same) = encode_planner_need_state-eq-ok key bytes h in
    not_external key answer (rw same at e)
