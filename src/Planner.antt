-- ===== src/Planner.antt =====
-- The envelopes in which a planner run asks for another state key (crates/service-runtime-core/src/lib.rs).
pub mod RoundTrip
use jam_script.Prelude.{
  ℕ, ◌+◌, ◌*◌, [], ◌∷◌, ◌++◌, Bytes, bytes_eq, le_bytes, from_le, length, ltb, ◌==◌, not, ◌||◌,
  Result, ok, err, ◌>>=◌, ◌>>◌, reject,
}
use jam_script.Wire.{WireError, invalid_length, invalid_encoding, too_many_items}
use jam_script.Wire.Limits.{max_state_key_bytes}
use jam_script.Wire.Writer
use jam_script.Keys.{codes}

abbrev pub planner_need_state_version : ℕ
planner_need_state_version = 1

abbrev pub planner_need_state_magic : Bytes
planner_need_state_magic = codes "JSP1"

abbrev pub planner_need_external_state_magic : Bytes
planner_need_external_state_magic = codes "JSE1"

abbrev pub max_planner_output_bytes : ℕ
max_planner_output_bytes = 4 + 1 + 4 + max_state_key_bytes

unfoldable pub encode_planner_need_state : Bytes → Result WireError Bytes
encode_planner_need_state key = do
  reject (ltb max_state_key_bytes (length key)) too_many_items
  count ← Writer.u32_len (length key)
  ok (planner_need_state_magic ++ planner_need_state_version ∷ le_bytes 4 count ++ key)

-- The last clause stands for an index out of bounds, which the length check rules out.
decode_state_fields : Bytes → Result WireError Bytes
decode_state_fields (a ∷ b ∷ c ∷ d ∷ version ∷ n₀ ∷ n₁ ∷ n₂ ∷ n₃ ∷ key) = do
  reject
      (not (bytes_eq (a ∷ b ∷ c ∷ d ∷ []) planner_need_state_magic)
        || not (version == planner_need_state_version))
      invalid_encoding
  let announced = from_le (n₀ ∷ n₁ ∷ n₂ ∷ n₃ ∷ [])
  reject
      (ltb max_state_key_bytes announced
        || not (length (a ∷ b ∷ c ∷ d ∷ version ∷ n₀ ∷ n₁ ∷ n₂ ∷ n₃ ∷ key) == 9 + announced))
      invalid_encoding
  ok key
decode_state_fields _ = err invalid_length

unfoldable pub decode_planner_need_state : Bytes → Result WireError Bytes
unfolding decode_state_fields
decode_planner_need_state bytes = do
  reject (ltb (length bytes) 9 || ltb max_planner_output_bytes (length bytes)) invalid_length
  decode_state_fields bytes

unfoldable pub encode_planner_need_external_state : ℕ → Bytes → Result WireError Bytes
encode_planner_need_external_state service_id key = do
  reject (ltb max_state_key_bytes (length key)) too_many_items
  count ← Writer.u32_len (length key)
  ok (
      planner_need_external_state_magic
      ++ planner_need_state_version ∷ (le_bytes 4 service_id ++ (le_bytes 4 count ++ key)))

decode_external_fields : Bytes → Result WireError (ℕ × Bytes)
decode_external_fields (a ∷ b ∷ c ∷ d ∷ version ∷ s₀ ∷ s₁ ∷ s₂ ∷ s₃ ∷ n₀ ∷ n₁ ∷ n₂ ∷ n₃ ∷ key) = do
  reject
      (not (bytes_eq (a ∷ b ∷ c ∷ d ∷ []) planner_need_external_state_magic)
        || not (version == planner_need_state_version))
      invalid_encoding
  let service_id = from_le (s₀ ∷ s₁ ∷ s₂ ∷ s₃ ∷ [])
  let announced = from_le (n₀ ∷ n₁ ∷ n₂ ∷ n₃ ∷ [])
  reject
      (ltb max_state_key_bytes announced
        || not (
            length (a ∷ b ∷ c ∷ d ∷ version ∷ s₀ ∷ s₁ ∷ s₂ ∷ s₃ ∷ n₀ ∷ n₁ ∷ n₂ ∷ n₃ ∷ key)
            == 13 + announced))
      invalid_encoding
  ok (service_id, key)
decode_external_fields _ = err invalid_length

unfoldable pub decode_planner_need_external_state : Bytes → Result WireError (ℕ × Bytes)
unfolding decode_external_fields
decode_planner_need_external_state bytes = do
  reject (ltb (length bytes) 13 || ltb (max_planner_output_bytes + 4) (length bytes)) invalid_length
  decode_external_fields bytes
