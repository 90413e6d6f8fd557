-- ===== src/Metadata.antt =====
-- `BackendMetadataV1` of crates/service-runtime-core/src/lib.rs: what a backend host reads of a service.
pub mod RoundTrip
use jam_script.Prelude.{
  ℕ, [], ◌∷◌, ◌++◌, Bytes, le_bytes, from_le, length, take, drop, ◌==◌, not, ◌||◌, Result, ok, err,
  ◌>>=◌, ◌>>◌, reject,
}
use jam_script.Wire.{WireError, invalid_length, unsupported_version}

abbrev pub backend_metadata_version : ℕ
backend_metadata_version = 1

abbrev pub backend_planner_version : ℕ
backend_planner_version = 1

abbrev pub backend_managed_state_version : ℕ
backend_managed_state_version = 1

-- The key is the 32 bytes of a `ServiceKeyV1`.
pub record BackendMetadata : Type 0 where
  pub service_key : Bytes
  pub abi_version : ℕ
  pub planner_version : ℕ
  pub managed_state_version : ℕ

unfoldable pub encode : BackendMetadata → Bytes
encode m =
    backend_metadata_version
    ∷ (m.service_key
        ++ (le_bytes 4 m.abi_version
            ++ (le_bytes 4 m.planner_version ++ le_bytes 4 m.managed_state_version)))

-- `ServiceKeyV1::decode`
unfoldable pub decode_key : Bytes → Result WireError Bytes
decode_key bytes = do reject (not (length bytes == 32)) invalid_length; ok bytes

check_versions : BackendMetadata → Result WireError BackendMetadata
check_versions m = do
  reject
      (not (m.planner_version == backend_planner_version)
        || not (m.managed_state_version == backend_managed_state_version))
      unsupported_version
  ok m

-- The last clause stands for an index out of bounds, which the length check rules out.
decode_fields : Bytes → Result WireError BackendMetadata
unfolding check_versions
decode_fields (version ∷ rest) = do
  reject (not (version == backend_metadata_version)) unsupported_version
  key ← decode_key (take 32 rest)
  let numbers = drop 32 rest
  check_versions (record {
    service_key = key;
    abi_version = from_le (take 4 numbers);
    planner_version = from_le (take 4 (drop 4 numbers));
    managed_state_version = from_le (drop 4 (drop 4 numbers));
  })
decode_fields [] = err invalid_length

unfoldable pub decode : Bytes → Result WireError BackendMetadata
unfolding decode_fields
decode bytes = do reject (not (length bytes == 45)) invalid_length; decode_fields bytes
