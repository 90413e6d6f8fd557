-- ===== src/Keys.antt =====
-- The storage keys of crates/service-runtime-core/src/lib.rs: the reserved ones, and the key
-- classes of applications and of the runtime.
use Prim.Native.Char.{code}
use Prim.Native.String.{String}
use jam_script.Prelude.{
  ℕ, ◌++◌, [], ◌∷◌, Bytes, bytes_eq, length, ltb, le_bytes, Bool, ◌||◌, if◌then◌else◌, Result, ok,
  err, ◌^◌, ◌-◌,
}
use jam_script.Wire.{WireError, length_overflow}

-- The bytes of an ASCII literal.
abbrev pub codes : String → Bytes
codes String.[] = []
codes (String.◌∷◌ c s) = code c ∷ codes s

abbrev pub managed_state_commitment_key : Bytes
managed_state_commitment_key = codes ":jam-service-runtime:managed-state:v1"

abbrev pub management_version_key : Bytes
management_version_key = codes "__jamscript/management/version"

abbrev pub management_initialized_key : Bytes
management_initialized_key = codes "__jamscript/management/initialized"

abbrev pub management_policy_key : Bytes
management_policy_key = codes "__jamscript/management/policy"

abbrev pub management_nonce_key : Bytes
management_nonce_key = codes "__jamscript/management/nonce"

unfoldable pub is_reserved_service_storage_key : Bytes → Bool
is_reserved_service_storage_key key =
    bytes_eq key managed_state_commitment_key
    || bytes_eq key management_version_key
    || bytes_eq key management_initialized_key
    || bytes_eq key management_policy_key
    || bytes_eq key management_nonce_key

abbrev pub application_key_class : ℕ
application_key_class = 1

abbrev pub runtime_key_class : ℕ
runtime_key_class = 0

abbrev pub wallet_auth_module : ℕ
wallet_auth_module = 1

unfoldable pub application_key : Bytes → Bytes → Result WireError Bytes
application_key namespace user_key =
    if ltb (2 ^ 16 - 1) (length namespace)
    then err length_overflow
    else ok (application_key_class ∷ le_bytes 2 (length namespace) ++ namespace ++ user_key)

unfoldable pub runtime_internal_key : ℕ → Bytes → Bytes
runtime_internal_key module_id module_key = runtime_key_class ∷ module_id ∷ module_key

unfoldable pub wallet_nonce_key : Bytes → Bytes
unfolding runtime_internal_key
wallet_nonce_key account = runtime_internal_key wallet_auth_module account
